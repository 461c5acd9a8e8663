-- ===== src/Lib.antt =====
-- Verification of the orchestrator of CWSO, the Go program under orchestrator/internal of this
-- repository. The orchestrator runs jobs on a bounded pool of workers, tells its clients of them over
-- an in-process bus, logs what happens in a bounded event log, routes sandboxed runs to an isolation
-- tier, keeps registries of hardware providers, of executor nodes and of sparse agents, chooses a
-- provider for a request, answers MCP clients, keeps the tasks of a trainer's rollout with their token
-- trajectories, and watches the writes of agents for bursts and for conflicts.
--
-- The parts and their files:
--   Prelude      Go strings as bytes with what is used of `strings`, `fmt` and `sort`; maps as
--                association lists; integers by sign; lists, tests and their lemmas.
--   Jobs         jobs/manager.go: types and the broadcast error text. Jobs/Transitions has the
--                transitions and notices, Jobs/Ops the methods (Enqueue, Cancel, Get, Close, Stats)
--                and the two halves of `runRecord` as steps; a list of events is an interleaving
--                of callers, workers and timers.
--   Stream       the bounded subscriber of eventbus/bus.go and memorybroker/broker.go with its pump.
--   EventBus     eventbus/bus.go: Publish, Subscribe, Close over a map of streams.
--   Json         the trees that `encoding/json` decodes, and their encoding.
--   Broker       memorybroker/broker.go: records, redaction, the ring. Broker/Ingress has Ingest, the
--                loop of `run`, Query, Subscribe and Close.
--   Sandbox      sandbox/router.go and sandbox/runner.go: tier routing and request checks.
--   Tools        tools/registry.go; Tools/Paths is the path check of tools/fs_tools.go.
--   Mcp          mcp/protocol.go: requests, responses, codes. Mcp/Server is `Handle` of
--                server/server.go with the tool calls, Mcp/Resources the resource handlers.
--   Trajectory   rollout/types.go, rollout/trajectory.go, rollout/trajectory_builder.go:
--                Trajectory/Build has the entry points, Trajectory/Check the validation.
--   Capability   dispatch/capability_registry.go.
--   Dispatch     dispatch/policy_engine_v2.go: Dispatch/Score has eligibility and scores,
--                Dispatch/Assist the assists, Dispatch/Select the decisions; float64 is the parameter
--                `Floats`.
--   Agents       dispatch/sparse_agents.go: the registry of sparse agents and their addresses.
--   Nodes        rollout/node_registry.go; Nodes/Active has the nodes that tasks are assigned to.
--   Evaluators   rollout/evaluator_registry.go: the plugins that score a session.
--   Tasks        rollout/service.go, and what gateway_session.go does to a task: the types.
--                Tasks/Ids has the ids, Tasks/Ops SubmitTask and GenerateOfflineTask (its loop
--                in Tasks/Ops/Builds), Tasks/Outcome CompleteSession and ApplySessionOutcome,
--                Tasks/Views GetTask and FleetStatus, Tasks/Fleet the nodes and the reaper;
--                Tasks/Steps runs them in any order.
--   Spikes       dispatch/signal_path.go, the redaction modes of dispatch/telemetry.go and the kinds
--                of writes. Spikes/Volume is dispatch/ast_spike_monitor.go, Spikes/Filter with
--                Spikes/Filter/Observe is dispatch/ast_spike_filter.go, Spikes/Subscriptions is
--                dispatch/spike_subscriptions.go.
-- The job manager publishes its notices through the event log to the bus; each end of that chain is
-- a module of its own, and the text that passes between them is a value. The rollout service works on
-- the models of the node registry, the evaluators and the trajectory groups, and the MCP server on
-- those of the tools, the subscriptions, the sparse agents and the event log.
--
-- State is passed explicitly: an operation takes the state and returns the new one beside its
-- result. A method that holds a lock is one step; where the code lets another call in between two
-- steps, the steps are apart, but for `Enqueue` of the job manager: it is one step, with its part
-- behind the check of `closed` as a function of its own, `admit`. A worker that leaves on the
-- cancelled context is one that takes no further job. The clock is an argument, in nanoseconds since
-- the year 1, and job ids print it as it is counted. An unsigned
-- counter wraps at 2^64 as in the source; theorems that rest on an id being new assume fewer than
-- 2^64 steps. Loops are structural, or on fuel that is the length of the text they consume. Where a
-- float64 is only copied it is its bit pattern; the policy engine takes its arithmetic as a
-- parameter, and so it does the score plugin. The rollout service takes the decoding of JSON, the
-- printing and adding of floats, the random bytes, the trajectory client and the prefix router as
-- parameters, and each call of the client is one answer; the spikes take the eBPF checker,
-- `path.Match`, the reading and printing of times, the decoding of a payload and the publisher. The
-- server takes what `encoding/json` reads and writes as the parameter `Codec`, a tool is a function
-- on the state that the handlers read, and what `filepath.EvalSymlinks` answers is asked call by call.
--
-- Letters beyond ASCII are compared without folding their case; the difference of two times, and a
-- window or debounce time that is set, are taken to fit a `time.Duration`.
--
-- Not modelled: the transports, the configuration, the container runners, the tools with their file
-- and process I/O, the wiring in server/server.go, the rollout gateway with its worker pools, the
-- prefix router, the statistics and the anomalies of the dispatcher, and the Rust services, which are
-- programs of their own. A goroutine that is blocked, and the wait in `Close` for the workers, have
-- no counterpart.
pub mod Prelude
pub mod Jobs
pub mod Stream
pub mod EventBus
pub mod Json
pub mod Mcp
pub mod Broker
pub mod Sandbox
pub mod Trajectory
pub mod Capability
pub mod Nodes
pub mod Evaluators
pub mod Tasks
pub mod Tools
pub mod Spikes
pub mod Agents
pub mod Dispatch
