-- ===== src/Broker/Ingress.antt =====
-- The way into and out of the event log: `Ingest`, `run`, `Query`, `Subscribe` and `Close` of
-- orchestrator/internal/memorybroker/broker.go.
use emage_code_cwso.Prelude.{
  ℕ, zero, suc, ◌+◌, ◌-◌, ◌%◌, ◌^◌, Bool, true, false, not, ◌||◌, ◌&&◌, Option, none, some, List,
  [], ◌∷◌, ◌++◌, length, drop, get_or, Text, if◌then◌else◌, ltb, ◌==◌, nat_eq, text_eq,
}
use emage_code_cwso.Prelude.Int.{ℤ, pos, negsuc}
use emage_code_cwso.Prelude.Map.{insert, remove}
use emage_code_cwso.Prelude.Members.{mem}
use emage_code_cwso.Prelude.Strings.{trim_space}
use emage_code_cwso.Stream
use emage_code_cwso.Stream.{Subscriber}
use emage_code_cwso.Broker.{Broker, Record, no_record, Payload, Pending, append_event}

-- `Ingest`
unfoldable pub ingest : Broker → Text → Payload → ℕ → Broker × Bool
ingest b topic payload now =
    let e : Pending = record { topic = topic; payload = payload; at = now } in
    if trim_space topic == []
    then (b, false)
    else if b.closed
    then (b, false)
    else if ltb (length b.ingest_ch) b.ingest_cap
    then (record b { ingest_ch = b.ingest_ch ++ e ∷ [] }, true)
    else (record b { dropped_ingress = (b.dropped_ingress + 1) % 2 ^ 64 }, false)

-- `run`: one round of the loop that moves events from the channel into the log.
unfoldable pub take_event : Broker → List Pending → Broker
take_event b [] = b
take_event b (e ∷ es) = append_event (record b { ingest_ch = es }) e

unfoldable pub drain_one : Broker → Broker
drain_one b = take_event b b.ingest_ch

-- `Subscribe`; a closed broker gives a stream that is closed already, and no id.
unfoldable pub subscribe : Broker → Broker × Option ℕ
subscribe b =
    let id = (b.next_sub_id + 1) % 2 ^ 64 in
    if b.closed then (b, none) else (
      record b {
        next_sub_id = id;
        subs = insert id (Stream.new_subscriber id b.queue_depth b.queue_bytes) b.subs;
      },
      some id,
    )

-- `Subscription.Close`
unfoldable pub unsubscribe : Broker → ℕ → Broker
unsubscribe b id = record b { subs = remove id b.subs }

-- `Close`, with `closeSubscribers`
unfoldable pub close : Broker → Broker
close b = if b.closed then b else record b { closed = true; subs = [] }

-- What producers, the loop of `run` and consumers do; a list of events is an interleaving.
pub data Event : Type 0 where
  ingests : Text → Payload → ℕ → Event
  drains : Event
  subscribes : Event
  unsubscribes : ℕ → Event
  closes : Event

unfoldable pub step : Broker → Event → Broker
step b (ingests topic payload now) = (ingest b topic payload now).0
step b drains = drain_one b
step b subscribes = (subscribe b).0
step b (unsubscribes id) = unsubscribe b id
step b closes = close b

unfoldable pub run : Broker → List Event → Broker
run b [] = b
run b (e ∷ es) = run (step b e) es

-- `QueryOptions`
pub record QueryOptions : Type 0 where
  pub topics : List Text
  pub job_id : Text
  pub since : ℕ
  pub window : ℤ
  pub limit : ℤ

-- The set of topics that are asked for.
unfoldable pub topic_set : List Text → List Text
topic_set [] = []
topic_set (t ∷ ts) =
    let rest = topic_set ts in if trim_space t == [] then rest else trim_space t ∷ rest

-- The time before which records are left out, 0 for none. A window that reaches back before the
-- zero time leaves nothing out either.
unfoldable pub cutoff : QueryOptions → ℕ → ℕ
cutoff opts now = elim opts.window [
  | pos w ↦ if ltb 0 w && (opts.since == 0 || ltb opts.since (now - w)) then now - w else opts.since
  | negsuc w ↦ opts.since
]

-- The tests of the loop in `Query`.
unfoldable pub matches : QueryOptions → ℕ → Record → Bool
matches opts now r =
    let topics = topic_set opts.topics in
    let cut = cutoff opts now in
    (length topics == 0 || mem r.topic topics)
    && (opts.job_id == [] || r.job_id == opts.job_id)
    && (cut == 0 || not (ltb r.at cut))

-- The loop of `Query` over `n` indices from `i` on.
unfoldable pub scan : Broker → (Record → Bool) → ℕ → ℕ → List Record
scan b keep i zero = []
scan b keep i (suc n) =
    let r = get_or b.records ((b.head + i) % b.capacity) no_record in
    let rest = scan b keep (i + 1) n in if keep r then r ∷ rest else rest

-- The newest `limit` of the results, all where the limit is not positive.
unfoldable pub limited : ℤ → List Record → List Record
limited (pos zero) out = out
limited (pos (suc n)) out = drop (length out - suc n) out
limited (negsuc n) out = out

-- `Query`
unfoldable pub query : Broker → QueryOptions → ℕ → List Record
query b opts now =
    if b.count == 0 then [] else limited opts.limit (scan b (matches opts now) 0 b.count)
