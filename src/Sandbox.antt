-- ===== src/Sandbox.antt =====
-- The sandbox tier router, orchestrator/internal/sandbox/router.go, and the checks on a run request,
-- orchestrator/internal/sandbox/runner.go. A backend is a function of the request: what it would
-- answer at that moment. The proofs are in the modules below.
pub mod Policy
mod Tests
use emage_code_cwso.Prelude.{
  ℕ, Bool, true, false, not, ◌&&◌, Option, none, some, List, [], ◌∷◌, Text, text, if◌then◌else◌,
  ◌==◌, text_eq,
}
use emage_code_cwso.Prelude.Int.{ℤ, is_neg}
use emage_code_cwso.Prelude.Map.{Map}
use emage_code_cwso.Prelude.Strings.{trim_space}

abbrev pub docker_trusted : Text
docker_trusted = text "docker-trusted"

abbrev pub gvisor_fast_ephemeral : Text
gvisor_fast_ephemeral = text "gvisor-fast-ephemeral"

abbrev pub firecracker_secure : Text
firecracker_secure = text "firecracker-secure-isolation"

-- The routing reason codes, and no reason.
pub data Reason : Type 0 where
  no_reason : Reason
  policy_default policy_requested override_non_escalation : Reason
  override_fallback degraded_fallback : Reason

-- `RunRequest`
pub record RunRequest : Type 0 where
  pub name : Text
  pub image : Text
  pub command : List Text
  pub env : Map Text Text
  pub working_dir : Text
  pub mount_workspace : Bool
  pub workspace_dir : Text
  pub workspace_writable : Bool
  pub root_fs_writable : Bool
  pub timeout : ℤ
  pub sandbox_profile : Text

-- `RunResult`
pub record RunResult : Type 0 where
  pub container_id : Text
  pub exit_code : ℤ
  pub stdout : Text
  pub stderr : Text
  pub started_at : ℕ
  pub finished_at : ℕ
  pub cancelled : Bool
  pub timed_out : Bool
  pub resource_exceeded : Bool
  pub failure_reason : Text
  pub sandbox_tier : Text
  pub routing_reason : Reason

abbrev pub no_result : RunResult
no_result = record {
  container_id = [];
  exit_code = ℤ.pos 0;
  stdout = [];
  stderr = [];
  started_at = 0;
  finished_at = 0;
  cancelled = false;
  timed_out = false;
  resource_exceeded = false;
  failure_reason = [];
  sandbox_tier = [];
  routing_reason = Reason.no_reason;
}

-- The error texts of `RunRequest.Validate`.
pub data InvalidRequest : Type 0 where
  name_required writable_needs_mount dir_required negative_timeout : InvalidRequest

-- `RunRequest.Validate`
unfoldable pub validate : RunRequest → Option InvalidRequest
validate r =
    if trim_space r.name == []
    then some name_required
    else if r.workspace_writable && not r.mount_workspace
    then some writable_needs_mount
    else if r.mount_workspace && trim_space r.workspace_dir == []
    then some dir_required
    else if is_neg r.timeout
    then some negative_timeout
    else none

-- An error of the router, or one that a backend returned.
pub data RouterError : Type 0 where
  invalid_profile : Text → RouterError
  gvisor_required : RouterError
  backend : Text → RouterError
  unhealthy : Text → Text → RouterError

-- `RunnerInterface`; an error is its text.
pub record Runner : Type 0 where
  pub name : Text
  pub execute : RunRequest → RunResult × Option Text
  pub health : Option Text

-- `TierRouterConfig` as it is handed in.
pub record Config : Type 0 where
  pub docker : Option Runner
  pub gvisor : Option Runner
  pub firecracker : Option Runner
  pub degraded_mode : Bool
  pub allow_docker_trusted : Bool

-- `TierRouter`, whose gVisor runner is there.
pub record Router : Type 0 where
  pub docker : Option Runner
  pub gvisor : Runner
  pub firecracker : Option Runner
  pub degraded_mode : Bool
  pub allow_docker_trusted : Bool

pub data Result {ℓ} (A : Type ℓ) : Type ℓ where
  ok : A → Result A
  err : RouterError → Result A

-- `NewTierRouter`
unfoldable pub new_tier_router : Config → Result Router
new_tier_router cfg = elim cfg.gvisor [
  | none ↦ err gvisor_required
  | some g ↦ ok (record {
    docker = cfg.docker;
    gvisor = g;
    firecracker = cfg.firecracker;
    degraded_mode = cfg.degraded_mode;
    allow_docker_trusted = cfg.allow_docker_trusted;
  })
]

-- What `resolve` returns.
pub record Route : Type 0 where
  pub runner : Runner
  pub tier : Text
  pub reason : Reason

abbrev pub to_gvisor : Router → Reason → Route
to_gvisor r why = record { runner = r.gvisor; tier = gvisor_fast_ephemeral; reason = why }

-- `resolveDockerTrusted`
unfoldable pub resolve_docker_trusted : Router → Route
resolve_docker_trusted r =
    let fallback = to_gvisor r override_fallback in
    if not r.allow_docker_trusted then to_gvisor r override_non_escalation else elim r.docker [
      | none ↦ fallback
      | some d ↦ record { runner = d; tier = docker_trusted; reason = policy_requested }
    ]

-- `resolveFirecracker`
unfoldable pub resolve_firecracker : Router → Route
resolve_firecracker r = elim r.firecracker [
  | none ↦ to_gvisor r degraded_fallback
  | some f ↦
      if r.degraded_mode
      then to_gvisor r degraded_fallback
      else record { runner = f; tier = firecracker_secure; reason = policy_requested }
]

-- `ValidSandboxProfiles[p]`
unfoldable pub valid_profile : Text → Bool
valid_profile p =
    if p == docker_trusted
    then true
    else if p == gvisor_fast_ephemeral
    then true
    else p == firecracker_secure

-- `resolve`
unfoldable pub resolve : Router → Text → Result Route
unfolding valid_profile
resolve r requested =
    if requested == []
    then ok (to_gvisor r policy_default)
    else if not (valid_profile requested)
    then err (invalid_profile requested)
    else if requested == docker_trusted
    then ok (resolve_docker_trusted r)
    else if requested == gvisor_fast_ephemeral
    then ok (to_gvisor r policy_requested)
    else if requested == firecracker_secure
    then ok (resolve_firecracker r)
    else err (invalid_profile requested)

-- What `Execute` does once a route is found.
unfoldable pub run_on : Route → RunRequest → RunResult × Option RouterError
run_on route req =
    let (result, failed) = route.runner.execute (record req { sandbox_profile = route.tier }) in
    (
      record result { sandbox_tier = route.tier; routing_reason = route.reason },
      elim failed [ none ↦ none | some e ↦ some (backend e) ],
    )

-- `Execute`
unfoldable pub execute : Router → RunRequest → RunResult × Option RouterError
execute r req = elim (resolve r req.sandbox_profile) [
  | err e ↦ (no_result, some e)
  | ok route ↦ run_on route req
]

-- `Health`
unfoldable pub health_of : List (Option Runner) → Option RouterError
health_of [] = none
health_of (none ∷ rs) = health_of rs
health_of (some r ∷ rs) =
    let rest = health_of rs in elim r.health [ none ↦ rest | some e ↦ some (unhealthy r.name e) ]

unfoldable pub health : Router → Option RouterError
unfolding health_of
health r = health_of (r.docker ∷ some r.gvisor ∷ r.firecracker ∷ [])
