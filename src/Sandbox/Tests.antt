-- ===== src/Sandbox/Tests.antt =====
-- Small runs of the tier router (orchestrator/internal/sandbox/router.go).
use emage_code_cwso.Prelude.{◌≡◌, ◌≢◌, refl, ◌⊎◌, true, false, none, some, [], text}
use emage_code_cwso.Prelude.Int.{pos}
use emage_code_cwso.Sandbox.{
  Router, Runner, RunRequest, Route, ok, err, invalid_profile, no_result, docker_trusted,
  firecracker_secure, resolve, valid_profile, execute, run_on, resolve_docker_trusted,
}
use emage_code_cwso.Sandbox.Policy.{IsAllowed, resolve-IsAllowed, execute_docker}

abbrev idle : Runner
idle = record { name = text "idle"; execute = λ req. (no_result, none); health = none }

abbrev all_tiers : Router
all_tiers = record {
  docker = some idle;
  gvisor = idle;
  firecracker = some idle;
  degraded_mode = false;
  allow_docker_trusted = true;
}

abbrev request : RunRequest
request = record {
  name = text "t";
  image = [];
  command = [];
  env = [];
  working_dir = [];
  mount_workspace = false;
  workspace_dir = [];
  workspace_writable = false;
  root_fs_writable = false;
  timeout = pos 0;
  sandbox_profile = docker_trusted;
}

abbrev isolated : RunRequest
isolated = record request { sandbox_profile = firecracker_secure }

resolve-IsAllowed_example :
    ((route : Route) × (resolve all_tiers (text "root") ≡ ok route)
      × IsAllowed all_tiers (text "root") route
      × ((text "root" ≡ []) ⊎ (valid_profile (text "root") ≡ true)))
    ⊎ ((resolve all_tiers (text "root") ≡ err (invalid_profile (text "root")))
        × (valid_profile (text "root") ≡ false))
resolve-IsAllowed_example = resolve-IsAllowed all_tiers (text "root")

execute_docker_example :
    (docker_trusted ≡ docker_trusted) × (true ≡ true) × (all_tiers.docker ≢ none)
unfolding execute resolve resolve_docker_trusted run_on valid_profile
execute_docker_example = execute_docker all_tiers request refl
