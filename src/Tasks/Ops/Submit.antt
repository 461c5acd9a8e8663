-- ===== src/Tasks/Ops/Submit.antt =====
-- What an accepted request starts, `SubmitTask` of orchestrator/internal/rollout/service.go.
use emage_code_cwso.Prelude.{◌≤◌, ◌≡◌, Bool, true, List, [], length, All, nat_eq, text_eq}
use emage_code_cwso.Tasks.{running, SessionStart, SubmitResponse, SubmitRequest, sample_count}
use emage_code_cwso.Tasks.Views.{TaskStatusResponse}

-- What `GetTask` shows, and the gateway is to start, once a request is accepted.
pub record IsStarted (req : SubmitRequest) (resp : SubmitResponse) (starts : List SessionStart)
    (gateway : Bool) (shown : TaskStatusResponse) : Type 0 where
  pub runs : shown.status ≡ running
  pub same_sessions : shown.session_ids ≡ resp.session_ids
  pub none_ended : shown.sessions_completed ≡ 0
  pub no_error : shown.error ≡ []
  pub nothing_built : shown.trajectories ≡ []
  pub started : gateway ≡ true → length starts ≡ sample_count req.num_samples
  pub of_task : All (λ (x : SessionStart). x.task_id ≡ resp.task_id) starts
  pub within : sample_count req.num_samples ≤ 32
