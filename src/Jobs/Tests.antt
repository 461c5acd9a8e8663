-- ===== src/Jobs/Tests.antt =====
-- Small runs of the job manager (orchestrator/internal/jobs/manager.go).
use emage_code_cwso.Prelude.{
  ◌≤◌, ◌≡◌, refl, true, false, none, some, List, [], ◌∷◌, length, All, Text, text, text_eq, arith,
}
use emage_code_cwso.Prelude.Int.{pos}
use emage_code_cwso.Prelude.Map.{lookup, insert, remove}
use emage_code_cwso.Prelude.Strings.{trim_space, to_lower, decimal}
use emage_code_cwso.Jobs.{
  queued, cancelled, queue_full, err, Request, Job, Record, Manager, new_manager, is_terminal,
  sensitive_hints, sanitize_error,
}
use emage_code_cwso.Jobs.Transitions.{
  canceled_text, publish_transition, publish_queued, store_record, job_id, cancelled_record,
}
use emage_code_cwso.Jobs.Ops
use emage_code_cwso.Jobs.Ops.{Event, enqueues, cancels, takes, closes, new_record, next_id}
use emage_code_cwso.Jobs.Invariant.{IsValid}
use emage_code_cwso.Jobs.Steps.{run-IsValid, new_manager-IsValid}
use emage_code_cwso.Jobs.Lifecycle.{Follows, step-Follows}
use emage_code_cwso.Jobs.Replies.{get-run_final}
use emage_code_cwso.Jobs.Redact.{IsAscii, Free, sanitize_error_safe}

abbrev one_slot : Manager
one_slot = new_manager (pos 1) (pos 1) true

abbrev build : Request
build = record { name = text "build"; timeout = pos 0; run = true; run_result = false }

abbrev first_id : Text
first_id = text "job-5-1"

abbrev enqueued : List Event
enqueued = enqueues build 5 ∷ []

abbrev waiting : Manager
waiting = Ops.run one_slot enqueued

abbrev first_job : Job
first_job = record {
  id = first_id;
  name = text "build";
  state = queued;
  error = [];
  result = [];
  created_at = 5;
  started_at = none;
  finished_at = none;
  timeout = 0;
}

abbrev first_record : Record
first_record = record { job = first_job; with_result = false; ctx = none }

waiting-IsValid : IsValid waiting
unfolding new_manager
waiting-IsValid =
    run-IsValid one_slot enqueued (omega arith) (new_manager-IsValid (pos 1) (pos 1) true)

run-IsValid_example : IsValid (Ops.run one_slot (enqueues build 5 ∷ takes 6 ∷ closes 7 ∷ []))
unfolding new_manager
run-IsValid_example =
    run-IsValid one_slot (enqueues build 5 ∷ takes 6 ∷ closes 7 ∷ []) (omega arith)
      (new_manager-IsValid (pos 1) (pos 1) true)

waiting_found : lookup first_id waiting.jobs ≡ some first_record
unfolding new_manager Ops.run Ops.step Ops.enqueue Ops.enqueue_error Ops.admit Ops.new_record
    Ops.next_id store_record publish_queued job_id decimal insert lookup
waiting_found = refl

waiting_seq : waiting.id_seq ≡ 1
unfolding new_manager Ops.run Ops.step Ops.enqueue Ops.enqueue_error Ops.admit Ops.new_record
    Ops.next_id store_record publish_queued job_id decimal insert lookup
waiting_seq = refl

step-Follows_example : Follows first_record (lookup first_id (Ops.step waiting (takes 6)).jobs)
step-Follows_example =
    step-Follows waiting (takes 6) first_id first_record (omega (arith, waiting_seq))
      waiting-IsValid waiting_found

abbrev cancelled_job : Job
cancelled_job = record first_job { state = cancelled; error = canceled_text; finished_at = some 7 }

cancelled_found : Ops.get (Ops.step waiting (cancels first_id 7)) first_id ≡ some cancelled_job
unfolding new_manager Ops.run Ops.step Ops.enqueue Ops.enqueue_error Ops.admit Ops.new_record
    Ops.next_id store_record publish_queued publish_transition job_id decimal insert lookup remove
    Ops.cancel Ops.cancel_found Ops.get is_terminal cancelled_record
cancelled_found = refl

cancelled_seq : (Ops.step waiting (cancels first_id 7)).id_seq ≡ 1
unfolding new_manager Ops.run Ops.step Ops.enqueue Ops.enqueue_error Ops.admit Ops.new_record
    Ops.next_id store_record publish_queued publish_transition job_id decimal insert lookup remove
    Ops.cancel Ops.cancel_found Ops.get is_terminal cancelled_record
cancelled_seq = refl

cancelled_IsValid : IsValid (Ops.step waiting (cancels first_id 7))
unfolding Ops.run
cancelled_IsValid =
    run-IsValid waiting (cancels first_id 7 ∷ []) (omega (arith, waiting_seq)) waiting-IsValid

get-run_final_example :
    Ops.get (Ops.run (Ops.step waiting (cancels first_id 7)) (takes 8 ∷ closes 9 ∷ [])) first_id
    ≡ some cancelled_job
unfolding is_terminal
get-run_final_example =
    get-run_final (Ops.step waiting (cancels first_id 7)) (takes 8 ∷ closes 9 ∷ []) first_id
      cancelled_job (omega (arith, cancelled_seq)) cancelled_IsValid refl cancelled_found

enqueue_full : (Ops.enqueue waiting build 6).1 ≡ err queue_full
unfolding new_manager Ops.run Ops.step Ops.enqueue Ops.enqueue_error Ops.admit Ops.new_record
    Ops.next_id store_record publish_queued publish_transition job_id decimal insert lookup remove
enqueue_full = refl

waiting_open : waiting.closed ≡ false
unfolding new_manager Ops.run Ops.step Ops.enqueue Ops.enqueue_error Ops.admit Ops.new_record
    Ops.next_id store_record publish_queued publish_transition job_id decimal insert lookup remove
waiting_open = refl

short-IsAscii : All IsAscii (trim_space (text " bad "))
unfolding trim_space
short-IsAscii = (omega arith, (omega arith, (omega arith, tt)))

sanitize_error_safe_example :
    (length (sanitize_error (text " bad ")) ≤ 259)
    × All (Free (to_lower (sanitize_error (text " bad ")))) sensitive_hints
sanitize_error_safe_example = sanitize_error_safe (text " bad ") short-IsAscii
