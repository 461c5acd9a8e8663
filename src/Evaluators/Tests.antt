-- ===== src/Evaluators/Tests.antt =====
-- Small runs of the evaluator registry (orchestrator/internal/rollout/evaluator_registry.go).
use emage_code_cwso.Prelude.{ℕ, ◌≡◌, refl, true, false, some, List, [], ◌∷◌, Text, text}
use emage_code_cwso.Prelude.Int.{pos}
use emage_code_cwso.Prelude.Map.{lookup, insert}
use emage_code_cwso.Prelude.Sort.{sort_by, insert_by}
use emage_code_cwso.Prelude.Strings.{text_ltb}
use emage_code_cwso.Evaluators.{
  EvalRequest, Plugin, Registry, register, running_plugins, evaluate, evaluate_all,
  apply_evaluations, attach_evaluations, attach_result, insert_all, named_result,
  already_registered,
}
use emage_code_cwso.Evaluators.Scores.{AreEnabled, IsEvaluated, apply_evaluations_lem}

abbrev scoring : Text → ℕ → Plugin
scoring id reward = record {
  id = id;
  enabled = true;
  evaluate = λ req. some (record { evaluator_id = []; reward = reward; metadata = [] });
}

abbrev two_plugins : Registry
two_plugins =
    (register (register (record { enabled = true; plugins = [] }) (scoring (text "swe-bench") 7)).0
      (scoring (text "session-reward") 5)).0

abbrev request : EvalRequest
request = record {
  task_id = text "t";
  session_id = text "s";
  spec = record { description = text "d"; workspace_id = text "w"; max_steps = pos 1 };
  group = record { session_id = text "s"; chains = []; rewards = 1 ∷ []; metadata = [] };
  timed_out = false;
}

scores : (apply_evaluations (λ n. []) two_plugins request).rewards ≡ 1 ∷ 5 ∷ 7 ∷ []
unfolding apply_evaluations evaluate evaluate_all running_plugins register insert lookup sort_by
    insert_by text_ltb attach_evaluations attach_result insert_all named_result
scores = refl

registered_once :
    (register two_plugins (scoring (text "swe-bench") 1)).1
    ≡ some (already_registered (text "swe-bench"))
unfolding register insert lookup
registered_once = refl

apply_evaluations_lem_example :
    (plugins : List Plugin) × AreEnabled two_plugins plugins
    × IsEvaluated two_plugins request plugins (apply_evaluations (λ n. []) two_plugins request)
apply_evaluations_lem_example = apply_evaluations_lem (λ n. []) two_plugins request
