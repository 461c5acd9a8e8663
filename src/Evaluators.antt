-- ===== src/Evaluators.antt =====
-- The registry of evaluators that score a finished session,
-- orchestrator/internal/rollout/evaluator_registry.go. A plugin is dispatched dynamically and stands
-- as a record of its methods; a float64 is its bit pattern, and its printing by `%g` is a parameter. The proofs are in the modules below.
pub mod Scores
mod Tests
use emage_code_cwso.Prelude.{
  ℕ, Bool, true, false, Option, none, some, List, [], ◌∷◌, ◌++◌, select, Text, text, if◌then◌else◌,
  ◌==◌, text_eq,
}
use emage_code_cwso.Prelude.Int.{ℤ}
use emage_code_cwso.Prelude.Map.{Map, lookup, insert}
use emage_code_cwso.Prelude.Sort.{sort_by}
use emage_code_cwso.Trajectory.{TrajectoryGroup}

-- `TaskSpec`
pub record TaskSpec : Type 0 where
  pub description : Text
  pub workspace_id : Text
  pub max_steps : ℤ

-- `EvalRequest`
pub record EvalRequest : Type 0 where
  pub task_id : Text
  pub session_id : Text
  pub spec : TaskSpec
  pub group : TrajectoryGroup
  pub timed_out : Bool

-- `EvalResult`
pub record EvalResult : Type 0 where
  pub evaluator_id : Text
  pub reward : ℕ
  pub metadata : Map Text Text

-- `Plugin`; an evaluation that fails is none.
pub record Plugin : Type 0 where
  pub id : Text
  pub enabled : Bool
  pub evaluate : EvalRequest → Option EvalResult

-- `Registry`
pub record Registry : Type 0 where
  pub enabled : Bool
  pub plugins : Map Text Plugin

pub data RegisterError : Type 0 where
  id_required : RegisterError
  already_registered : Text → RegisterError

-- `Register`
unfoldable pub register : Registry → Plugin → Registry × Option RegisterError
register r plugin =
    if plugin.id == [] then (r, some id_required) else elim (lookup plugin.id r.plugins) [
      | some old ↦ (r, some (already_registered plugin.id))
      | none ↦ (record r { plugins = insert plugin.id plugin r.plugins }, none)
    ]

abbrev pub values : Map Text Plugin → List Plugin
values [] = []
values ((k, p) ∷ m) = p ∷ values m

-- The plugins that `Evaluate` runs, in the order of their ids.
unfoldable pub running_plugins : Registry → List Plugin
running_plugins r =
    sort_by (λ (p : Plugin). p.id) (select (λ (p : Plugin). p.enabled) (values r.plugins))

unfoldable pub named_result : Plugin → EvalResult → EvalResult
named_result plugin result =
    if result.evaluator_id == [] then record result { evaluator_id = plugin.id } else result

-- The loop of `Evaluate`; none is an error of a plugin, at which the loop returns.
unfoldable pub evaluate_all : EvalRequest → List Plugin → Option (List EvalResult)
evaluate_all req [] = some []
evaluate_all req (plugin ∷ rest) = elim (plugin.evaluate req) [
  | none ↦ none
  | some result ↦ elim (evaluate_all req rest) [
    | none ↦ none
    | some results ↦ some (named_result plugin result ∷ results)
  ]
]

-- `Evaluate`
unfoldable pub evaluate : Registry → EvalRequest → Option (List EvalResult)
evaluate r req = if r.enabled then evaluate_all req (running_plugins r) else some []

unfoldable pub insert_all : Text → Map Text Text → Map Text Text → Map Text Text
insert_all start [] m = m
insert_all start ((key, value) ∷ more) m =
    insert_all start more (insert (start ++ (b'.' ∷ key)) value m)

module _ (format_g : ℕ → Text) where
  -- The body of the loop of `AttachEvaluations`.
  unfoldable pub attach_result : TrajectoryGroup → EvalResult → TrajectoryGroup
  attach_result group result =
      let start = text "evaluator." ++ result.evaluator_id in
      record group {
        rewards = group.rewards ++ result.reward ∷ [];
        metadata =
            insert_all start result.metadata
              (insert (start ++ text ".reward") (format_g result.reward) group.metadata);
      }

  -- `AttachEvaluations`
  unfoldable pub attach_evaluations : TrajectoryGroup → List EvalResult → TrajectoryGroup
  attach_evaluations group [] = group
  attach_evaluations group (result ∷ results) =
      attach_evaluations (attach_result group result) results

  -- `ApplyEvaluations`, on a group that is there: the group it leaves behind.
  unfoldable pub apply_evaluations : Registry → EvalRequest → TrajectoryGroup
  apply_evaluations r req = elim (evaluate r req) [
    | none ↦ req.group
    | some results ↦ attach_evaluations req.group results
  ]
