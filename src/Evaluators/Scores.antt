-- ===== src/Evaluators/Scores.antt =====
-- What evaluations add to a trajectory group, `ApplyEvaluations` of
-- orchestrator/internal/rollout/evaluator_registry.go.
use emage_code_cwso.Prelude.{
  ℕ, ◌≡◌, ◌≢◌, refl, sym, ap, ap₂, ◌∙◌, ◌⊎◌, inl, inr, Bool, true, false, any, count_if, ◌&&◌,
  Bool-cases, Option-cases, Option, none, some, List, [], ◌∷◌, ◌++◌, map, append-nil, append_assoc,
  All, All-select, select, Text, arith,
}
use emage_code_cwso.Prelude.Map.{Map}
use emage_code_cwso.Prelude.Sort.{
  IsSorted, sort_by-IsSorted, sort_by-count, select-count, All-sort_by,
}
use emage_code_cwso.Trajectory.{TrajectoryGroup}
use emage_code_cwso.Evaluators.{
  EvalRequest, EvalResult, Plugin, Registry, values, running_plugins, named_result, evaluate_all,
  evaluate, attach_result, attach_evaluations, apply_evaluations,
}

-- The reward of an evaluation that did not fail.
abbrev pub reward_of : Option EvalResult → ℕ
reward_of none = 0
reward_of (some result) = result.reward

abbrev is_none : Option EvalResult → Bool
is_none none = true
is_none (some result) = false

-- The group has the scores of the plugins, each of which answered, behind its own.
pub record IsScored (req : EvalRequest) (plugins : List Plugin) (group : TrajectoryGroup)
    : Type 0 where
  pub answered : All (λ (p : Plugin). p.evaluate req ≢ none) plugins
  pub rewards :
      group.rewards ≡ req.group.rewards ++ map (λ (p : Plugin). reward_of (p.evaluate req)) plugins
  pub chains : group.chains ≡ req.group.chains
  pub session_id : group.session_id ≡ req.group.session_id

module _ (format_g : ℕ → Text) where
  attach_evaluations_lem :
      (group : TrajectoryGroup) (results : List EvalResult)
      → ((attach_evaluations format_g group results).rewards
          ≡ group.rewards ++ map (λ (x : EvalResult). x.reward) results)
        × ((attach_evaluations format_g group results).chains ≡ group.chains)
        × ((attach_evaluations format_g group results).session_id ≡ group.session_id)
  unfolding attach_evaluations attach_result
  attach_evaluations_lem group [] = (sym (append-nil group.rewards), refl, refl)
  attach_evaluations_lem group (x ∷ results) =
      let next = attach_result format_g group x in
      let (rewards, chains, session) = attach_evaluations_lem next results in
      (
        rewards
            ∙ append_assoc group.rewards (x.reward ∷ [])
                (map (λ (x : EvalResult). x.reward) results),
        chains,
        session,
      )

rewards_named : (p : Plugin) (x : EvalResult) → (named_result p x).reward ≡ x.reward
unfolding named_result
rewards_named p x = ground arith

abbrev results_of : Option (List EvalResult) → List EvalResult
results_of none = []
results_of (some results) = results

some-ne-none :
    (f : EvalRequest → Option EvalResult) (req : EvalRequest) (x : EvalResult)
    → f req ≡ some x
    → f req ≢ none
some-ne-none f req x e n = cc

-- Whether one of the plugins fails on a request.
abbrev pub fails_on : EvalRequest → List Plugin → Bool
fails_on req plugins = any (λ (p : Plugin). is_none (p.evaluate req)) plugins

evaluate_all_lem :
    (req : EvalRequest) (plugins : List Plugin)
    → ((fails_on req plugins ≡ true) × (evaluate_all req plugins ≡ none))
      ⊎ ((results : List EvalResult) × (evaluate_all req plugins ≡ some results)
          × All (λ (p : Plugin). p.evaluate req ≢ none) plugins
          × (map (λ (x : EvalResult). x.reward) results
              ≡ map (λ (p : Plugin). reward_of (p.evaluate req)) plugins))
unfolding evaluate_all
evaluate_all_lem req [] = inr ([], refl, tt, refl)
evaluate_all_lem req (p ∷ plugins) = elim (Option-cases (p.evaluate req)) [
  | inl failed ↦ inl (rw failed refl, rw (evaluate_all, failed) refl)
  | inr (x, there) ↦ elim (evaluate_all_lem req plugins) [
    | inl (fails, failed) ↦ inl (rw (there, fails) refl, rw (evaluate_all, there, failed) refl)
    | inr (results, done, answered, rewards) ↦ inr (
      named_result p x ∷ results,
      rw (evaluate_all, there, done) refl,
      (some-ne-none p.evaluate req x there, answered),
      ap₂ ◌∷◌ (rewards_named p x ∙ ap reward_of (sym there)) rewards,
    )
  ]
]

-- The plugins of a registry that are enabled, each as often as it is registered, in the order of
-- their ids.
pub record AreEnabled (r : Registry) (plugins : List Plugin) : Type 0 where
  pub sorted : IsSorted (λ (p : Plugin). p.id) plugins
  pub all_enabled : All (λ (p : Plugin). p.enabled ≡ true) plugins
  pub complete :
      (test : Plugin → Bool)
      → count_if test plugins ≡ count_if (λ (e : Text × Plugin). e.1.enabled && test e.1) r.plugins

count-values :
    (test : Plugin → Bool) (m : Map Text Plugin)
    → count_if test (values m) ≡ count_if (λ (e : Text × Plugin). test e.1) m
count-values test [] = refl
count-values test ((id, p) ∷ m) = ground (arith, count-values test m)

running_plugins-AreEnabled : (r : Registry) → AreEnabled r (running_plugins r)
unfolding running_plugins
running_plugins-AreEnabled r =
    let key : Plugin → Text = λ p. p.id in
    let all = values r.plugins in
    let live = select (λ (p : Plugin). p.enabled) all in
    record {
      sorted = sort_by-IsSorted key live;
      all_enabled =
          All-sort_by (λ (p : Plugin). p.enabled ≡ true) key live
            (All-select (λ (p : Plugin). p.enabled) all);
      complete = λ test.
          sort_by-count key test live
          ∙ select-count test (λ (p : Plugin). p.enabled) all
          ∙ count-values (λ p. p.enabled && test p) r.plugins;
    }

-- What applying the evaluations of the plugins makes of a group: it stays where the registry is off
-- or a plugin fails; else it has the scores of all of them.
abbrev pub IsEvaluated : Registry → EvalRequest → List Plugin → TrajectoryGroup → Type 0
IsEvaluated r req plugins group =
    ((r.enabled ≡ false) × (group ≡ req.group))
    ⊎ ((r.enabled ≡ true) × (fails_on req plugins ≡ true) × (group ≡ req.group))
    ⊎ ((r.enabled ≡ true) × IsScored req plugins group)

-- The plugins of a registry that are enabled, all of them and no others, run in the order of their
-- ids. Where the registry is off, or one of them fails, the group stays as it was; else the reward
-- of each is put behind the rewards of the group, in that order, and the chains and the session id
-- stay.
pub apply_evaluations_lem :
    (format_g : ℕ → Text) (r : Registry) (req : EvalRequest)
    → (plugins : List Plugin) × AreEnabled r plugins
      × IsEvaluated r req plugins (apply_evaluations format_g r req)
unfolding apply_evaluations evaluate attach_evaluations
apply_evaluations_lem format_g r req = (
  running_plugins r,
  running_plugins-AreEnabled r,
  elim (Bool-cases r.enabled) [
    | inr off ↦ inl (off, simp (apply_evaluations, evaluate, off) refl)
    | inl on ↦ elim (evaluate_all_lem req (running_plugins r)) [
      | inl (fails, failed) ↦
          inr (inl (on, fails, simp (apply_evaluations, evaluate, on, failed) refl))
      | inr (results, done, answered, rewards) ↦
          let (scores, chains, session) = attach_evaluations_lem format_g req.group results in
          inr (
            inr (
              on,
              simp (apply_evaluations, evaluate, on, done)
                  (record {
                    answered = answered;
                    rewards = scores ∙ ap (λ l. req.group.rewards ++ l) rewards;
                    chains = chains;
                    session_id = session;
                  }),
            ))
    ]
  ],
)
