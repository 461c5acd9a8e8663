-- ===== src/Trajectory/Check.antt =====
-- `ValidateTrajectoryGroup` of orchestrator/internal/rollout/trajectory.go.
use emage_code_cwso.Prelude.{
  ℕ, ◌+◌, not, ◌&&◌, Option, none, some, List, [], ◌∷◌, ◌++◌, length, take, if◌then◌else◌, ltb,
  ◌==◌, nat_eq, text_eq,
}
use emage_code_cwso.Trajectory.{Step, Chain, TrajectoryGroup, suffix_of, token_ids_equal}

-- The errors, with the indices that they print.
pub data GroupError : Type 0 where
  session_id_required : GroupError
  chain_id_required : ℕ → GroupError
  loss_mask_length : ℕ → ℕ → GroupError
  loss_mask_value : ℕ → ℕ → ℕ → ℕ → GroupError
  non_appendable : ℕ → ℕ → GroupError

-- The first entry of a mask that is neither 0 nor 1, with its index.
unfoldable pub bad_mask : ℕ → List ℕ → Option (ℕ × ℕ)
bad_mask i [] = none
bad_mask i (m ∷ ms) =
    let rest = bad_mask (i + 1) ms in if not (m == 0) && not (m == 1) then some (i, m) else rest

-- `chainSuffixPrefix`
abbrev pub chain_suffix_prefix : Chain → ℕ → List ℕ
chain_suffix_prefix c step_index = suffix_of c.prefix_token_ids (take step_index c.steps)

-- The tests on one step.
unfoldable pub check_step : Chain → ℕ → ℕ → List ℕ → Step → Option GroupError
check_step c ci si cursor s =
    if not (length s.loss_mask == length s.token_ids)
    then some (loss_mask_length ci si)
    else elim (bad_mask 0 s.loss_mask) [
      | some (i, m) ↦ some (loss_mask_value ci si i m)
      | none ↦
          if ltb 0 si && not (token_ids_equal cursor (chain_suffix_prefix c si))
          then some (non_appendable ci si)
          else none
    ]

-- The loop over the steps of a chain, from index `si` on.
unfoldable pub check_steps : Chain → ℕ → ℕ → List ℕ → List Step → Option GroupError
check_steps c ci si cursor [] = none
check_steps c ci si cursor (s ∷ ss) =
    let rest = check_steps c ci (si + 1) (cursor ++ s.token_ids) ss in
    elim (check_step c ci si cursor s) [ some e ↦ some e | none ↦ rest ]

-- The loop over the chains, from index `ci` on.
unfoldable pub check_chains : ℕ → List Chain → Option GroupError
check_chains ci [] = none
check_chains ci (c ∷ cs) =
    let rest = check_chains (ci + 1) cs in
    if c.chain_id == []
    then some (chain_id_required ci)
    else elim (check_steps c ci 0 c.prefix_token_ids c.steps) [ some e ↦ some e | none ↦ rest ]

-- `ValidateTrajectoryGroup`
unfoldable pub validate_trajectory_group : TrajectoryGroup → Option GroupError
validate_trajectory_group g =
    if g.session_id == [] then some session_id_required else check_chains 0 g.chains
