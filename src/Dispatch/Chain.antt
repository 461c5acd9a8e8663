-- ===== src/Dispatch/Chain.antt =====
-- What a decision of the policy engine promises, `Select` and `FallbackOnFailure` of
-- orchestrator/internal/dispatch/policy_engine_v2.go.
use emage_code_cwso.Prelude.{
  ℕ, ◌≤◌, ◌≡◌, refl, sym, ap, ◌∙◌, ◌⊎◌, inl, inr, true, false, not, ◌&&◌, ◌||◌, Bool-cases, List,
  [], ◌∷◌, any, count_if, All, Text, ◌==◌, eq_iff, eq_refl, nat_eq, text_eq, arith,
}
use emage_code_cwso.Prelude.Map.{bit}
use emage_code_cwso.Prelude.Members.{mem}
use emage_code_cwso.Capability.{ProviderCapability}
use emage_code_cwso.Dispatch.{Floats, PolicyDecision, PolicyEngineV2, ScoredCandidate}
use emage_code_cwso.Dispatch.Score.{is_policy_eligible}
use emage_code_cwso.Dispatch.Select.{chain_loop, fallback_chain, baseline_decision, ids}

-- A chain has an entry once where it is the baseline or one of the ids, and was not seen.
chain_loop-count :
    (baseline : Text) (seen ids : List Text) (t : Text)
    → count_if (λ x. x == t) (chain_loop baseline seen ids)
      ≡ bit (not (mem t seen) && (baseline == t || mem t ids))
unfolding chain_loop mem
chain_loop-count baseline seen [] t = ground (arith, eq_iff baseline t)
chain_loop-count baseline seen (id ∷ ids) t = ground (
  arith,
  eq_iff id t,
  eq_iff baseline t,
  chain_loop-count baseline seen ids t,
  chain_loop-count baseline (id ∷ seen) ids t,
)

-- Each of a list of ids and the baseline once, with the one that is selected in front.
pub record IsChain (baseline selected : Text) (ids chain : List Text) : Type 0 where
  pub once : (t : Text) → count_if (λ x. x == t) chain ≡ bit (baseline == t || mem t ids)
  pub rest : List Text
  pub first : chain ≡ selected ∷ rest

pub IsChain-on_baseline :
    (baseline s : Text) (ids : List Text)
    → (s == baseline) ≡ true
    → IsChain baseline s ids (fallback_chain baseline s ids)
unfolding fallback_chain mem
IsChain-on_baseline baseline s ids e =
    rw (fallback_chain, e)
      (record {
        once = λ t. ground (arith, chain_loop-count baseline (baseline ∷ []) ids t);
        rest = chain_loop baseline (baseline ∷ []) ids;
        first =
            ap (λ x. x ∷ chain_loop baseline (baseline ∷ []) ids) (sym ((eq_iff s baseline).0 e));
      })

pub IsChain-on_best :
    (baseline s : Text) (ids : List Text)
    → (s == baseline) ≡ false
    → IsChain baseline s (s ∷ ids) (fallback_chain baseline s (s ∷ ids))
unfolding fallback_chain chain_loop mem
IsChain-on_best baseline s ids e =
    rw (fallback_chain, e)
      (record {
        once = λ t. chain_loop-count baseline [] (s ∷ ids) t;
        rest = chain_loop baseline (s ∷ []) ids;
        first = refl;
      })

chain_loop-All :
    (P : Text → Type 0) (baseline : Text) (seen ids : List Text)
    → P baseline
    → All P ids
    → All P (chain_loop baseline seen ids)
unfolding chain_loop
chain_loop-All P baseline seen [] b h = elim (Bool-cases (mem baseline seen)) [
  | inl k ↦ rw (chain_loop, k) tt
  | inr k ↦ rw (chain_loop, k) (b, tt)
]
chain_loop-All P baseline seen (id ∷ ids) b h = elim (Bool-cases (mem id seen)) [
  | inl k ↦ rw (chain_loop, k) (chain_loop-All P baseline seen ids b h.1)
  | inr k ↦ rw (chain_loop, k) (h.0, chain_loop-All P baseline (id ∷ seen) ids b h.1)
]

pub fallback_chain-All :
    (P : Text → Type 0) (baseline s : Text) (ids : List Text)
    → P baseline
    → All P ids
    → All P (fallback_chain baseline s ids)
unfolding fallback_chain
fallback_chain-All P baseline s ids b h = elim (Bool-cases (s == baseline)) [
  | inl k ↦ rw (fallback_chain, k) (b, chain_loop-All P baseline (baseline ∷ []) ids b h)
  | inr k ↦ rw (fallback_chain, k) (chain_loop-All P baseline [] ids b h)
]

-- One of the providers has this id and is eligible for the tags.
abbrev pub IsOffered : List ProviderCapability → List Text → Text → Text → Type 0
IsOffered providers tags baseline id =
    any (λ (p : ProviderCapability). p.provider_id == id && is_policy_eligible p tags baseline)
      providers
    ≡ true

module _ {F : Type 0} (fl : Floats F) where
  -- A chain without repetition that starts with the selected provider, holds the baseline, and
  -- otherwise ids of a kind.
  pub record IsSound (P : Text → Type 0) (baseline : Text) (d : PolicyDecision F) : Type 0 where
    pub once : (t : Text) → count_if (λ x. x == t) d.ranked_fallback_chain ≤ 1
    pub safe : count_if (λ x. x == baseline) d.ranked_fallback_chain ≡ 1
    pub rest : List Text
    pub first : d.ranked_fallback_chain ≡ d.selected_provider ∷ rest
    pub sources : All (λ id. (id ≡ baseline) ⊎ P id) d.ranked_fallback_chain

  module _ (P : Text → Type 0) where
    abbrev pub IsFrom : ScoredCandidate F → Type 0
    IsFrom c = P c.provider_id

    pub baseline_decision-IsSound :
        (e : PolicyEngineV2 F) (epoch : ℕ) (version reason : Text)
        → IsSound P e.cfg.baseline_provider_id (baseline_decision fl e epoch version reason)
    unfolding baseline_decision
    baseline_decision-IsSound e epoch version reason = record {
      once = λ t. ground arith;
      safe = ground (arith, eq_refl e.cfg.baseline_provider_id);
      rest = [];
      first = refl;
      sources = (inl refl, tt);
    }

    pub ids-All :
        (baseline : Text) (cs : List (ScoredCandidate F))
        → All IsFrom cs
        → All (λ id. (id ≡ baseline) ⊎ P id) (ids fl cs)
    ids-All baseline [] h = tt
    ids-All baseline (c ∷ cs) h = (inr h.0, ids-All baseline cs h.1)

    pub IsSound-chain :
        (d : PolicyDecision F) (baseline s : Text) (xs : List Text)
        → IsChain baseline s xs d.ranked_fallback_chain
        → d.selected_provider ≡ s
        → All (λ id. (id ≡ baseline) ⊎ P id) d.ranked_fallback_chain
        → IsSound P baseline d
    IsSound-chain d baseline s xs c e h = record {
      once = λ t. ground (arith, c.once t);
      safe = ground (arith, c.once baseline, eq_refl baseline);
      rest = c.rest;
      first = c.first ∙ ap (λ x. x ∷ c.rest) (sym e);
      sources = h;
    }
