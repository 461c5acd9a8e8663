-- ===== src/Spikes/Subscriptions/Invariant.antt =====
-- The registry of subscriptions over any run of its operations,
-- orchestrator/internal/dispatch/spike_subscriptions.go.
use mathlib.Core.Path.{subst}
use emage_code_cwso.Prelude.{
  ℕ, ◌≤◌, ◌≡◌, refl, sym, ap, ◌∙◌, ◌⊎◌, inl, inr, Bool, false, Option, List, [], ◌∷◌, All, Text,
  text, nat_eq, text_eq, arith,
}
use emage_code_cwso.Prelude.Entries.{insert-All, remove-All}
use emage_code_cwso.Prelude.Members.{mem, Distinct}
use emage_code_cwso.Spikes.{rank, threshold_rank}
use emage_code_cwso.Spikes.Subscriptions.{Subscription, Registry, create, remove_subscription}
use emage_code_cwso.Spikes.Subscriptions.Scope.{clean_scope-once}
use emage_code_cwso.Spikes.Subscriptions.Registered.{
  IsThreshold, IsGlob, Made, create-Answered, remove_subscription-cases,
}

-- What is done with the registry: `Create`, with what is read of the source of randomness and the
-- clock, or `Remove`.
pub data Action : Type 0 where
  subscribe : Option (List ℕ) → ℕ → ℕ → Text → Text → List Text → Action
  cancel : Text → Action

-- The rank of each threshold.
abbrev pub HasRank : Text → ℕ → Type 0
HasRank t k =
    ((t ≡ text "signature_change") × (k ≡ 3))
    ⊎ ((t ≡ text "symbol_added") × (k ≡ 2))
    ⊎ ((t ≡ text "symbol_removed") × (k ≡ 2))
    ⊎ ((t ≡ text "any") × (k ≡ 1))

IsThreshold-HasRank : (t : Text) (k : ℕ) → IsThreshold t → k ≡ threshold_rank t → HasRank t k
unfolding threshold_rank rank
IsThreshold-HasRank t k (inl e) h = inl (e, h ∙ ap threshold_rank e)
IsThreshold-HasRank t k (inr (inl e)) h = inr (inl (e, h ∙ ap threshold_rank e))
IsThreshold-HasRank t k (inr (inr (inl e))) h = inr (inr (inl (e, h ∙ ap threshold_rank e)))
IsThreshold-HasRank t k (inr (inr (inr e))) h = inr (inr (inr (e, h ∙ ap threshold_rank e)))

module _ (path_match : Text → Text → Option Bool) where
  unfoldable pub run : Registry → List Action → Registry
  run r [] = r
  run r (subscribe drawn nanos now path threshold raws ∷ actions) =
      run (create path_match drawn nanos now r path threshold raws).0 actions
  run r (cancel id ∷ actions) = run (remove_subscription r id).0 actions

  -- An entry of the registry: under its id, with a known threshold and its rank, a scope of trimmed names, none blank nor twice, and a glob that `path.Match` reads.
  pub record IsEntry (x : Text × Subscription) : Type 0 where
    pub keyed : x.1.id ≡ x.0
    pub normal : IsThreshold x.1.semantic_threshold
    pub ranked : HasRank x.1.semantic_threshold x.1.min_rank
    pub low : 1 ≤ x.1.min_rank
    pub high : x.1.min_rank ≤ 3
    pub once : Distinct x.1.workspace_scope
    pub no_blank : mem [] x.1.workspace_scope ≡ false
    pub globbed : IsGlob path_match x.1.path

  threshold_rank-bounds : (t : Text) → (1 ≤ threshold_rank t) × (threshold_rank t ≤ 3)
  unfolding threshold_rank rank
  threshold_rank-bounds t = (ground arith, ground arith)

  create-IsEntry :
      (drawn : Option (List ℕ)) (nanos : ℕ) (r : Registry) (raws : List Text) (sub : Subscription)
      (r' : Registry)
      → Made path_match drawn nanos r raws sub r'
      → IsEntry (sub.id, sub)
  unfolding mem
  create-IsEntry drawn nanos r raws sub r' m = record {
    keyed = refl;
    normal = m.normal;
    ranked = IsThreshold-HasRank sub.semantic_threshold sub.min_rank m.normal m.ranked;
    low = subst (λ k. 1 ≤ k) (sym m.ranked) (threshold_rank-bounds sub.semantic_threshold).0;
    high = subst (λ k. k ≤ 3) (sym m.ranked) (threshold_rank-bounds sub.semantic_threshold).1;
    once = subst Distinct (sym m.scoped) (clean_scope-once raws).0;
    no_blank = ap (mem []) m.scoped ∙ (clean_scope-once raws).1;
    globbed = m.globbed;
  }

  create-All :
      (drawn : Option (List ℕ)) (nanos now : ℕ) (r : Registry) (path threshold : Text)
      (raws : List Text)
      → All IsEntry r
      → All IsEntry (create path_match drawn nanos now r path threshold raws).0
  create-All drawn nanos now r path threshold raws h =
      elim (create-Answered path_match drawn nanos now r path threshold raws) [
        | inl (refused', same) ↦ subst (All IsEntry) (sym same) h
        | inr (sub, made, m) ↦
            subst (All IsEntry) (sym m.registered)
              (insert-All IsEntry sub.id sub r (create-IsEntry drawn nanos r raws sub _ m) h)
      ]

  remove_subscription-All :
      (r : Registry) (id : Text) → All IsEntry r → All IsEntry (remove_subscription r id).0
  remove_subscription-All r id h = elim (remove_subscription-cases r id) [
    | inl same ↦ subst (All IsEntry) (sym same) h
    | inr gone ↦ subst (All IsEntry) (sym gone) (remove-All IsEntry id r h)
  ]

  run-All : (actions : List Action) (r : Registry) → All IsEntry r → All IsEntry (run r actions)
  unfolding run
  run-All [] r h = h
  run-All (subscribe drawn nanos now path threshold raws ∷ actions) r h =
      run-All actions (create path_match drawn nanos now r path threshold raws).0
        (create-All drawn nanos now r path threshold raws h)
  run-All (cancel id ∷ actions) r h =
      run-All actions (remove_subscription r id).0 (remove_subscription-All r id h)

  -- Whatever is created and removed, in any order, each subscription of the registry is kept under its own id, with one of the four thresholds `signature_change`, `symbol_added`, `symbol_removed` and `any`, the rank of that threshold (3, 2, 2 and 1), a scope of names of which none is blank and none comes twice, and a path glob that `path.Match` can read.
  pub run-IsEntry : (actions : List Action) → All IsEntry (run [] actions)
  run-IsEntry actions = run-All actions [] tt
