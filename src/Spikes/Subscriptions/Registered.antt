-- ===== src/Spikes/Subscriptions/Registered.antt =====
-- What the registry of subscriptions holds,
-- orchestrator/internal/dispatch/spike_subscriptions.go.
use mathlib.Core.Path.{subst}
use emage_code_cwso.Prelude.{
  ℕ, ◌≡◌, refl, sym, ap, ◌∙◌, ◌⊎◌, inl, inr, Bool, false, not, ◌&&◌, Bool-cases, Option-cases,
  eq_iff, Option, none, some, List, [], Text, text, ◌==◌, nat_eq, text_eq, arith,
}
use emage_code_cwso.Prelude.Map.{insert, remove}
use emage_code_cwso.Spikes.{threshold_rank}
use emage_code_cwso.Spikes.Subscriptions.{
  Subscription, Registry, Created, CreateError, invalid_threshold, invalid_glob, created, refused,
  is_bad, normalize_semantic_threshold, random_subscription_id, clean_scope, create,
  remove_subscription,
}

abbrev sub_of : Subscription → Created → Subscription
sub_of s (refused e) = s
sub_of s (created t) = t

-- The thresholds that a subscription can have.
abbrev pub IsThreshold : Text → Type 0
IsThreshold t =
    (t ≡ text "signature_change")
    ⊎ (t ≡ text "symbol_added")
    ⊎ (t ≡ text "symbol_removed")
    ⊎ (t ≡ text "any")

-- No glob, or one that `path.Match` reads.
abbrev pub IsGlob : (Text → Text → Option Bool) → Text → Type 0
IsGlob path_match path = (path ≡ []) ⊎ ((b : Bool) × (path_match path (text "probe") ≡ some b))

normalize-IsThreshold : (t k : Text) → normalize_semantic_threshold t ≡ some k → IsThreshold k
unfolding normalize_semantic_threshold
normalize-IsThreshold t k h = elim (Bool-cases (t == [])) [
  | inl none_given ↦ inl (ground (arith, none_given))
  | inr given ↦ elim (Bool-cases (t == text "signature_change")) [
    | inl a ↦ inl (ground (arith, given, a, eq_iff t (text "signature_change")))
    | inr na ↦ elim (Bool-cases (t == text "symbol_added")) [
      | inl b ↦ inr (inl (ground (arith, given, na, b, eq_iff t (text "symbol_added"))))
      | inr nb ↦ elim (Bool-cases (t == text "symbol_removed")) [
        | inl d ↦
            inr (inr (inl (ground (arith, given, na, nb, d, eq_iff t (text "symbol_removed")))))
        | inr nd ↦ elim (Bool-cases (t == text "any")) [
          | inl e ↦ inr (inr (inr (ground (arith, given, na, nb, nd, e, eq_iff t (text "any")))))
          | inr ne ↦ absurd (ground (arith, given, na, nb, nd, ne))
        ]
      ]
    ]
  ]
]

module _ (path_match : Text → Text → Option Bool) where
  -- What a subscription is once it is created, and the registry then.
  pub record Made (drawn : Option (List ℕ)) (nanos : ℕ) (r : Registry) (workspace_scope : List Text)
      (sub : Subscription) (r' : Registry) : Type 0 where
    pub registered : r' ≡ insert sub.id sub r
    pub id_drawn : sub.id ≡ random_subscription_id drawn nanos
    pub scoped : sub.workspace_scope ≡ clean_scope [] workspace_scope
    pub ranked : sub.min_rank ≡ threshold_rank sub.semantic_threshold
    pub normal : IsThreshold sub.semantic_threshold
    pub globbed : IsGlob path_match sub.path

  good-IsGlob :
      (path : Text)
      → not (path == []) && is_bad (path_match path (text "probe")) ≡ false
      → IsGlob path_match path
  good-IsGlob path h = elim (Bool-cases (path == [])) [
    | inl none_given ↦ inl ((eq_iff path []).0 none_given)
    | inr given ↦ elim (Option-cases (path_match path (text "probe"))) [
      | inl bad ↦ absurd (ground (arith, given, ap is_bad bad))
      | inr read ↦ inr read
    ]
  ]

  module _ (drawn : Option (List ℕ)) (nanos now : ℕ) (r : Registry) (path threshold : Text)
      (raws : List Text) where
    abbrev built : Text → Subscription
    built kind = record {
      id = random_subscription_id drawn nanos;
      path = path;
      semantic_threshold = kind;
      workspace_scope = clean_scope [] raws;
      created_at = now;
      min_rank = threshold_rank kind;
    }

    -- A call of `Create` changes nothing, or registers what it answers.
    abbrev Answered : Registry × Created → Type 0
    Answered c =
        (((e : CreateError) × (c.1 ≡ refused e)) × (c.0 ≡ r))
        ⊎ ((sub : Subscription) × (c.1 ≡ created sub) × Made drawn nanos r raws sub c.0)

    Answered-by :
        (answer : Option Text)
        → normalize_semantic_threshold threshold ≡ answer
        → Answered (create path_match drawn nanos now r path threshold raws)
    unfolding create
    Answered-by none e = rw (create, e) (inl ((invalid_threshold threshold, refl), refl))
    Answered-by (some kind) e =
        elim (Bool-cases (not (path == []) && is_bad (path_match path (text "probe")))) [
          | inl bad ↦ rw (create, e, bad) (inl ((invalid_glob path, refl), refl))
          | inr good ↦
              rw (create, e, good)
                (inr (
                  built kind,
                  refl,
                  record {
                    registered = refl;
                    id_drawn = refl;
                    scoped = refl;
                    ranked = refl;
                    normal = normalize-IsThreshold threshold kind e;
                    globbed = good-IsGlob path good;
                  },
                ))
        ]

    pub create-Answered : Answered (create path_match drawn nanos now r path threshold raws)
    create-Answered = Answered-by (normalize_semantic_threshold threshold) refl

    pub create-Made :
        (sub : Subscription)
        → (create path_match drawn nanos now r path threshold raws).1 ≡ created sub
        → Made drawn nanos r raws sub (create path_match drawn nanos now r path threshold raws).0
    create-Made sub made = elim create-Answered [
      | inl ((e, not_made), same) ↦ absurd (ground (arith, sym not_made ∙ made))
      | inr (s, s_made, m) ↦
          let same : s ≡ sub = ap (sub_of s) (sym s_made ∙ made) in
          subst
            (λ t.
              Made drawn nanos r raws t (create path_match drawn nanos now r path threshold raws).0)
            same m
    ]

-- A call of `Remove` takes the entry out, or changes nothing.
pub remove_subscription-cases :
    (r : Registry) (id : Text)
    → ((remove_subscription r id).0 ≡ r) ⊎ ((remove_subscription r id).0 ≡ remove id r)
unfolding remove_subscription
remove_subscription-cases r id = ground arith
