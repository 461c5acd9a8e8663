-- ===== src/Trajectory/Shape.antt =====
-- What the builders of orchestrator/internal/rollout/{trajectory,trajectory_builder}.go build passes
-- `ValidateTrajectoryGroup`.
use emage_code_cwso.Prelude.{
  ℕ, zero, suc, ◌+◌, ◌≡◌, ◌≢◌, refl, sym, ap, ◌∙◌, ◌⊎◌, inl, inr, Bool, true, false, ◌&&◌,
  Bool-cases, Option-cases, none, List, [], ◌∷◌, ◌++◌, append_assoc, length, length-append,
  length-replicate, take, replicate, All, All-append, ltb, ◌==◌, eq_iff, nat_eq, text_eq, arith,
  Text, text,
}
use emage_code_cwso.Prelude.Map.{Map}
use emage_code_cwso.Trajectory.{
  Step, Chain, CompletionRecord, suffix_of, normalize_session_id, assistant_step, interstitial_step,
  add_step, extend_chain, modify, new_chain, merge_record, merge_records, build_prefix_merge_polar,
  sort_completion_records, find_polar_extendable_chain, interstitial_tokens,
}
use emage_code_cwso.Trajectory.Build.{
  plain_step, per_request_chains, build_per_request, build_trajectory, strategy_per_request,
}
use emage_code_cwso.Trajectory.Check.{
  bad_mask, check_step, check_steps, check_chains, validate_trajectory_group,
}

-- A mask of one bit for each token.
pub record IsMasked (s : Step) : Type 0 where
  bit : ℕ
  is_bit : (bit ≡ 0) ⊎ (bit ≡ 1)
  mask : s.loss_mask ≡ replicate (length s.token_ids) bit

not_equal : (a b : Text) → a ≢ b → (a == b) ≡ false
not_equal a b h = ground (arith, eq_iff a b)

pub record IsBuilt (c : Chain) : Type 0 where
  named : c.chain_id ≢ []
  masked : All IsMasked c.steps

bad_mask-replicate : (bit i n : ℕ) → (bit ≡ 0) ⊎ (bit ≡ 1) → bad_mask i (replicate n bit) ≡ none
unfolding bad_mask
bad_mask-replicate bit i zero b = refl
bad_mask-replicate bit i (suc n) (inl b) = rw b (bad_mask-replicate 0 (i + 1) n (inl refl))
bad_mask-replicate bit i (suc n) (inr b) = rw b (bad_mask-replicate 1 (i + 1) n (inr refl))

suffix_of-snoc :
    (out : List ℕ) (ss : List Step) (s : Step)
    → suffix_of out (ss ++ s ∷ []) ≡ suffix_of out ss ++ s.token_ids
suffix_of-snoc out [] s = refl
suffix_of-snoc out (t ∷ ss) s = suffix_of-snoc (out ++ t.token_ids) ss s

take-length : (xs ys : List Step) → take (length xs) (xs ++ ys) ≡ xs
take-length [] ys = take_none ys
  where
    take_none : (ys : List Step) → take 0 ys ≡ []
    take_none ys = refl
take-length (x ∷ xs) ys = ap (λ l. x ∷ l) (take-length xs ys)

and_false : (b : Bool) → (b && false) ≡ false
and_false true = refl
and_false false = refl

lengths : (s : Step) → IsMasked s → (length s.loss_mask == length s.token_ids) ≡ true
lengths s m = (eq_iff _ _).1 (ap length m.mask ∙ length-replicate (length s.token_ids) m.bit)

masks : (s : Step) → IsMasked s → bad_mask 0 s.loss_mask ≡ none
masks s m = ap (bad_mask 0) m.mask ∙ bad_mask-replicate m.bit 0 (length s.token_ids) m.is_bit

module _ (c : Chain) (ci : ℕ) where
  check_step_lem :
      (done : List Step) (s : Step) (ss : List Step)
      → c.steps ≡ done ++ s ∷ ss
      → IsMasked s
      → check_step c ci (length done) (suffix_of c.prefix_token_ids done) s ≡ none
  unfolding check_step
  check_step_lem done s ss e m =
      let same : suffix_of c.prefix_token_ids (take (length done) c.steps)
          ≡ suffix_of c.prefix_token_ids done =
        ap (suffix_of c.prefix_token_ids) (ap (take (length done)) e ∙ take-length done (s ∷ ss)) in
      rw
        (
          check_step,
          lengths s m,
          masks s m,
          (eq_iff _ _).1 (sym same),
          and_false (ltb 0 (length done)),
        )
        refl

  check_steps_lem :
      (done rest : List Step)
      → c.steps ≡ done ++ rest
      → All IsMasked rest
      → check_steps c ci (length done) (suffix_of c.prefix_token_ids done) rest ≡ none
  unfolding check_steps
  check_steps_lem done [] e m = refl
  check_steps_lem done (s ∷ ss) e m =
      rw (check_steps, check_step_lem done s ss e m.0)
        (ap (λ n. check_steps c ci n (suffix_of c.prefix_token_ids done ++ s.token_ids) ss)
            (one_more done s)
          ∙ ap (λ l. check_steps c ci (length (done ++ s ∷ [])) l ss)
              (sym (suffix_of-snoc c.prefix_token_ids done s))
          ∙ check_steps_lem (done ++ s ∷ []) ss (e ∙ sym (append_assoc done (s ∷ []) ss)) m.1)
    where
      one_more : (done : List Step) (s : Step) → length done + 1 ≡ length (done ++ s ∷ [])
      one_more done s = omega (arith, length-append done (s ∷ []))

check_chains_lem : (ci : ℕ) (cs : List Chain) → All IsBuilt cs → check_chains ci cs ≡ none
unfolding check_chains
check_chains_lem ci [] h = refl
check_chains_lem ci (c ∷ cs) h =
    let named : (c.chain_id == []) ≡ false = not_equal c.chain_id [] h.0.named in
    rw (check_chains, named, check_steps_lem c ci [] c.steps refl h.0.masked)
      (check_chains_lem (ci + 1) cs h.1)

normalize_session_id-named : (id : Text) → (normalize_session_id id == []) ≡ false
unfolding normalize_session_id
normalize_session_id-named id = elim (Bool-cases (id == [])) [
  | inl blank ↦ rw blank refl
  | inr named ↦ rw (named, named) refl
]

-- A group of built chains under a normalized session id passes the validation.
group_lem :
    (id : Text) (cs : List Chain) (metadata : Map Text Text)
    → All IsBuilt cs
    → validate_trajectory_group (record {
      session_id = normalize_session_id id;
      chains = cs;
      rewards = [];
      metadata = metadata;
    })
      ≡ none
unfolding validate_trajectory_group
group_lem id cs metadata h = rw (normalize_session_id-named id) (check_chains_lem 0 cs h)

add_step-IsBuilt : (c : Chain) (s : Step) → IsBuilt c → IsMasked s → IsBuilt (add_step c s)
unfolding add_step
add_step-IsBuilt c s h m = record {
  named = h.named;
  masked = All-append IsMasked c.steps (s ∷ []) h.masked (m, tt);
}

assistant_step-IsMasked : (rec : CompletionRecord) → IsMasked (assistant_step rec)
unfolding assistant_step
assistant_step-IsMasked rec = record { bit = 1; is_bit = inr refl; mask = refl }

plain_step-IsMasked : (rec : CompletionRecord) → IsMasked (plain_step rec)
unfolding plain_step
plain_step-IsMasked rec = record { bit = 1; is_bit = inr refl; mask = refl }

interstitial_step-IsMasked : (tokens : List ℕ) → IsMasked (interstitial_step tokens)
unfolding interstitial_step
interstitial_step-IsMasked tokens = record { bit = 0; is_bit = inl refl; mask = refl }

new_chain-IsBuilt :
    (rec : CompletionRecord) (metadata : Map Text Text) (s : Step)
    → IsMasked s
    → IsBuilt (new_chain rec metadata s)
unfolding new_chain
new_chain-IsBuilt rec metadata s m = record {
  named = λ e. ground (arith, eq_iff (text "chain-" ++ rec.request_id) []);
  masked = (m, tt);
}

modify-IsBuilt :
    (cs : List Chain) (i : ℕ) (f : Chain → Chain)
    → ((c : Chain) → IsBuilt c → IsBuilt (f c))
    → All IsBuilt cs
    → All IsBuilt (modify cs i f)
unfolding modify
modify-IsBuilt [] i f k h = tt
modify-IsBuilt (c ∷ cs) zero f k h = (k c h.0, h.1)
modify-IsBuilt (c ∷ cs) (suc i) f k h = (h.0, modify-IsBuilt cs i f k h.1)

extend_chain-IsBuilt :
    (eots : Bool) (rec : CompletionRecord) (c : Chain)
    → IsBuilt c
    → IsBuilt (extend_chain eots rec c)
unfolding extend_chain
extend_chain-IsBuilt eots rec c h =
    let gap = interstitial_tokens c rec.prompt_token_ids in
    let a = assistant_step-IsMasked rec in
    elim (Bool-cases (eots && ltb 0 (length gap))) [
      | inl gapped ↦
          rw (extend_chain, gapped)
            (add_step-IsBuilt _ _
              (add_step-IsBuilt c (interstitial_step gap) h (interstitial_step-IsMasked gap)) a)
      | inr joined ↦ rw (extend_chain, joined) (add_step-IsBuilt c (assistant_step rec) h a)
    ]

merge_record-IsBuilt :
    (eots : Bool) (cs : List Chain) (rec : CompletionRecord)
    → All IsBuilt cs
    → All IsBuilt (merge_record eots cs rec)
unfolding merge_record
merge_record-IsBuilt eots cs rec h = elim (Bool-cases (length rec.sampled_token_ids == 0)) [
  | inl empty ↦ rw (merge_record, empty) h
  | inr full ↦ elim (Option-cases (find_polar_extendable_chain cs rec eots)) [
    | inl fresh ↦
        rw (merge_record, full, fresh)
          (All-append IsBuilt cs _ h (new_chain-IsBuilt rec _ _ (assistant_step-IsMasked rec), tt))
    | inr (i, found) ↦
        rw (merge_record, full, found)
          (modify-IsBuilt cs i (extend_chain eots rec) (extend_chain-IsBuilt eots rec) h)
  ]
]

merge_records-IsBuilt :
    (eots : Bool) (cs : List Chain) (recs : List CompletionRecord)
    → All IsBuilt cs
    → All IsBuilt (merge_records eots cs recs)
unfolding merge_records
merge_records-IsBuilt eots cs [] h = h
merge_records-IsBuilt eots cs (rec ∷ recs) h =
    merge_records-IsBuilt eots (merge_record eots cs rec) recs (merge_record-IsBuilt eots cs rec h)

per_request_chains-IsBuilt : (recs : List CompletionRecord) → All IsBuilt (per_request_chains recs)
unfolding per_request_chains
per_request_chains-IsBuilt [] = tt
per_request_chains-IsBuilt (rec ∷ recs) = elim (Bool-cases (length rec.sampled_token_ids == 0)) [
  | inl empty ↦ rw (per_request_chains, empty) (per_request_chains-IsBuilt recs)
  | inr full ↦
      rw (per_request_chains, full)
        (new_chain-IsBuilt rec [] _ (plain_step-IsMasked rec), per_request_chains-IsBuilt recs)
]

-- Whatever the records, the strategy and the masking mode, what `BuildTrajectory` builds passes
-- `ValidateTrajectoryGroup`.
pub build_trajectory_valid :
    (id : Text) (recs : List CompletionRecord) (strategy : Text) (eots : Bool)
    → validate_trajectory_group (build_trajectory id recs strategy eots) ≡ none
unfolding build_trajectory build_per_request build_prefix_merge_polar
build_trajectory_valid id recs strategy eots =
    let sorted = sort_completion_records recs in
    elim (Bool-cases (strategy == strategy_per_request)) [
      | inl each ↦ rw each (group_lem id _ _ (per_request_chains-IsBuilt sorted))
      | inr merged ↦ rw merged (group_lem id _ _ (merge_records-IsBuilt eots [] sorted tt))
    ]
