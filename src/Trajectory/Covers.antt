-- ===== src/Trajectory/Covers.antt =====
-- What the chains of `buildPrefixMergePolar` say of the records that they were merged from,
-- orchestrator/internal/rollout/trajectory_builder.go, where interstitial tokens are masked.
use emage_code_cwso.Prelude.{
  ℕ, ◌+◌, ◌≤◌, ◌≡◌, refl, sym, ap₂, ◌∙◌, inl, inr, Bool, true, false, Bool-cases, List, [], ◌∷◌,
  ◌++◌, append-nil, length, drop, any, count_if, ltb, ltb→ge, ◌==◌, eq_iff, nat_eq, text_eq, arith,
}
use emage_code_cwso.Trajectory.{
  Step, Chain, CompletionRecord, suffix_of, chain_suffix, assistant_step, interstitial_step,
  add_step, extend_chain, extendable, interstitial_tokens, token_ids_has_prefix,
  has_eot_interstitial_boundary, eot_interstitial_token_id,
}

abbrev pub is_eot : ℕ → Bool
is_eot token = token == eot_interstitial_token_id

-- The steps after a prefix are the replies of the records, each after exactly its prompt, and
-- masked tokens without an end of turn between them.
pub data Covers : List ℕ → List Step → List CompletionRecord → Type 0 where
  done : {pre : List ℕ} → Covers pre [] []
  reply :
      {pre : List ℕ} {ss : List Step} {recs : List CompletionRecord} (rec : CompletionRecord)
      → pre ≡ rec.prompt_token_ids
      → Covers (pre ++ rec.sampled_token_ids) ss recs
      → Covers pre (assistant_step rec ∷ ss) (rec ∷ recs)
  gap :
      {pre : List ℕ} {ss : List Step} {recs : List CompletionRecord} (tokens : List ℕ)
      → any is_eot tokens ≡ false
      → Covers (pre ++ tokens) ss recs
      → Covers pre (interstitial_step tokens ∷ ss) recs

-- The chains one by one, each with the records that it is built from.
pub data Covered : List Chain → List (List CompletionRecord) → Type 0 where
  no_chain : Covered [] []
  one_chain :
      {c : Chain} {cs : List Chain} {recs : List CompletionRecord}
      {rest : List (List CompletionRecord)}
      → Covers c.prefix_token_ids c.steps recs
      → Covered cs rest
      → Covered (c ∷ cs) (recs ∷ rest)

-- How many of the records pass a test.
abbrev pub total : (CompletionRecord → Bool) → List (List CompletionRecord) → ℕ
total p [] = 0
total p (recs ∷ rest) = count_if p recs + total p rest

suffix_of-snoc :
    (out : List ℕ) (ss : List Step) (s : Step)
    → suffix_of out (ss ++ s ∷ []) ≡ suffix_of out ss ++ s.token_ids
suffix_of-snoc out [] s = refl
suffix_of-snoc out (t ∷ ss) s = suffix_of-snoc (out ++ t.token_ids) ss s

Covers-reply :
    {pre : List ℕ} {ss : List Step} {recs : List CompletionRecord} (rec : CompletionRecord)
    → Covers pre ss recs
    → suffix_of pre ss ≡ rec.prompt_token_ids
    → Covers pre (ss ++ assistant_step rec ∷ []) (recs ++ rec ∷ [])
unfolding assistant_step interstitial_step
Covers-reply rec done e = reply rec e done
Covers-reply rec (reply r here later) e = reply r here (Covers-reply rec later e)
Covers-reply rec (gap tokens quiet later) e = gap tokens quiet (Covers-reply rec later e)

Covers-gap :
    {pre : List ℕ} {ss : List Step} {recs : List CompletionRecord} (tokens : List ℕ)
    → Covers pre ss recs
    → any is_eot tokens ≡ false
    → Covers pre (ss ++ interstitial_step tokens ∷ []) recs
Covers-gap tokens done q = gap tokens q done
Covers-gap tokens (reply r here later) q = reply r here (Covers-gap tokens later q)
Covers-gap tokens (gap more quiet later) q = gap more quiet (Covers-gap tokens later q)

prefix-split :
    (prompt pre : List ℕ)
    → token_ids_has_prefix prompt pre ≡ true
    → pre ++ drop (length pre) prompt ≡ prompt
unfolding token_ids_has_prefix
prefix-split prompt [] h = refl
prefix-split [] (p ∷ ps) h = ground arith
prefix-split (t ∷ ts) (p ∷ ps) h = elim (Bool-cases (t == p)) [
  | inl same ↦ ap₂ ◌∷◌ (sym ((eq_iff t p).0 same)) (prefix-split ts ps (rw same at h))
  | inr other ↦ ground (arith, other)
]

extendable_lem :
    (c : Chain) (rec : CompletionRecord)
    → extendable c rec true ≡ true
    → (token_ids_has_prefix rec.prompt_token_ids (chain_suffix c) ≡ true)
      × (any is_eot (drop (length (chain_suffix c)) rec.prompt_token_ids) ≡ false)
unfolding extendable has_eot_interstitial_boundary
extendable_lem c rec h = ground arith

nothing_between :
    {pre prompt : List ℕ} (tokens : List ℕ)
    → length tokens ≤ 0
    → pre ++ tokens ≡ prompt
    → pre ≡ prompt
nothing_between {pre = pre} [] h e = sym (append-nil pre) ∙ e
nothing_between (t ∷ ts) h e = absurd (omega arith)

pub extend_chain-Covers :
    (c : Chain) (rec : CompletionRecord) (recs : List CompletionRecord)
    → extendable c rec true ≡ true
    → Covers c.prefix_token_ids c.steps recs
    → Covers
        (extend_chain true rec c).prefix_token_ids
        (extend_chain true rec c).steps
        (recs ++ rec ∷ [])
unfolding add_step interstitial_tokens extend_chain interstitial_step
extend_chain-Covers c rec recs ok cov =
    let (fits, quiet) = extendable_lem c rec ok in
    let tokens = drop (length (chain_suffix c)) rec.prompt_token_ids in
    let whole = prefix-split rec.prompt_token_ids (chain_suffix c) fits in
    let found : interstitial_tokens c rec.prompt_token_ids ≡ tokens =
      rw (interstitial_tokens, fits) refl in
    elim (Bool-cases (ltb 0 (length tokens))) [
      | inl gapped ↦
          rw (extend_chain, found, gapped)
            (Covers-reply rec (Covers-gap tokens cov quiet)
              (suffix_of-snoc c.prefix_token_ids c.steps (interstitial_step tokens) ∙ whole))
      | inr joined ↦
          rw (extend_chain, found, joined)
            (Covers-reply rec cov (nothing_between tokens (ltb→ge _ _ joined) whole))
    ]
