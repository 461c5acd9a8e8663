-- ===== src/Trajectory/Merge.antt =====
-- `buildPrefixMergePolar` divides the records among its chains,
-- orchestrator/internal/rollout/trajectory_builder.go.
use emage_code_cwso.Prelude.{
  ℕ, suc, ◌+◌, ◌≡◌, refl, ap, ◌∙◌, inl, inr, Bool, true, not, Bool-cases, Option-cases, Option,
  none, some, List, [], ◌∷◌, ◌++◌, length, count_if, select, ◌==◌, nat_eq, text_eq, arith, Text,
}
use emage_code_cwso.Trajectory.{
  Chain, CompletionRecord, assistant_step, extend_chain, modify, new_chain, merge_record,
  merge_records, build_prefix_merge_polar, sort_completion_records, insert_record, record_ltb,
  find_polar_extendable_chain, find_chain, extendable, chain_metadata_from_record,
}
use emage_code_cwso.Trajectory.Covers.{
  done, reply, Covered, no_chain, one_chain, total, extend_chain-Covers,
}

-- The chain that a search has found.
data Found (ok : Chain → Bool) : List Chain → ℕ → Type 0 where
  here : {c : Chain} {cs : List Chain} → ok c ≡ true → Found ok (c ∷ cs) 0
  there : {c : Chain} {cs : List Chain} {i : ℕ} → Found ok cs i → Found ok (c ∷ cs) (suc i)

index_or : Option ℕ → ℕ
index_or none = 0
index_or (some i) = i

find_chain-Found :
    (ok : Chain → Bool) (cs : List Chain) (i : ℕ) → find_chain ok cs ≡ some i → Found ok cs i
unfolding find_chain index_or
find_chain-Found ok [] i h = ground arith
find_chain-Found ok (c ∷ cs) i h = elim (Bool-cases (ok c)) [
  | inl fits ↦
      let first : 0 ≡ i = ap index_or (rw (find_chain, fits) at h) in rw⁻¹ first (here fits)
  | inr other ↦ elim (Option-cases (find_chain ok cs)) [
    | inl nowhere ↦ ground (arith, other, nowhere)
    | inr (j, later) ↦
        let next : suc j ≡ i = ap index_or (rw (find_chain, other, later) at h) in
        rw⁻¹ next (there (find_chain-Found ok cs j later))
  ]
]

-- The records after one more has gone to a chain.
record More (cs : List Chain) (rest : List (List CompletionRecord)) (rec : CompletionRecord)
    : Type 0 where
  split : List (List CompletionRecord)
  covered : Covered cs split
  counts : (p : CompletionRecord → Bool) → total p split ≡ total p rest + count_if p (rec ∷ [])

count_if-append :
    (p : CompletionRecord → Bool) (xs ys : List CompletionRecord)
    → count_if p (xs ++ ys) ≡ count_if p xs + count_if p ys
count_if-append p [] ys = omega arith
count_if-append p (x ∷ xs) ys = elim (Bool-cases (p x)) [
  | inl k ↦ rw k (omega (arith, count_if-append p xs ys))
  | inr k ↦ rw k (count_if-append p xs ys)
]

modify-Found :
    {cs : List Chain} {rest : List (List CompletionRecord)} {i : ℕ} (rec : CompletionRecord)
    → Covered cs rest
    → Found (λ c. extendable c rec true) cs i
    → More (modify cs i (extend_chain true rec)) rest rec
unfolding modify
modify-Found rec no_chain found = elim found [ ]
modify-Found rec (one_chain {c = c} {recs = recs} {rest = rest} cov covs) (here fits) = record {
  split = (recs ++ rec ∷ []) ∷ rest;
  covered = one_chain (extend_chain-Covers c rec recs fits cov) covs;
  counts = λ p. omega (arith, count_if-append p recs (rec ∷ []));
}
modify-Found rec (one_chain {recs = recs} cov covs) (there later) =
    let m = modify-Found rec covs later in
    record {
      split = recs ∷ m.split;
      covered = one_chain cov m.covered;
      counts = λ p. omega (arith, m.counts p);
    }

append_chain :
    {cs : List Chain} {rest : List (List CompletionRecord)} (rec : CompletionRecord)
    → Covered cs rest
    → More (cs ++ new_chain rec (chain_metadata_from_record rec) (assistant_step rec) ∷ []) rest rec
unfolding new_chain
append_chain rec no_chain = record {
  split = (rec ∷ []) ∷ [];
  covered = one_chain (reply rec refl done) no_chain;
  counts = λ p. omega arith;
}
append_chain rec (one_chain {recs = recs} cov covs) =
    let m = append_chain rec covs in
    record {
      split = recs ∷ m.split;
      covered = one_chain cov m.covered;
      counts = λ p. omega (arith, m.counts p);
    }

-- A record takes part where it has sampled tokens.
abbrev pub sampled : CompletionRecord → Bool
sampled rec = not (length rec.sampled_token_ids == 0)

record Merged (cs : List Chain) (rest : List (List CompletionRecord)) (recs : List CompletionRecord)
    : Type 0 where
  split : List (List CompletionRecord)
  covered : Covered cs split
  counts :
      (p : CompletionRecord → Bool)
      → total p split ≡ total p rest + count_if p (select sampled recs)

merge_record-Merged :
    {cs : List Chain} {rest : List (List CompletionRecord)} (rec : CompletionRecord)
    → Covered cs rest
    → Merged (merge_record true cs rec) rest (rec ∷ [])
unfolding merge_record
merge_record-Merged {cs = cs} {rest = rest} rec cov =
    elim (Bool-cases (length rec.sampled_token_ids == 0)) [
      | inl empty ↦
          rw (merge_record, empty)
            (record { split = rest; covered = cov; counts = λ p. rw empty (omega arith) })
      | inr full ↦ elim (Option-cases (find_polar_extendable_chain cs rec true)) [
        | inl fresh ↦
            let m = append_chain rec cov in
            rw (merge_record, full, fresh)
              (record { split = m.split; covered = m.covered; counts = λ p. rw full (m.counts p) })
        | inr (i, found) ↦
            let m =
              modify-Found rec cov (find_chain-Found (λ c. extendable c rec true) cs i found) in
            rw (merge_record, full, found)
              (record { split = m.split; covered = m.covered; counts = λ p. rw full (m.counts p) })
      ]
    ]

select-cons :
    (p : CompletionRecord → Bool) (r : CompletionRecord) (rs : List CompletionRecord)
    → count_if p (select sampled (r ∷ rs))
      ≡ count_if p (select sampled (r ∷ [])) + count_if p (select sampled rs)
select-cons p r rs = elim (Bool-cases (sampled r)) [
  | inl k ↦ rw k (count_if-append p (r ∷ []) (select sampled rs))
  | inr k ↦ rw k (omega arith)
]

merge_records-Merged :
    (recs : List CompletionRecord) {cs : List Chain} {rest : List (List CompletionRecord)}
    → Covered cs rest
    → Merged (merge_records true cs recs) rest recs
unfolding merge_records
merge_records-Merged [] {rest = rest} cov = record {
  split = rest;
  covered = cov;
  counts = λ p. omega arith;
}
merge_records-Merged (rec ∷ recs) cov =
    let m = merge_record-Merged rec cov in
    let n = merge_records-Merged recs m.covered in
    record {
      split = n.split;
      covered = n.covered;
      counts = λ p. omega (arith, m.counts p, n.counts p, select-cons p rec recs);
    }

insert_record-count :
    (p : CompletionRecord → Bool) (r : CompletionRecord) (rs : List CompletionRecord)
    → count_if p (select sampled (insert_record r rs)) ≡ count_if p (select sampled (r ∷ rs))
unfolding insert_record
insert_record-count p r [] = refl
insert_record-count p r (x ∷ xs) = elim (Bool-cases (record_ltb x r)) [
  | inl k ↦
      rw (insert_record, k)
        (omega (
          arith,
          select-cons p x (insert_record r xs),
          insert_record-count p r xs,
          select-cons p r xs,
          select-cons p r (x ∷ xs),
          select-cons p x xs,
        ))
  | inr k ↦ rw (insert_record, k) refl
]

sort-count :
    (p : CompletionRecord → Bool) (rs : List CompletionRecord)
    → count_if p (select sampled (sort_completion_records rs)) ≡ count_if p (select sampled rs)
unfolding sort_completion_records
sort-count p [] = refl
sort-count p (r ∷ rs) = omega (
  arith,
  insert_record-count p r (sort_completion_records rs),
  select-cons p r (sort_completion_records rs),
  select-cons p r rs,
  sort-count p rs,
)

-- With interstitial masking, the records that have sampled tokens are divided among the chains,
-- none lost and none twice, and the steps of each chain are the replies of its records, each
-- after exactly its prompt, with masked tokens that hold no end of turn between them.
pub build_prefix_merge_polar_lem :
    (id : Text) (recs : List CompletionRecord)
    → (split : List (List CompletionRecord)) × Covered
        (build_prefix_merge_polar id recs true).chains
        split
      × ((p : CompletionRecord → Bool) → total p split ≡ count_if p (select sampled recs))
unfolding build_prefix_merge_polar
build_prefix_merge_polar_lem id recs =
    let m = merge_records-Merged (sort_completion_records recs) no_chain in
    (m.split, m.covered, λ p. m.counts p ∙ omega (arith, sort-count p recs))
