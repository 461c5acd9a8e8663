-- ===== src/Capability/Registry.antt =====
-- What the registry of provider capabilities keeps and answers,
-- orchestrator/internal/dispatch/capability_registry.go.
use emage_code_cwso.Prelude.{
  ℕ, ◌+◌, ◌<◌, ◌≡◌, ◌≢◌, refl, ap, ◌∙◌, inl, inr, Bool, true, false, not, Bool-cases, Option-cases,
  none, some, List, [], ◌∷◌, map, Text, All, any, count_if, ◌⊎◌, ◌&&◌, ◌||◌, if◌then◌else◌, ltb,
  lt→ltb, ltb→lt, ◌==◌, eq_iff, nat_eq, text_eq, arith,
}
use emage_code_cwso.Prelude.Map.{lookup-insert, bit}
use emage_code_cwso.Prelude.Members.{mem}
use emage_code_cwso.Prelude.Strings.{trim_space, to_lower}
use emage_code_cwso.Prelude.Sort.{IsSorted, sort_by-IsSorted, sort_by-count, All-sort_by}
use emage_code_cwso.Capability.{
  ProviderCapability, CapabilityRegistry, CapabilityError, validate_capability, apply_staleness,
  dedupe, dedupe_and_sort, normalized, upsert, get, values, snapshot, healthy, degraded,
}

degraded_lower : (to_lower degraded == healthy) ≡ false
unfolding to_lower
degraded_lower = refl

-- A stale record does not stand as healthy.
apply_staleness_lem :
    (c : ProviderCapability) (now ttl : ℕ)
    → 0 < ttl
    → 0 < c.last_updated_at
    → c.last_updated_at + ttl < now
    → (to_lower (apply_staleness c now ttl).health_state == healthy) ≡ false
unfolding apply_staleness
apply_staleness_lem c now ttl t u h =
    let t0 : (ttl == 0) ≡ false = ground (arith, eq_iff ttl 0) in
    let u0 : (c.last_updated_at == 0) ≡ false = ground (arith, eq_iff c.last_updated_at 0) in
    elim (Bool-cases (to_lower c.health_state == healthy)) [
      | inl k ↦ simp (apply_staleness, t0, u0, lt→ltb _ _ h, k) degraded_lower
      | inr k ↦ simp (apply_staleness, t0, u0, lt→ltb _ _ h, k) refl
    ]

-- It is not so that a record is dated, older than the lifetime and shown as healthy.
abbrev pub IsHonest : ℕ → ℕ → ProviderCapability → Type 0
IsHonest now ttl c =
    (not (c.last_updated_at == 0)
      && ltb (c.last_updated_at + ttl) now
      && to_lower c.health_state == healthy)
    ≡ false

apply_staleness_time :
    (c : ProviderCapability) (now ttl : ℕ)
    → (apply_staleness c now ttl).last_updated_at ≡ c.last_updated_at
unfolding apply_staleness
apply_staleness_time c now ttl = elim (Bool-cases (ttl == 0 || c.last_updated_at == 0)) [
  | inl k ↦ rw (apply_staleness, k) refl
  | inr k ↦
      elim (Bool-cases (ltb (c.last_updated_at + ttl) now && to_lower c.health_state == healthy)) [
        | inl l ↦ simp (apply_staleness, k, l) refl
        | inr l ↦ simp (apply_staleness, k, l) refl
      ]
]

apply_staleness-IsHonest :
    (c : ProviderCapability) (now ttl : ℕ) → 0 < ttl → IsHonest now ttl (apply_staleness c now ttl)
apply_staleness-IsHonest c now ttl t =
    let e = apply_staleness_time c now ttl in
    elim (Bool-cases (c.last_updated_at == 0)) [
      | inl undated ↦ rw (e, undated) refl
      | inr dated ↦ elim (Bool-cases (ltb (c.last_updated_at + ttl) now)) [
        | inr young ↦ rw (e, dated, young) refl
        | inl old ↦
            rw (e, dated, old)
              (apply_staleness_lem c now ttl t (ground (arith, eq_iff c.last_updated_at 0))
                (ltb→lt _ _ old))
      ]
    ]

All-IsHonest :
    (cs : List ProviderCapability) (now ttl : ℕ)
    → 0 < ttl
    → All (IsHonest now ttl) (map (λ c. apply_staleness c now ttl) cs)
All-IsHonest [] now ttl t = tt
All-IsHonest (c ∷ cs) now ttl t = (apply_staleness-IsHonest c now ttl t, All-IsHonest cs now ttl t)

-- A snapshot of a registry with a positive lifetime is in the order of the provider ids, shows each
-- stored record once with its staleness applied, and shows none as healthy whose last update is
-- dated and longer ago than the lifetime.
pub snapshot_lem :
    (r : CapabilityRegistry) (now : ℕ)
    → 0 < r.ttl
    → let shown = (snapshot r now).providers in
      IsSorted (λ (c : ProviderCapability). c.provider_id) shown
      × ((p : ProviderCapability → Bool)
          → count_if p shown ≡ count_if p (map (λ c. apply_staleness c now r.ttl) (values r.items)))
      × All (IsHonest now r.ttl) shown
unfolding snapshot
snapshot_lem r now t =
    let key : ProviderCapability → Text = λ c. c.provider_id in
    let stored = map (λ c. apply_staleness c now r.ttl) (values r.items) in
    (
      sort_by-IsSorted key stored,
      (λ p. sort_by-count key p stored),
      All-sort_by (IsHonest now r.ttl) key stored (All-IsHonest (values r.items) now r.ttl t),
    )

and_true : (a b : Bool) → (a && true && b) ≡ (a && b)
and_true a b = ground arith

dedupe-count :
    (t : Text) (seen vs : List Text)
    → count_if (λ v. v == t) (dedupe seen vs)
      ≡ bit (not (t == []) && not (mem t seen) && any (λ v. trim_space v == t) vs)
unfolding dedupe mem
dedupe-count t seen [] = ground arith
dedupe-count t seen (v ∷ vs) =
    let w = trim_space v in
    ground (
      arith,
      eq_iff w [],
      eq_iff w t,
      eq_iff t [],
      dedupe-count t seen vs,
      dedupe-count t (w ∷ seen) vs,
    )

-- The tags that are kept are in order, and a text is among them once where it is not empty and
-- the trimmed form of one of the values, else not at all.
pub dedupe_and_sort_lem :
    (values : List Text)
    → IsSorted (λ v. v) (dedupe_and_sort values)
      × ((t : Text)
          → count_if (λ v. v == t) (dedupe_and_sort values)
            ≡ bit (not (t == []) && any (λ v. trim_space v == t) values))
unfolding dedupe_and_sort mem
dedupe_and_sort_lem vs = (
  sort_by-IsSorted (λ v. v) (dedupe [] vs),
  λ t.
      sort_by-count (λ v. v) (λ v. v == t) (dedupe [] vs)
      ∙ dedupe-count t [] vs
      ∙ ap (λ b. bit b) (and_true (not (t == [])) _),
)

-- A refused record leaves the registry as it was. A record that is accepted is found from then on
-- by every id that trims to the id it was given with, its staleness applied at the time of the
-- question, and no other answer changes.
pub upsert_lem :
    (r : CapabilityRegistry) (c : ProviderCapability) (now : ℕ)
    → ((e : CapabilityError) × (validate_capability c ≡ some e) × (upsert r c now ≡ (r, some e)))
      ⊎ ((validate_capability c ≡ none)
          × ((upsert r c now).1 ≡ none)
          × ((j : Text) (later : ℕ)
              → get (upsert r c now).0 j later ≡ (
                  if trim_space j == []
                  then none
                  else if c.provider_id == trim_space j
                  then some (apply_staleness (normalized c now) later r.ttl)
                  else get r j later)))
unfolding upsert get
upsert_lem r c now = elim (Option-cases (validate_capability c)) [
  | inl fine ↦ inr (
    fine,
    rw (upsert, fine) refl,
    λ j later.
        rw (upsert, fine)
          (ground (arith, lookup-insert c.provider_id (trim_space j) (normalized c now) r.items)),
  )
  | inr (e, refused) ↦ inl (e, refused, rw (upsert, refused) refl)
]

-- `Upsert` checks the trimmed id and stores the record under the id as it is: a record whose id has
-- white space around it is accepted, and asking by that same id answers as if it had not been.
pub upsert_padded :
    (r : CapabilityRegistry) (c : ProviderCapability) (now later : ℕ)
    → validate_capability c ≡ none
    → c.provider_id ≢ trim_space c.provider_id
    → ((upsert r c now).1 ≡ none)
      × (get (upsert r c now).0 c.provider_id later ≡ get r c.provider_id later)
unfolding upsert get
upsert_padded r c now later h padded =
    let j = c.provider_id in
    let other : (j == trim_space j) ≡ false = ground (arith, eq_iff j (trim_space j)) in
    (
      rw (upsert, h) refl,
      rw (upsert, h)
          (ground (arith, other, lookup-insert j (trim_space j) (normalized c now) r.items)),
    )
