-- ===== src/Agents/Uri.antt =====
-- Addresses of agent telemetry, `AgentTelemetryURI` and `ParseAgentTelemetryResourceID` of
-- orchestrator/internal/dispatch/sparse_agents.go.
use emage_code_cwso.Prelude.{
  ◌-◌, ◌≡◌, ◌≢◌, refl, sym, ap, ap₂, ◌∙◌, ◌⊎◌, inl, inr, Bool, true, false, not, ◌||◌, Bool-cases,
  none, some, [], ◌∷◌, ◌++◌, append_assoc, drop, take, length, length-append, take-append-drop,
  drop-append, Text, if◌then◌else◌, ◌==◌, eq_iff, eq_refl, nat_eq, text_eq, arith,
}
use emage_code_cwso.Prelude.Strings.{has_prefix}
use emage_code_cwso.Agents.{
  agent_resource_prefix, agent_telemetry_suffix, has_suffix, trim_prefix, trim_suffix,
  agent_telemetry_uri, contains_any, parse_between, parse_agent_telemetry_resource_id,
}

has_prefix-append : (p s : Text) → has_prefix (p ++ s) p ≡ true
unfolding has_prefix
has_prefix-append [] [] = refl
has_prefix-append [] (c ∷ s) = refl
has_prefix-append (c ∷ p) s = ground (arith, eq_refl c, has_prefix-append p s)

drop_ends : (s p : Text) → drop (length (s ++ p) - length p) (s ++ p) ≡ p
drop_ends s p = ap (λ n. drop n (s ++ p)) (cut s p) ∙ drop-append s p
  where
    cut : (s p : Text) → length (s ++ p) - length p ≡ length s
    cut s p = omega (arith, length-append s p)

take_front : (s p : Text) → take (length (s ++ p) - length p) (s ++ p) ≡ s
take_front s p = ap (λ n. take n (s ++ p)) (cut s p) ∙ front s p
  where
    cut : (s p : Text) → length (s ++ p) - length p ≡ length s
    cut s p = omega (arith, length-append s p)

    front : (s p : Text) → take (length s) (s ++ p) ≡ s
    front [] p = refl
    front (c ∷ s) p = ap (λ l. c ∷ l) (front s p)

has_suffix-append : (s p : Text) → has_suffix (s ++ p) p ≡ true
unfolding has_suffix
has_suffix-append s p = ground (
  arith,
  length-append s p,
  (eq_iff (drop (length (s ++ p) - length p) (s ++ p)) p).1 (drop_ends s p),
)

inner_lem : (start id end : Text) → trim_suffix (trim_prefix (start ++ (id ++ end)) start) end ≡ id
unfolding trim_prefix trim_suffix
inner_lem start id end =
    rw
      (
        trim_prefix,
        has_prefix-append start (id ++ end),
        drop-append start (id ++ end),
        has_suffix-append id end,
      )
      (take_front id end)

between_lem :
    (start id end : Text)
    → id ≢ []
    → contains_any id ≡ false
    → parse_between start end (start ++ (id ++ end)) ≡ some id
unfolding parse_between
between_lem start id end named clean =
    let ends : has_suffix (start ++ (id ++ end)) end ≡ true =
      ap (λ u. has_suffix u end) (sym (append_assoc start id end))
      ∙ has_suffix-append (start ++ id) end in
    let not_empty : (id == []) ≡ false = ground (arith, eq_iff id []) in
    rw
      (
        parse_between,
        has_prefix-append start (id ++ end),
        ends,
        inner_lem start id end,
        not_empty,
        clean,
      )
      refl

-- The address of an agent parses back to its id, where that is not empty and holds none of the
-- bytes that separate the parts of an address.
pub parse_uri :
    (id : Text)
    → id ≢ []
    → contains_any id ≡ false
    → parse_agent_telemetry_resource_id (agent_telemetry_uri id) ≡ some id
unfolding parse_agent_telemetry_resource_id agent_telemetry_uri
parse_uri id named clean = between_lem agent_resource_prefix id agent_telemetry_suffix named clean

guarded_some :
    (a b c : Bool) (x id : Text)
    → (if not a || not b then none else if c then none else some x) ≡ some id
    → (a ≡ true) × (b ≡ true) × (x ≡ id)
guarded_some false b c x id h = ground (arith, h)
guarded_some true false c x id h = ground (arith, h)
guarded_some true true true x id h = ground (arith, h)
guarded_some true true false x id h = (refl, refl, ground (arith, h))

prefix-split : (s p : Text) → has_prefix s p ≡ true → s ≡ p ++ drop (length p) s
unfolding has_prefix
prefix-split s [] h = refl
prefix-split [] (c ∷ p) h = ground arith
prefix-split (d ∷ s) (c ∷ p) h = elim (Bool-cases (d == c)) [
  | inl same ↦ ap₂ ◌∷◌ ((eq_iff d c).0 same) (prefix-split s p (rw same at h))
  | inr other ↦ ground (arith, other)
]

suffix-split : (s p : Text) → has_suffix s p ≡ true → s ≡ take (length s - length p) s ++ p
unfolding has_suffix
suffix-split s p h =
    let e : drop (length s - length p) s ≡ p =
      (eq_iff (drop (length s - length p) s) p).0 (ground arith) in
    sym (take-append-drop (length s - length p) s) ∙ ap (λ t. take (length s - length p) s ++ t) e

trim_suffix-split : (s p : Text) → (s ≡ trim_suffix s p ++ p) ⊎ (s ≡ trim_suffix s p)
unfolding trim_suffix
trim_suffix-split s p = elim (Bool-cases (has_suffix s p)) [
  | inl c ↦ inl (rw c (suffix-split s p c))
  | inr c ↦ inr (rw c refl)
]

parse_between_sound :
    (start end uri id : Text)
    → parse_between start end uri ≡ some id
    → (uri ≡ start ++ (id ++ end)) ⊎ ((uri ≡ start ++ id) × (has_suffix uri end ≡ true))
unfolding parse_between trim_prefix
parse_between_sound start end uri id h =
    let inner = trim_suffix (trim_prefix uri start) end in
    let facts =
      guarded_some (has_prefix uri start) (has_suffix uri end) (inner == [] || contains_any inner)
        inner id h in
    let whole = prefix-split uri start (facts.0) in
    let trimmed : trim_prefix uri start ≡ drop (length start) uri = rw (facts.0) refl in
    elim (trim_suffix-split (trim_prefix uri start) end) [
      | inl e ↦ inl (whole ∙ ap (λ t. start ++ t) (sym trimmed ∙ e ∙ ap (λ t. t ++ end) (facts.2)))
      | inr e ↦ inr (whole ∙ ap (λ t. start ++ t) (sym trimmed ∙ e ∙ facts.2), facts.1)
    ]

-- What parses to an id is the address of that agent, or the prefix of the addresses and the id, where
-- this ends in the suffix of the addresses.
pub parse_uri_sound :
    (uri id : Text)
    → parse_agent_telemetry_resource_id uri ≡ some id
    → (uri ≡ agent_telemetry_uri id)
      ⊎ ((uri ≡ agent_resource_prefix ++ id) × (has_suffix uri agent_telemetry_suffix ≡ true))
unfolding parse_agent_telemetry_resource_id agent_telemetry_uri
parse_uri_sound uri id h = parse_between_sound agent_resource_prefix agent_telemetry_suffix uri id h
