-- ===== src/Capability.antt =====
-- The registry of provider capabilities, orchestrator/internal/dispatch/capability_registry.go. Times
-- are nanoseconds since the year 1, so that Go's zero time is 0, and a difference of two times is
-- taken to fit a `time.Duration`. The proofs are in the modules below.
pub mod Registry
mod Tests
use emage_code_cwso.Prelude.{
  ℕ, zero, suc, ◌+◌, ◌*◌, ◌%◌, ◌^◌, Bool, true, false, not, ◌&&◌, ◌||◌, Option, none, some, List,
  [], ◌∷◌, map, Text, text, if◌then◌else◌, ltb, ◌==◌, nat_eq, text_eq,
}
use emage_code_cwso.Prelude.Int.{ℤ, is_neg, pos_or}
use emage_code_cwso.Prelude.Map.{Map, lookup, insert}
use emage_code_cwso.Prelude.Members.{mem}
use emage_code_cwso.Prelude.Strings.{trim_space, to_lower}
use emage_code_cwso.Prelude.Sort.{sort_by}

abbrev pub healthy : Text
healthy = text "healthy"

abbrev pub degraded : Text
degraded = text "degraded"

abbrev pub unavailable : Text
unavailable = text "unavailable"

-- `ProviderCapability`
pub record ProviderCapability : Type 0 where
  pub provider_id : Text
  pub contract_version : Text
  pub health_state : Text
  pub latency_class : Text
  pub cost_class : Text
  pub queue_depth : ℤ
  pub supported_workload_tags : List Text
  pub reliability_class : Text
  pub feature_flags : List Text
  pub last_updated_at : ℕ

-- `CapabilitySnapshot`
pub record CapabilitySnapshot : Type 0 where
  pub epoch : ℕ
  pub captured_at : ℕ
  pub providers : List ProviderCapability

-- `CapabilityRegistry`; the clock is an argument of its methods.
pub record CapabilityRegistry : Type 0 where
  pub ttl : ℕ
  pub epoch : ℕ
  pub items : Map Text ProviderCapability

-- `NewCapabilityRegistry`
unfoldable pub new_capability_registry : ℤ → CapabilityRegistry
new_capability_registry snapshot_ttl = record {
  ttl = pos_or snapshot_ttl (30 * 10 ^ 9);
  epoch = 0;
  items = [];
}

-- The error texts of `validateCapability`.
pub data CapabilityError : Type 0 where
  provider_id_required contract_version_required latency_class_required : CapabilityError
  cost_class_required reliability_class_required : CapabilityError
  negative_queue_depth invalid_health_state : CapabilityError

unfoldable pub known_health : Text → Bool
known_health s = if s == healthy then true else if s == degraded then true else s == unavailable

-- `validateCapability`
unfoldable pub validate_capability : ProviderCapability → Option CapabilityError
validate_capability c =
    if trim_space c.provider_id == []
    then some provider_id_required
    else if trim_space c.contract_version == []
    then some contract_version_required
    else if trim_space c.latency_class == []
    then some latency_class_required
    else if trim_space c.cost_class == []
    then some cost_class_required
    else if trim_space c.reliability_class == []
    then some reliability_class_required
    else if is_neg c.queue_depth
    then some negative_queue_depth
    else if known_health (to_lower (trim_space c.health_state))
    then none
    else some invalid_health_state

-- `applyStaleness`; `strings.EqualFold` with "healthy" is a comparison of the lowered text, since
-- no rune beyond ASCII folds into one of its letters.
unfoldable pub apply_staleness : ProviderCapability → ℕ → ℕ → ProviderCapability
apply_staleness c now ttl =
    if ttl == 0 || c.last_updated_at == 0
    then c
    else if ltb (c.last_updated_at + ttl) now && to_lower c.health_state == healthy
    then record c { health_state = degraded }
    else c

-- The loop of `dedupeAndSort`: the values that are kept, in order.
unfoldable pub dedupe : List Text → List Text → List Text
dedupe seen [] = []
dedupe seen (v ∷ vs) =
    let trimmed = trim_space v in
    let without = dedupe seen vs in
    let with_it = trimmed ∷ dedupe (trimmed ∷ seen) vs in
    if trimmed == [] then without else if mem trimmed seen then without else with_it

-- `dedupeAndSort`; nil and an empty slice are not told apart.
unfoldable pub dedupe_and_sort : List Text → List Text
dedupe_and_sort values = sort_by (λ v. v) (dedupe [] values)

-- The record that `Upsert` stores.
unfoldable pub normalized : ProviderCapability → ℕ → ProviderCapability
normalized c now = record c {
  last_updated_at = if c.last_updated_at == 0 then now else c.last_updated_at;
  supported_workload_tags = dedupe_and_sort c.supported_workload_tags;
  feature_flags = dedupe_and_sort c.feature_flags;
}

-- `Upsert`
unfoldable pub upsert :
    CapabilityRegistry → ProviderCapability → ℕ → CapabilityRegistry × Option CapabilityError
upsert r c now = elim (validate_capability c) [
  | some e ↦ (r, some e)
  | none ↦ (
    record r {
      epoch = (r.epoch + 1) % 2 ^ 64;
      items = insert c.provider_id (normalized c now) r.items;
    },
    none,
  )
]

-- `Get`
unfoldable pub get : CapabilityRegistry → Text → ℕ → Option ProviderCapability
get r provider_id now =
    if trim_space provider_id == [] then none else elim (lookup (trim_space provider_id) r.items) [
      | none ↦ none
      | some c ↦ some (apply_staleness c now r.ttl)
    ]

abbrev pub values : Map Text ProviderCapability → List ProviderCapability
values [] = []
values ((k, c) ∷ m) = c ∷ values m

-- `Snapshot`
unfoldable pub snapshot : CapabilityRegistry → ℕ → CapabilitySnapshot
snapshot r now = record {
  epoch = r.epoch;
  captured_at = now;
  providers =
      sort_by (λ (c : ProviderCapability). c.provider_id)
        (map (λ c. apply_staleness c now r.ttl) (values r.items));
}
