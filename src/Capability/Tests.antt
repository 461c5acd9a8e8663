-- ===== src/Capability/Tests.antt =====
-- Small runs of the capability registry (orchestrator/internal/dispatch/capability_registry.go).
use emage_code_cwso.Prelude.{
  ℕ, ◌<◌, ◌≡◌, ◌≢◌, refl, ◌⊎◌, Bool, All, none, some, [], ◌∷◌, map, count_if, if◌then◌else◌, Text,
  text, text_eq, ◌==◌, arith,
}
use emage_code_cwso.Prelude.Int.{pos}
use emage_code_cwso.Prelude.Sort.{IsSorted}
use emage_code_cwso.Prelude.Strings.{trim_space, to_lower}
use emage_code_cwso.Capability.{
  ProviderCapability, CapabilityRegistry, CapabilityError, new_capability_registry,
  validate_capability, known_health, apply_staleness, normalized, upsert, get, snapshot, values,
}
use emage_code_cwso.Capability.Registry.{IsHonest, snapshot_lem, upsert_lem}

abbrev empty : CapabilityRegistry
empty = new_capability_registry (pos 10)

abbrev gpu : Text → ProviderCapability
gpu id = record {
  provider_id = id;
  contract_version = text "v1";
  health_state = text "healthy";
  latency_class = text "low";
  cost_class = text "high";
  queue_depth = pos 0;
  supported_workload_tags = text "b" ∷ text " a" ∷ text "a" ∷ [];
  reliability_class = text "high";
  feature_flags = [];
  last_updated_at = 3;
}

has_ttl : 0 < (upsert empty (gpu (text "g")) 3).0.ttl
unfolding upsert validate_capability known_health trim_space to_lower new_capability_registry
has_ttl = omega arith

snapshot_lem_example :
    let r = (upsert empty (gpu (text "g")) 3).0 in
    let shown = (snapshot r 20).providers in
    IsSorted (λ (c : ProviderCapability). c.provider_id) shown
    × ((p : ProviderCapability → Bool)
        → count_if p shown ≡ count_if p (map (λ c. apply_staleness c 20 r.ttl) (values r.items)))
    × All (IsHonest 20 r.ttl) shown
snapshot_lem_example = snapshot_lem (upsert empty (gpu (text "g")) 3).0 20 has_ttl

upsert_lem_example :
    ((e : CapabilityError) × (validate_capability (gpu (text "g")) ≡ some e)
      × (upsert empty (gpu (text "g")) 3 ≡ (empty, some e)))
    ⊎ ((validate_capability (gpu (text "g")) ≡ none)
        × ((upsert empty (gpu (text "g")) 3).1 ≡ none)
        × ((j : Text) (later : ℕ)
            → get (upsert empty (gpu (text "g")) 3).0 j later ≡ (
                if trim_space j == []
                then none
                else if text "g" == trim_space j
                then some (apply_staleness (normalized (gpu (text "g")) 3) later empty.ttl)
                else get empty j later)))
upsert_lem_example = upsert_lem empty (gpu (text "g")) 3

padded_fine : validate_capability (gpu (text " g")) ≡ none
unfolding validate_capability known_health trim_space to_lower
padded_fine = refl

padded : text " g" ≢ trim_space (text " g")
unfolding trim_space
padded e = cc e
