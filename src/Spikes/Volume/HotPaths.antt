-- ===== src/Spikes/Volume/HotPaths.antt =====
-- The paths a spike names, and the texts seen once of a list,
-- orchestrator/internal/dispatch/ast_spike_monitor.go.
use emage_code_cwso.Prelude.{
  ◌≡◌, inl, inr, not, ◌&&◌, ◌||◌, Bool-cases, List, [], ◌∷◌, Text, ◌==◌, eq_iff, nat_eq, text_eq,
  arith,
}
use emage_code_cwso.Prelude.Members.{mem, Distinct}
use emage_code_cwso.Spikes.Volume.{first_seen}

pub mem-first_seen :
    (t : Text) (seen ts : List Text)
    → mem t (first_seen seen ts) ≡ (not (t == []) && not (mem t seen)) && mem t ts
unfolding first_seen mem
mem-first_seen t seen [] = ground arith
mem-first_seen t seen (u ∷ ts) = elim (Bool-cases (u == [] || mem u seen)) [
  | inl k ↦ rw (first_seen, k) (grind (arith, mem-first_seen t seen ts, eq_iff u t))
  | inr k ↦ rw (first_seen, k) (grind (arith, mem-first_seen t (u ∷ seen) ts, eq_iff u t))
]

pub Distinct-first_seen : (seen ts : List Text) → Distinct (first_seen seen ts)
unfolding first_seen mem
Distinct-first_seen seen [] = tt
Distinct-first_seen seen (u ∷ ts) = elim (Bool-cases (u == [] || mem u seen)) [
  | inl k ↦ rw (first_seen, k) (Distinct-first_seen seen ts)
  | inr k ↦
      rw (first_seen, k)
        (
          (ground (arith, mem-first_seen u (u ∷ seen) ts, eq_iff u u)),
          Distinct-first_seen (u ∷ seen) ts,
        )
]
