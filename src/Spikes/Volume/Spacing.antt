-- ===== src/Spikes/Volume/Spacing.antt =====
-- How often the volume monitor tells of a spike,
-- orchestrator/internal/dispatch/ast_spike_monitor.go.
use mathlib.Core.Path.{subst}
use emage_code_cwso.Prelude.{
  ℕ, ◌+◌, ◌≤◌, ◌≡◌, refl, sym, ap, ◌∙◌, ◌⊎◌, inl, inr, Bool, true, false, ◌&&◌, Bool-cases, Option,
  none, some, List, [], ◌∷◌, Text, if◌then◌else◌, ◌==◌, eq_iff, nat_eq, text_eq, arith,
}
use emage_code_cwso.Prelude.Map.{lookup}
use emage_code_cwso.Spikes.{Observation, time_of}
use emage_code_cwso.Spikes.Volume.{
  SpikeWindow, MonitorConfig, new_monitor, Monitor, SpikeEvent, window_of, is_debounced,
  record_write, observe_write,
}
use emage_code_cwso.Spikes.Volume.Window.{window_of-insert, record_write-Written}

-- Each time is at least `debounce` after the one before it; 0 is the zero time, of no spike.
abbrev pub IsSpaced : ℕ → ℕ → List ℕ → Type 0
IsSpaced debounce last [] = Unit
IsSpaced debounce last (t ∷ ts) = ((last ≡ 0) ⊎ (last + debounce ≤ t)) × IsSpaced debounce t ts

abbrev is_told : Option SpikeEvent → Bool
is_told none = false
is_told (some e) = true

and_off : (b : Bool) → {t : Bool} → t ≡ false → b && t ≡ false
and_off b e = ground arith

other_off : {b : Bool} → (t : Bool) → b ≡ false → b && t ≡ false
other_off t e = ground arith

and_on : {b t : Bool} → b ≡ true → t ≡ true → b && t ≡ true
and_on e h = ground arith

IsSpaced-skip :
    (debounce last t : ℕ) (b : Bool) (ts : List ℕ)
    → b ≡ false
    → IsSpaced debounce last ts
    → IsSpaced debounce last (if b then t ∷ ts else ts)
IsSpaced-skip debounce last t b ts off h = rw off h

IsSpaced-told :
    (debounce last t : ℕ) (b : Bool) (ts : List ℕ)
    → b ≡ true
    → is_debounced debounce last t ≡ false
    → IsSpaced debounce t ts
    → IsSpaced debounce last (if b then t ∷ ts else ts)
IsSpaced-told debounce last t b ts on free h = rw on (ground arith, h)

module _ (parse_time : Text → Option ℕ) (format_time : ℕ → Text) where
  -- When spikes of a workspace are told of.
  unfoldable pub spike_times : Text → Monitor → List Observation → List ℕ
  spike_times workspace m [] = []
  spike_times workspace m (o ∷ os) =
      let r = observe_write parse_time format_time m o.event o.now o.check in
      let rest = spike_times workspace r.0 os in
      if o.event.workspace == workspace && is_told r.1 then time_of o ∷ rest else rest

  spike_times-IsSpaced :
      (workspace : Text) (debounce : ℕ) (os : List Observation) (m : Monitor)
      → m.debounce ≡ debounce
      → IsSpaced debounce (window_of m workspace).last_spike_at (spike_times workspace m os)
  unfolding spike_times observe_write
  spike_times-IsSpaced workspace debounce [] m kept = tt
  spike_times-IsSpaced workspace debounce (o ∷ os) m kept =
      let w = record_write-Written parse_time format_time m o.event (time_of o) o.check in
      let m' = (record_write parse_time format_time m o.event (time_of o) o.check).0 in
      let moved = window_of-insert m m' o.event.workspace workspace w.entry w.windows in
      let told = is_told (observe_write parse_time format_time m o.event o.now o.check).1 in
      let times = spike_times workspace m' os in
      let last = (window_of m workspace).last_spike_at in
      let rest = spike_times-IsSpaced workspace debounce os m' (w.debounce_kept ∙ kept) in
      let pick : Bool → ℕ = λ b. (if b then w.entry else window_of m workspace).last_spike_at in
      let from : (l : ℕ) → (window_of m' workspace).last_spike_at ≡ l → IsSpaced debounce l times =
        λ l e. subst (λ l'. IsSpaced debounce l' times) e rest in
      let moved_last = ap (λ (v : SpikeWindow). v.last_spike_at) moved in
      elim (Bool-cases (o.event.workspace == workspace)) [
        | inl here ↦
            let there = (eq_iff o.event.workspace workspace).0 here in
            elim w.told [
              | inl (none_told, same) ↦
                  IsSpaced-skip debounce last (time_of o) (o.event.workspace == workspace && told)
                    times (and_off (o.event.workspace == workspace) (ap is_told none_told))
                    (from last (
                      moved_last
                      ∙ ap pick here
                      ∙ same
                      ∙ ap (λ k. (window_of m k).last_spike_at) there))
              | inr (e, some_told, now, free) ↦
                  IsSpaced-told debounce last (time_of o) (o.event.workspace == workspace && told)
                    times (and_on here (ap is_told some_told))
                    (ap (λ d. is_debounced d last (time_of o)) (sym kept)
                      ∙ ap (λ k. is_debounced m.debounce (window_of m k).last_spike_at (time_of o))
                          (sym there)
                      ∙ free)
                    (from (time_of o) (moved_last ∙ ap pick here ∙ now))
            ]
        | inr other ↦
            IsSpaced-skip debounce last (time_of o) (o.event.workspace == workspace && told) times
              (other_off told other) (from last (moved_last ∙ ap pick other))
      ]

  -- The spikes of a workspace are told of in the order of their times and at least the debounce time apart, for any writes of any workspaces with any times; a spike at the zero time counts as none.
  pub run-IsSpaced :
      (cfg : MonitorConfig) (workspace : Text) (os : List Observation)
      → IsSpaced (new_monitor cfg).debounce 0 (spike_times workspace (new_monitor cfg) os)
  unfolding new_monitor lookup
  run-IsSpaced cfg workspace os =
      spike_times-IsSpaced workspace (new_monitor cfg).debounce os (new_monitor cfg) refl
