-- ===== src/Spikes/Volume/Window.antt =====
-- What the windows of the volume monitor hold,
-- orchestrator/internal/dispatch/ast_spike_monitor.go.
use mathlib.Core.Path.{subst}
use emage_code_cwso.Prelude.{
  ℕ, ◌<◌, ◌≡◌, refl, sym, ap, ◌∙◌, ◌⊎◌, inl, inr, Bool, true, false, Bool-cases, Option, none, some,
  List, [], ◌∷◌, ◌++◌, append_assoc, append-nil, length, Text, if◌then◌else◌, ◌==◌, eq_iff, nat_eq,
  text_eq, arith,
}
use emage_code_cwso.Prelude.Int.{pos_or_positive}
use emage_code_cwso.Prelude.Map.{lookup, insert, lookup-insert}
use emage_code_cwso.Spikes.{WriteEvent, Observation, time_of}
use emage_code_cwso.Spikes.Sliding.{held, younger, held-younger, last_time, IsOrdered, held-next}
use emage_code_cwso.Spikes.Volume.{
  Sample, SpikeWindow, MonitorConfig, new_monitor, Monitor, SpikeEvent, or_empty, slide, window_of,
  is_debounced, is_held, build_spike, record_write, observe_write,
}

abbrev pub sample_of : Observation → Sample
sample_of o = record { path = o.event.path; language = o.event.language; at = time_of o }

-- The writes of a workspace, in order.
unfoldable pub writes_in : Text → List Observation → List Sample
writes_in workspace [] = []
writes_in workspace (o ∷ os) =
    let rest = writes_in workspace os in
    if o.event.workspace == workspace then sample_of o ∷ rest else rest

writes_in-here :
    (workspace : Text) (o : Observation) (os : List Observation)
    → (o.event.workspace == workspace) ≡ true
    → writes_in workspace (o ∷ os) ≡ sample_of o ∷ writes_in workspace os
unfolding writes_in
writes_in-here workspace o os here = simp (here) refl

writes_in-other :
    (workspace : Text) (o : Observation) (os : List Observation)
    → (o.event.workspace == workspace) ≡ false
    → writes_in workspace (o ∷ os) ≡ writes_in workspace os
unfolding writes_in
writes_in-other workspace o os other = simp (other) refl

abbrev pub at_of : Sample → ℕ
at_of s = s.at

-- What the observation of a write makes of the monitor.
pub record Written (m : Monitor) (event : WriteEvent) (at : ℕ) (r : Monitor × Option SpikeEvent)
    : Type 0 where
  pub entry : SpikeWindow
  pub windows : r.0.windows ≡ insert event.workspace entry m.windows
  pub samples :
      entry.samples
      ≡ slide m.window
          (window_of m event.workspace).samples
          (record { path = event.path; language = event.language; at = at })
  pub window_kept : r.0.window ≡ m.window
  pub debounce_kept : r.0.debounce ≡ m.debounce
  pub told :
      ((r.1 ≡ none) × (entry.last_spike_at ≡ (window_of m event.workspace).last_spike_at))
      ⊎ ((e : SpikeEvent) × (r.1 ≡ some e)
          × (entry.last_spike_at ≡ at)
          × (is_debounced m.debounce (window_of m event.workspace).last_spike_at at ≡ false))

or_empty-if :
    (b : Bool) (entry : SpikeWindow) (o : Option SpikeWindow)
    → or_empty (if b then some entry else o) ≡ (if b then entry else or_empty o)
or_empty-if true entry o = refl
or_empty-if false entry o = refl

pub window_of-insert :
    (m m' : Monitor) (key workspace : Text) (entry : SpikeWindow)
    → m'.windows ≡ insert key entry m.windows
    → window_of m' workspace ≡ (if key == workspace then entry else window_of m workspace)
window_of-insert m m' key workspace entry e =
    ap or_empty (ap (λ ws. lookup workspace ws) e ∙ lookup-insert key workspace entry m.windows)
    ∙ or_empty-if (key == workspace) entry (lookup workspace m.windows)

module _ (parse_time : Text → Option ℕ) (format_time : ℕ → Text) where
  -- `ObserveWrite` on one write after the other.
  unfoldable pub run : Monitor → List Observation → Monitor
  run m [] = m
  run m (o ∷ os) = run (observe_write parse_time format_time m o.event o.now o.check).0 os

  pub record_write-Written :
      (m : Monitor) (event : WriteEvent) (at : ℕ) (check : Bool × Text)
      → Written m event at (record_write parse_time format_time m event at check)
  unfolding record_write is_held
  record_write-Written m event at check =
      let win = window_of m event.workspace in
      let new : Sample = record { path = event.path; language = event.language; at = at } in
      let samples = slide m.window win.samples new in
      elim (Bool-cases (is_held m win.last_spike_at (length samples) at)) [
        | inl held ↦
            simp (record_write, held)
              (record {
                entry = record { samples = samples; last_spike_at = win.last_spike_at };
                windows = refl;
                samples = refl;
                window_kept = refl;
                debounce_kept = refl;
                told = inl (refl, refl);
              })
        | inr free ↦
            simp (record_write, free)
              (record {
                entry = record { samples = samples; last_spike_at = at };
                windows = refl;
                samples = refl;
                window_kept = refl;
                debounce_kept = refl;
                told = inr (
                  build_spike parse_time format_time m event.workspace samples at check,
                  refl,
                  refl,
                  ground arith,
                );
              })
      ]

  -- What is to be shown of a monitor once the writes `new` of a workspace follow.
  abbrev Slid : Text → ℕ → Monitor → ℕ → List Sample → List Sample → Type 0
  Slid workspace window m a hist new =
      IsOrdered at_of a new
      → (window_of m workspace).samples ≡ held at_of window (last_time at_of a new) (hist ++ new)

  run_window-from :
      (workspace : Text) (window : ℕ) (os : List Observation) (m : Monitor) (a : ℕ)
      (hist : List Sample)
      → 0 < window
      → m.window ≡ window
      → (window_of m workspace).samples ≡ held at_of window a hist
      → Slid workspace window (run m os) a hist (writes_in workspace os)
  unfolding run writes_in observe_write slide
  run_window-from workspace window [] m a hist wide kept e =
      λ ordered. e ∙ ap (held at_of window a) (sym (append-nil hist))
  run_window-from workspace window (o ∷ os) m a hist wide kept e =
      let w = record_write-Written m o.event (time_of o) o.check in
      let m' = (record_write parse_time format_time m o.event (time_of o) o.check).0 in
      let moved = window_of-insert m m' o.event.workspace workspace w.entry w.windows in
      let pick : Bool → SpikeWindow = λ b. if b then w.entry else window_of m workspace in
      let kept' = w.window_kept ∙ kept in
      elim (Bool-cases (o.event.workspace == workspace)) [
        | inl here ↦
            subst (Slid workspace window (run m' os) a hist)
              (sym (writes_in-here workspace o os here))
              (λ ordered.
                let samples =
                  ap (λ (v : SpikeWindow). v.samples) (moved ∙ ap pick here)
                  ∙ w.samples
                  ∙ ap (λ k. slide m.window (window_of m k).samples (sample_of o))
                      ((eq_iff o.event.workspace workspace).0 here)
                  ∙ ap (λ l. slide l (window_of m workspace).samples (sample_of o)) kept
                  ∙ ap (λ l. slide window l (sample_of o)) e
                  ∙ held-next at_of window a hist (sample_of o) wide ordered.0 in
                run_window-from workspace window os m' (time_of o) (hist ++ sample_of o ∷ []) wide
                  kept' samples ordered.1
                ∙ ap (held at_of window (last_time at_of (time_of o) (writes_in workspace os)))
                    (append_assoc hist (sample_of o ∷ []) (writes_in workspace os)))
        | inr other ↦
            subst (Slid workspace window (run m' os) a hist)
              (sym (writes_in-other workspace o os other))
              (run_window-from workspace window os m' a hist wide kept'
                (ap (λ (v : SpikeWindow). v.samples) (moved ∙ ap pick other) ∙ e))
      ]

  -- With writes that come in the order of their times, the window of a workspace holds its own writes, in order: those that are less than the window older than the last of them.
  pub run_window :
      (cfg : MonitorConfig) (workspace : Text) (os : List Observation)
      → IsOrdered at_of 0 (writes_in workspace os)
      → (window_of (run (new_monitor cfg) os) workspace).samples
        ≡ younger at_of
            (new_monitor cfg).window
            (last_time at_of 0 (writes_in workspace os))
            (writes_in workspace os)
  unfolding new_monitor lookup
  run_window cfg workspace os ordered =
      run_window-from workspace (new_monitor cfg).window os (new_monitor cfg) 0 []
        (omega (arith, pos_or_positive cfg.window_ms 1000 ground arith)) refl refl ordered
      ∙ held-younger at_of (new_monitor cfg).window (last_time at_of 0 (writes_in workspace os))
          (writes_in workspace os)
