-- ===== src/Spikes/Volume.antt =====
-- The monitor of write volume, orchestrator/internal/dispatch/ast_spike_monitor.go: a sliding window
-- of writes for each workspace, and a spike where it fills up. What the eBPF checker and
-- `time.Parse` and `time.Format` answer are arguments. The proofs are in the modules below.
pub mod Window
pub mod Spacing
pub mod HotPaths
use emage_code_cwso.Prelude.{
  ℕ, suc, ◌+◌, ◌-◌, ◌*◌, ◌/◌, ◌%◌, ◌^◌, Bool, true, false, not, ◌&&◌, ◌||◌, Option, none, some,
  List, [], ◌∷◌, ◌++◌, select, length, take, count_if, Text, text, if◌then◌else◌, ltb, leb, ◌==◌,
  nat_eq, text_eq,
}
use emage_code_cwso.Prelude.Int.{ℤ, pos_or}
use emage_code_cwso.Prelude.Map.{Map, lookup, insert}
use emage_code_cwso.Prelude.Members.{mem}
use emage_code_cwso.Prelude.Sort.{sort_by}
use emage_code_cwso.Prelude.Strings.{text_ltb, decimal}
use emage_code_cwso.Spikes.{
  WriteEvent, RedactionConfig, Redactor, new_telemetry_redactor, redact_anomaly_notes, drops_notes,
  resolve, Latency, detection_latency, within,
}

abbrev pub millisecond : ℕ
millisecond = 1000000

-- `writeSample`
pub record Sample : Type 0 where
  pub path : Text
  pub language : Text
  pub at : ℕ

-- `spikeWindow`
pub record SpikeWindow : Type 0 where
  pub samples : List Sample
  pub last_spike_at : ℕ

-- `ASTWriteSpikeMonitorConfig`
pub record MonitorConfig : Type 0 where
  pub prefer_ebpf : Bool
  pub window_ms : ℤ
  pub threshold : ℤ
  pub debounce_ms : ℤ
  pub max_hot_paths : ℤ
  pub redaction : RedactionConfig

-- `ASTWriteSpikeMonitor`
pub record Monitor : Type 0 where
  pub prefer_ebpf : Bool
  pub redactor : Redactor
  pub window : ℕ
  pub threshold : ℕ
  pub debounce : ℕ
  pub max_hot_paths : ℕ
  pub notes_drop : Bool
  pub windows : Map Text SpikeWindow
  pub next_id : ℕ

-- `ASTSpikeEvent`
pub record SpikeEvent : Type 0 where
  pub spike_id : Text
  pub workspace : Text
  pub window_ms : ℕ
  pub threshold : ℕ
  pub observed_writes : ℕ
  pub distinct_paths : ℕ
  pub hot_paths : List Text
  pub languages : List Text
  pub severity : Text
  pub signal_path : Text
  pub privilege_requirement : Text
  pub detection_latency : Latency
  pub detected_at : Text
  pub notes : Text

-- `NewASTWriteSpikeMonitor`, with a publisher.
unfoldable pub new_monitor : MonitorConfig → Monitor
new_monitor cfg =
    let redactor = new_telemetry_redactor cfg.redaction in
    let window_ms = pos_or cfg.window_ms 1000 in
    record {
      prefer_ebpf = cfg.prefer_ebpf;
      redactor = redactor;
      window = window_ms * millisecond;
      threshold = pos_or cfg.threshold 8;
      debounce = pos_or cfg.debounce_ms window_ms * millisecond;
      max_hot_paths = pos_or cfg.max_hot_paths 5;
      notes_drop = drops_notes redactor;
      windows = [];
      next_id = 0;
    }

-- `spikeSeverity`
unfoldable pub spike_severity : ℕ → ℕ → Text
spike_severity count threshold =
    if ltb 0 threshold && leb (2 * threshold) count then text "critical" else text "warning"

-- How often a path was written.
unfoldable pub writes_of : List Sample → Text → ℕ
writes_of samples path = count_if (λ (s : Sample). s.path == path) samples

-- The texts that are not empty, each once, in the order of their first place.
unfoldable pub first_seen : List Text → List Text → List Text
first_seen seen [] = []
first_seen seen (t ∷ ts) =
    let without = first_seen seen ts in
    let with_it = t ∷ first_seen (t ∷ seen) ts in if t == [] || mem t seen then without else with_it

abbrev pub paths_of : List Sample → List Text
paths_of [] = []
paths_of (s ∷ ss) = s.path ∷ paths_of ss

abbrev pub languages_of : List Sample → List Text
languages_of [] = []
languages_of (s ∷ ss) = s.language ∷ languages_of ss

-- The comparison of `topPaths`.
unfoldable pub hotter : List Sample → Text → Text → Bool
hotter samples p q =
    if not (writes_of samples p == writes_of samples q)
    then ltb (writes_of samples q) (writes_of samples p)
    else text_ltb p q

unfoldable pub insert_hot : List Sample → Text → List Text → List Text
insert_hot samples p [] = p ∷ []
insert_hot samples p (q ∷ qs) =
    let later = q ∷ insert_hot samples p qs in if hotter samples q p then later else p ∷ q ∷ qs

unfoldable pub sort_hot : List Sample → List Text → List Text
sort_hot samples [] = []
sort_hot samples (p ∷ ps) = insert_hot samples p (sort_hot samples ps)

-- `topPaths`
unfoldable pub top_paths : List Sample → ℕ → List Text × ℕ
top_paths samples limit =
    let paths = first_seen [] (paths_of samples) in
    let order = sort_hot samples paths in
    (if ltb 0 limit && ltb limit (length order) then take limit order else order, length paths)

-- `distinctLanguages`
unfoldable pub distinct_languages : List Sample → List Text
distinct_languages samples = sort_by (λ l. l) (first_seen [] (languages_of samples))

abbrev pub or_empty : Option SpikeWindow → SpikeWindow
or_empty none = record { samples = []; last_spike_at = 0 }
or_empty (some w) = w

abbrev pub window_of : Monitor → Text → SpikeWindow
window_of m workspace = or_empty (lookup workspace m.windows)

-- The samples of a window once a write is observed.
unfoldable pub slide : ℕ → List Sample → Sample → List Sample
slide window samples new = select (λ (s : Sample). within window new.at s.at) samples ++ new ∷ []

-- Whether a spike is held back as long as the last one is recent.
abbrev pub is_debounced : ℕ → ℕ → ℕ → Bool
is_debounced debounce last at = not (last == 0) && ltb at (last + debounce)

-- Whether no spike is told of: too few writes, or too soon after the last one.
unfoldable pub is_held : Monitor → ℕ → ℕ → ℕ → Bool
is_held m last count at = ltb count m.threshold || is_debounced m.debounce last at

module _ (parse_time : Text → Option ℕ) (format_time : ℕ → Text) where
  -- `buildSpike`, for a window whose last write is the one that is observed.
  unfoldable pub build_spike : Monitor → Text → List Sample → ℕ → Bool × Text → SpikeEvent
  build_spike m workspace samples at check =
      let signal = resolve m.prefer_ebpf check in
      let (hot_paths, distinct) = top_paths samples m.max_hot_paths in
      record {
        spike_id = text "ast-spike-" ++ decimal ((m.next_id + 1) % 2 ^ 64);
        workspace = workspace;
        window_ms = m.window / millisecond;
        threshold = m.threshold;
        observed_writes = length samples;
        distinct_paths = distinct;
        hot_paths = if m.notes_drop then [] else hot_paths;
        languages = distinct_languages samples;
        severity = spike_severity (length samples) m.threshold;
        signal_path = signal.path;
        privilege_requirement = signal.privilege;
        detection_latency = detection_latency parse_time (format_time at) at signal.path;
        detected_at = format_time at;
        notes = redact_anomaly_notes m.redactor signal.notes;
      }

  -- `record`
  unfoldable pub record_write : Monitor → WriteEvent → ℕ → Bool × Text → Monitor × Option SpikeEvent
  record_write m event at check =
      let win = window_of m event.workspace in
      let samples =
        slide m.window win.samples
          (record { path = event.path; language = event.language; at = at }) in
      let kept : SpikeWindow = record win { samples = samples } in
      let spiked : SpikeWindow = record { samples = samples; last_spike_at = at } in
      if is_held m win.last_spike_at (length samples) at
      then (record m { windows = insert event.workspace kept m.windows }, none)
      else (
        record m {
          windows = insert event.workspace spiked m.windows;
          next_id = (m.next_id + 1) % 2 ^ 64;
        },
        some (build_spike m event.workspace samples at check),
      )

  -- `ObserveWrite`: the new monitor and the spike that is published, with the clock's reading for
  -- an event without a time.
  unfoldable pub observe_write :
      Monitor → WriteEvent → ℕ → Bool × Text → Monitor × Option SpikeEvent
  observe_write m event now check =
      record_write m event (if event.at == 0 then now else event.at) check
