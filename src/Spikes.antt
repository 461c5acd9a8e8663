-- ===== src/Spikes.antt =====
-- Write spikes, orchestrator/internal/dispatch: the write events and spike kinds of
-- ast_spike_monitor.go and ast_spike_filter.go, the signal paths of signal_path.go and the redaction
-- of telemetry.go. The volume monitor is in Spikes/Volume, the semantic filter in Spikes/Filter and
-- the subscriptions in Spikes/Subscriptions. Times are nanoseconds since the year 1, so that Go's
-- zero time is 0; a confidence is counted in hundredths.
pub mod Sliding
pub mod Volume
pub mod Filter
pub mod Subscriptions
mod Tests
use emage_code_cwso.Prelude.{
  ℕ, ◌+◌, ◌-◌, ◌*◌, ◌/◌, Bool, true, false, not, ◌&&◌, ◌||◌, Option, none, some, List, [], ◌∷◌,
  ◌++◌, Text, text, if◌then◌else◌, ltb, leb, ◌==◌, nat_eq, text_eq,
}
use emage_code_cwso.Prelude.Strings.{trim_space, to_lower}

abbrev pub kind_none : Text
kind_none = text "none"

abbrev pub kind_cosmetic : Text
kind_cosmetic = text "cosmetic"

abbrev pub kind_symbol_added : Text
kind_symbol_added = text "symbol_added"

abbrev pub kind_symbol_removed : Text
kind_symbol_removed = text "symbol_removed"

abbrev pub kind_signature_change : Text
kind_signature_change = text "signature_change"

abbrev pub threshold_any : Text
threshold_any = text "any"

-- `WriteEvent`
pub record WriteEvent : Type 0 where
  pub path : Text
  pub workspace : Text
  pub language : Text
  pub at : ℕ
  pub symbol : Text
  pub node_path : Text
  pub signature_hash : Text
  pub change_kind : Text

-- A write as it is observed, with the reading of the clock and what the eBPF checker answers.
pub record Observation : Type 0 where
  pub event : WriteEvent
  pub now : ℕ
  pub check : Bool × Text

abbrev pub time_of : Observation → ℕ
time_of o = if o.event.at == 0 then o.now else o.event.at

-- `rank` of a kind
unfoldable pub rank : Text → ℕ
rank kind =
    if kind == kind_cosmetic
    then 1
    else if kind == kind_symbol_added || kind == kind_symbol_removed
    then 2
    else if kind == kind_signature_change
    then 3
    else 0

-- `thresholdRank`
unfoldable pub threshold_rank : Text → ℕ
threshold_rank threshold =
    if threshold == threshold_any
    then 1
    else if ltb 0 (rank threshold)
    then rank threshold
    else rank kind_signature_change

-- `TelemetryRedactionConfig`
pub record RedactionConfig : Type 0 where
  pub enabled : Bool
  pub request_id_mode : Text
  pub anomaly_notes_mode : Text
  pub request_id_salt : Text

-- `telemetryRedactor`
pub record Redactor : Type 0 where
  pub enabled : Bool
  pub request_id_mode : Text
  pub anomaly_notes_mode : Text
  pub request_id_salt : Text

-- `normalizeRequestIDMode`
unfoldable pub normalize_request_id_mode : Text → Text
normalize_request_id_mode mode =
    let m = to_lower (trim_space mode) in
    if m == text "allow"
    then text "allow"
    else if m == text "hash"
    then text "hash"
    else if m == text "drop"
    then text "drop"
    else []

-- `normalizeAnomalyNotesMode`
unfoldable pub normalize_anomaly_notes_mode : Text → Text
normalize_anomaly_notes_mode mode =
    let m = to_lower (trim_space mode) in
    if m == text "allow" then text "allow" else if m == text "drop" then text "drop" else []

abbrev or_allow : Text → Text
or_allow mode = if mode == [] then text "allow" else mode

-- `newTelemetryRedactor`
unfoldable pub new_telemetry_redactor : RedactionConfig → Redactor
new_telemetry_redactor cfg = record {
  enabled = cfg.enabled;
  request_id_mode = or_allow (normalize_request_id_mode cfg.request_id_mode);
  anomaly_notes_mode = or_allow (normalize_anomaly_notes_mode cfg.anomaly_notes_mode);
  request_id_salt = trim_space cfg.request_id_salt;
}

-- `redactAnomalyNotes`
unfoldable pub redact_anomaly_notes : Redactor → Text → Text
redact_anomaly_notes r notes =
    if not r.enabled then notes else if r.anomaly_notes_mode == text "drop" then [] else notes

-- Whether paths and symbols are dropped with the notes.
unfoldable pub drops_notes : Redactor → Bool
drops_notes r = r.enabled && r.anomaly_notes_mode == text "drop"

-- A signal path with its privilege and notes.
pub record SignalPath : Type 0 where
  pub path : Text
  pub privilege : Text
  pub notes : Text

abbrev pub path_ebpf : Text
path_ebpf = text "ebpf-hook"

abbrev pub path_userspace : Text
path_userspace = text "fallback-userspace"

-- `resolve` of a resolver, with what the checker answers.
unfoldable pub resolve : Bool → Bool × Text → SignalPath
resolve prefer_ebpf check =
    if prefer_ebpf
    then (if check.0
        then record { path = path_ebpf; privilege = text "CAP_BPF/CAP_PERFMON or root"; notes = [] }
        else record {
          path = path_userspace;
          privilege = text "none";
          notes = text "ebpf unavailable: " ++ trim_space check.1;
        })
    else record { path = path_userspace; privilege = text "none"; notes = [] }

-- What a detection latency is: its milliseconds, its mode, and whether it is advisory.
pub record Latency : Type 0 where
  pub ms : ℕ
  pub mode : Text
  pub advisory : Bool

-- `detectionLatency`, with `time.Parse` as an argument.
unfoldable pub detection_latency : (Text → Option ℕ) → Text → ℕ → Text → Latency
detection_latency parse_time emitted_at detected_at path =
    let estimated : Latency = record { ms = 0; mode = text "estimated"; advisory = false } in
    if path == path_ebpf
    then record { ms = 0; mode = text "advisory"; advisory = true }
    else if trim_space emitted_at == []
    then estimated
    else elim (parse_time (trim_space emitted_at)) [
      | none ↦ estimated
      | some t ↦ record {
        ms = (detected_at - t) / 1000000;
        mode = text "measured";
        advisory = false;
      }
    ]

-- The entries of a sliding window that are later than its start.
abbrev pub within : ℕ → ℕ → ℕ → Bool
within window now at = ltb now (at + window)
