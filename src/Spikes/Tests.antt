-- ===== src/Spikes/Tests.antt =====
-- Writes to try the volume monitor on, orchestrator/internal/dispatch/ast_spike_monitor.go.
mod Conflicts
mod Subscribers
use emage_code_cwso.Prelude.{
  ℕ, ◌+◌, ◌*◌, ◌≤◌, ◌≡◌, refl, Bool, true, false, ◌⊎◌, ◌&&◌, inl, inr, Option, none, some, List, [],
  ◌∷◌, All, any, length, Text, text, if◌then◌else◌, ltb, leb, ◌==◌, nat_eq, text_eq, arith,
}
use emage_code_cwso.Prelude.Int.{pos}
use emage_code_cwso.Prelude.Map.{lookup, insert, remove}
use emage_code_cwso.Prelude.Strings.{decimal}
use emage_code_cwso.Spikes.{
  WriteEvent, RedactionConfig, Observation, time_of, kind_signature_change,
}
use emage_code_cwso.Spikes.Sliding.{younger, last_time, IsOrdered}
use emage_code_cwso.Spikes.Volume.{
  MonitorConfig, new_monitor, window_of, observe_write, record_write, is_held, slide,
}
use emage_code_cwso.Spikes.Volume.Window.{run, writes_in, at_of, run_window}
use emage_code_cwso.Spikes.Volume.Spacing.{spike_times, IsSpaced, run-IsSpaced}

abbrev pub parse_none : Text → Option ℕ
parse_none t = none

abbrev pub second : ℕ
second = 1000000000

abbrev pub plain : RedactionConfig
plain = record {
  enabled = false;
  request_id_mode = [];
  anomaly_notes_mode = [];
  request_id_salt = [];
}

abbrev pub write_at : Text → ℕ → Text → Observation
write_at workspace at signature = record {
  event = record {
    path = text "a.go";
    workspace = workspace;
    language = text "go";
    at = at;
    symbol = text "Run";
    node_path = [];
    signature_hash = signature;
    change_kind = [];
  };
  now = 0;
  check = (false, []);
}

-- Two writes of `w` that are two seconds apart, and one of `v` between them.
abbrev pub writes : List Observation
writes =
    write_at (text "w") (1 * second) (text "s1")
    ∷ write_at (text "v") (2 * second) (text "s2")
    ∷ write_at (text "w") (3 * second) (text "s3")
    ∷ []

abbrev volume : MonitorConfig
volume = record {
  prefer_ebpf = false;
  window_ms = pos 1500;
  threshold = pos 1;
  debounce_ms = pos 1000;
  max_hot_paths = pos 2;
  redaction = plain;
}

windows_test :
    length (window_of (run parse_none decimal (new_monitor volume) writes) (text "w")).samples ≡ 1
unfolding run observe_write record_write is_held slide new_monitor lookup insert
windows_test = refl

spikes_test :
    spike_times parse_none decimal (text "w") (new_monitor volume) writes
    ≡ 1 * second ∷ 3 * second ∷ []
unfolding spike_times observe_write record_write is_held slide new_monitor lookup insert
spikes_test = refl

run_window_example :
    (window_of (run parse_none decimal (new_monitor volume) writes) (text "w")).samples
    ≡ younger at_of
        (new_monitor volume).window
        (last_time at_of 0 (writes_in (text "w") writes))
        (writes_in (text "w") writes)
unfolding writes_in
run_window_example =
    run_window parse_none decimal volume (text "w") writes (ground arith, (ground arith, tt))

run-IsSpaced_example :
    IsSpaced
      (new_monitor volume).debounce
      0
      (spike_times parse_none decimal (text "w") (new_monitor volume) writes)
run-IsSpaced_example = run-IsSpaced parse_none decimal volume (text "w") writes
