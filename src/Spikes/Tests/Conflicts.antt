-- ===== src/Spikes/Tests/Conflicts.antt =====
-- Writes to try the semantic filter on, orchestrator/internal/dispatch/ast_spike_filter.go.
use emage_code_cwso.Prelude.{
  ◌≡◌, refl, false, Option, none, some, List, [], ◌∷◌, Text, text, nat_eq, text_eq,
}
use emage_code_cwso.Prelude.Int.{pos}
use emage_code_cwso.Prelude.Map.{lookup, insert}
use emage_code_cwso.Prelude.Members.{mem}
use emage_code_cwso.Prelude.Sort.{sort_by, insert_by}
use emage_code_cwso.Prelude.Strings.{decimal, text_ltb}
use emage_code_cwso.Spikes.{Observation, rank, threshold_rank, drops_notes, new_telemetry_redactor}
use emage_code_cwso.Spikes.Volume.{first_seen}
use emage_code_cwso.Spikes.Filter.{
  FilterConfig, new_filter, ConflictWarning, heuristic_semantic_scorer, kind_of_delta,
  prune_signatures, peers_of, peer_list,
}
use emage_code_cwso.Spikes.Filter.Observe.{
  Published, classify, observe_write, detect_conflict, build_warning,
}
use emage_code_cwso.Spikes.Filter.History.{run}
use emage_code_cwso.Spikes.Tests.{parse_none, plain, write_at}

abbrev accept : Published → Option Text
accept p = none

abbrev any_change : FilterConfig
any_change = record {
  prefer_ebpf = false;
  semantic_threshold = text "any";
  conflict_window_ms = pos 2000;
  signature_ttl_ms = pos 30000;
  max_conflict_peers = pos 1;
  scorer = none;
  redaction = plain;
}

-- Writes of `Run` by `u` and `v`, half a second apart.
abbrev earlier : List Observation
earlier =
    write_at (text "v") 1000000000 (text "s1") ∷ write_at (text "u") 1500000000 (text "s2") ∷ []

abbrev later : Observation
later = write_at (text "w") 2000000000 (text "s3")

abbrev peers_of_warning : Option ConflictWarning → List Text
peers_of_warning none = []
peers_of_warning (some w) = w.potential_conflict_with

first_peer_test :
    peers_of_warning
      (classify parse_none decimal
        (run parse_none decimal accept (new_filter any_change) earlier)
        later.event
        2000000000
        (false, [])).2
    ≡ text "u" ∷ []
unfolding run observe_write classify detect_conflict new_filter lookup insert
    heuristic_semantic_scorer kind_of_delta rank threshold_rank prune_signatures peers_of peer_list
    first_seen sort_by insert_by build_warning mem drops_notes new_telemetry_redactor text_ltb
first_peer_test = refl
