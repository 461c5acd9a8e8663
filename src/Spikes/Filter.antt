-- ===== src/Spikes/Filter.antt =====
-- The semantic filter of writes, orchestrator/internal/dispatch/ast_spike_filter.go: the kind of a
-- write by the last signature of its symbol, the spike of a write that reaches the threshold, and
-- the warning where other workspaces wrote the symbol within the window. What the eBPF checker, the
-- publisher, `time.Parse` and `time.Format` answer are arguments. The proofs are in the modules below.
pub mod Observe
pub mod Peers
pub mod History
pub mod Warnings
use emage_code_cwso.Prelude.{
  ℕ, ◌+◌, ◌*◌, ◌%◌, ◌^◌, Bool, true, false, not, ◌&&◌, ◌||◌, Option, none, some, List, [], ◌∷◌,
  ◌++◌, select, length, take, Text, text, if◌then◌else◌, ltb, leb, ◌==◌, nat_eq, text_eq,
}
use emage_code_cwso.Prelude.Int.{ℤ, pos_or}
use emage_code_cwso.Prelude.Map.{Map, lookup, insert}
use emage_code_cwso.Prelude.Sort.{sort_by}
use emage_code_cwso.Prelude.Strings.{decimal}
use emage_code_cwso.Spikes.{
  WriteEvent, kind_none, kind_cosmetic, kind_symbol_added, kind_symbol_removed,
  kind_signature_change, rank, threshold_rank, RedactionConfig, Redactor, SignalPath,
  new_telemetry_redactor, redact_anomaly_notes, drops_notes, resolve, Latency, detection_latency,
  within,
}
use emage_code_cwso.Spikes.Volume.{first_seen, millisecond}

-- `SemanticScorer`: the kind of a write and its confidence, in hundredths.
abbrev pub Scorer : Type 0
Scorer = WriteEvent → Text → Bool → Text × ℕ

-- What `HeuristicSemanticScorer` tells from the signatures alone.
unfoldable pub kind_of_delta : WriteEvent → Text → Bool → Text × ℕ
kind_of_delta ev prior_signature seen_symbol =
    if ev.symbol == [] || ev.signature_hash == []
    then (kind_none, 0)
    else if not seen_symbol
    then (kind_symbol_added, 75)
    else if not (prior_signature == ev.signature_hash)
    then (kind_signature_change, 90)
    else (kind_cosmetic, 30)

-- `HeuristicSemanticScorer`
unfoldable pub heuristic_semantic_scorer : Scorer
heuristic_semantic_scorer ev prior_signature seen_symbol =
    let kind = ev.change_kind in
    if kind == kind_signature_change
    then (kind_signature_change, 95)
    else if kind == kind_symbol_added || kind == kind_symbol_removed
    then (kind, 90)
    else if kind == kind_cosmetic
    then (kind_cosmetic, 60)
    else if kind == kind_none
    then (kind_none, 0)
    else kind_of_delta ev prior_signature seen_symbol

-- `SemanticSpikeEvent`
pub record SemanticSpike : Type 0 where
  pub spike_id : Text
  pub workspace : Text
  pub path : Text
  pub symbol : Text
  pub node_path : Text
  pub spike_kind : Text
  pub confidence : ℕ
  pub semantic_threshold : Text
  pub signal_path : Text
  pub privilege_requirement : Text
  pub detection_latency : Latency
  pub detected_at : Text
  pub notes : Text

-- `SemanticConflictWarning`
pub record ConflictWarning : Type 0 where
  pub warning_id : Text
  pub symbol : Text
  pub path : Text
  pub spike_kind : Text
  pub confidence : ℕ
  pub workspaces : List Text
  pub potential_conflict_with : List Text
  pub severity : Text
  pub signal_path : Text
  pub privilege_requirement : Text
  pub detected_at : Text
  pub notes : Text

-- `ASTSpikeFilterConfig`
pub record FilterConfig : Type 0 where
  pub prefer_ebpf : Bool
  pub semantic_threshold : Text
  pub conflict_window_ms : ℤ
  pub signature_ttl_ms : ℤ
  pub max_conflict_peers : ℤ
  pub scorer : Option Scorer
  pub redaction : RedactionConfig

-- `symbolSignature`
pub record Signature : Type 0 where
  pub signature : Text
  pub updated_at : ℕ

-- `symbolWriter`
pub record Writer : Type 0 where
  pub workspace : Text
  pub kind : Text
  pub confidence : ℕ
  pub at : ℕ

-- `ASTSpikeFilter`
pub record Filter : Type 0 where
  pub prefer_ebpf : Bool
  pub redactor : Redactor
  pub scorer : Scorer
  pub threshold : Text
  pub min_rank : ℕ
  pub conflict_window : ℕ
  pub signature_ttl : ℕ
  pub max_conflict_peers : ℕ
  pub notes_drop : Bool
  pub signatures : Map Text Signature
  pub writers : Map Text (List Writer)
  pub next_spike_id : ℕ
  pub next_warn_id : ℕ

abbrev pub scorer_or : Option Scorer → Scorer
scorer_or none = heuristic_semantic_scorer
scorer_or (some s) = s

-- `NewASTSpikeFilter`, with a publisher.
unfoldable pub new_filter : FilterConfig → Filter
new_filter cfg =
    let threshold =
      if cfg.semantic_threshold == [] then kind_signature_change else cfg.semantic_threshold in
    let redactor = new_telemetry_redactor cfg.redaction in
    record {
      prefer_ebpf = cfg.prefer_ebpf;
      redactor = redactor;
      scorer = scorer_or cfg.scorer;
      threshold = threshold;
      min_rank = threshold_rank threshold;
      conflict_window = pos_or cfg.conflict_window_ms 2000 * millisecond;
      signature_ttl = pos_or cfg.signature_ttl_ms 30000 * millisecond;
      max_conflict_peers = pos_or cfg.max_conflict_peers 8;
      notes_drop = drops_notes redactor;
      signatures = [];
      writers = [];
      next_spike_id = 0;
      next_warn_id = 0;
    }

abbrev pub or_no_signature : Option Signature → Text × Bool
or_no_signature none = ([], false)
or_no_signature (some s) = (s.signature, true)

abbrev pub or_no_writers : Option (List Writer) → List Writer
or_no_writers none = []
or_no_writers (some ws) = ws

-- `pruneSignatures`
unfoldable pub prune_signatures : ℕ → ℕ → Map Text Signature → Map Text Signature
prune_signatures ttl at signatures =
    select (λ (x : Text × Signature). within ttl at x.1.updated_at) signatures

-- The writers of a symbol that are within the correlation window.
abbrev pub recent_writers : Filter → Text → ℕ → List Writer
recent_writers f symbol at =
    select (λ (w : Writer). within f.conflict_window at w.at)
      (or_no_writers (lookup symbol f.writers))

abbrev pub workspaces_of : List Writer → List Text
workspaces_of [] = []
workspaces_of (w ∷ ws) = w.workspace ∷ workspaces_of ws

-- The other workspaces among the writers, each once.
unfoldable pub peers_of : Text → List Writer → List Text
peers_of workspace recent =
    first_seen [] (workspaces_of (select (λ (w : Writer). not (w.workspace == workspace)) recent))

-- The peers that are named, in order.
unfoldable pub peer_list : ℕ → List Text → List Text
peer_list limit peers =
    let sorted = sort_by (λ p. p) peers in
    if ltb limit (length sorted) then take limit sorted else sorted

-- `conflictSeverity`
unfoldable pub conflict_severity : Text → Text
conflict_severity kind = if kind == kind_signature_change then text "critical" else text "warning"
