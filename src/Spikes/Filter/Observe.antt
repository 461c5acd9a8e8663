-- ===== src/Spikes/Filter/Observe.antt =====
-- The observation of a write by the semantic filter, orchestrator/internal/dispatch/ast_spike_filter.go:
-- its classification, the conflict warning, and what is published.
use emage_code_cwso.Prelude.{
  ℕ, ◌+◌, ◌%◌, ◌^◌, Bool, not, ◌&&◌, Option, none, some, List, [], ◌∷◌, ◌++◌, length, Text, text,
  if◌then◌else◌, ltb, ◌==◌, nat_eq, text_eq,
}
use emage_code_cwso.Prelude.Map.{Map, lookup, insert}
use emage_code_cwso.Prelude.Sort.{sort_by}
use emage_code_cwso.Prelude.Strings.{decimal}
use emage_code_cwso.Spikes.{
  WriteEvent, rank, SignalPath, redact_anomaly_notes, resolve, detection_latency,
}
use emage_code_cwso.Spikes.Filter.{
  ConflictWarning, Filter, SemanticSpike, Signature, Writer, conflict_severity, or_no_signature,
  peer_list, peers_of, prune_signatures, recent_writers,
}

-- The warning without the symbol and the path, where the notes are dropped.
abbrev pub drop_places : Bool → Option ConflictWarning → Option ConflictWarning
drop_places drop none = none
drop_places drop (some w) = some (if drop then record w { path = []; symbol = [] } else w)

-- The kind of a write and its confidence, as the scorer tells them.
abbrev pub verdict : Filter → WriteEvent → Text × ℕ
verdict f event =
    let (prior, seen) = or_no_signature (lookup event.symbol f.signatures) in
    f.scorer event prior (seen && not (event.symbol == []))

-- What the filter knows of the symbol's signatures once a write is read.
abbrev signatures_after : Filter → WriteEvent → ℕ → Map Text Signature
signatures_after f event at = prune_signatures f.signature_ttl at (
    if not (event.symbol == []) && not (event.signature_hash == [])
    then insert event.symbol (record { signature = event.signature_hash; updated_at = at })
        f.signatures
    else f.signatures)

abbrev pub signed : Filter → WriteEvent → ℕ → Filter
signed f event at = record f { signatures = signatures_after f event at }

-- The filter once a write is read that reaches the threshold.
abbrev pub counted : Filter → WriteEvent → ℕ → Filter
counted f event at = record (signed f event at) { next_spike_id = (f.next_spike_id + 1) % 2 ^ 64 }

module _ (parse_time : Text → Option ℕ) (format_time : ℕ → Text) where
  -- The warning of `detectConflict`, with the peers it names.
  unfoldable pub build_warning :
      Filter → WriteEvent → Text → ℕ → ℕ → SignalPath → List Text → ConflictWarning
  build_warning f event kind confidence at signal named = record {
    warning_id = text "ast-conflict-" ++ decimal ((f.next_warn_id + 1) % 2 ^ 64);
    symbol = event.symbol;
    path = event.path;
    spike_kind = kind;
    confidence = confidence;
    workspaces =
        if event.workspace == [] then named else sort_by (λ p. p) (named ++ event.workspace ∷ []);
    potential_conflict_with = named;
    severity = conflict_severity kind;
    signal_path = signal.path;
    privilege_requirement = signal.privilege;
    detected_at = format_time at;
    notes = redact_anomaly_notes f.redactor signal.notes;
  }

  -- `detectConflict`
  unfoldable pub detect_conflict :
      Filter → WriteEvent → Text → ℕ → ℕ → SignalPath → Filter × Option ConflictWarning
  detect_conflict f event kind confidence at signal =
      let recent = recent_writers f event.symbol at in
      let peers = peers_of event.workspace recent in
      let writer : Writer = record {
        workspace = event.workspace;
        kind = kind;
        confidence = confidence;
        at = at;
      } in
      let named = peer_list f.max_conflict_peers peers in
      let noted : Filter = record f {
        writers = insert event.symbol (recent ++ writer ∷ []) f.writers;
      } in
      let warned : Filter = record noted { next_warn_id = (f.next_warn_id + 1) % 2 ^ 64 } in
      if event.symbol == []
      then (f, none)
      else if length peers == 0
      then (noted, none)
      else (warned, some (build_warning f event kind confidence at signal named))

  -- The spike of a write that reaches the threshold.
  unfoldable pub build_semantic_spike :
      Filter → WriteEvent → Text → ℕ → ℕ → SignalPath → SemanticSpike
  build_semantic_spike f event kind confidence at signal = record {
    spike_id = text "semantic-spike-" ++ decimal ((f.next_spike_id + 1) % 2 ^ 64);
    workspace = event.workspace;
    path = if f.notes_drop then [] else event.path;
    symbol = if f.notes_drop then [] else event.symbol;
    node_path = if f.notes_drop then [] else event.node_path;
    spike_kind = kind;
    confidence = confidence;
    semantic_threshold = f.threshold;
    signal_path = signal.path;
    privilege_requirement = signal.privilege;
    detection_latency = detection_latency parse_time (format_time at) at signal.path;
    detected_at = format_time at;
    notes = redact_anomaly_notes f.redactor signal.notes;
  }

  -- `classify`
  unfoldable pub classify :
      Filter → WriteEvent → ℕ → Bool × Text → Filter × Option SemanticSpike × Option ConflictWarning
  classify f event at check =
      let (kind, confidence) = verdict f event in
      let signal = resolve f.prefer_ebpf check in
      let (f', warning) = detect_conflict (counted f event at) event kind confidence at signal in
      if ltb (rank kind) f.min_rank then (signed f event at, none, none) else (
        f',
        some (build_semantic_spike f event kind confidence at signal),
        drop_places f.notes_drop warning,
      )

-- What the filter publishes: a spike on `ast/semantic-spike`, a warning on `ast/conflict-warning`.
pub data Published : Type 0 where
  semantic : SemanticSpike → Published
  conflict : ConflictWarning → Published

abbrev pub published_of : Option SemanticSpike → Option ConflictWarning → List Published
published_of none none = []
published_of none (some w) = conflict w ∷ []
published_of (some s) none = semantic s ∷ []
published_of (some s) (some w) = semantic s ∷ conflict w ∷ []

-- What is published, up to and with the first that the publisher refuses, and its error.
unfoldable pub publish_each :
    (Published → Option Text) → List Published → List Published × Option Text
publish_each publish [] = ([], none)
publish_each publish (p ∷ ps) =
    let rest = publish_each publish ps in
    elim (publish p) [ none ↦ (p ∷ rest.0, rest.1) | some refused ↦ (p ∷ [], some refused) ]

module _ (parse_time : Text → Option ℕ) (format_time : ℕ → Text)
    (publish : Published → Option Text) where
  -- `ObserveWrite`
  unfoldable pub observe_write :
      Filter → WriteEvent → ℕ → Bool × Text → Filter × List Published × Option Text
  observe_write f event now check =
      let (f', spike, warning) =
        classify parse_time format_time f event (if event.at == 0 then now else event.at) check in
      let (tried, refused) = publish_each publish (published_of spike warning) in
      (f', tried, refused)
