-- ===== src/Spikes/Filter/Warnings.antt =====
-- When a run of writes warns of a conflict, orchestrator/internal/dispatch/ast_spike_filter.go.
use emage_code_cwso.Prelude.{
  ℕ, ◌≡◌, Bool, true, false, Option, none, some, List, [], ◌∷◌, if◌then◌else◌, Text, nat_eq,
  text_eq,
}
use emage_code_cwso.Spikes.Filter.{SemanticSpike, Writer, Filter, ConflictWarning}
use emage_code_cwso.Spikes.Filter.Observe.{Published, semantic, conflict}
use emage_code_cwso.Spikes.Filter.Peers.{WarnsOf}

abbrev pub is_taken : Option Text → Bool
is_taken none = true
is_taken (some refused) = false

abbrev pub warnings : Option ConflictWarning → List Published
warnings none = []
warnings (some w) = conflict w ∷ []

module _ (parse_time : Text → Option ℕ) (format_time : ℕ → Text)
    (publish : Published → Option Text) where
  -- What is handed to the publisher: the spike, and then the warning, where there is one and the publisher takes the spike.
  abbrev pub told : SemanticSpike → Option ConflictWarning → List Published
  told spike warning =
      semantic spike ∷ (if is_taken (publish (semantic spike)) then warnings warning else [])

  -- What the observation of a write tells, the spike first.
  abbrev pub Warned : Text → ℕ → List Writer → List Published → Type 0
  Warned workspace limit recent published =
      (spike : SemanticSpike) × (warning : Option ConflictWarning) × WarnsOf workspace limit recent
        warning
      × (published ≡ told spike warning)
