-- ===== src/Spikes/Filter/Peers.antt =====
-- Of whom a conflict warning warns, orchestrator/internal/dispatch/ast_spike_filter.go.
use emage_code_cwso.Prelude.{
  ℕ, ◌≤◌, ◌≡◌, refl, sym, ap, ◌∙◌, ◌⊎◌, inl, inr, Bool, true, false, not, ◌&&◌, Bool-cases, Option,
  none, some, List, [], ◌∷◌, select, length, length-take, any, All, Text, ltb, ◌==◌, eq_iff, nat_eq,
  text_eq, arith,
}
use emage_code_cwso.Prelude.Members.{mem, Distinct}
use emage_code_cwso.Prelude.Sort.{sort_by, IsSorted, sort_by-IsSorted}
use emage_code_cwso.Prelude.Sorted.{
  mem-sort_by, Distinct-sort_by, Distinct-take, All-take, take-IsSorted, All-mem,
}
use emage_code_cwso.Spikes.{WriteEvent, SignalPath}
use emage_code_cwso.Spikes.Volume.HotPaths.{mem-first_seen, Distinct-first_seen}
use emage_code_cwso.Spikes.Filter.{
  Writer, Filter, ConflictWarning, recent_writers, workspaces_of, peers_of, peer_list,
}
use emage_code_cwso.Spikes.Filter.Observe.{detect_conflict, build_warning}

-- Whether one of the writers stands for another workspace than `workspace`, and for one at all.
unfoldable pub has_rival : Text → List Writer → Bool
has_rival workspace recent =
    any (λ (w : Writer). not (w.workspace == []) && not (w.workspace == workspace)) recent

-- Another workspace, by its name, that is among the writers.
abbrev pub is_rival : Text → List Writer → Text → Bool
is_rival workspace recent p =
    not (p == []) && (not (p == workspace) && mem p (workspaces_of recent))

mem-others :
    (workspace p : Text) (recent : List Writer)
    → mem p (workspaces_of (select (λ (w : Writer). not (w.workspace == workspace)) recent))
      ≡ not (p == workspace) && mem p (workspaces_of recent)
unfolding mem
mem-others workspace p [] = ground arith
mem-others workspace p (w ∷ recent) =
    grind (arith, mem-others workspace p recent, eq_iff w.workspace p)

mem-peers_of :
    (workspace p : Text) (recent : List Writer)
    → mem p (peers_of workspace recent) ≡ is_rival workspace recent p
unfolding peers_of mem
mem-peers_of workspace p recent =
    let others = workspaces_of (select (λ (w : Writer). not (w.workspace == workspace)) recent) in
    ground (arith, mem-first_seen p [] others, mem-others workspace p recent)

has_rival-mem :
    (workspace p : Text) (recent : List Writer)
    → is_rival workspace recent p ≡ true
    → has_rival workspace recent ≡ true
unfolding mem has_rival
has_rival-mem workspace p [] h = absurd (ground arith)
has_rival-mem workspace p (w ∷ recent) h =
    grind (arith, has_rival-mem workspace p recent, eq_iff w.workspace p)

has_rival-none :
    (workspace : Text) (recent : List Writer)
    → ((p : Text) → is_rival workspace recent p ≡ false)
    → has_rival workspace recent ≡ false
unfolding mem has_rival
has_rival-none workspace [] h = refl
has_rival-none workspace (w ∷ recent) h = ground (
  arith,
  h w.workspace,
  eq_iff w.workspace w.workspace,
  has_rival-none workspace recent (λ p. ground (arith, h p)),
)

-- The names a warning gives: other workspaces that are among the writers, in order, each once, and no more than the limit.
abbrev pub NamesRivals : Text → ℕ → List Writer → List Text → Type 0
NamesRivals workspace limit recent names =
    IsSorted (λ p. p) names
    × Distinct names
    × All (λ p. is_rival workspace recent p ≡ true) names
    × (length names ≤ limit)

-- No warning where no other workspace is among the writers; else one that names them.
abbrev pub WarnsOf : Text → ℕ → List Writer → Option ConflictWarning → Type 0
WarnsOf workspace limit recent warning =
    ((has_rival workspace recent ≡ false) × (warning ≡ none))
    ⊎ ((has_rival workspace recent ≡ true)
        × (w : ConflictWarning) × (warning ≡ some w)
        × NamesRivals workspace limit recent w.potential_conflict_with)

peer_list-NamesRivals :
    (workspace : Text) (limit : ℕ) (recent : List Writer)
    → NamesRivals workspace limit recent (peer_list limit (peers_of workspace recent))
unfolding peer_list peers_of
peer_list-NamesRivals workspace limit recent =
    let peers = peers_of workspace recent in
    let sorted = sort_by (λ (p : Text). p) peers in
    let ordered = sort_by-IsSorted (λ (p : Text). p) peers in
    let once =
      Distinct-sort_by (λ (p : Text). p) peers
        (Distinct-first_seen []
          (workspaces_of (select (λ (w : Writer). not (w.workspace == workspace)) recent))) in
    let each : All (λ p. is_rival workspace recent p ≡ true) sorted =
      All-mem (λ p. is_rival workspace recent p ≡ true) sorted
        (λ p there.
          sym (mem-peers_of workspace p recent)
          ∙ sym (mem-sort_by (λ (q : Text). q) p peers)
          ∙ there) in
    elim (Bool-cases (ltb limit (length sorted))) [
      | inl more ↦ rw more (
        take-IsSorted (λ (p : Text). p) limit sorted ordered,
        Distinct-take limit sorted once,
        All-take (λ p. is_rival workspace recent p ≡ true) limit sorted each,
        omega (arith, length-take limit sorted),
      )
      | inr all ↦ rw all (ordered, once, each, ground arith)
    ]

has_rival-peers :
    (workspace : Text) (recent : List Writer) (peers : List Text)
    → peers_of workspace recent ≡ peers
    → has_rival workspace recent ≡ not (length peers == 0)
unfolding mem
has_rival-peers workspace recent [] e =
    has_rival-none workspace recent (λ p. sym (mem-peers_of workspace p recent) ∙ ap (mem p) e)
has_rival-peers workspace recent (p ∷ ps) e =
    has_rival-mem workspace p recent
      (sym (mem-peers_of workspace p recent) ∙ ap (mem p) e ∙ ground (arith, eq_iff p p))
    ∙ ground arith

module _ (parse_time : Text → Option ℕ) (format_time : ℕ → Text) where
  pub detect_conflict_lem :
      (f : Filter) (event : WriteEvent) (kind : Text) (confidence at : ℕ) (signal : SignalPath)
      → (event.symbol == []) ≡ false
      → WarnsOf event.workspace f.max_conflict_peers
          (recent_writers f event.symbol at)
          (detect_conflict parse_time format_time f event kind confidence at signal).1
  unfolding detect_conflict build_warning
  detect_conflict_lem f event kind confidence at signal named =
      let recent = recent_writers f event.symbol at in
      let peers = peers_of event.workspace recent in
      let rival = has_rival-peers event.workspace recent peers refl in
      elim (Bool-cases (length peers == 0)) [
        | inl alone ↦ inl (rival ∙ ap not alone, rw (detect_conflict, named, alone) refl)
        | inr more ↦ inr (
          rival ∙ ap not more,
          build_warning parse_time format_time f event kind confidence at signal
              (peer_list f.max_conflict_peers peers),
          rw (detect_conflict, named, more) refl,
          peer_list-NamesRivals event.workspace f.max_conflict_peers recent,
        )
      ]
