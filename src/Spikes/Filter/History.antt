-- ===== src/Spikes/Filter/History.antt =====
-- Which writes of a run a conflict warning takes account of,
-- orchestrator/internal/dispatch/ast_spike_filter.go.
use emage_code_cwso.Prelude.{
  ℕ, ◌<◌, ◌≡◌, refl, sym, ap, ◌∙◌, inl, inr, Bool, true, false, not, ◌&&◌, Bool-cases, Option, some,
  List, [], ◌∷◌, ◌++◌, length, append_assoc, append-nil, Text, if◌then◌else◌, ltb, ◌==◌, eq_iff,
  nat_eq, text_eq, arith,
}
use emage_code_cwso.Prelude.Map.{lookup, lookup-insert}
use emage_code_cwso.Spikes.{WriteEvent, Observation, time_of, SignalPath, rank, resolve}
use emage_code_cwso.Spikes.Sliding.{held, last_time, IsOrdered, held-next}
use emage_code_cwso.Spikes.Filter.{Writer, Filter, or_no_writers, recent_writers, peers_of}
use emage_code_cwso.Spikes.Filter.Observe.{
  Published, verdict, detect_conflict, signed, counted, classify, observe_write,
}

abbrev pub at_of : Writer → ℕ
at_of w = w.at

abbrev pub writers_of : Filter → Text → List Writer
writers_of f symbol = or_no_writers (lookup symbol f.writers)

-- Whether a write reaches the filter's threshold.
abbrev pub is_semantic : Filter → WriteEvent → Bool
is_semantic f event = not (ltb (rank (verdict f event).0) f.min_rank)

abbrev pub writer_of : Filter → Observation → Writer
writer_of f o = record {
  workspace = o.event.workspace;
  kind = (verdict f o.event).0;
  confidence = (verdict f o.event).1;
  at = time_of o;
}

-- What the observation of a write keeps of the filter, and makes of its writers.
record Noted (f : Filter) (o : Observation) (f' : Filter) : Type 0 where
  window_kept : f'.conflict_window ≡ f.conflict_window
  limit_kept : f'.max_conflict_peers ≡ f.max_conflict_peers
  writers :
      (symbol : Text)
      → (symbol == []) ≡ false
      → writers_of f' symbol ≡ (
          if o.event.symbol == symbol && is_semantic f o.event
          then recent_writers f symbol (time_of o) ++ writer_of f o ∷ []
          else writers_of f symbol)

or_no_writers-if :
    (b : Bool) (ws : List Writer) (o : Option (List Writer))
    → or_no_writers (if b then some ws else o) ≡ (if b then ws else or_no_writers o)
or_no_writers-if true ws o = refl
or_no_writers-if false ws o = refl

same_symbol :
    (put : Text → List Writer) (a b : Text) (other : List Writer)
    → (if a == b then put a else other) ≡ (if a == b then put b else other)
same_symbol put a b other = elim (Bool-cases (a == b)) [
  | inl same ↦ rw same (ap put ((eq_iff a b).0 same))
  | inr apart ↦ rw apart refl
]

both_if :
    {b : Bool}
    → (t : Bool) (x y : List Writer) → b ≡ true
    → (if t && b then x else y) ≡ (if t then x else y)
both_if t x y e = ground arith

neither_if : {b : Bool} → (t : Bool) (x y : List Writer) → b ≡ false → (if t && b then x else y) ≡ y
neither_if t x y e = ground arith

module _ (parse_time : Text → Option ℕ) (format_time : ℕ → Text)
    (publish : Published → Option Text) where
  abbrev pub observed : Filter → Observation → Filter
  observed f o = (observe_write parse_time format_time publish f o.event o.now o.check).0

  -- `ObserveWrite` on one write after the other.
  unfoldable pub run : Filter → List Observation → Filter
  run f [] = f
  run f (o ∷ os) = run (observed f o) os

  -- The writes of a symbol that reach the threshold, in order.
  unfoldable pub semantic_writers : Text → Filter → List Observation → List Writer
  semantic_writers symbol f [] = []
  semantic_writers symbol f (o ∷ os) =
      let rest = semantic_writers symbol (observed f o) os in
      if o.event.symbol == symbol && is_semantic f o.event then writer_of f o ∷ rest else rest

  module _ (f : Filter) (event : WriteEvent) (kind : Text) (confidence at : ℕ)
      (signal : SignalPath) where
    abbrev after : Filter
    after = (detect_conflict parse_time format_time f event kind confidence at signal).0

    abbrev writer : Writer
    writer = record { workspace = event.workspace; kind = kind; confidence = confidence; at = at }

    detect_conflict-kept :
        (after.conflict_window ≡ f.conflict_window)
        × (after.max_conflict_peers ≡ f.max_conflict_peers)
    unfolding detect_conflict
    detect_conflict-kept = ground arith

    detect_conflict-writers :
        (symbol : Text)
        → (symbol == []) ≡ false
        → writers_of
            (detect_conflict parse_time format_time f event kind confidence at signal).0
            symbol
          ≡ (if event.symbol == symbol
              then recent_writers f symbol at ++ writer ∷ []
              else writers_of f symbol)
    unfolding detect_conflict
    detect_conflict-writers symbol named =
        let recent = recent_writers f event.symbol at in
        let peers = peers_of event.workspace recent in
        let put =
          ap or_no_writers (lookup-insert event.symbol symbol (recent ++ writer ∷ []) f.writers)
          ∙ or_no_writers-if (event.symbol == symbol) (recent ++ writer ∷ [])
              (lookup symbol f.writers)
          ∙ same_symbol (λ k. recent_writers f k at ++ writer ∷ []) event.symbol symbol
              (writers_of f symbol) in
        elim (Bool-cases (event.symbol == [])) [
          | inl nameless ↦
              let other : (event.symbol == symbol) ≡ false =
                grind
                  (arith, eq_iff event.symbol [], eq_iff symbol [], eq_iff event.symbol symbol) in
              rw (detect_conflict, nameless, other) refl
          | inr has_name ↦ elim (Bool-cases (length peers == 0)) [
            | inl alone ↦ rw (detect_conflict, has_name, alone) put
            | inr more ↦ rw (detect_conflict, has_name, more) put
          ]
        ]

  observed-below :
      (f : Filter) (o : Observation)
      → is_semantic f o.event ≡ false
      → observed f o ≡ signed f o.event (time_of o)
  unfolding observe_write classify
  observed-below f o below = ground arith

  observed-reached :
      (f : Filter) (o : Observation)
      → is_semantic f o.event ≡ true
      → observed f o
        ≡ after
            (counted f o.event (time_of o))
            o.event
            (verdict f o.event).0
            (verdict f o.event).1
            (time_of o)
            (resolve f.prefer_ebpf o.check)
  unfolding observe_write classify
  observed-reached f o reached = ground arith

  observed-Noted : (f : Filter) (o : Observation) → Noted f o (observed f o)
  observed-Noted f o = elim (Bool-cases (is_semantic f o.event)) [
    | inl reached ↦
        let (kind, confidence) = verdict f o.event in
        let g = counted f o.event (time_of o) in
        let signal = resolve f.prefer_ebpf o.check in
        let same = observed-reached f o reached in
        let kept = detect_conflict-kept g o.event kind confidence (time_of o) signal in
        record {
          window_kept = ap (λ (x : Filter). x.conflict_window) same ∙ kept.0;
          limit_kept = ap (λ (x : Filter). x.max_conflict_peers) same ∙ kept.1;
          writers = λ symbol named.
              ap (λ x. writers_of x symbol) same
              ∙ detect_conflict-writers g o.event kind confidence (time_of o) signal symbol named
              ∙ sym (both_if (o.event.symbol == symbol) _ _ reached);
        }
    | inr below ↦
        let same = observed-below f o below in
        record {
          window_kept = ap (λ (x : Filter). x.conflict_window) same;
          limit_kept = ap (λ (x : Filter). x.max_conflict_peers) same;
          writers = λ symbol named.
              ap (λ x. writers_of x symbol) same
              ∙ sym (neither_if (o.event.symbol == symbol) _ _ below);
        }
  ]

  pub run_writers :
      (symbol : Text) (window : ℕ) (os : List Observation) (f : Filter) (a : ℕ) (hist : List Writer)
      → (symbol == []) ≡ false
      → 0 < window
      → f.conflict_window ≡ window
      → writers_of f symbol ≡ held at_of window a hist
      → IsOrdered at_of a (semantic_writers symbol f os)
      → writers_of (run f os) symbol
        ≡ held at_of window
            (last_time at_of a (semantic_writers symbol f os))
            (hist ++ semantic_writers symbol f os)
  unfolding run semantic_writers
  run_writers symbol window [] f a hist named wide kept e =
      λ ordered. e ∙ ap (held at_of window a) (sym (append-nil hist))
  run_writers symbol window (o ∷ os) f a hist named wide kept e =
      let noted = observed-Noted f o in
      let counts = o.event.symbol == symbol && is_semantic f o.event in
      let new = writer_of f o in
      let rest = semantic_writers symbol (observed f o) os in
      let kept' = noted.window_kept ∙ kept in
      let pick : Bool → List Writer =
        λ b. if b then recent_writers f symbol (time_of o) ++ new ∷ [] else writers_of f symbol in
      elim (Bool-cases counts) [
        | inl yes' ↦ rw yes' (λ ordered.
            let writers =
              noted.writers symbol named
              ∙ ap pick yes'
              ∙ ap (λ l. held at_of l (time_of o) (writers_of f symbol) ++ new ∷ []) kept
              ∙ ap (λ l. held at_of window (time_of o) l ++ new ∷ []) e
              ∙ held-next at_of window a hist new wide ordered.0 in
            run_writers symbol window os (observed f o) (time_of o) (hist ++ new ∷ []) named wide
              kept' writers ordered.1
            ∙ ap (held at_of window (last_time at_of (time_of o) rest))
                (append_assoc hist (new ∷ []) rest))
        | inr no' ↦ rw no' (
            run_writers symbol window os (observed f o) a hist named wide kept'
              (noted.writers symbol named ∙ ap pick no' ∙ e))
      ]

  pub run-limit :
      (os : List Observation) (f : Filter) → (run f os).max_conflict_peers ≡ f.max_conflict_peers
  unfolding run
  run-limit [] f = refl
  run-limit (o ∷ os) f = run-limit os (observed f o) ∙ (observed-Noted f o).limit_kept

  pub run-window :
      (os : List Observation) (f : Filter) → (run f os).conflict_window ≡ f.conflict_window
  unfolding run
  run-window [] f = refl
  run-window (o ∷ os) f = run-window os (observed f o) ∙ (observed-Noted f o).window_kept
