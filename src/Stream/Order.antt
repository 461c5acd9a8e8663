-- ===== src/Stream/Order.antt =====
-- A stream loses nothing that it accepted, keeps its order, and counts what it refused
-- (orchestrator/internal/eventbus/bus.go, orchestrator/internal/memorybroker/broker.go).
use emage_code_cwso.Prelude.{
  ℕ, ◌+◌, ◌^◌, ◌<◌, ◌≡◌, refl, sym, ap, ◌∙◌, Option, none, some, List, [], ◌∷◌, ◌++◌, arith,
  if◌then◌else◌, Bool-cases, Option-cases, inl, inr, append-nil, append_assoc,
}
use emage_code_cwso.Stream
use emage_code_cwso.Stream.{Subscriber, Op, offers, receives, hands_on, abandons, closes}

module _ {A : Type 0} where
  abbrev pub held : Option (A × ℕ) → List A
  held none = []
  held (some (msg, size)) = msg ∷ []

  abbrev pub waiting : List (A × ℕ) → List A
  waiting [] = []
  waiting ((msg, size) ∷ ch) = msg ∷ waiting ch

  -- All that a stream has accepted: what its reader has, what the pump holds, what is queued.
  abbrev pub accepted : Subscriber A → List A
  accepted s = s.delivered ++ (held s.in_flight ++ waiting s.ch)

  waiting-append : (xs ys : List (A × ℕ)) → waiting (xs ++ ys) ≡ waiting xs ++ waiting ys
  waiting-append [] ys = refl
  waiting-append ((m, n) ∷ xs) ys = ap (λ l. m ∷ l) (waiting-append xs ys)

  -- What a stream that is asked in the state `s` takes of an operation.
  abbrev pub taken : Subscriber A → Op A → List A
  taken s (offers msg size) =
      if s.closed then [] else if Stream.is_full s size then [] else msg ∷ []
  taken s _ = []

  abbrev pub refused : Subscriber A → Op A → ℕ
  refused s (offers msg size) = if s.closed then 0 else if Stream.is_full s size then 1 else 0
  refused s _ = 0

  abbrev pub all_taken : Subscriber A → List (Op A) → List A
  all_taken s [] = []
  all_taken s (op ∷ ops) = taken s op ++ all_taken (Stream.step s op) ops

  abbrev pub all_refused : Subscriber A → List (Op A) → ℕ
  all_refused s [] = 0
  all_refused s (op ∷ ops) = refused s op + all_refused (Stream.step s op) ops

  receive-accepted : (s : Subscriber A) → accepted (Stream.receive s) ≡ accepted s
  unfolding Stream.receive
  receive-accepted s = ground arith

  hand_on-accepted : (s : Subscriber A) → accepted (Stream.hand_on s) ≡ accepted s
  unfolding Stream.hand_on
  hand_on-accepted s = elim (Bool-cases s.pumping) [
    | inr stopped ↦ rw stopped
    | inl pumps ↦ rw pumps (elim (Option-cases s.in_flight) [
      | inl idle ↦ rw idle
      | inr ((msg, size), holds) ↦ rw holds (append_assoc s.delivered (msg ∷ []) (waiting s.ch))
    ])
  ]

  offer-accepted :
      (s : Subscriber A) (msg : A) (size : ℕ)
      → accepted (Stream.offer s msg size) ≡ accepted s ++ taken s (offers msg size)
  unfolding Stream.offer
  offer-accepted s msg size = elim (Bool-cases s.closed) [
    | inl shut ↦ rw shut (sym (append-nil (accepted s)))
    | inr open_ ↦ rw open_ (elim (Bool-cases (Stream.is_full s size)) [
      | inl full ↦ rw full (sym (append-nil (accepted s)))
      | inr room ↦ rw room (simp (waiting-append, append_assoc))
    ])
  ]

  step-accepted :
      (s : Subscriber A) (op : Op A) → accepted (Stream.step s op) ≡ accepted s ++ taken s op
  unfolding Stream.step Stream.close Stream.abandon
  step-accepted s (offers msg size) = offer-accepted s msg size
  step-accepted s receives = receive-accepted s ∙ sym (append-nil (accepted s))
  step-accepted s hands_on = hand_on-accepted s ∙ sym (append-nil (accepted s))
  step-accepted s abandons = sym (append-nil (accepted s))
  step-accepted s closes = sym (append-nil (accepted s))

  -- What the reader has received, what the pump holds and what is queued are, in this order, what
  -- was there before and then each message that was offered to the open stream within its bounds.
  pub run-accepted :
      (s : Subscriber A) (ops : List (Op A))
      → accepted (Stream.run s ops) ≡ accepted s ++ all_taken s ops
  unfolding Stream.run
  run-accepted s [] = sym (append-nil (accepted s))
  run-accepted s (op ∷ ops) =
      run-accepted (Stream.step s op) ops
      ∙ ap (λ l. l ++ all_taken (Stream.step s op) ops) (step-accepted s op)
      ∙ append_assoc (accepted s) (taken s op) (all_taken (Stream.step s op) ops)

  step-dropped :
      (s : Subscriber A) (op : Op A)
      → s.dropped + refused s op < 2 ^ 64
      → (Stream.step s op).dropped ≡ s.dropped + refused s op
  unfolding Stream.step Stream.offer Stream.receive Stream.hand_on Stream.close Stream.abandon
  step-dropped s (offers msg size) h = ground arith
  step-dropped s _ h = ground arith

  -- The counter of dropped messages is raised by one for each message refused, until it wraps.
  pub run-dropped :
      (s : Subscriber A) (ops : List (Op A))
      → s.dropped + all_refused s ops < 2 ^ 64
      → (Stream.run s ops).dropped ≡ s.dropped + all_refused s ops
  unfolding Stream.run
  run-dropped s [] h = omega arith
  run-dropped s (op ∷ ops) h =
      let one = step-dropped s op (omega arith) in
      omega (arith, run-dropped (Stream.step s op) ops (omega arith))
