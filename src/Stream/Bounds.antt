-- ===== src/Stream/Bounds.antt =====
-- A stream holds no more messages and bytes than its bounds, and its byte count is exact
-- (orchestrator/internal/eventbus/bus.go, orchestrator/internal/memorybroker/broker.go).
use emage_code_cwso.Prelude.{
  ℕ, ◌+◌, ◌≤◌, ◌≡◌, Option, none, some, List, [], ◌∷◌, ◌++◌, length, length-append, arith,
}
use emage_code_cwso.Stream
use emage_code_cwso.Stream.{Subscriber, Op, offers, receives, hands_on, abandons, closes}

module _ {A : Type 0} where
  abbrev pub sizes : List (A × ℕ) → ℕ
  sizes [] = 0
  sizes ((msg, size) ∷ ch) = size + sizes ch

  abbrev pub held_size : Option (A × ℕ) → ℕ
  held_size none = 0
  held_size (some (msg, size)) = size

  sizes-append : (xs ys : List (A × ℕ)) → sizes (xs ++ ys) ≡ sizes xs + sizes ys
  sizes-append [] ys = omega arith
  sizes-append ((m, n) ∷ xs) ys = omega (arith, sizes-append xs ys)

  pub record IsBounded (s : Subscriber A) : Type 0 where
    pub few : length s.ch ≤ s.depth
    pub light : s.queued_bytes ≤ s.max_bytes
    pub exact : s.queued_bytes ≡ sizes s.ch + held_size s.in_flight

  offer-IsBounded :
      (s : Subscriber A) (msg : A) (size : ℕ) → IsBounded s → IsBounded (Stream.offer s msg size)
  unfolding Stream.offer
  offer-IsBounded s msg size b =
      ground (arith, length-append s.ch ((msg, size) ∷ []), sizes-append s.ch ((msg, size) ∷ []))

  receive-IsBounded : (s : Subscriber A) → IsBounded s → IsBounded (Stream.receive s)
  unfolding Stream.receive
  receive-IsBounded s b = ground arith

  hand_on-IsBounded : (s : Subscriber A) → IsBounded s → IsBounded (Stream.hand_on s)
  unfolding Stream.hand_on
  hand_on-IsBounded s b = ground arith

  pub step-IsBounded : (s : Subscriber A) (op : Op A) → IsBounded s → IsBounded (Stream.step s op)
  unfolding Stream.step Stream.close Stream.abandon
  step-IsBounded s (offers msg size) b = offer-IsBounded s msg size b
  step-IsBounded s receives b = receive-IsBounded s b
  step-IsBounded s hands_on b = hand_on-IsBounded s b
  step-IsBounded s abandons b = record { few = b.few; light = b.light; exact = b.exact }
  step-IsBounded s closes b = record { few = b.few; light = b.light; exact = b.exact }

  -- Whatever is offered, received and handed on, in any order, a stream keeps within its bounds
  -- and its byte count is the size of what it still holds.
  pub run-IsBounded :
      (s : Subscriber A) (ops : List (Op A)) → IsBounded s → IsBounded (Stream.run s ops)
  unfolding Stream.run
  run-IsBounded s [] b = b
  run-IsBounded s (op ∷ ops) b = run-IsBounded (Stream.step s op) ops (step-IsBounded s op b)

  pub new_subscriber-IsBounded :
      (id depth max_bytes : ℕ) → IsBounded (Stream.new_subscriber {A = A} id depth max_bytes)
  unfolding Stream.new_subscriber
  new_subscriber-IsBounded id depth max_bytes = omega arith
