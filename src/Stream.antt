-- ===== src/Stream.antt =====
-- A bounded live stream, as orchestrator/internal/eventbus/bus.go and
-- orchestrator/internal/memorybroker/broker.go both have it: a channel of messages with their sizes,
-- limits on their number and their bytes, and a pump that hands them on one by one.
pub mod Bounds
pub mod Order
mod Tests
use emage_code_cwso.Prelude.{
  ℕ, suc, ◌+◌, ◌-◌, ◌%◌, ◌^◌, Bool, true, false, ◌||◌, Option, none, some, List, [], ◌∷◌, ◌++◌,
  length, if◌then◌else◌, ltb, leb,
}

-- `subscriber`, with the state of its pump: whether it runs, the message that it has received from
-- the channel and not yet handed on, and what its reader has received.
pub record Subscriber (A : Type 0) : Type 0 where
  pub id : ℕ
  pub ch : List (A × ℕ)
  pub depth : ℕ
  pub queued_bytes : ℕ
  pub max_bytes : ℕ
  pub closed : Bool
  pub dropped : ℕ
  pub pumping : Bool
  pub in_flight : Option (A × ℕ)
  pub delivered : List A

module _ {A : Type 0} where
  -- `make(chan …, queueDepth)` with the bounds of the bus
  unfoldable pub new_subscriber : ℕ → ℕ → ℕ → Subscriber A
  new_subscriber id depth max_bytes = record {
    id = id;
    ch = [];
    depth = depth;
    queued_bytes = 0;
    max_bytes = max_bytes;
    closed = false;
    dropped = 0;
    pumping = true;
    in_flight = none;
    delivered = [];
  }

  -- The test of `offer`: the message would pass a bound.
  unfoldable pub is_full : Subscriber A → ℕ → Bool
  is_full s size = ltb s.max_bytes (s.queued_bytes + size) || leb s.depth (length s.ch)

  -- `offer`. The `default` of its `select` is not reached: only the pump receives, so a channel
  -- that was seen to have room still has it.
  unfoldable pub offer : Subscriber A → A → ℕ → Subscriber A
  unfolding is_full
  offer s msg size =
      if s.closed
      then s
      else if is_full s size
      then record s { dropped = (s.dropped + 1) % 2 ^ 64 }
      else record s { ch = s.ch ++ (msg, size) ∷ []; queued_bytes = s.queued_bytes + size }

  -- `onDequeued`: the byte count stops at 0.
  unfoldable pub on_dequeued : Subscriber A → ℕ → Subscriber A
  on_dequeued s size = record s { queued_bytes = s.queued_bytes - size }

  -- `close`
  unfoldable pub close : Subscriber A → Subscriber A
  close s = record s { closed = true }

  -- `pump`: the next message is received from the channel, also from a closed one.
  receive_from : Subscriber A → Option (A × ℕ) → List (A × ℕ) → Subscriber A
  receive_from s (some x) ch = s
  receive_from s none [] = s
  receive_from s none (x ∷ ch) = record s { ch = ch; in_flight = some x }

  unfoldable pub receive : Subscriber A → Subscriber A
  unfolding receive_from
  receive s = if s.pumping then receive_from s s.in_flight s.ch else s

  -- `pump`: the reader takes the message that the pump holds.
  hand_on_held : Subscriber A → Option (A × ℕ) → Subscriber A
  unfolding on_dequeued
  hand_on_held s none = s
  hand_on_held s (some (msg, size)) = record (on_dequeued s size) {
    in_flight = none;
    delivered = s.delivered ++ msg ∷ [];
  }

  unfoldable pub hand_on : Subscriber A → Subscriber A
  unfolding hand_on_held
  hand_on s = if s.pumping then hand_on_held s s.in_flight else s

  -- `pump` returns, as `done` is closed; the message that it holds goes to nobody.
  unfoldable pub abandon : Subscriber A → Subscriber A
  abandon s = record s { pumping = false }

-- What publishers, the pump, the reader and the owner of a stream do to it.
pub data Op (A : Type 0) : Type 0 where
  offers : A → ℕ → Op A
  receives : Op A
  hands_on : Op A
  abandons : Op A
  closes : Op A

module _ {A : Type 0} where
  unfoldable pub step : Subscriber A → Op A → Subscriber A
  step s (offers msg size) = offer s msg size
  step s receives = receive s
  step s hands_on = hand_on s
  step s abandons = abandon s
  step s closes = close s

  unfoldable pub run : Subscriber A → List (Op A) → Subscriber A
  run s [] = s
  run s (op ∷ ops) = run (step s op) ops
