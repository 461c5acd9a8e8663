-- ===== src/EventBus.antt =====
-- The in-process bus, orchestrator/internal/eventbus/bus.go: every message that is published is
-- offered to each current subscriber. A payload is what `json.Marshal` made of it, or that it failed.
pub mod Delivery
mod Tests
use emage_code_cwso.Prelude.{
  ℕ, suc, ◌+◌, ◌%◌, ◌^◌, Bool, true, false, Option, none, some, List, [], ◌∷◌, ◌++◌, map, length,
  Text, if◌then◌else◌, ◌==◌, nat_eq, text_eq,
}
use emage_code_cwso.Prelude.Int.{ℤ, pos_or}
use emage_code_cwso.Prelude.Map.{Map, lookup, insert, remove}
use emage_code_cwso.Stream
use emage_code_cwso.Stream.{Subscriber, Op}

pub record Message : Type 0 where
  pub topic : Text
  pub payload : Text

abbrev pub default_queue_depth : ℕ
default_queue_depth = 256

abbrev pub default_queue_bytes : ℕ
default_queue_bytes = 2 ^ 20

-- `Bus`. `closed_subs` holds the streams that have left the map; their readers may still drain them.
pub record Bus : Type 0 where
  pub next_id : ℕ
  pub subs : Map ℕ (Subscriber Message)
  pub queue_depth : ℕ
  pub queue_bytes : ℕ
  pub closed_subs : Map ℕ (Subscriber Message)

-- `New` with the options `WithQueueDepth` and `WithSubscriberMaxBytes`, which ignore a value that
-- is not positive.
unfoldable pub new_bus : ℤ → ℤ → Bus
new_bus depth max_bytes = record {
  next_id = 0;
  subs = [];
  queue_depth = pos_or depth default_queue_depth;
  queue_bytes = pos_or max_bytes default_queue_bytes;
  closed_subs = [];
}

pub data PublishError : Type 0 where
  topic_required marshal_failed : PublishError

-- The loop of `Publish` over the subscribers.
unfoldable pub offer_all : Message → ℕ → Map ℕ (Subscriber Message) → Map ℕ (Subscriber Message)
offer_all msg size [] = []
offer_all msg size ((id, s) ∷ subs) = (id, Stream.offer s msg size) ∷ offer_all msg size subs

-- `Publish`; `encoded` is what `json.Marshal` returns of the payload.
unfoldable pub publish : Bus → Text → Option Text → Bus × Option PublishError
publish b [] encoded = (b, some topic_required)
publish b (c ∷ topic) none = (b, some marshal_failed)
publish b (c ∷ topic) (some payload) = (
  record b {
    subs =
        offer_all (record { topic = c ∷ topic; payload = payload })
          (length (c ∷ topic) + length payload) b.subs;
  },
  none,
)

-- `Subscribe`, with the id of the new stream.
unfoldable pub subscribe : Bus → Bus × ℕ
subscribe b =
    let id = (b.next_id + 1) % 2 ^ 64 in
    (
      record b {
        next_id = id;
        subs = insert id (Stream.new_subscriber id b.queue_depth b.queue_bytes) b.subs;
      },
      id,
    )

-- `Subscription.Close`: a second call does nothing, since the stream has left the map.
unfoldable pub close : Bus → ℕ → Bus
close b id = elim (lookup id b.subs) [
  | none ↦ b
  | some s ↦ record b {
    subs = remove id b.subs;
    closed_subs = insert id (Stream.close s) b.closed_subs;
  }
]

-- A step of the pump or the reader of one stream.
unfoldable pub on_stream : Bus → ℕ → Op Message → Bus
on_stream b id op = elim (lookup id b.subs) [
  | none ↦ b
  | some s ↦ record b { subs = insert id (Stream.step s op) b.subs }
]

pub data Event : Type 0 where
  publishes : Text → Option Text → Event
  subscribes : Event
  closes : ℕ → Event
  receives : ℕ → Event
  hands_on : ℕ → Event

unfoldable pub step : Bus → Event → Bus
step b (publishes topic encoded) = (publish b topic encoded).0
step b subscribes = (subscribe b).0
step b (closes id) = close b id
step b (receives id) = on_stream b id Op.receives
step b (hands_on id) = on_stream b id Op.hands_on

unfoldable pub run : Bus → List Event → Bus
run b [] = b
run b (e ∷ es) = run (step b e) es
