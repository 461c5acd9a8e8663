-- ===== src/EventBus/Delivery.antt =====
-- Delivery on the bus (orchestrator/internal/eventbus/bus.go): subscribers do not disturb one
-- another, each stays within its bounds, and a closed one gets nothing more.
use emage_code_cwso.Prelude.{
  ℕ, ◌+◌, ◌%◌, ◌^◌, ◌≤◌, ◌<◌, ◌≡◌, ◌≢◌, refl, Option, none, some, List, [], ◌∷◌, length, Text, ◌==◌,
  nat_eq, text_eq, arith, eq_iff, Option-cases, Bool-cases, inl, inr,
}
use emage_code_cwso.Prelude.Int.{ℤ}
use emage_code_cwso.Prelude.Map.{Map, lookup, insert, remove, lookup-insert, lookup-remove}
use emage_code_cwso.Stream
use emage_code_cwso.Stream.{Subscriber, Op}
use emage_code_cwso.Stream.Bounds.{IsBounded, step-IsBounded, new_subscriber-IsBounded}
use emage_code_cwso.EventBus
use emage_code_cwso.EventBus.{
  Bus, Message, Event, publishes, subscribes, closes, receives, hands_on,
}

abbrev pub offered : Message → ℕ → Option (Subscriber Message) → Option (Subscriber Message)
offered msg size none = none
offered msg size (some s) = some (Stream.offer s msg size)

lookup-offer_all :
    (id : ℕ) (msg : Message) (size : ℕ) (subs : Map ℕ (Subscriber Message))
    → lookup id (EventBus.offer_all msg size subs) ≡ offered msg size (lookup id subs)
unfolding EventBus.offer_all lookup
lookup-offer_all id msg size [] = refl
lookup-offer_all id msg size ((j, s) ∷ subs) = ground (arith, lookup-offer_all id msg size subs)

-- A message with a topic, whose payload marshals, is offered to every current subscriber with the
-- bytes of its topic and payload for its size, and what one subscriber does with it depends on
-- that subscriber alone.
pub publish_isolated :
    (b : Bus) (topic payload : Text) (id : ℕ)
    → topic ≢ []
    → let msg : Message = record { topic = topic; payload = payload } in
      lookup id (EventBus.publish b topic (some payload)).0.subs
      ≡ offered msg (length topic + length payload) (lookup id b.subs)
unfolding EventBus.publish
publish_isolated b [] payload id h = absurd (h refl)
publish_isolated b (c ∷ topic) payload id h =
    lookup-offer_all id (record { topic = c ∷ topic; payload = payload })
      (length (c ∷ topic) + length payload) b.subs

-- A publish that reports an error changes nothing.
pub publish_error_unchanged :
    (b : Bus) (topic : Text) (encoded : Option Text)
    → (EventBus.publish b topic encoded).1 ≢ none
    → (EventBus.publish b topic encoded).0 ≡ b
unfolding EventBus.publish
publish_error_unchanged b [] encoded h = refl
publish_error_unchanged b (c ∷ topic) none h = refl
publish_error_unchanged b (c ∷ topic) (some payload) h = absurd (h refl)

abbrev pub Within : Option (Subscriber Message) → Type 0
Within none = Unit
Within (some s) = IsBounded s

-- What holds of a bus between two steps.
pub record IsValid (b : Bus) : Type 0 where
  pub bounded : (id : ℕ) → Within (lookup id b.subs)
  pub fresh : (id : ℕ) → b.next_id < id → lookup id b.subs ≡ none
  pub gone : (id : ℕ) → b.next_id < id → lookup id b.closed_subs ≡ none
  pub left : (id : ℕ) → lookup id b.closed_subs ≢ none → lookup id b.subs ≡ none

offered-Within :
    (msg : Message) (size : ℕ) (o : Option (Subscriber Message))
    → Within o
    → Within (offered msg size o)
offered-Within msg size none w = tt
offered-Within msg size (some s) w = unfold Stream.step in step-IsBounded s (Op.offers msg size) w

publish-IsValid :
    (b : Bus) (topic : Text) (encoded : Option Text)
    → IsValid b
    → IsValid (EventBus.publish b topic encoded).0
unfolding EventBus.publish
publish-IsValid b [] encoded v = v
publish-IsValid b (c ∷ topic) none v = v
publish-IsValid b (c ∷ topic) (some payload) v =
    let msg : Message = record { topic = c ∷ topic; payload = payload } in
    let size = length (c ∷ topic) + length payload in
    record {
      bounded = λ id.
          rw (lookup-offer_all id msg size b.subs)
            (offered-Within msg size (lookup id b.subs) (v.bounded id));
      fresh = λ id h. rw (lookup-offer_all id msg size b.subs, v.fresh id h);
      gone = v.gone;
      left = λ id h. rw (lookup-offer_all id msg size b.subs, v.left id h);
    }

insert-Within :
    (id j : ℕ) (s : Subscriber Message) (subs : Map ℕ (Subscriber Message))
    → IsBounded s
    → Within (lookup j subs)
    → Within (lookup j (insert id s subs))
insert-Within id j s subs h w =
    rw lookup-insert (elim (Bool-cases (id == j)) [ inl same ↦ rw same h | inr other ↦ rw other w ])

remove-Within :
    (id j : ℕ) (subs : Map ℕ (Subscriber Message))
    → Within (lookup j subs)
    → Within (lookup j (remove id subs))
remove-Within id j subs w =
    rw lookup-remove
      (elim (Bool-cases (id == j)) [ inl same ↦ rw same tt | inr other ↦ rw other w ])

subscribe-IsValid :
    (b : Bus) → b.next_id + 1 < 2 ^ 64 → IsValid b → IsValid (EventBus.subscribe b).0
unfolding EventBus.subscribe
subscribe-IsValid b small v =
    let id = (b.next_id + 1) % 2 ^ 64 in
    let s : Subscriber Message = Stream.new_subscriber id b.queue_depth b.queue_bytes in
    record {
      bounded = λ j.
          insert-Within id j s b.subs (new_subscriber-IsBounded id b.queue_depth b.queue_bytes)
            (v.bounded j);
      fresh = λ j h. ground (arith, lookup-insert id j s b.subs, v.fresh j);
      gone = λ j h. v.gone j (omega arith);
      left = λ j h. ground (arith, lookup-insert id j s b.subs, v.left j h, v.gone j);
    }

module _ (b : Bus) (id : ℕ) (v : IsValid b) (s : Subscriber Message)
    (found : lookup id b.subs ≡ some s) where
  known_le : id ≤ b.next_id
  known_le = ground (arith, v.fresh id)

  close_known :
      IsValid (record b {
        subs = remove id b.subs;
        closed_subs = insert id (Stream.close s) b.closed_subs;
      })
  close_known = record {
    bounded = λ j. remove-Within id j b.subs (v.bounded j);
    fresh = λ j h. ground (arith, lookup-remove id j b.subs, v.fresh j h);
    gone = λ j h.
        ground (arith, lookup-insert id j (Stream.close s) b.closed_subs, v.gone j h, known_le);
    left = λ j h. ground (
      arith,
      lookup-insert id j (Stream.close s) b.closed_subs,
      lookup-remove id j b.subs,
      v.left j,
    );
  }

  on_stream_known :
      (op : Op Message) → IsValid (record b { subs = insert id (Stream.step s op) b.subs })
  on_stream_known op =
      let w : IsBounded s = rw found at (v.bounded id) in
      record {
        bounded =
            λ j. insert-Within id j (Stream.step s op) b.subs (step-IsBounded s op w) (v.bounded j);
        fresh = λ j h.
            ground (arith, lookup-insert id j (Stream.step s op) b.subs, v.fresh j h, known_le);
        gone = v.gone;
        left = λ j h.
            ground (arith, lookup-insert id j (Stream.step s op) b.subs, v.left j h, eq_iff id j);
      }

close-IsValid : (b : Bus) (id : ℕ) → IsValid b → IsValid (EventBus.close b id)
unfolding EventBus.close
close-IsValid b id v = elim (Option-cases (lookup id b.subs)) [
  | inl absent ↦ rw (absent, EventBus.close) v
  | inr (s, found) ↦ rw (found, EventBus.close) (close_known b id v s found)
]

on_stream-IsValid :
    (b : Bus) (id : ℕ) (op : Op Message) → IsValid b → IsValid (EventBus.on_stream b id op)
unfolding EventBus.on_stream
on_stream-IsValid b id op v = elim (Option-cases (lookup id b.subs)) [
  | inl absent ↦ rw (absent, EventBus.on_stream) v
  | inr (s, found) ↦ rw (found, EventBus.on_stream) (on_stream_known b id v s found op)
]

step-IsValid :
    (b : Bus) (e : Event) → b.next_id + 1 < 2 ^ 64 → IsValid b → IsValid (EventBus.step b e)
unfolding EventBus.step
step-IsValid b (publishes topic encoded) small v = publish-IsValid b topic encoded v
step-IsValid b subscribes small v = subscribe-IsValid b small v
step-IsValid b (closes id) small v = close-IsValid b id v
step-IsValid b (receives id) small v = on_stream-IsValid b id Op.receives v
step-IsValid b (hands_on id) small v = on_stream-IsValid b id Op.hands_on v

next_id-step :
    (b : Bus) (e : Event) → b.next_id + 1 < 2 ^ 64 → (EventBus.step b e).next_id ≤ b.next_id + 1
unfolding EventBus.step
next_id-step b (publishes [] encoded) h = unfold EventBus.publish in omega arith
next_id-step b (publishes (c ∷ topic) none) h = unfold EventBus.publish in omega arith
next_id-step b (publishes (c ∷ topic) (some p)) h = unfold EventBus.publish in omega arith
next_id-step b subscribes h = unfold EventBus.subscribe in omega arith
next_id-step b (closes id) h = unfold EventBus.close in ground arith
next_id-step b (receives id) h = unfold EventBus.on_stream in ground arith
next_id-step b (hands_on id) h = unfold EventBus.on_stream in ground arith

-- Whatever is published, subscribed, closed and read, in any order and up to 2^64 - 1 steps, the bus
-- stays valid: each of its streams keeps within its bounds with an exact byte count, no stream is
-- stored under an id beyond the last that was given, and a stream that was closed is not in the map.
pub run_bus-IsValid :
    (b : Bus) (es : List Event)
    → b.next_id + length es < 2 ^ 64
    → IsValid b
    → IsValid (EventBus.run b es)
unfolding EventBus.run
run_bus-IsValid b [] h v = v
run_bus-IsValid b (e ∷ es) h v =
    run_bus-IsValid (EventBus.step b e) es (omega (arith, next_id-step b e (omega arith)))
      (step-IsValid b e (omega arith) v)

pub new_bus-IsValid : (d m : ℤ) → IsValid (EventBus.new_bus d m)
unfolding EventBus.new_bus lookup
new_bus-IsValid d m = record {
  bounded = λ id. tt;
  fresh = λ id h. refl;
  gone = λ id h. refl;
  left = λ id h. refl;
}
