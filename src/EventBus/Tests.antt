-- ===== src/EventBus/Tests.antt =====
-- Small runs of the bus (orchestrator/internal/eventbus/bus.go).
use emage_code_cwso.Prelude.{◌≡◌, ◌≢◌, none, some, List, [], ◌∷◌, text, nat_eq, arith}
use emage_code_cwso.Prelude.Int.{pos}
use emage_code_cwso.Prelude.Map.{lookup}
use emage_code_cwso.EventBus
use emage_code_cwso.EventBus.{
  Bus, Message, Event, publishes, subscribes, closes, receives, marshal_failed,
}
use emage_code_cwso.EventBus.Delivery.{
  IsValid, run_bus-IsValid, new_bus-IsValid, publish_isolated, offered,
}

abbrev bus : Bus
bus = EventBus.new_bus (pos 1) (pos 100)

abbrev busy : List Event
busy = subscribes ∷ publishes (text "a") (some (text "{}")) ∷ receives 1 ∷ closes 1 ∷ []

run_bus-IsValid_example : IsValid (EventBus.run bus busy)
unfolding EventBus.new_bus
run_bus-IsValid_example = run_bus-IsValid bus busy (omega arith) (new_bus-IsValid (pos 1) (pos 100))

named : text "a" ≢ []
named e = cc e

publish_isolated_example :
    lookup 1 (EventBus.publish (EventBus.subscribe bus).0 (text "a") (some (text "{}"))).0.subs
    ≡ offered
        (record { topic = text "a"; payload = text "{}" })
        3
        (lookup 1 (EventBus.subscribe bus).0.subs)
publish_isolated_example =
    publish_isolated (EventBus.subscribe bus).0 (text "a") (text "{}") 1 named

refuses : (EventBus.publish bus (text "a") none).1 ≢ none
unfolding EventBus.publish
refuses e = ground (arith, e)
