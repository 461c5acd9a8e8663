-- ===== src/Stream/Tests.antt =====
-- Small runs of a live stream (orchestrator/internal/eventbus/bus.go).
use emage_code_cwso.Prelude.{ℕ, ◌≡◌, List, [], ◌∷◌, ◌++◌}
use emage_code_cwso.Stream
use emage_code_cwso.Stream.{Subscriber, Op, new_subscriber, offers, receives, hands_on, closes}
use emage_code_cwso.Stream.Bounds.{IsBounded, run-IsBounded, new_subscriber-IsBounded}
use emage_code_cwso.Stream.Order.{accepted, all_taken, run-accepted}

abbrev small : Subscriber ℕ
small = new_subscriber 1 1 10

abbrev traffic : List (Op ℕ)
traffic = offers 7 4 ∷ offers 8 4 ∷ receives ∷ offers 9 20 ∷ hands_on ∷ closes ∷ []

run-IsBounded_example : IsBounded (Stream.run small traffic)
run-IsBounded_example = run-IsBounded small traffic (new_subscriber-IsBounded 1 1 10)

run-accepted_example :
    accepted (Stream.run small traffic) ≡ accepted small ++ all_taken small traffic
run-accepted_example = run-accepted small traffic
