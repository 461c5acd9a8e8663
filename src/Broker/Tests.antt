-- ===== src/Broker/Tests.antt =====
-- Small runs of the event log (orchestrator/internal/memorybroker/broker.go).
use emage_code_cwso.Prelude.{◌≤◌, ◌≡◌, refl, inr, List, [], ◌∷◌, ◌++◌, select, length, text}
use emage_code_cwso.Prelude.Int.{pos, pos_or}
use emage_code_cwso.Json.{str, obj, field, end}
use emage_code_cwso.Broker.{
  Broker, Pending, absent, tree, new_broker, sanitize_payload, redacted, default_capacity,
}
use emage_code_cwso.Broker.Ingress.{
  Event, ingests, drains, subscribes, closes, run, QueryOptions, query,
}
use emage_code_cwso.Broker.Ring.{last_n, retained}
use emage_code_cwso.Broker.Log.{run_log, accepted}
use emage_code_cwso.Broker.Numbering.{records_from}
use emage_code_cwso.Broker.Queries.{query_lem, limit_of, is_asked}
use emage_code_cwso.Broker.Sanitize.{IsClean, sanitize_payload-IsClean}

abbrev traffic : List Event
traffic =
    ingests (text "jobs") absent 5
    ∷ drains
    ∷ ingests (text "jobs") (tree (str (text "x"))) 6
    ∷ subscribes
    ∷ drains
    ∷ ingests (text "jobs") absent 7
    ∷ closes
    ∷ []

abbrev two_slots : Broker
two_slots = new_broker (pos 2) (pos 1) (pos 1) (pos 100)

run_log_example :
    (logged : List Pending) × (accepted two_slots traffic
      ≡ logged ++ (run two_slots traffic).ingest_ch)
    × (retained (run two_slots traffic)
        ≡ last_n (pos_or (pos 2) default_capacity) (records_from 0 logged))
    × (length (run two_slots traffic).ingest_ch ≤ (run two_slots traffic).ingest_cap)
run_log_example = run_log (pos 2) (pos 1) (pos 1) (pos 100) traffic

abbrev newest : QueryOptions
newest = record { topics = text "jobs" ∷ []; job_id = []; since = 0; window = pos 4; limit = pos 1 }

query_lem_example :
    query (run two_slots traffic) newest 9
    ≡ last_n
        (limit_of newest.limit (select (is_asked newest 9) (retained (run two_slots traffic))))
        (select (is_asked newest 9) (retained (run two_slots traffic)))
query_lem_example = query_lem (run two_slots traffic) newest 9

sanitize_payload-IsClean_example :
    IsClean (sanitize_payload (tree (obj (field (text "api_key") (str (text "k")) end))))
sanitize_payload-IsClean_example =
    sanitize_payload-IsClean (tree (obj (field (text "api_key") (str (text "k")) end)))

already-IsClean : IsClean (obj (field (text "api_key") redacted end))
unfolding IsClean
already-IsClean = (inr refl, tt, tt)
