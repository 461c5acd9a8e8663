-- ===== src/Broker.antt =====
-- The event log, orchestrator/internal/memorybroker/broker.go: a ring of the newest records, its
-- queries, its live streams, and the removal of secrets from what is logged. Times are nanoseconds
-- since the year 1, so that Go's zero time is 0. The proofs are in the modules below.
pub mod Sanitize
mod Ring
mod Numbering
pub mod Log
pub mod Queries
pub mod Ingress
mod Tests
use emage_code_cwso.Prelude.{
  ℕ, zero, suc, ◌+◌, ◌-◌, ◌%◌, ◌^◌, Bool, true, false, not, ◌||◌, ◌&&◌, Option, none, some, List,
  [], ◌∷◌, ◌++◌, length, drop, get_or, set, replicate, Text, text, if◌then◌else◌, ltb, leb, any,
  ◌==◌, nat_eq, text_eq,
}
use emage_code_cwso.Prelude.Int.{ℤ, pos, negsuc, pos_or}
use emage_code_cwso.Prelude.Map.{Map, insert, remove, lookup}
use emage_code_cwso.Prelude.Members.{mem}
use emage_code_cwso.Prelude.Strings.{trim_space, to_lower, contains}
use emage_code_cwso.Json
use emage_code_cwso.Json.{
  Value, null, bool, num, str, arr, obj, Items, nil, cons, Fields, end, field,
}
use emage_code_cwso.Stream
use emage_code_cwso.Stream.{Subscriber}

abbrev pub default_capacity : ℕ
default_capacity = 2048

abbrev pub default_ingress : ℕ
default_ingress = 1024

abbrev pub default_queue_depth : ℕ
default_queue_depth = 256

abbrev pub default_queue_bytes : ℕ
default_queue_bytes = 2 ^ 20

-- `Record`
pub record Record : Type 0 where
  pub sequence : ℕ
  pub topic : Text
  pub job_id : Text
  pub at : ℕ
  pub payload : Text

-- The zero `Record`, with which `New` fills the ring.
abbrev pub no_record : Record
no_record = record { sequence = 0; topic = []; job_id = []; at = 0; payload = [] }

-- What a producer hands in: nothing, a value that `json.Marshal` encodes, given as the tree that
-- `json.Unmarshal` reads back, or one that it refuses, given as what `fmt.Sprint` prints.
pub data Payload : Type 0 where
  absent : Payload
  tree : Value → Payload
  unencodable : Text → Payload

-- `pendingEvent`
pub record Pending : Type 0 where
  pub topic : Text
  pub payload : Payload
  pub at : ℕ

-- `Broker`
pub record Broker : Type 0 where
  pub ingest_ch : List Pending
  pub ingest_cap : ℕ
  pub closed : Bool
  pub records : List Record
  pub head : ℕ
  pub count : ℕ
  pub capacity : ℕ
  pub next_seq : ℕ
  pub next_sub_id : ℕ
  pub subs : Map ℕ (Subscriber Record)
  pub queue_depth : ℕ
  pub queue_bytes : ℕ
  pub dropped_ingress : ℕ

-- `New` with its options, each of which ignores a value that is not positive.
unfoldable pub new_broker : ℤ → ℤ → ℤ → ℤ → Broker
new_broker capacity ingress depth max_bytes = record {
  ingest_ch = [];
  ingest_cap = pos_or ingress default_ingress;
  closed = false;
  records = replicate (pos_or capacity default_capacity) no_record;
  head = 0;
  count = 0;
  capacity = pos_or capacity default_capacity;
  next_seq = 0;
  next_sub_id = 0;
  subs = [];
  queue_depth = pos_or depth default_queue_depth;
  queue_bytes = pos_or max_bytes default_queue_bytes;
  dropped_ingress = 0;
}

abbrev pub markers : List Text
markers =
    text "token"
    ∷ text "secret"
    ∷ text "password"
    ∷ text "authorization"
    ∷ text "api_key"
    ∷ text "apikey"
    ∷ text "access_key"
    ∷ text "refresh_token"
    ∷ text "jwt"
    ∷ text "cookie"
    ∷ []

abbrev pub redacted : Value
redacted = str (text "[redacted]")

-- `isSensitiveKey`
unfoldable pub is_sensitive_key : Text → Bool
is_sensitive_key key =
    let norm = to_lower (trim_space key) in
    if norm == [] then false else any (λ marker. contains norm marker) markers

-- `sanitizeValue`
unfoldable mutual
  pub sanitize_value : Value → Value
  sanitize_value null = null
  sanitize_value (bool b) = bool b
  sanitize_value (num n) = num n
  sanitize_value (str s) = str s
  sanitize_value (arr xs) = arr (sanitize_items xs)
  sanitize_value (obj fs) = obj (sanitize_fields fs)

  pub sanitize_items : Items → Items
  sanitize_items nil = nil
  sanitize_items (cons x xs) = cons (sanitize_value x) (sanitize_items xs)

  pub sanitize_fields : Fields → Fields
  sanitize_fields end = end
  sanitize_fields (field k v fs) =
      field k (if is_sensitive_key k then redacted else sanitize_value v) (sanitize_fields fs)

-- `sanitizePayload`
unfoldable pub sanitize_payload : Payload → Value
sanitize_payload absent = obj end
sanitize_payload (tree v) = sanitize_value v
sanitize_payload (unencodable s) = obj (field (text "value") (str s) end)

-- `extractJobID`
abbrev text_of : Option Value → Text
text_of (some (str s)) = trim_space s
text_of _ = []

unfoldable pub extract_job_id : Value → Text
extract_job_id (obj fs) = text_of (Json.get (text "job_id") fs)
extract_job_id _ = []

-- The record that `appendEvent` stores. A sanitized tree always encodes, so the fallback for a
-- failed `json.Marshal` is not reached.
unfoldable pub record_of : Pending → ℕ → Record
record_of e seq =
    let safe = sanitize_payload e.payload in
    record {
      sequence = seq;
      topic = e.topic;
      job_id = extract_job_id safe;
      at = e.at;
      payload = Json.marshal safe;
    }

-- The write into the ring.
unfoldable pub store : Broker → Record → Broker
store b rec =
    if ltb b.count b.capacity
    then record b {
      records = set b.records ((b.head + b.count) % b.capacity) rec;
      count = b.count + 1;
    }
    else record b { records = set b.records b.head rec; head = (b.head + 1) % b.capacity }

unfoldable pub offer_all : Record → ℕ → Map ℕ (Subscriber Record) → Map ℕ (Subscriber Record)
offer_all rec size [] = []
offer_all rec size ((id, s) ∷ subs) = (id, Stream.offer s rec size) ∷ offer_all rec size subs

-- `offerSubscribers`
unfoldable pub offer_subscribers : Broker → Record → Broker
offer_subscribers b rec = record b {
  subs = offer_all rec (length rec.topic + length rec.payload) b.subs;
}

-- `appendEvent`
unfoldable pub append_event : Broker → Pending → Broker
append_event b e =
    let seq = (b.next_seq + 1) % 2 ^ 64 in
    let rec = record_of e seq in offer_subscribers (store (record b { next_seq = seq }) rec) rec
