-- ===== src/Broker/Log.antt =====
-- What the log holds after any interleaving of producers, consumers and the loop of `run` in
-- orchestrator/internal/memorybroker/broker.go.
use emage_code_cwso.Prelude.{
  ℕ, ◌+◌, ◌-◌, ◌%◌, ◌^◌, ◌≤◌, ◌<◌, ◌≡◌, refl, sym, ap, ap₂, ◌∙◌, Bool, true, false, List, [], ◌∷◌,
  ◌++◌, length, length-append, length-replicate, if◌then◌else◌, ltb, arith, Bool-cases, ltb→lt, inl,
  inr, append_assoc, append-nil, ◌==◌, text_eq,
}
use emage_code_cwso.Prelude.Int.{ℤ, pos_or, pos_or_positive}
use emage_code_cwso.Prelude.Strings.{trim_space}
use emage_code_cwso.Broker.{
  Broker, Record, Pending, record_of, append_event, new_broker, store, offer_subscribers,
  default_capacity,
}
use emage_code_cwso.Broker.Ring.{last_n, retained, IsValid, store_lem, store-IsValid}
use emage_code_cwso.Broker.Ingress.{
  Event, ingests, drains, subscribes, unsubscribes, closes, step, run, ingest, drain_one, subscribe,
  close, unsubscribe, take_event,
}
use emage_code_cwso.Broker.Numbering.{
  records_from, seq_after, records_from-append, seq_after-append, last_n-append, drop_nil,
}

-- What a write into the ring leaves alone.
record StoreFrame (b b' : Broker) : Type 0 where
  channel : b'.ingest_ch ≡ b.ingest_ch
  channel_cap : b'.ingest_cap ≡ b.ingest_cap
  seq : b'.next_seq ≡ b.next_seq
  capacity : b'.capacity ≡ b.capacity

store_frame : (b : Broker) (rec : Record) → StoreFrame b (store b rec)
unfolding store
store_frame b rec = elim (Bool-cases (ltb b.count b.capacity)) [
  | inl room ↦ rw room (record { channel = refl; channel_cap = refl; seq = refl; capacity = refl })
  | inr full ↦ rw full (record { channel = refl; channel_cap = refl; seq = refl; capacity = refl })
]

-- What one event hands over that is taken in.
pub accepted_by : Broker → Event → List Pending
unfolding ingest
accepted_by b (ingests topic payload now) =
    if (ingest b topic payload now).1
    then record { topic = topic; payload = payload; at = now } ∷ []
    else []
accepted_by b _ = []

-- The events that were taken in, in order.
abbrev pub accepted : Broker → List Event → List Pending
accepted b [] = []
accepted b (e ∷ es) = accepted_by b e ++ accepted (step b e) es

-- The events taken in are those in the log and those in the channel.
pub record IsLogged (cap : ℕ) (acc : List Pending) (b : Broker) : Type 0 where
  pub logged : List Pending
  pub split : acc ≡ logged ++ b.ingest_ch
  pub log : retained b ≡ last_n cap (records_from 0 logged)
  pub seq : b.next_seq ≡ seq_after 0 logged
  pub cap_same : b.capacity ≡ cap
  pub valid : IsValid b
  pub channel : length b.ingest_ch ≤ b.ingest_cap

module _ {cap : ℕ} {acc : List Pending} (b : Broker) (l : IsLogged cap acc b) where
  -- The log and the channel are left alone.
  quiet :
      (c : Bool) (subs : _) (id d : ℕ)
      → IsLogged cap acc
          (record b { closed = c; subs = subs; next_sub_id = id; dropped_ingress = d })
  quiet c subs id d = record {
    logged = l.logged;
    split = l.split;
    log = l.log;
    seq = l.seq;
    cap_same = l.cap_same;
    valid = record {
      filled = l.valid.filled;
      head_in = l.valid.head_in;
      count_in = l.valid.count_in;
    };
    channel = l.channel;
  }

  none_more : acc ++ [] ≡ acc
  none_more = append-nil acc

  taken_in :
      (c : Bool) (e : Pending)
      → length b.ingest_ch < b.ingest_cap
      → IsLogged cap (acc ++ e ∷ []) (record b { closed = c; ingest_ch = b.ingest_ch ++ e ∷ [] })
  taken_in c e room = record {
    logged = l.logged;
    split = ap (λ a. a ++ e ∷ []) l.split ∙ append_assoc l.logged b.ingest_ch (e ∷ []);
    log = l.log;
    seq = l.seq;
    cap_same = l.cap_same;
    valid = record {
      filled = l.valid.filled;
      head_in = l.valid.head_in;
      count_in = l.valid.count_in;
    };
    channel = omega (arith, length-append b.ingest_ch (e ∷ []));
  }

  drained :
      (e : Pending) (es : List Pending)
      → b.ingest_ch ≡ e ∷ es
      → IsLogged cap acc (append_event (record b { ingest_ch = es }) e)
  unfolding append_event offer_subscribers
  drained e es h =
      let seq = (b.next_seq + 1) % 2 ^ 64 in
      let rec = record_of e seq in
      let b1 : Broker = record b { ingest_ch = es; next_seq = seq } in
      let v1 : IsValid b1 = record {
        filled = l.valid.filled;
        head_in = l.valid.head_in;
        count_in = l.valid.count_in;
      } in
      let v2 = store-IsValid b1 rec v1 in
      let f = store_frame b1 rec in
      record {
        logged = l.logged ++ e ∷ [];
        split =
            l.split
            ∙ ap (λ c. l.logged ++ c) h
            ∙ sym (append_assoc l.logged (e ∷ []) es)
            ∙ ap (λ c. (l.logged ++ e ∷ []) ++ c) (sym f.channel);
        log =
            store_lem b1 rec v1
            ∙ ap₂ (λ c r. last_n c (r ++ rec ∷ [])) l.cap_same l.log
            ∙ last_n-append cap (records_from 0 l.logged) (rec ∷ [])
            ∙ ap (last_n cap) (
                sym (
                  records_from-append 0 l.logged (e ∷ [])
                  ∙ ap (λ s. records_from 0 l.logged ++ records_from s (e ∷ [])) (sym l.seq)));
        seq = f.seq ∙ ap (λ s. (s + 1) % 2 ^ 64) l.seq ∙ sym (seq_after-append 0 l.logged (e ∷ []));
        cap_same = f.capacity ∙ l.cap_same;
        valid = record { filled = v2.filled; head_in = v2.head_in; count_in = v2.count_in };
        channel = omega (arith, ap length h, ap length f.channel, f.channel_cap, l.channel);
      }

  drain_lem : (es : List Pending) → b.ingest_ch ≡ es → IsLogged cap acc (take_event b es)
  unfolding take_event
  drain_lem [] h = l
  drain_lem (e ∷ es) h = drained e es h

  -- Every event keeps the account.
  step-IsLogged : (e : Event) → IsLogged cap (acc ++ accepted_by b e) (step b e)
  unfolding step accepted_by ingest drain_one subscribe unsubscribe close
  step-IsLogged (ingests topic payload now) = elim (Bool-cases (trim_space topic == [])) [
    | inl blank ↦ simp (step, ingest, blank, none_more) l
    | inr full ↦ elim (Bool-cases b.closed) [
      | inl closed ↦ simp (step, ingest, full, closed, none_more) l
      | inr live ↦ elim (Bool-cases (ltb (length b.ingest_ch) b.ingest_cap)) [
        | inl room ↦
            simp (step, ingest, full, live, room)
              (taken_in false (record { topic = topic; payload = payload; at = now })
                (ltb→lt _ _ room))
        | inr over ↦
            simp (step, ingest, full, live, over, none_more)
              (quiet false b.subs b.next_sub_id ((b.dropped_ingress + 1) % 2 ^ 64))
      ]
    ]
  ]
  step-IsLogged drains = rw none_more (drain_lem b.ingest_ch refl)
  step-IsLogged subscribes = elim (Bool-cases b.closed) [
    | inl closed ↦ simp (step, subscribe, closed, none_more) l
    | inr live ↦
        simp (step, subscribe, live, none_more)
          (quiet false _ ((b.next_sub_id + 1) % 2 ^ 64) b.dropped_ingress)
  ]
  step-IsLogged (unsubscribes id) = rw none_more (quiet b.closed _ b.next_sub_id b.dropped_ingress)
  step-IsLogged closes = elim (Bool-cases b.closed) [
    | inl closed ↦ simp (step, close, closed, none_more) l
    | inr live ↦ simp (step, close, live, none_more) (quiet true [] b.next_sub_id b.dropped_ingress)
  ]

run-IsLogged :
    {cap : ℕ} (acc : List Pending) (b : Broker) (es : List Event)
    → IsLogged cap acc b
    → IsLogged cap (acc ++ accepted b es) (run b es)
unfolding run
run-IsLogged acc b [] l = rw (append-nil acc) l
run-IsLogged acc b (e ∷ es) l =
    rw⁻¹ (append_assoc acc (accepted_by b e) (accepted (step b e) es))
      (run-IsLogged (acc ++ accepted_by b e) (step b e) es (step-IsLogged b l e))

pub new_broker-IsLogged :
    (capacity ingress depth max_bytes : ℤ)
    → IsLogged (pos_or capacity default_capacity) [] (new_broker capacity ingress depth max_bytes)
unfolding new_broker
new_broker-IsLogged capacity ingress depth max_bytes = record {
  logged = [];
  split = refl;
  log = sym (drop_nil (0 - pos_or capacity default_capacity));
  seq = refl;
  cap_same = refl;
  valid = record {
    filled = length-replicate (pos_or capacity default_capacity) _;
    head_in = pos_or_positive capacity default_capacity (omega arith);
    count_in = omega arith;
  };
  channel = omega arith;
}

-- From a new broker, whatever producers, consumers and the loop do in whatever order, the events
-- that were taken in are, in order, those that were logged and those that wait in the channel,
-- the log holds the newest `capacity` of the logged ones under consecutive numbers, and the
-- channel never holds more than its bound.
pub run_log :
    (capacity ingress depth max_bytes : ℤ) (es : List Event)
    → let b0 = new_broker capacity ingress depth max_bytes in
      let b = run b0 es in
      (logged : List Pending) × (accepted b0 es ≡ logged ++ b.ingest_ch)
      × (retained b ≡ last_n (pos_or capacity default_capacity) (records_from 0 logged))
      × (length b.ingest_ch ≤ b.ingest_cap)
run_log capacity ingress depth max_bytes es =
    let l =
      run-IsLogged [] (new_broker capacity ingress depth max_bytes) es
        (new_broker-IsLogged capacity ingress depth max_bytes) in
    (l.logged, l.split, l.log, l.channel)
