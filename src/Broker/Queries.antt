-- ===== src/Broker/Queries.antt =====
-- What `Query` of orchestrator/internal/memorybroker/broker.go answers.
use Prim.Native.Nat.{max}
use emage_code_cwso.Prelude.{
  ℕ, zero, suc, ◌+◌, ◌-◌, ◌≤◌, ◌<◌, ◌≡◌, refl, sym, ap, ◌∙◌, Bool, List, [], ◌∷◌, length, drop,
  select, any, not, ◌&&◌, ◌||◌, true, Text, leb, ltb, arith, Bool-cases, inl, inr, ◌==◌, nat_eq,
  eq_iff, text_eq,
}
use emage_code_cwso.Prelude.Members.{mem}
use emage_code_cwso.Prelude.Strings.{trim_space}
use emage_code_cwso.Prelude.Int.{ℤ, pos, negsuc}
use emage_code_cwso.Broker.{Broker, Record}
use emage_code_cwso.Broker.Ring.{last_n, retained, slots, slot}
use emage_code_cwso.Broker.Ingress.{QueryOptions, query, scan, limited, matches, cutoff, topic_set}

scan_lem :
    (b : Broker) (keep : Record → Bool) (i n : ℕ)
    → scan b keep i n ≡ select keep (slots (slot b.records b.head b.capacity) i n)
unfolding scan
scan_lem b keep i zero = refl
scan_lem b keep i (suc n) = rw (scan_lem b keep (i + 1) n) refl

-- How many results a limit leaves.
abbrev pub limit_of : ℤ → List Record → ℕ
limit_of (pos zero) xs = length xs
limit_of (pos (suc n)) xs = suc n
limit_of (negsuc n) xs = length xs

none_cut : (xs : List Record) → 0 ≡ length xs - length xs
none_cut xs = omega arith

limited_lem : (limit : ℤ) (xs : List Record) → limited limit xs ≡ last_n (limit_of limit xs) xs
unfolding limited
limited_lem (pos zero) xs = ap (λ n. drop n xs) (none_cut xs)
limited_lem (pos (suc n)) xs = refl
limited_lem (negsuc n) xs = ap (λ n. drop n xs) (none_cut xs)

drop_nil : (n : ℕ) → drop {A = Record} n [] ≡ []
drop_nil zero = refl
drop_nil (suc n) = refl

retained_empty : (b : Broker) → b.count ≡ 0 → retained b ≡ []
retained_empty b e = ap (slots (slot b.records b.head b.capacity) 0) e

-- Whether the topic of a record is asked for: by its name, trimmed, or by naming none.
abbrev pub on_topic : List Text → Text → Bool
on_topic topics topic =
    any (λ t. not (trim_space t == []) && trim_space t == topic) topics
    || not (any (λ t. not (trim_space t == [])) topics)

-- Whether a record lies within a window of time, where one is set.
abbrev pub in_window : ℤ → ℕ → ℕ → Bool
in_window (pos w) now at = w == 0 || leb now (at + w)
in_window (negsuc w) now at = true

-- Whether a record is asked for: its topic, its job, the earliest time and the window.
abbrev pub is_asked : QueryOptions → ℕ → Record → Bool
is_asked opts now r =
    on_topic opts.topics r.topic
    && (opts.job_id == [] || opts.job_id == r.job_id)
    && (leb opts.since r.at && in_window opts.window now r.at)

topic_set-named :
    (topics : List Text)
    → (length (topic_set topics) == 0) ≡ not (any (λ t. not (trim_space t == [])) topics)
unfolding topic_set
topic_set-named [] = refl
topic_set-named (t ∷ ts) = elim (Bool-cases (trim_space t == [])) [
  | inl blank ↦ rw (topic_set, blank) (ground (arith, topic_set-named ts))
  | inr named ↦ rw (topic_set, named) (ground arith)
]

mem-topic_set :
    (topic : Text) (topics : List Text)
    → mem topic (topic_set topics)
      ≡ any (λ t. not (trim_space t == []) && trim_space t == topic) topics
unfolding topic_set mem
mem-topic_set topic [] = refl
mem-topic_set topic (t ∷ ts) = elim (Bool-cases (trim_space t == [])) [
  | inl blank ↦ rw (topic_set, blank) (ground (arith, mem-topic_set topic ts))
  | inr named ↦
      rw (topic_set, named)
        (ground
          (arith, mem-topic_set topic ts, eq_iff (trim_space t) topic, eq_iff topic (trim_space t)))
]

cutoff-in_window :
    (since now at : ℕ) (window : ℤ) (opts : QueryOptions)
    → opts.since ≡ since
    → opts.window ≡ window
    → (cutoff opts now == 0 || not (ltb at (cutoff opts now)))
      ≡ leb since at && in_window window now at
unfolding cutoff
cutoff-in_window since now at (pos w) opts e f = rw (cutoff, f, e) (ground arith)
cutoff-in_window since now at (negsuc w) opts e f = rw (cutoff, f, e) (ground arith)

matches-is_asked :
    (opts : QueryOptions) (now : ℕ) (r : Record) → matches opts now r ≡ is_asked opts now r
unfolding matches
matches-is_asked opts now r = ground (
  arith,
  topic_set-named opts.topics,
  mem-topic_set r.topic opts.topics,
  cutoff-in_window opts.since now r.at opts.window opts refl refl,
  eq_iff opts.job_id r.job_id,
  eq_iff r.job_id opts.job_id,
)

select-same :
    (p q : Record → Bool) (xs : List Record)
    → ((r : Record) → p r ≡ q r)
    → select p xs ≡ select q xs
select-same p q [] h = refl
select-same p q (x ∷ xs) h = rw (h x, select-same p q xs h) refl

query-matches :
    (b : Broker) (opts : QueryOptions) (now : ℕ)
    → let found = select (matches opts now) (retained b) in
      query b opts now ≡ last_n (limit_of opts.limit found) found
unfolding query
query-matches b opts now = elim (Bool-cases (b.count == 0)) [
  | inl none ↦ rw (none, retained_empty b ((eq_iff b.count 0).0 none)) (sym (drop_nil _))
  | inr some ↦ rw (some, scan_lem b (matches opts now) 0 b.count) (limited_lem opts.limit _)
]

-- A query gives those records of the log, oldest first, that are on a topic it names, or on any
-- where it names none, of the job it names, if it names one, no earlier than `since`, and no further
-- back than the window where a positive one is set; cut to the newest `limit` of them where a
-- positive limit is set.
pub query_lem :
    (b : Broker) (opts : QueryOptions) (now : ℕ)
    → let found = select (is_asked opts now) (retained b) in
      query b opts now ≡ last_n (limit_of opts.limit found) found
query_lem b opts now =
    query-matches b opts now
    ∙ ap (λ found. last_n (limit_of opts.limit found) found)
        (select-same (matches opts now) (is_asked opts now) (retained b)
          (matches-is_asked opts now))

select-length : (keep : Record → Bool) (xs : List Record) → length (select keep xs) ≤ length xs
select-length keep [] = omega arith
select-length keep (x ∷ xs) = elim (Bool-cases (keep x)) [
  | inl p ↦ rw p (omega (arith, select-length keep xs))
  | inr p ↦ rw p (omega (arith, select-length keep xs))
]

-- Where a window is set, the cutoff is the later of `since` and the start of the window.
pub cutoff_lem :
    (opts : QueryOptions) (now w : ℕ)
    → opts.window ≡ pos w
    → 0 < w
    → cutoff opts now ≡ max opts.since (now - w)
unfolding cutoff
cutoff_lem opts now w e h = rw e (ground (arith, eq_iff opts.since 0))
