-- ===== src/Broker/Ring.antt =====
-- The ring of records holds the newest of all that were appended, in order (`appendEvent` and `Len`
-- of orchestrator/internal/memorybroker/broker.go).
use native.Mathlib.Nat.{mod-add-mod, mod-eq_of_lt, mod-eq-sub-mod, mod-lt}
use native.Mathlib.Decide.{dec_lt}
use emage_code_cwso.Prelude.{
  ℕ, zero, suc, ◌+◌, ◌-◌, ◌%◌, ◌≤◌, ◌<◌, ◌≡◌, ◌≢◌, refl, sym, ap, ap₂, ◌∙◌, false, List, [], ◌∷◌,
  ◌++◌, length, length-append, length-set, drop, get_or, set, get_or-set_self, get_or-set_ne, ltb,
  arith, Bool-cases, inl, inr, ltb→ge, ltb→lt, lt→ltb,
}
use emage_code_cwso.Broker
use emage_code_cwso.Broker.{
  Broker, new_broker, append_event, offer_subscribers, Record, no_record, Pending, record_of,
}

-- The newest `n` entries.
abbrev pub last_n {ℓ} : {A : Type ℓ} → ℕ → List A → List A
last_n n xs = drop (length xs - n) xs

abbrev pub slots : (ℕ → Record) → ℕ → ℕ → List Record
slots f i zero = []
slots f i (suc n) = f i ∷ slots f (i + 1) n

abbrev pub slot : List Record → ℕ → ℕ → ℕ → Record
slot records head capacity i = get_or records ((head + i) % capacity) no_record

-- The records of the ring, oldest first.
abbrev pub retained : Broker → List Record
retained b = slots (slot b.records b.head b.capacity) 0 b.count

pub record IsValid (b : Broker) : Type 0 where
  pub filled : length b.records ≡ b.capacity
  pub head_in : b.head < b.capacity
  pub count_in : b.count ≤ b.capacity

slots_congr :
    (f g : ℕ → Record) (i n : ℕ)
    → ((j : ℕ) → i ≤ j → j < i + n → f j ≡ g j)
    → slots f i n ≡ slots g i n
slots_congr f g i zero h = refl
slots_congr f g i (suc n) h =
    ap₂ ◌∷◌ (h i (omega arith) (omega arith))
      (slots_congr f g (i + 1) n (λ j lo hi. h j (omega arith) (omega arith)))

slots-suc : (f : ℕ → Record) (i n : ℕ) → slots f i (suc n) ≡ slots f i n ++ f (i + n) ∷ []
slots-suc f i zero = ap (λ k. f k ∷ []) (omega arith)
slots-suc f i (suc n) =
    ap (λ l. f i ∷ l)
      (slots-suc f (i + 1) n ∙ ap (λ k. slots f (i + 1) n ++ f k ∷ []) (omega arith))

slots_shift : (f : ℕ → Record) (i n : ℕ) → slots (λ j. f (j + 1)) i n ≡ slots f (i + 1) n
slots_shift f i zero = refl
slots_shift f i (suc n) = ap (λ l. f (i + 1) ∷ l) (slots_shift f (i + 1) n)

pub length-slots : (f : ℕ → Record) (i n : ℕ) → length (slots f i n) ≡ n
length-slots f i zero = refl
length-slots f i (suc n) = ap suc (length-slots f (i + 1) n)

-- An index below twice the capacity wraps at most once.
wrap_ge : (x c : ℕ) → c ≤ x → x < c + c → x % c ≡ x - c
wrap_ge x c h k = mod-eq-sub-mod {n = x} {m = c} h ∙ mod-eq_of_lt {n = x - c} {m = c} (omega arith)

-- Fewer than `c` steps round the ring end elsewhere.
index_ne : (h i j c : ℕ) → h < c → i < j → j < c → (h + i) % c ≢ (h + j) % c
index_ne h i j c hc ij jc e = elim (dec_lt (h + j) c) [
  | yes p ↦
      omega (
        arith,
        mod-eq_of_lt {n = h + i} {m = c} (omega arith),
        mod-eq_of_lt {n = h + j} {m = c} p,
        e,
      )
  | no p ↦ elim (dec_lt (h + i) c) [
    | yes q ↦ omega (
      arith,
      mod-eq_of_lt {n = h + i} {m = c} q,
      wrap_ge (h + j) c (omega arith) (omega arith),
      e,
    )
    | no q ↦ omega (
      arith,
      wrap_ge (h + i) c (omega arith) (omega arith),
      wrap_ge (h + j) c (omega arith) (omega arith),
      e,
    )
  ]
]

module _ (records : List Record) (h c : ℕ) (rec : Record) (filled : length records ≡ c)
    (hc : h < c) where
  add_one : (n : ℕ) → n + 1 ≡ suc n
  add_one n = omega arith

  zero_plus : (n : ℕ) → 0 + n ≡ n
  zero_plus n = omega arith

  mod_bound : (n : ℕ) → (h + n) % c < length records
  mod_bound n = omega (arith, mod-lt (h + n) {m = c} (omega arith))

  -- A write into the first free slot.
  store_free :
      (n : ℕ)
      → n < c
      → slots (slot (set records ((h + n) % c) rec) h c) 0 (n + 1)
        ≡ slots (slot records h c) 0 n ++ rec ∷ []
  store_free n room =
      let k = (h + n) % c in
      let in_range : k < length records = mod_bound n in
      ap (slots (slot (set records k rec) h c) 0) (add_one n)
      ∙ slots-suc (slot (set records k rec) h c) 0 n
      ∙ ap₂ (λ l r. l ++ r ∷ [])
          (slots_congr (slot (set records k rec) h c) (slot records h c) 0 n (λ j lo hi.
            get_or-set_ne records rec no_record
              (λ e. index_ne h j n c hc (omega arith) room (sym e))))
          (ap (λ x. get_or (set records k rec) ((h + x) % c) no_record) (zero_plus n)
            ∙ get_or-set_self records k rec no_record in_range)

  -- The index after the head has moved.
  shifted : (j : ℕ) → ((h + 1) % c + j) % c ≡ (h + (j + 1)) % c
  shifted j = mod-add-mod (h + 1) c j ∙ ap (λ x. x % c) (omega arith)

  back : (n : ℕ) → c ≡ suc n → (h + (n + 1)) % c ≡ h
  back n e = omega (arith, wrap_ge (h + (n + 1)) c (omega arith) (omega arith))

  -- A write over the oldest record.
  store_full :
      (n : ℕ)
      → c ≡ suc n
      → slots (slot (set records h rec) ((h + 1) % c) c) 0 c
        ≡ slots (slot records h c) 1 n ++ rec ∷ []
  store_full n e =
      let f = slot (set records h rec) ((h + 1) % c) c in
      let g = slot records h c in
      ap (slots f 0) e
      ∙ slots-suc f 0 n
      ∙ ap₂ (λ l r. l ++ r ∷ [])
          (slots_congr f (λ j. g (j + 1)) 0 n
              (λ j lo hi.
                ap (λ x. get_or (set records h rec) x no_record) (shifted j)
                ∙ get_or-set_ne records rec no_record (λ p. other j n e (omega arith) (sym p)))
            ∙ slots_shift g 0 n)
          (ap (λ x. get_or (set records h rec) x no_record)
              (shifted (0 + n) ∙ ap (λ x. (h + x) % c) (omega arith) ∙ back n e)
            ∙ get_or-set_self records h rec no_record (omega arith))
    where
      other : (j n : ℕ) → c ≡ suc n → j < n → (h + (j + 1)) % c ≢ h
      other j n e lt p =
          index_ne h 0 (j + 1) c hc (omega arith) (omega arith)
            (mod-eq_of_lt {n = h + 0} {m = c} (omega arith) ∙ omega (arith, p))

drop-append_le :
    (n : ℕ) (xs : List Record) (ys : List Record)
    → n ≤ length xs
    → drop n (xs ++ ys) ≡ drop n xs ++ ys
drop-append_le zero xs ys h = refl
drop-append_le (suc n) [] ys h = absurd (omega arith)
drop-append_le (suc n) (x ∷ xs) ys h = drop-append_le n xs ys (omega arith)

module _ (b : Broker) (rec : Record) (v : IsValid b) where
  abbrev pub more : List Record
  more = retained b ++ rec ∷ []

  length-more : length more ≡ b.count + 1
  length-more = omega (
    arith,
    length-append (retained b) (rec ∷ []),
    length-slots (slot b.records b.head b.capacity) 0 b.count,
  )

  none_over : b.count < b.capacity → 0 ≡ length more - b.capacity
  none_over room = omega (arith, length-more)

  store_room : b.count < b.capacity → retained (Broker.store b rec) ≡ last_n b.capacity more
  unfolding Broker.store
  store_room room = rw (lt→ltb _ _ room) (
      store_free b.records b.head b.capacity rec v.filled v.head_in b.count room
      ∙ ap (λ n. drop n (retained b ++ rec ∷ [])) (none_over room))

  excess : b.count ≡ b.capacity → length more - b.capacity ≡ 1
  excess e = omega (arith, length-more)

  store_over :
      (n : ℕ)
      → b.capacity ≡ suc n
      → b.count ≡ suc n
      → ltb b.count b.capacity ≡ false
      → retained (Broker.store b rec) ≡ last_n b.capacity more
  unfolding Broker.store
  store_over n cap cnt full =
      let g = slot b.records b.head b.capacity in
      rw full (
        ap (slots (slot (set b.records b.head rec) ((b.head + 1) % b.capacity) b.capacity) 0)
          (cnt ∙ sym cap)
        ∙ store_full b.records b.head b.capacity rec v.filled v.head_in n cap
        ∙ sym (ap₂ (λ k m. drop k (slots g 0 m ++ rec ∷ [])) (excess (cnt ∙ sym cap)) cnt))

  -- One more record: the ring holds the newest of what it held and that record.
  pub store_lem : retained (Broker.store b rec) ≡ last_n b.capacity more
  store_lem = elim (Bool-cases (ltb b.count b.capacity)) [
    | inl room ↦ store_room (ltb→lt _ _ room)
    | inr full ↦
        store_over (b.capacity - 1) (omega (arith, v.head_in))
          (omega (arith, v.head_in, v.count_in, ltb→ge _ _ full)) full
  ]

  pub store-IsValid : IsValid (Broker.store b rec)
  unfolding Broker.store
  store-IsValid = elim (Bool-cases (ltb b.count b.capacity)) [
    | inl room ↦ rw room (record {
      filled = length-set b.records ((b.head + b.count) % b.capacity) rec ∙ v.filled;
      head_in = v.head_in;
      count_in = omega (arith, ltb→lt _ _ room);
    })
    | inr full ↦ rw full (record {
      filled = length-set b.records b.head rec ∙ v.filled;
      head_in = mod-lt (b.head + 1) {m = b.capacity} (omega (arith, v.head_in));
      count_in = v.count_in;
    })
  ]
