-- ===== src/Broker/Numbering.antt =====
-- The numbers of the records of the log, and the newest of them,
-- orchestrator/internal/memorybroker/broker.go.
use emage_code_cwso.Prelude.{
  ℕ, zero, suc, ◌+◌, ◌-◌, ◌%◌, ◌^◌, ◌≤◌, ◌≡◌, refl, sym, ap, ◌∙◌, List, [], ◌∷◌, ◌++◌, length,
  length-append, length-drop, drop, arith, text_eq,
}
use emage_code_cwso.Broker.{Record, Pending, record_of}
use emage_code_cwso.Broker.Ring.{last_n}

-- The records of a list of events, numbered from the one after `seq`.
abbrev pub records_from : ℕ → List Pending → List Record
records_from seq [] = []
records_from seq (e ∷ es) = record_of e ((seq + 1) % 2 ^ 64) ∷ records_from ((seq + 1) % 2 ^ 64) es

-- The number of the last of them.
abbrev pub seq_after : ℕ → List Pending → ℕ
seq_after seq [] = seq
seq_after seq (e ∷ es) = seq_after ((seq + 1) % 2 ^ 64) es

pub records_from-append :
    (seq : ℕ) (xs ys : List Pending)
    → records_from seq (xs ++ ys) ≡ records_from seq xs ++ records_from (seq_after seq xs) ys
records_from-append seq [] ys = refl
records_from-append seq (x ∷ xs) ys =
    ap (λ l. record_of x ((seq + 1) % 2 ^ 64) ∷ l) (records_from-append ((seq + 1) % 2 ^ 64) xs ys)

pub seq_after-append :
    (seq : ℕ) (xs ys : List Pending) → seq_after seq (xs ++ ys) ≡ seq_after (seq_after seq xs) ys
seq_after-append seq [] ys = refl
seq_after-append seq (x ∷ xs) ys = seq_after-append ((seq + 1) % 2 ^ 64) xs ys

drop-append_le : (n : ℕ) (xs ys : List Record) → n ≤ length xs → drop n (xs ++ ys) ≡ drop n xs ++ ys
drop-append_le zero xs ys h = refl
drop-append_le (suc n) [] ys h = absurd (omega arith)
drop-append_le (suc n) (x ∷ xs) ys h = drop-append_le n xs ys (omega arith)

pub drop_nil : (n : ℕ) → drop {A = Record} n [] ≡ []
drop_nil zero = refl
drop_nil (suc n) = refl

suc_plus : (n m : ℕ) → suc (n + m) ≡ suc n + m
suc_plus n m = omega arith

drop-drop : (m n : ℕ) (xs : List Record) → drop m (drop n xs) ≡ drop (n + m) xs
drop-drop m zero xs = ap (λ k. drop k xs) (omega arith)
drop-drop m (suc n) [] = drop_nil m ∙ sym (drop_nil (suc n + m))
drop-drop m (suc n) (x ∷ xs) = drop-drop m n xs ∙ ap (λ k. drop k (x ∷ xs)) (suc_plus n m)

-- Keeping the newest twice is keeping them once.
pub last_n-append :
    (n : ℕ) (xs ys : List Record) → last_n n (last_n n xs ++ ys) ≡ last_n n (xs ++ ys)
last_n-append n xs ys =
    let k = length xs - n in
    let short : k ≤ length xs = omega arith in
    ap (last_n n) (sym (drop-append_le k xs ys short))
    ∙ drop-drop (length (drop k (xs ++ ys)) - n) k (xs ++ ys)
    ∙ ap (λ m. drop m (xs ++ ys)) (omega (arith, length-drop k (xs ++ ys), length-append xs ys))
