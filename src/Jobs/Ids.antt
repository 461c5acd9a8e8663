-- ===== src/Jobs/Ids.antt =====
-- Job ids, `nextID` of orchestrator/internal/jobs/manager.go: the sequence number can be read back
-- from the text, so two numbers never give one id.
use emage_code_cwso.Prelude.{
  ℕ, zero, suc, ◌+◌, ◌-◌, ◌*◌, ◌/◌, ◌%◌, ◌≤◌, ◌<◌, ◌≡◌, ◌≢◌, refl, sym, ap, ◌∙◌, [], ◌∷◌, ◌++◌,
  arith, Text, All, if◌then◌else◌, ◌==◌, nat_eq,
}
use emage_code_cwso.Prelude.Strings.{digits_from, decimal}
use emage_code_cwso.Jobs.Transitions.{job_id}

value_from : ℕ → Text → ℕ
value_from a [] = a
value_from a (c ∷ s) = value_from (a * 10 + (c - b'0')) s

abbrev dash : ℕ
dash = b'-'

after_dash : Text → Text
after_dash [] = []
after_dash (c ∷ s) = let rest = after_dash s in if c == dash then s else rest

abbrev IsDigit : ℕ → Type 0
IsDigit c = (b'0' ≤ c) × (c ≤ b'9')

value-digits_from :
    (f n : ℕ) (acc : Text) → n < f → value_from 0 (digits_from f n acc) ≡ value_from n acc
unfolding value_from digits_from
value-digits_from zero n acc h = absurd (omega arith)
value-digits_from (suc f) n acc h = ground (
  arith,
  value-digits_from f (n / 10) ((b'0' + n % 10) ∷ acc),
  ap (λ k. value_from k acc) (digit_sum n),
  ap (λ k. value_from k acc) (digit_one n),
)
  where
    digit_sum : (k : ℕ) → k / 10 * 10 + (b'0' + k % 10 - b'0') ≡ k
    digit_sum k = omega arith

    digit_one : (k : ℕ) → 0 * 10 + (b'0' + k - b'0') ≡ k
    digit_one k = omega arith

digits_from-IsDigit :
    (f n : ℕ) (acc : Text) → n < f → All IsDigit acc → All IsDigit (digits_from f n acc)
unfolding digits_from
digits_from-IsDigit zero n acc h d = absurd (omega arith)
digits_from-IsDigit (suc f) n acc h d =
    ground (arith, digits_from-IsDigit f (n / 10) ((b'0' + n % 10) ∷ acc))

after_dash-append : (xs ys : Text) → All IsDigit xs → after_dash (xs ++ dash ∷ ys) ≡ ys
unfolding after_dash
after_dash-append [] ys d = refl
after_dash-append (x ∷ xs) ys d = ground (arith, after_dash-append xs ys)

seq_of : Text → ℕ
seq_of id = value_from 0 (after_dash (after_dash id))

seq_of-job_id : (now s : ℕ) → seq_of (job_id now s) ≡ s
unfolding seq_of job_id decimal
seq_of-job_id now s =
    ap (λ r. value_from 0 (after_dash r)) skip
    ∙ ap (value_from 0) (after_dash-append (decimal now) (decimal s) digits)
    ∙ unfold value_from in value-digits_from (suc s) s [] (omega arith)
  where
    skip : after_dash (job_id now s) ≡ decimal now ++ dash ∷ decimal s
    skip = unfold after_dash in refl

    digits : All IsDigit (decimal now)
    digits = digits_from-IsDigit (suc now) now [] (omega arith) tt

-- Ids of different sequence numbers differ, whatever the clock showed.
pub job_id_ne : (now now' s s' : ℕ) → s < s' → job_id now s ≢ job_id now' s'
job_id_ne now now' s s' h p =
    omega (arith, sym (seq_of-job_id now s) ∙ ap seq_of p ∙ seq_of-job_id now' s')
