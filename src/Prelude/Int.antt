-- ===== src/Prelude/Int.antt =====
-- Go's signed integers, where the program tests their sign. `negsuc n` is -(n + 1).
use Prim.Native.Nat.{ℕ, zero, suc, ◌<◌}
use native.Mathlib.Omega.{arith}
use mathlib.Core.Bool.{Bool, true, false}
use mathlib.Core.Path.{◌≡◌}
use mathlib.Core.Logic.{◌↔◌}
use emage_code_cwso.Prelude.Tests.{nat_beq, Equality}

pub data ℤ : Type 0 where
  pos : ℕ → ℤ
  negsuc : ℕ → ℤ

-- `a < 0`
abbrev pub is_neg : ℤ → Bool
is_neg (pos n) = false
is_neg (negsuc n) = true

-- `a > 0`
abbrev pub is_pos : ℤ → Bool
is_pos (pos zero) = false
is_pos (pos (suc n)) = true
is_pos (negsuc n) = false

abbrev pub pos_part : ℤ → ℕ
pos_part (pos n) = n
pos_part (negsuc n) = 0

abbrev pub int_beq : ℤ → ℤ → Bool
int_beq (pos a) (pos b) = nat_beq a b
int_beq (pos a) (negsuc b) = false
int_beq (negsuc a) (pos b) = false
int_beq (negsuc a) (negsuc b) = nat_beq a b

pub int_beq_iff : (a b : ℤ) → (int_beq a b ≡ true) ↔ (a ≡ b)
int_beq_iff (pos a) (pos b) = ground arith
int_beq_iff (pos a) (negsuc b) = ground arith
int_beq_iff (negsuc a) (pos b) = ground arith
int_beq_iff (negsuc a) (negsuc b) = ground arith

instance abbrev pub int_eq : Equality ℤ
int_eq = record { same = int_beq; same_iff = int_beq_iff }

-- The number itself where it is positive, else a default.
abbrev pub pos_or : ℤ → ℕ → ℕ
pos_or (pos zero) d = d
pos_or (pos (suc n)) d = suc n
pos_or (negsuc n) d = d

pub pos_or_positive : (a : ℤ) (d : ℕ) → 0 < d → 0 < pos_or a d
pos_or_positive (pos zero) d h = h
pos_or_positive (pos (suc n)) d h = omega arith
pos_or_positive (negsuc n) d h = h
