-- ===== src/Prelude/Strings.antt =====
-- What the program uses of Go's packages `strings`, `fmt` and `sort`, over the bytes of a string.
use mathlib.Core.List.{reverse}
use emage_code_cwso.Prelude.Tests.{ltb, leb, if◌then◌else◌, ◌==◌, nat_eq}
use emage_code_cwso.Prelude.Lists.{length, drop}
use emage_code_cwso.Prelude.Bytes.{Text, text}
use Prim.Native.Nat.{ℕ, zero, suc, ◌+◌, ◌/◌, ◌%◌}
use mathlib.Core.Path.{◌≡◌, refl}
use mathlib.Core.Bool.{Bool, true, false, ◌&&◌, ◌||◌}
use mathlib.Core.List.{[], ◌∷◌}

-- `strings.HasPrefix s p`
unfoldable pub has_prefix : Text → Text → Bool
has_prefix s [] = true
has_prefix [] (p ∷ ps) = false
has_prefix (c ∷ s) (p ∷ ps) = c == p && has_prefix s ps

-- `strings.Contains s p`
unfoldable pub contains : Text → Text → Bool
contains [] p = has_prefix [] p
contains (c ∷ s) p = has_prefix (c ∷ s) p || contains s p

unfoldable pub is_ascii_space : ℕ → Bool
is_ascii_space c = (leb 9 c && leb c 13) || c == 32

-- The bytes of the white space rune at the head, 0 if there is none: the six of ASCII, U+0085,
-- U+00A0, U+1680, U+2000 to U+200A, U+2028, U+2029, U+202F, U+205F and U+3000.
unfoldable pub space_width : Text → ℕ
unfolding is_ascii_space
space_width [] = 0
space_width (a ∷ []) = if is_ascii_space a then 1 else 0
space_width (a ∷ b ∷ []) =
    if is_ascii_space a then 1 else if a == 0xC2 && (b == 0x85 || b == 0xA0) then 2 else 0
space_width (a ∷ b ∷ c ∷ s) =
    if is_ascii_space a
    then 1
    else if a == 0xC2 && (b == 0x85 || b == 0xA0)
    then 2
    else if a == 0xE1 && b == 0x9A && c == 0x80
        || a == 0xE2
          && b == 0x80
          && (leb 0x80 c && leb c 0x8A || c == 0xA8 || c == 0xA9 || c == 0xAF)
        || a == 0xE2 && b == 0x81 && c == 0x9F
        || a == 0xE3 && b == 0x80 && c == 0x80
    then 3
    else 0

-- The same for the rune at the end of a reversed string.
unfoldable pub space_width_rev : Text → ℕ
unfolding space_width
space_width_rev [] = 0
space_width_rev (a ∷ []) = space_width (a ∷ [])
space_width_rev (a ∷ b ∷ []) = if is_ascii_space a then 1 else space_width (b ∷ a ∷ [])
space_width_rev (a ∷ b ∷ c ∷ s) =
    if is_ascii_space a
    then 1
    else if space_width (b ∷ a ∷ []) == 2
    then 2
    else space_width (c ∷ b ∷ a ∷ [])

-- Drops runes of the widths that `width` finds; each round drops a byte at least.
unfoldable pub trim_by : (Text → ℕ) → ℕ → Text → Text
trim_by width zero s = s
trim_by width (suc f) s = elim (width s) [ zero ↦ s | suc w ↦ trim_by width f (drop (suc w) s) ]

-- `strings.TrimSpace`
unfoldable pub trim_space : Text → Text
unfolding trim_by space_width space_width_rev is_ascii_space
trim_space s =
    let left = trim_by space_width (length s) s in
    reverse (trim_by space_width_rev (length left) (reverse left))

-- `strings.ToLower`, as far as a comparison with an ASCII word can see: the letters of ASCII, and
-- the two runes U+212A and U+0130 that lower into it. Other bytes beyond ASCII are left.
unfoldable pub to_lower : Text → Text
to_lower [] = []
to_lower (a ∷ []) = (if leb 65 a && leb a 90 then a + 32 else a) ∷ []
to_lower (a ∷ b ∷ []) =
    if a == 0xC4 && b == 0xB0
    then b'i' ∷ []
    else (if leb 65 a && leb a 90 then a + 32 else a) ∷ to_lower (b ∷ [])
to_lower (a ∷ b ∷ c ∷ s) =
    let after2 = to_lower (c ∷ s) in
    let after3 = to_lower s in
    let after1 = to_lower (b ∷ c ∷ s) in
    if a == 0xC4 && b == 0xB0
    then b'i' ∷ after2
    else if a == 0xE2 && b == 0x84 && c == 0xAA
    then b'k' ∷ after3
    else (if leb 65 a && leb a 90 then a + 32 else a) ∷ after1

-- `a < b` on strings: by the first byte that differs.
unfoldable pub text_ltb : Text → Text → Bool
text_ltb [] [] = false
text_ltb [] (b ∷ bs) = true
text_ltb (a ∷ as') [] = false
text_ltb (a ∷ as') (b ∷ bs) = ltb a b || (a == b && text_ltb as' bs)

-- The digits of `%d`, with fuel that exceeds the number.
unfoldable pub digits_from : ℕ → ℕ → Text → Text
digits_from zero n acc = acc
digits_from (suc f) n acc =
    let more = digits_from f (n / 10) ((b'0' + n % 10) ∷ acc) in
    if ltb n 10 then (b'0' + n) ∷ acc else more

-- `fmt.Sprintf("%d", n)` of a number that is not negative
unfoldable pub decimal : ℕ → Text
unfolding digits_from
decimal n = digits_from (suc n) n []

trim_test : trim_space (text "  a b ") ≡ text "a b"
unfolding trim_space
trim_test = refl

lower_test : to_lower (text "ToKEN") ≡ text "token"
unfolding to_lower
lower_test = refl

decimal_test : decimal 1203 ≡ text "1203"
unfolding decimal
decimal_test = refl

contains_test : contains (text "my token x") (text "token") ≡ true
unfolding contains has_prefix
contains_test = refl
