-- ===== src/Tools/Paths/Plain.antt =====
-- What cleaning makes of the parts of a path, orchestrator/internal/tools/fs_tools.go.
use mathlib.Core.List.{reverse, reverse-append, reverse-reverse}
use mathlib.Core.Path.{subst}
use emage_code_cwso.Prelude.{
  ◌≡◌, refl, sym, ap, ◌∙◌, inl, inr, Bool, true, not, ◌&&◌, ◌||◌, Bool-cases, List, [], ◌∷◌, ◌++◌,
  append_assoc, append-nil, All, All-append, Text, text, ◌==◌, nat_eq, text_eq, arith,
}
use emage_code_cwso.Tools.Paths.{push_part, push_parts, clean}

-- A part that names an entry: not empty, and neither "." nor "..".
abbrev pub is_plain : Text → Bool
is_plain part = not (part == [] || part == text ".") && not (part == text "..")

abbrev pub ArePlain : List Text → Type 0
ArePlain parts = All (λ part. is_plain part ≡ true) parts

push_part-plain :
    (above : List Text) (part : Text) → is_plain part ≡ true → push_part above part ≡ part ∷ above
unfolding push_part
push_part-plain above part h = ground arith

abbrev parent : List Text → List Text
parent above = elim above [ [] ↦ [] | c ∷ cs ↦ cs ]

parent-ArePlain : (above : List Text) → ArePlain above → ArePlain (parent above)
parent-ArePlain [] h = tt
parent-ArePlain (c ∷ cs) h = h.1

push_part-ArePlain :
    (above : List Text) (part : Text) → ArePlain above → ArePlain (push_part above part)
unfolding push_part
push_part-ArePlain above part h = elim (Bool-cases (part == [] || part == text ".")) [
  | inl same ↦ rw (push_part, same) h
  | inr other ↦ elim (Bool-cases (part == text "..")) [
    | inl up ↦ rw (push_part, other, up) (parent-ArePlain above h)
    | inr down ↦ rw (push_part, other, down) (ground arith, h)
  ]
]

push_parts-ArePlain : (above parts : List Text) → ArePlain above → ArePlain (push_parts above parts)
unfolding push_parts
push_parts-ArePlain above [] h = h
push_parts-ArePlain above (part ∷ parts) h =
    push_parts-ArePlain (push_part above part) parts (push_part-ArePlain above part h)

ArePlain-reverse : (parts : List Text) → ArePlain parts → ArePlain (reverse parts)
ArePlain-reverse [] h = tt
ArePlain-reverse (part ∷ parts) h = subst ArePlain (sym (reverse-append (part ∷ []) parts)) (
    All-append (λ c. is_plain c ≡ true) (reverse parts) (part ∷ []) (ArePlain-reverse parts h.1)
      (h.0, tt))

pub clean-ArePlain : (parts : List Text) → ArePlain (clean parts)
unfolding clean
clean-ArePlain parts = ArePlain-reverse (push_parts [] parts) (push_parts-ArePlain [] parts tt)

push_parts-plain :
    (above parts : List Text) → ArePlain parts → push_parts above parts ≡ reverse parts ++ above
unfolding push_parts
push_parts-plain above [] h = refl
push_parts-plain above (part ∷ parts) h =
    ap (λ l. push_parts l parts) (push_part-plain above part h.0)
    ∙ push_parts-plain (part ∷ above) parts h.1
    ∙ sym (append_assoc (reverse parts) (part ∷ []) above)
    ∙ ap (λ l. l ++ above) (sym (reverse-append (part ∷ []) parts))

-- Cleaning a path without such parts keeps it.
pub clean-plain : (parts : List Text) → ArePlain parts → clean parts ≡ parts
unfolding clean
clean-plain parts h =
    ap reverse (push_parts-plain [] parts h ∙ append-nil (reverse parts)) ∙ reverse-reverse parts
