-- ===== src/Jobs/Redact.antt =====
-- What a job-state notification may say of an error: `sanitizeErrorForBroadcast` of
-- orchestrator/internal/jobs/manager.go.
use emage_code_cwso.Prelude.{
  ℕ, zero, suc, ◌+◌, ◌≤◌, ◌<◌, ◌≡◌, ◌≢◌, ◌⊎◌, refl, true, false, ◌&&◌, List, [], ◌∷◌, ◌++◌, length,
  take, length-append, length-take, map, any, All, Text, text, if◌then◌else◌, ltb, leb, ◌==◌,
  text_eq, nat_eq, arith, Bool-cases, ltb→ge, inl, inr,
}
use emage_code_cwso.Prelude.Strings.{trim_space, to_lower, contains, has_prefix}
use emage_code_cwso.Jobs.{sensitive_hints, redacted, clip, sanitize_error}

abbrev pub IsAscii : ℕ → Type 0
IsAscii c = c < 128

abbrev dots : Text
dots = text "..."

abbrev lower : ℕ → ℕ
lower c = if leb 65 c && leb c 90 then c + 32 else c

-- Of ASCII bytes each is lowered by itself.
to_lower-map : (s : Text) → All IsAscii s → to_lower s ≡ map lower s
unfolding to_lower
to_lower-map [] h = refl
to_lower-map (a ∷ []) h = refl
to_lower-map (a ∷ b ∷ []) h = ground arith
to_lower-map (a ∷ b ∷ c ∷ s) h = ground (arith, to_lower-map (b ∷ c ∷ s) h.1)

All-take : (n : ℕ) (s : Text) → All IsAscii s → All IsAscii (take n s)
All-take zero s h = tt
All-take (suc n) [] h = tt
All-take (suc n) (x ∷ s) h = (h.0, All-take n s h.1)

All-dots : (s : Text) → All IsAscii s → All IsAscii (s ++ dots)
All-dots [] h = omega arith
All-dots (x ∷ s) h = (h.0, All-dots s h.1)

-- No dot stands in a hint.
abbrev IsLetter : ℕ → Type 0
IsLetter c = c ≢ b'.'

has_prefix-clip :
    (n : ℕ) (s p : Text)
    → All IsLetter p
    → has_prefix (map lower (take n s ++ dots)) p ≡ true
    → has_prefix (map lower s) p ≡ true
unfolding has_prefix
has_prefix-clip n s [] d h = refl
has_prefix-clip zero [] (p ∷ ps) d h = absurd (ground arith)
has_prefix-clip zero (c ∷ s) (p ∷ ps) d h = absurd (ground arith)
has_prefix-clip (suc n) [] (p ∷ ps) d h = absurd (ground arith)
has_prefix-clip (suc n) (c ∷ s) (p ∷ ps) d h = ground (arith, has_prefix-clip n s ps)

contains-dots : (p : Text) → All IsLetter p → contains dots p ≡ true → p ≡ []
unfolding contains has_prefix
contains-dots [] d h = refl
contains-dots (p ∷ ps) d h = absurd (ground arith)

contains-nil : (s : Text) → contains s [] ≡ true
unfolding contains has_prefix
contains-nil [] = refl
contains-nil (c ∷ s) = ground arith

-- What a clipped text contains, the whole text contains.
contains-clip :
    (n : ℕ) (s p : Text)
    → All IsLetter p
    → contains (map lower (take n s ++ dots)) p ≡ true
    → contains (map lower s) p ≡ true
unfolding contains
contains-clip zero s p d h = rw (contains-dots p d h) (contains-nil (map lower s))
contains-clip (suc n) [] p d h = rw (contains-dots p d h) (contains-nil [])
contains-clip (suc n) (c ∷ s) p d h =
    ground (arith, contains-clip n s p, has_prefix-clip (suc n) (c ∷ s) p)

abbrev pub Free : Text → Text → Type 0
Free s hint = contains s hint ≡ false

any-Free :
    (s : Text) (hints : List Text)
    → any (λ hint. contains s hint) hints ≡ false
    → All (Free s) hints
any-Free s [] h = tt
any-Free s (hint ∷ hints) h = ground (arith, any-Free s hints)

clip-Free :
    (t : Text) (hints : List Text)
    → All IsAscii t
    → All (All IsLetter) hints
    → All (Free (to_lower t)) hints
    → All (Free (to_lower (clip t))) hints
clip-Free t [] a l f = tt
clip-Free t (hint ∷ hints) a l f =
    (one (Bool-cases (ltb 256 (length t))), clip-Free t hints a l.1 f.1)
  where
    one : (ltb 256 (length t) ≡ true) ⊎ (ltb 256 (length t) ≡ false) → Free (to_lower (clip t)) hint
    one (inr short) = unfold clip in rw short f.0
    one (inl long) =
        unfold clip in
        rw long (
          rw (to_lower-map (take 256 t ++ dots) (All-dots (take 256 t) (All-take 256 t a))) (
            absent (rw (to_lower-map t a) at f.0)
              (Bool-cases (contains (map lower (take 256 t ++ dots)) hint))))
      where
        absent :
            contains (map lower t) hint ≡ false
            → (contains (map lower (take 256 t ++ dots)) hint ≡ true)
              ⊎ (contains (map lower (take 256 t ++ dots)) hint ≡ false)
            → contains (map lower (take 256 t ++ dots)) hint ≡ false
        absent free (inr g) = g
        absent free (inl hit) = cc (contains-clip 256 t hint l.0 hit)

hints_letters : All (All IsLetter) sensitive_hints
hints_letters = omega arith

redacted-Free : All (Free (to_lower redacted)) sensitive_hints
unfolding to_lower contains has_prefix
redacted-Free = (refl, (refl, (refl, (refl, (refl, (refl, (refl, tt)))))))

nil-Free : All (Free (to_lower [])) sensitive_hints
unfolding to_lower contains has_prefix
nil-Free = (refl, (refl, (refl, (refl, (refl, (refl, (refl, tt)))))))

length-clip : (t : Text) → length (clip t) ≤ 259
unfolding clip
length-clip t = elim (Bool-cases (ltb 256 (length t))) [
  | inl long ↦ rw long (omega (arith, length-append (take 256 t) dots, length-take 256 t))
  | inr short ↦ rw short (omega (arith, ltb→ge 256 (length t) short))
]

-- The broadcast text is at most 259 bytes long, and whatever the case of its letters no sensitive
-- hint occurs in it, where the trimmed error is ASCII.
pub sanitize_error_safe :
    (msg : Text)
    → All IsAscii (trim_space msg)
    → (length (sanitize_error msg) ≤ 259)
      × All (Free (to_lower (sanitize_error msg))) sensitive_hints
unfolding sanitize_error
sanitize_error_safe msg a = elim (Bool-cases (trim_space msg == [])) [
  | inl blank ↦ rw blank (omega arith, nil-Free)
  | inr some_text ↦
      let t = trim_space msg in
      rw some_text (elim (Bool-cases (any (λ hint. contains (to_lower t) hint) sensitive_hints)) [
        | inl hit ↦ rw hit (omega arith, redacted-Free)
        | inr free ↦ rw free (
          length-clip t,
          clip-Free t sensitive_hints a hints_letters (any-Free (to_lower t) sensitive_hints free),
        )
      ])
]
