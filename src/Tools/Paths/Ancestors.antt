-- ===== src/Tools/Paths/Ancestors.antt =====
-- The walk to the nearest ancestor that exists, orchestrator/internal/tools/fs_tools.go.
use mathlib.Core.List.{reverse, reverse-cons}
use mathlib.Core.Path.{subst}
use emage_code_cwso.Prelude.{
  ℕ, ◌+◌, ◌≡◌, refl, sym, ap, ◌∙◌, inl, inr, ◌⊎◌, Bool, true, false, Bool-cases, List, [], ◌∷◌,
  ◌++◌, append_assoc, Text, ◌==◌, eq_iff, text_eq, arith,
}
use emage_code_cwso.Tools.Paths.{
  CleanPath, same_path, within_workspace, Looked, found, missing, failed, no_ancestor, Resolved,
  resolved, unresolved, resolve_ancestor,
}

-- The root itself or below it.
abbrev pub IsInside : CleanPath → CleanPath → Type 0
IsInside root p = (rest : List Text) × (p ≡ root ++ rest)

pub within_workspace-IsInside :
    (root p : CleanPath) → within_workspace root p ≡ true → IsInside root p
unfolding within_workspace
within_workspace-IsInside [] p h = (p, refl)
within_workspace-IsInside (r ∷ rs) [] h = absurd (ground arith)
within_workspace-IsInside (r ∷ rs) (c ∷ cs) h =
    let here : (r == c) ≡ true = ground arith in
    let (rest, e) = within_workspace-IsInside rs cs (ground arith) in
    (rest, ap (λ l. c ∷ l) e ∙ ap (λ k. k ∷ rs ++ rest) (sym ((eq_iff r c).0 here)))

same_path_refl : (p : CleanPath) → same_path p p ≡ true
unfolding same_path
same_path_refl [] = refl
same_path_refl (c ∷ cs) = ground (arith, same_path_refl cs, eq_iff c c)

abbrev pub is_no_ancestor : Resolved → Bool
is_no_ancestor (resolved p tail) = false
is_no_ancestor (unresolved no_ancestor) = true
is_no_ancestor (unresolved e) = false

path_or : CleanPath → Resolved → CleanPath
path_or d (resolved p tail) = p
path_or d (unresolved e) = d

tail_or : List Text → Resolved → List Text
tail_or d (resolved p tail) = tail
tail_or d (unresolved e) = d

pub Looked-cases :
    (l : Looked)
    → ((p : CleanPath) × (l ≡ found p)) ⊎ ((l ≡ missing) ⊎ ((e : Text) × (l ≡ failed e)))
Looked-cases (found p) = inl (p, refl)
Looked-cases missing = inr (inl refl)
Looked-cases (failed e) = inr (inr (e, refl))

module _ (look : ℕ → CleanPath → Looked) where
  -- An answer of the walk that is a path comes of looking at a front part of the target.
  abbrev pub IsFrom : CleanPath → CleanPath → List Text → Type 0
  IsFrom target p tail =
      (n : ℕ) × (front : CleanPath) × (target ≡ front ++ tail) × (look n front ≡ found p)

  found-IsFrom :
      (n : ℕ) (front tail : List Text) (q p : CleanPath) (rest : List Text)
      → look n front ≡ found q
      → resolved q tail ≡ resolved p rest
      → IsFrom (front ++ tail) p rest
  unfolding path_or tail_or
  found-IsFrom n front tail q p rest e h =
      (n, front, ap (λ t. front ++ t) (ap (tail_or tail) h), e ∙ ap found (ap (path_or q) h))

  pub resolve_ancestor-IsFrom :
      (root : CleanPath) (n : ℕ) (above tail : List Text) (p : CleanPath) (rest : List Text)
      → resolve_ancestor look root n above tail ≡ resolved p rest
      → IsFrom (reverse above ++ tail) p rest
  unfolding resolve_ancestor
  resolve_ancestor-IsFrom root n [] tail p rest h = elim (Looked-cases (look n [])) [
    | inl (q, e) ↦ found-IsFrom n [] tail q p rest e (rw (resolve_ancestor, e) at h)
    | inr (inl e) ↦ elim (Bool-cases (same_path [] root)) [
      | inl same ↦ absurd (ground (arith, rw (resolve_ancestor, e, same) at h))
      | inr other ↦ absurd (ground (arith, rw (resolve_ancestor, e, other) at h))
    ]
    | inr (inr (why, e)) ↦ absurd (ground (arith, rw (resolve_ancestor, e) at h))
  ]
  resolve_ancestor-IsFrom root n (c ∷ above) tail p rest h =
      let up = resolve_ancestor-IsFrom root (n + 1) above (c ∷ tail) p rest in
      elim (Looked-cases (look n (reverse (c ∷ above)))) [
        | inl (q, e) ↦
            found-IsFrom n (reverse (c ∷ above)) tail q p rest e (rw (resolve_ancestor, e) at h)
        | inr (inl e) ↦ elim (Bool-cases (same_path (reverse (c ∷ above)) root)) [
          | inl same ↦ absurd (ground (arith, rw (resolve_ancestor, e, same) at h))
          | inr other ↦
              subst (λ t. IsFrom t p rest)
                (sym (
                  ap (λ l. l ++ tail) (reverse-cons c above)
                  ∙ append_assoc (reverse above) (c ∷ []) tail))
                (up (rw (resolve_ancestor, e, other) at h))
        ]
        | inr (inr (why, e)) ↦ absurd (ground (arith, rw (resolve_ancestor, e) at h))
      ]

  -- At the root the walk ends.
  resolve_ancestor-root :
      (root : CleanPath) (n : ℕ) (above tail : List Text)
      → reverse above ≡ root
      → is_no_ancestor (resolve_ancestor look root n above tail) ≡ false
  unfolding resolve_ancestor
  resolve_ancestor-root root n [] tail at =
      let same : same_path [] root ≡ true = ap (same_path []) (sym at) ∙ same_path_refl [] in
      elim (Looked-cases (look n [])) [
        | inl (q, e) ↦ rw (resolve_ancestor, e) refl
        | inr (inl e) ↦ rw (resolve_ancestor, e, same) refl
        | inr (inr (why, e)) ↦ rw (resolve_ancestor, e) refl
      ]
  resolve_ancestor-root root n (c ∷ above) tail at =
      let same : same_path (reverse (c ∷ above)) root ≡ true =
        ap (same_path (reverse (c ∷ above))) (sym at) ∙ same_path_refl (reverse (c ∷ above)) in
      elim (Looked-cases (look n (reverse (c ∷ above)))) [
        | inl (q, e) ↦ rw (resolve_ancestor, e) refl
        | inr (inl e) ↦ rw (resolve_ancestor, e, same) refl
        | inr (inr (why, e)) ↦ rw (resolve_ancestor, e) refl
      ]

  -- The walk comes to the root before it comes to the root of the file system.
  pub resolve_ancestor-below :
      (root : CleanPath) (n : ℕ) (above above_root tail : List Text)
      → reverse above_root ≡ root
      → is_no_ancestor (resolve_ancestor look root n (above ++ above_root) tail) ≡ false
  unfolding resolve_ancestor
  resolve_ancestor-below root n [] above_root tail at =
      resolve_ancestor-root root n above_root tail at
  resolve_ancestor-below root n (c ∷ above) above_root tail at =
      let target = reverse (c ∷ above ++ above_root) in
      elim (Looked-cases (look n target)) [
        | inl (q, e) ↦ rw (resolve_ancestor, e) refl
        | inr (inl e) ↦ elim (Bool-cases (same_path target root)) [
          | inl same ↦ rw (resolve_ancestor, e, same) refl
          | inr other ↦
              rw (resolve_ancestor, e, other)
                (resolve_ancestor-below root (n + 1) above above_root (c ∷ tail) at)
        ]
        | inr (inr (why, e)) ↦ rw (resolve_ancestor, e) refl
      ]
