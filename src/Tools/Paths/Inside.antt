-- ===== src/Tools/Paths/Inside.antt =====
-- What the path check lets through, orchestrator/internal/tools/fs_tools.go.
use mathlib.Core.List.{reverse, reverse-reverse}
use mathlib.Core.Path.{subst}
use emage_code_cwso.Prelude.{
  ℕ, ◌≡◌, refl, sym, ap, ◌∙◌, inl, inr, ◌⊎◌, true, Bool-cases, List, [], ◌∷◌, ◌++◌, append-nil,
  All-append, Text, if◌then◌else◌, ◌==◌, text_eq, arith,
}
use emage_code_cwso.Tools.Paths.{
  CleanPath, clean, is_abs, split_path, abs_path, locate, within_workspace, Looked, found,
  PathError, Resolved, resolved, unresolved, resolve_ancestor, Guarded, safe, refused,
  guard_ancestor, guard_located, path_guard,
}
use emage_code_cwso.Tools.Paths.Plain.{is_plain, ArePlain, clean-ArePlain, clean-plain}
use emage_code_cwso.Tools.Paths.Ancestors.{
  IsInside, within_workspace-IsInside, Looked-cases, resolve_ancestor-IsFrom,
}

-- A path in the workspace without "." or ".." in it, which is what a call of `EvalSymlinks` gave for the target, or for a directory of the workspace above it with the rest of the target behind.
pub record IsSafe (look : ℕ → CleanPath → Looked) (root target p : CleanPath) : Type 0 where
  pub inside : IsInside root p
  pub plain : ArePlain p
  pub target_inside : IsInside root target
  pub looked :
      (n : ℕ) × (front : CleanPath) × (tail : List Text) × (q : CleanPath) × (target
        ≡ front ++ tail)
      × (look n front ≡ found q)
      × IsInside root q
      × (p ≡ q ++ tail)

safe_or : CleanPath → Guarded → CleanPath
safe_or d (safe p) = p
safe_or d (refused e) = d

pub Resolved-cases :
    (r : Resolved)
    → ((p : CleanPath) × (tail : List Text) × (r ≡ resolved p tail))
      ⊎ ((e : PathError) × (r ≡ unresolved e))
Resolved-cases (resolved p tail) = inl (p, tail, refl)
Resolved-cases (unresolved e) = inr (e, refl)

ArePlain-behind : (front tail : List Text) → ArePlain (front ++ tail) → ArePlain tail
ArePlain-behind [] tail h = h
ArePlain-behind (c ∷ front) tail h = ArePlain-behind front tail h.1

module _ (look : ℕ → CleanPath → Looked)
    (cleaned : (n : ℕ) (q r : CleanPath) → look n q ≡ found r → ArePlain r) where
  guard_ancestor-IsSafe :
      (root target p : CleanPath)
      → ArePlain target
      → IsInside root target
      → guard_ancestor look root target ≡ safe p
      → IsSafe look root target p
  unfolding guard_ancestor safe_or
  guard_ancestor-IsSafe root target p plain lies h =
      elim (Resolved-cases (resolve_ancestor look root 1 (reverse target) [])) [
        | inr (e, r) ↦ absurd (ground (arith, rw (guard_ancestor, r) at h))
        | inl (q, tail, r) ↦ elim (Bool-cases (within_workspace root q)) [
          | inr out ↦ absurd (ground (arith, rw (guard_ancestor, r, out) at h))
          | inl near ↦ elim (Bool-cases (within_workspace root (clean (q ++ tail)))) [
            | inr out ↦ absurd (ground (arith, rw (guard_ancestor, r, near, out) at h))
            | inl in_root ↦
                let (n, front, e, seen) =
                  resolve_ancestor-IsFrom look root 1 (reverse target) [] q tail r in
                let parts : target ≡ front ++ tail =
                  sym (append-nil target ∙ refl)
                  ∙ ap (λ t. t ++ []) (sym (reverse-reverse target))
                  ∙ e in
                let behind = ArePlain-behind front tail (subst ArePlain parts plain) in
                let whole : clean (q ++ tail) ≡ q ++ tail =
                  clean-plain (q ++ tail)
                    (All-append (λ c. is_plain c ≡ true) q tail (cleaned n front q seen) behind) in
                let same : clean (q ++ tail) ≡ p =
                  ap (safe_or (clean (q ++ tail))) (rw (guard_ancestor, r, near, in_root) at h) in
                record {
                  inside =
                      subst (IsInside root) same
                        (within_workspace-IsInside root (clean (q ++ tail)) in_root);
                  plain = subst ArePlain same (clean-ArePlain (q ++ tail));
                  target_inside = lies;
                  looked = (
                    n,
                    front,
                    tail,
                    q,
                    parts,
                    seen,
                    within_workspace-IsInside root q near,
                    sym same ∙ whole,
                  );
                }
          ]
        ]
      ]

  guard_located-IsSafe :
      (root target p : CleanPath)
      → ArePlain target
      → guard_located look root target ≡ safe p
      → IsSafe look root target p
  unfolding guard_located safe_or
  guard_located-IsSafe root target p plain h = elim (Bool-cases (within_workspace root target)) [
    | inr out ↦ absurd (ground (arith, rw (guard_located, out) at h))
    | inl near ↦
        let lies = within_workspace-IsInside root target near in
        elim (Looked-cases (look 0 target)) [
          | inl (q, e) ↦ elim (Bool-cases (within_workspace root q)) [
            | inr out ↦ absurd (ground (arith, rw (guard_located, near, e, out) at h))
            | inl in_root ↦
                let same : q ≡ p = ap (safe_or q) (rw (guard_located, near, e, in_root) at h) in
                record {
                  inside = subst (IsInside root) same (within_workspace-IsInside root q in_root);
                  plain = subst ArePlain same (cleaned 0 target q e);
                  target_inside = lies;
                  looked = (
                    0,
                    target,
                    [],
                    q,
                    sym (append-nil target),
                    e,
                    within_workspace-IsInside root q in_root,
                    sym same ∙ sym (append-nil q),
                  );
                }
          ]
          | inr (inl e) ↦
              guard_ancestor-IsSafe root target p plain lies (rw (guard_located, near, e) at h)
          | inr (inr (why, e)) ↦
              guard_ancestor-IsSafe root target p plain lies (rw (guard_located, near, e) at h)
        ]
  ]

  -- A path that `pathGuard` lets through is the workspace root or below it, without "." or ".." in it, whatever the symbolic links and however they change between two looks. It is what one look gave for the target, or for a directory above the target, itself led to the workspace, with the rest of the target behind. Assumed is that `filepath.EvalSymlinks` gives cleaned paths.
  pub path_guard-IsSafe :
      (cwd : CleanPath) (root target : Text) (p : CleanPath)
      → path_guard look cwd root target ≡ safe p
      → IsSafe look (abs_path cwd root) (locate (abs_path cwd root) target) p
  unfolding path_guard locate
  path_guard-IsSafe cwd root target p h = elim (Bool-cases (root == [])) [
    | inl none' ↦ absurd (ground (arith, rw (path_guard, none') at h))
    | inr set ↦
        guard_located-IsSafe (abs_path cwd root) (locate (abs_path cwd root) target) p
          (clean-ArePlain
            (if is_abs target then split_path target else abs_path cwd root ++ split_path target))
          (rw (path_guard, set) at h)
  ]
