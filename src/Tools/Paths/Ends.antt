-- ===== src/Tools/Paths/Ends.antt =====
-- The path check comes to an end, orchestrator/internal/tools/fs_tools.go.
use mathlib.Core.List.{reverse, reverse-append, reverse-reverse}
use emage_code_cwso.Prelude.{
  ℕ, ◌≡◌, ◌≢◌, refl, sym, ap, ◌∙◌, inl, inr, Bool, true, false, Bool-cases, [], ◌++◌, Text, ◌==◌,
  text_eq, arith,
}
use emage_code_cwso.Tools.Paths.{
  CleanPath, clean, abs_path, locate, within_workspace, Looked, PathError, not_configured, escapes,
  links_outside, root_missing, no_ancestor, look_failed, unresolved, resolve_ancestor, Guarded,
  safe, refused, guard_ancestor, guard_located, path_guard,
}
use emage_code_cwso.Tools.Paths.Ancestors.{
  IsInside, within_workspace-IsInside, Looked-cases, is_no_ancestor, resolve_ancestor-below,
}
use emage_code_cwso.Tools.Paths.Inside.{Resolved-cases}

is_lost : Guarded → Bool
is_lost (safe p) = false
is_lost (refused no_ancestor) = true
is_lost (refused e) = false

module _ (look : ℕ → CleanPath → Looked) where
  is_lost-unresolved :
      (e : PathError) → is_no_ancestor (unresolved e) ≡ false → is_lost (refused e) ≡ false
  unfolding is_lost
  is_lost-unresolved not_configured h = refl
  is_lost-unresolved escapes h = refl
  is_lost-unresolved links_outside h = refl
  is_lost-unresolved root_missing h = refl
  is_lost-unresolved no_ancestor h = absurd (ground arith)
  is_lost-unresolved (look_failed e) h = refl

  guard_ancestor-found :
      (root target : CleanPath)
      → IsInside root target
      → is_lost (guard_ancestor look root target) ≡ false
  unfolding guard_ancestor is_lost
  guard_ancestor-found root target (rest, e) =
      let walk = resolve_ancestor look root 1 (reverse target) [] in
      let ends : is_no_ancestor walk ≡ false =
        ap (λ l. is_no_ancestor (resolve_ancestor look root 1 l []))
          (ap reverse e ∙ reverse-append root rest)
        ∙ resolve_ancestor-below look root 1 (reverse rest) (reverse root) []
            (reverse-reverse root) in
      elim (Resolved-cases walk) [
        | inr (why, r) ↦
            rw (guard_ancestor, r) (is_lost-unresolved why (sym (ap is_no_ancestor r) ∙ ends))
        | inl (q, tail, r) ↦ elim (Bool-cases (within_workspace root q)) [
          | inr out ↦ rw (guard_ancestor, r, out) refl
          | inl near ↦ elim (Bool-cases (within_workspace root (clean (q ++ tail)))) [
            | inr out ↦ rw (guard_ancestor, r, near, out) refl
            | inl in_root ↦ rw (guard_ancestor, r, near, in_root) refl
          ]
        ]
      ]

  guard_located-found : (root target : CleanPath) → is_lost (guard_located look root target) ≡ false
  unfolding guard_located is_lost
  guard_located-found root target = elim (Bool-cases (within_workspace root target)) [
    | inr out ↦ rw (guard_located, out) refl
    | inl near ↦
        let further =
          guard_ancestor-found root target (within_workspace-IsInside root target near) in
        elim (Looked-cases (look 0 target)) [
          | inl (q, e) ↦ elim (Bool-cases (within_workspace root q)) [
            | inr out ↦ rw (guard_located, near, e, out) refl
            | inl in_root ↦ rw (guard_located, near, e, in_root) refl
          ]
          | inr (inl e) ↦ rw (guard_located, near, e) further
          | inr (inr (why, e)) ↦ rw (guard_located, near, e) further
        ]
  ]

  -- The walk of `pathGuard` up from a target always comes to an end at the workspace root or before: whatever is asked and whatever the file system answers, `pathGuard` never refuses for want of an existing ancestor.
  pub path_guard-ends :
      (cwd : CleanPath) (root target : Text) → path_guard look cwd root target ≢ refused no_ancestor
  unfolding path_guard is_lost
  path_guard-ends cwd root target lost = elim (Bool-cases (root == [])) [
    | inl none' ↦ absurd (ground (arith, rw (path_guard, none') at lost))
    | inr set ↦ absurd (
        ground (
          arith,
          sym (guard_located-found (abs_path cwd root) (locate (abs_path cwd root) target))
              ∙ ap is_lost (rw (path_guard, set) at lost),
        ))
  ]
