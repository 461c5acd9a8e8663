-- ===== src/Tools/Tests.antt =====
-- Paths to try the path check on, orchestrator/internal/tools/fs_tools.go.
use mathlib.Core.Path.{subst}
use emage_code_cwso.Prelude.{
  ℕ, ◌≡◌, ◌≢◌, refl, ap, inl, inr, Bool-cases, [], ◌∷◌, text, if◌then◌else◌, text_eq, arith,
}
use emage_code_cwso.Prelude.Strings.{has_prefix}
use emage_code_cwso.Tools.Paths.{
  CleanPath, same_path, clean, abs_path, locate, within_workspace, Looked, found, missing, escapes,
  no_ancestor, safe, refused, resolve_ancestor, guard_ancestor, guard_located, path_guard,
  split_path, is_abs, push_part, push_parts,
}
use emage_code_cwso.Tools.Paths.Plain.{ArePlain}
use emage_code_cwso.Tools.Paths.Inside.{IsSafe, path_guard-IsSafe}
use emage_code_cwso.Tools.Paths.Ends.{path_guard-ends}

abbrev workspace : CleanPath
workspace = text "w" ∷ []

-- A file system where the workspace exists, and `w/in` is a link to `w/sub`.
abbrev look : ℕ → CleanPath → Looked
look n q =
    if same_path q workspace
    then found workspace
    else if same_path q (text "w" ∷ text "in" ∷ [])
    then found (text "w" ∷ text "sub" ∷ [])
    else missing

path_of : CleanPath → Looked → CleanPath
path_of d (found p) = p
path_of d l = d

look-ArePlain : (n : ℕ) (q r : CleanPath) → look n q ≡ found r → ArePlain r
unfolding path_of
look-ArePlain n q r h = elim (Bool-cases (same_path q workspace)) [
  | inl root ↦ subst ArePlain (ap (path_of workspace) (rw root at h)) (refl, tt)
  | inr other ↦ elim (Bool-cases (same_path q (text "w" ∷ text "in" ∷ []))) [
    | inl link ↦
        subst ArePlain (ap (path_of (text "w" ∷ text "sub" ∷ [])) (rw (other, link) at h))
          (refl, (refl, tt))
    | inr gone ↦ absurd (ground (arith, rw (other, gone) at h))
  ]
]

new_file_test :
    path_guard look [] (text "/w") (text "in/./a/../new.txt")
    ≡ safe (text "w" ∷ text "sub" ∷ text "new.txt" ∷ [])
unfolding path_guard abs_path locate clean split_path is_abs push_part push_parts guard_located
    guard_ancestor resolve_ancestor within_workspace same_path has_prefix
new_file_test = refl

outside_test : path_guard look [] (text "/w") (text "../etc/passwd") ≡ refused escapes
unfolding path_guard abs_path locate clean split_path is_abs push_part push_parts guard_located
    within_workspace same_path has_prefix
outside_test = refl

dotted_name_test : path_guard look [] (text "/w") (text "..data") ≡ refused escapes
unfolding path_guard abs_path locate clean split_path is_abs push_part push_parts guard_located
    within_workspace same_path has_prefix
dotted_name_test = refl

path_guard-IsSafe_example :
    IsSafe look
      (abs_path [] (text "/w"))
      (locate (abs_path [] (text "/w")) (text "in/./a/../new.txt"))
      (text "w" ∷ text "sub" ∷ text "new.txt" ∷ [])
path_guard-IsSafe_example =
    path_guard-IsSafe look look-ArePlain [] (text "/w") (text "in/./a/../new.txt")
      (text "w" ∷ text "sub" ∷ text "new.txt" ∷ []) new_file_test

path_guard-ends_example : path_guard look [] (text "/w") (text "a/b") ≢ refused no_ancestor
path_guard-ends_example = path_guard-ends look [] (text "/w") (text "a/b")
