-- ===== src/Tools/Paths.antt =====
-- The path check of the file tools, `pathGuard` of orchestrator/internal/tools/fs_tools.go (and, word
-- for word, of fs_tools_portable.go). A cleaned absolute path is the list of its components. What
-- `filepath.EvalSymlinks` answers is an argument and may change from one call to the next: it is
-- asked by the number of the call. The proofs are in the modules below.
pub mod Plain
pub mod Ancestors
pub mod Inside
pub mod Ends
use mathlib.Core.List.{reverse}
use emage_code_cwso.Prelude.{
  ℕ, ◌+◌, Bool, true, false, not, ◌||◌, List, [], ◌∷◌, ◌++◌, Text, text, if◌then◌else◌, ◌==◌,
  nat_eq, text_eq,
}
use emage_code_cwso.Prelude.Strings.{has_prefix}

-- A cleaned absolute path, from the root on.
abbrev pub CleanPath : Type 0
CleanPath = List Text

-- Whether two such paths are the same.
unfoldable pub same_path : CleanPath → CleanPath → Bool
same_path [] [] = true
same_path [] (c ∷ cs) = false
same_path (b ∷ bs) [] = false
same_path (b ∷ bs) (c ∷ cs) = let rest = same_path bs cs in if b == c then rest else false

-- The parts of a path between slashes.
unfoldable pub split_path : Text → List Text
split_path [] = [] ∷ []
split_path (c ∷ cs) = elim (split_path cs) [
  | [] ↦ (c ∷ []) ∷ []
  | part ∷ parts ↦ if c == b'/' then [] ∷ part ∷ parts else (c ∷ part) ∷ parts
]

-- `filepath.IsAbs`
unfoldable pub is_abs : Text → Bool
is_abs t = has_prefix t (text "/")

-- One part of a path, onto the components before it, the last one first.
unfoldable pub push_part : List Text → Text → List Text
push_part above part =
    if part == [] || part == text "."
    then above
    else if part == text ".."
    then elim above [ [] ↦ [] | c ∷ cs ↦ cs ]
    else part ∷ above

unfoldable pub push_parts : List Text → List Text → List Text
push_parts above [] = above
push_parts above (part ∷ parts) = push_parts (push_part above part) parts

-- `filepath.Clean` of an absolute path, by its parts.
unfoldable pub clean : List Text → CleanPath
clean parts = reverse (push_parts [] parts)

-- `filepath.Abs`, by the working directory.
unfoldable pub abs_path : CleanPath → Text → CleanPath
abs_path cwd root = clean (if is_abs root then split_path root else cwd ++ split_path root)

-- Where a target is, before any symbolic link is followed.
unfoldable pub locate : CleanPath → Text → CleanPath
locate root target = clean (if is_abs target then split_path target else root ++ split_path target)

-- `withinWorkspace`: whether the relative path from the root begins with other bytes than "..".
unfoldable pub within_workspace : CleanPath → CleanPath → Bool
within_workspace [] [] = true
within_workspace [] (c ∷ cs) = not (has_prefix c (text ".."))
within_workspace (r ∷ rs) [] = false
within_workspace (r ∷ rs) (c ∷ cs) =
    let rest = within_workspace rs cs in if r == c then rest else false

-- What `filepath.EvalSymlinks` answers.
pub data Looked : Type 0 where
  found : CleanPath → Looked
  missing : Looked
  failed : Text → Looked

pub data PathError : Type 0 where
  not_configured escapes links_outside root_missing no_ancestor : PathError
  look_failed : Text → PathError

-- What `resolveNearestExistingAncestor` answers.
pub data Resolved : Type 0 where
  resolved : CleanPath → List Text → Resolved
  unresolved : PathError → Resolved

pub data Guarded : Type 0 where
  safe : CleanPath → Guarded
  refused : PathError → Guarded

module _ (look : ℕ → CleanPath → Looked) where
  -- The loop of `resolveNearestExistingAncestor`, over the components of the path, the last one
  -- first, and the number of the next call.
  unfoldable pub resolve_ancestor : CleanPath → ℕ → List Text → List Text → Resolved
  resolve_ancestor root n [] tail = elim (look n []) [
    | found p ↦ resolved p tail
    | failed e ↦ unresolved (look_failed e)
    | missing ↦ if same_path [] root then unresolved root_missing else unresolved no_ancestor
  ]
  resolve_ancestor root n (c ∷ above) tail = elim (look n (reverse (c ∷ above))) [
    | found p ↦ resolved p tail
    | failed e ↦ unresolved (look_failed e)
    | missing ↦
        let further = resolve_ancestor root (n + 1) above (c ∷ tail) in
        if same_path (reverse (c ∷ above)) root then unresolved root_missing else further
  ]

  -- `pathGuard` for a target that does not exist.
  unfoldable pub guard_ancestor : CleanPath → CleanPath → Guarded
  guard_ancestor root target = elim (resolve_ancestor root 1 (reverse target) []) [
    | unresolved e ↦ refused e
    | resolved p tail ↦
        let joined = clean (p ++ tail) in
        if not (within_workspace root p)
        then refused links_outside
        else if not (within_workspace root joined)
        then refused links_outside
        else safe joined
  ]

  -- `pathGuard`, once the target is located.
  unfoldable pub guard_located : CleanPath → CleanPath → Guarded
  guard_located root target =
      if not (within_workspace root target) then refused escapes else elim (look 0 target) [
        | found p ↦ if within_workspace root p then safe p else refused links_outside
        | missing ↦ guard_ancestor root target
        | failed e ↦ guard_ancestor root target
      ]

  -- `pathGuard`
  unfoldable pub path_guard : CleanPath → Text → Text → Guarded
  path_guard cwd root target =
      let abs = abs_path cwd root in
      if root == [] then refused not_configured else guard_located abs (locate abs target)
