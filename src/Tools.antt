-- ===== src/Tools.antt =====
-- The registry of tools, orchestrator/internal/tools/registry.go, and the confinement of the file
-- tools to a workspace, which is in Tools/Paths. A tool is dispatched dynamically and stands as a
-- record of its methods, over a state `S` of what the tools work on. The proofs are in the modules
-- below.
pub mod Paths
mod Tests
use emage_code_cwso.Prelude.{
  ℕ, Bool, true, false, Option, none, some, List, [], ◌∷◌, ◌++◌, Text, text, if◌then◌else◌, ◌==◌,
  text_eq,
}
use emage_code_cwso.Prelude.Map.{Map, lookup, insert}
use emage_code_cwso.Prelude.Members.{mem}

-- `Role`
abbrev pub role_orchestrator : Text
role_orchestrator = text "orchestrator"

abbrev pub role_worker : Text
role_worker = text "worker"

-- `ToolCallResult`: the texts of its blocks, and whether it is an error.
pub record ToolCallResult : Type 0 where
  pub content : List Text
  pub is_error : Bool

-- `TextResult`
abbrev pub text_result : Text → ToolCallResult
text_result t = record { content = t ∷ []; is_error = false }

-- `TextError`
abbrev pub text_error : Text → ToolCallResult
text_error t = record { content = t ∷ []; is_error = true }

-- What `Execute` answers: a result, nil, or the text of an error.
pub data Executed : Type 0 where
  executed : ToolCallResult → Executed
  no_result : Executed
  execution_failed : Text → Executed

-- `Tool` of the package tools
pub record Tool (S : Type 0) : Type 0 where
  pub name : Text
  pub description : Text
  pub input_schema : Text
  pub allowed_roles : List Text
  pub execute : Text → S → S × Executed

-- `Tool` of the package mcp
pub record ToolInfo : Type 0 where
  pub name : Text
  pub description : Text
  pub input_schema : Text

pub data RegisterError : Type 0 where
  already_registered : Text → RegisterError

module _ {S : Type 0} where
  -- `Register` of a registry, a map
  unfoldable pub register_tool :
      Map Text (Tool S) → Tool S → Map Text (Tool S) × Option RegisterError
  register_tool r t = elim (lookup t.name r) [
    | some old ↦ (r, some (already_registered t.name))
    | none ↦ (insert t.name t r, none)
  ]

  -- `List`, in the order of the map
  unfoldable pub list_tools : Map Text (Tool S) → List ToolInfo
  list_tools [] = []
  list_tools ((k, t) ∷ r) =
      record { name = t.name; description = t.description; input_schema = t.input_schema }
      ∷ list_tools r

  -- `Get`
  unfoldable pub get_tool : Map Text (Tool S) → Text → Option (Tool S)
  get_tool r name = lookup name r

  -- `Authorized`
  unfoldable pub authorized : Map Text (Tool S) → Text → Text → Option (Tool S) × Bool
  authorized r name role = elim (get_tool r name) [
    | none ↦ (none, false)
    | some t ↦ (some t, mem role t.allowed_roles)
  ]
