-- ===== src/Spikes/Subscriptions.antt =====
-- Subscriptions to spikes, orchestrator/internal/dispatch/spike_subscriptions.go. What
-- `json.Unmarshal` reads of a payload and what `path.Match` answers are arguments, and so are the
-- random bytes and the clock. The proofs are in the modules below.
pub mod Registered
pub mod Scope
pub mod Resources
pub mod Invariant
use emage_code_cwso.Prelude.{
  ℕ, ◌+◌, Bool, true, false, not, ◌&&◌, ◌||◌, Option, none, some, List, [], ◌∷◌, ◌++◌, drop, length,
  any, select, Text, text, if◌then◌else◌, ltb, leb, ◌==◌, nat_eq, text_eq,
}
use emage_code_cwso.Prelude.Map.{Map, lookup, insert, remove}
use emage_code_cwso.Prelude.Members.{mem}
use emage_code_cwso.Prelude.Strings.{has_prefix, trim_space, text_ltb, decimal}
use emage_code_cwso.Spikes.{
  kind_cosmetic, kind_symbol_added, kind_symbol_removed, kind_signature_change, threshold_any, rank,
  threshold_rank,
}
use emage_code_cwso.Tasks.Ids.{hex}

abbrev pub topic_ast_spike : Text
topic_ast_spike = text "ast/spike"

-- `astSpikeTopics`
abbrev pub ast_spike_topics : List Text
ast_spike_topics = topic_ast_spike ∷ text "ast/semantic-spike" ∷ text "ast/conflict-warning" ∷ []

abbrev pub spike_resource_prefix : Text
spike_resource_prefix = text "cwso://spikes/"

-- `SpikeSubscription`; its `scope` holds what its `WorkspaceScope` lists.
pub record Subscription : Type 0 where
  pub id : Text
  pub path : Text
  pub semantic_threshold : Text
  pub workspace_scope : List Text
  pub created_at : ℕ
  pub min_rank : ℕ

-- `URI`
unfoldable pub uri : Subscription → Text
uri s = spike_resource_prefix ++ s.id

-- `spikeEnvelope`
pub record Envelope : Type 0 where
  pub workspace : Text
  pub path : Text
  pub spike_kind : Text
  pub hot_paths : List Text
  pub workspaces : List Text

abbrev no_envelope : Envelope
no_envelope = record { workspace = []; path = []; spike_kind = []; hot_paths = []; workspaces = [] }

-- `matchesThreshold`
unfoldable pub matches_threshold : Subscription → Text → Text → Bool
matches_threshold s topic kind =
    leb s.min_rank (if topic == topic_ast_spike then rank kind_cosmetic else rank kind)

-- `matchesWorkspace`
unfoldable pub matches_workspace : Subscription → Envelope → Bool
matches_workspace s env =
    if length s.workspace_scope == 0
    then true
    else if not (env.workspace == []) && mem env.workspace s.workspace_scope
    then true
    else any (λ ws. mem ws s.workspace_scope) env.workspaces

abbrev is_match : Option Bool → Bool
is_match none = false
is_match (some b) = b

-- `isASTSpikeTopic`
unfoldable pub is_ast_spike_topic : Text → Bool
is_ast_spike_topic topic = any (λ t. t == topic) ast_spike_topics

module _ (path_match : Text → Text → Option Bool) where
  -- `matchesPath`
  unfoldable pub matches_path : Subscription → Text → Envelope → Bool
  matches_path s topic env =
      if s.path == []
      then true
      else any (λ c. not (c == []) && is_match (path_match s.path c))
          (if topic == topic_ast_spike then env.hot_paths else env.path ∷ [])

  -- `Allow` of a subscription
  unfoldable pub allow : (Text → Envelope) → Subscription → Text → Text → Bool
  allow decode s topic payload =
      let env = if ltb 0 (length payload) then decode payload else no_envelope in
      if not (is_ast_spike_topic topic)
      then false
      else if not (matches_threshold s topic env.spike_kind)
      then false
      else if not (matches_workspace s env)
      then false
      else matches_path s topic env

-- `SpikeSubscriptionRegistry`
abbrev pub Registry : Type 0
Registry = Map Text Subscription

-- `NormalizeSemanticThreshold`; none is an invalid threshold.
unfoldable pub normalize_semantic_threshold : Text → Option Text
normalize_semantic_threshold threshold =
    if threshold == []
    then some kind_signature_change
    else if threshold == kind_signature_change
        || threshold == kind_symbol_added
        || threshold == kind_symbol_removed
        || threshold == threshold_any
    then some threshold
    else none

-- `randomSubscriptionID`, from what `rand.Read` gives, or else from the clock.
unfoldable pub random_subscription_id : Option (List ℕ) → ℕ → Text
random_subscription_id none nanos = text "spk-" ++ decimal nanos
random_subscription_id (some bytes) nanos = hex bytes

-- The scope that a list of workspaces gives: trimmed, none that is blank, each once.
unfoldable pub clean_scope : List Text → List Text → List Text
clean_scope seen [] = []
clean_scope seen (raw ∷ raws) =
    let ws = trim_space raw in
    let without = clean_scope seen raws in
    let with_it = ws ∷ clean_scope (ws ∷ seen) raws in
    if ws == [] then without else if mem ws seen then without else with_it

pub data CreateError : Type 0 where
  invalid_threshold : Text → CreateError
  invalid_glob : Text → CreateError

-- What `Create` answers.
pub data Created : Type 0 where
  refused : CreateError → Created
  created : Subscription → Created

abbrev pub is_bad : Option Bool → Bool
is_bad none = true
is_bad (some b) = false

module _ (path_match : Text → Text → Option Bool) where
  -- `Create`
  unfoldable pub create :
      Option (List ℕ) → ℕ → ℕ → Registry → Text → Text → List Text → Registry × Created
  create drawn nanos now r path threshold workspace_scope =
      elim (normalize_semantic_threshold threshold) [
        | none ↦ (r, refused (invalid_threshold threshold))
        | some kind ↦
            let id = random_subscription_id drawn nanos in
            let sub : Subscription = record {
              id = id;
              path = path;
              semantic_threshold = kind;
              workspace_scope = clean_scope [] workspace_scope;
              created_at = now;
              min_rank = threshold_rank kind;
            } in
            if not (path == []) && is_bad (path_match path (text "probe"))
            then (r, refused (invalid_glob path))
            else (insert id sub r, created sub)
      ]

-- `Get`
unfoldable pub get : Registry → Text → Option Subscription
get r id = lookup id r

-- `Remove`
unfoldable pub remove_subscription : Registry → Text → Registry × Bool
remove_subscription r id = elim (lookup id r) [ none ↦ (r, false) | some s ↦ (remove id r, true) ]

-- The comparison of `List`
unfoldable pub older : Subscription → Subscription → Bool
older a b =
    if not (a.created_at == b.created_at) then ltb a.created_at b.created_at else text_ltb a.id b.id

unfoldable pub insert_older : Subscription → List Subscription → List Subscription
insert_older s [] = s ∷ []
insert_older s (t ∷ ts) =
    let later = t ∷ insert_older s ts in if older t s then later else s ∷ t ∷ ts

-- `List`
unfoldable pub list_subscriptions : Registry → List Subscription
list_subscriptions [] = []
list_subscriptions ((id, s) ∷ r) = insert_older s (list_subscriptions r)

abbrev pub ends_id : ℕ → Bool
ends_id c = c == b'/' || c == b'?' || c == b'#'

-- `ParseSpikeResourceID`
unfoldable pub parse_spike_resource_id : Text → Option Text
parse_spike_resource_id uri =
    let id = drop (length spike_resource_prefix) uri in
    if not (has_prefix uri spike_resource_prefix)
    then none
    else if id == [] || any ends_id id
    then none
    else some id
