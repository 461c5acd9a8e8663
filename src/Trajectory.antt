-- ===== src/Trajectory.antt =====
-- Trajectories for the trainer, orchestrator/internal/rollout/{types,trajectory,trajectory_builder}.go:
-- completion records of a session are merged into append-only chains of token steps. Token ids are
-- numbers; a float64 is only copied or set to zero, and stands as its bit pattern. The proofs are in
-- the modules below.
pub mod Build
pub mod Check
pub mod Shape
pub mod Covers
pub mod Merge
mod Tests
use emage_code_cwso.Prelude.{
  ℕ, zero, suc, ◌+◌, ◌-◌, ◌<◌, Bool, true, false, not, ◌&&◌, ◌||◌, Option, none, some, List, [],
  ◌∷◌, ◌++◌, length, drop, any, replicate, Text, text, if◌then◌else◌, ltb, ◌==◌, nat_eq, text_eq,
}
use emage_code_cwso.Prelude.Map.{Map, lookup}
use emage_code_cwso.Prelude.Strings.{text_ltb}

-- `CompletionRecord`
pub record CompletionRecord : Type 0 where
  pub request_id : Text
  pub provider : Text
  pub prompt_token_ids : List ℕ
  pub sampled_token_ids : List ℕ
  pub logprobs : List ℕ
  pub finish_reason : Option Text
  pub timestamp_ns : ℕ
  pub partition_key : Text
  pub message_group_id : Text

-- `Step`
pub record Step : Type 0 where
  pub token_ids : List ℕ
  pub loss_mask : List ℕ
  pub logprobs : List ℕ
  pub message_group_id : Text

-- `Chain`
pub record Chain : Type 0 where
  pub chain_id : Text
  pub prefix_token_ids : List ℕ
  pub steps : List Step
  pub metadata : Map Text Text

-- `TrajectoryGroup`
pub record TrajectoryGroup : Type 0 where
  pub session_id : Text
  pub chains : List Chain
  pub rewards : List ℕ
  pub metadata : Map Text Text

-- The comparison of the stable sort.
unfoldable pub record_ltb : CompletionRecord → CompletionRecord → Bool
record_ltb a b =
    if not (a.timestamp_ns == b.timestamp_ns)
    then ltb a.timestamp_ns b.timestamp_ns
    else text_ltb a.request_id b.request_id

unfoldable pub insert_record : CompletionRecord → List CompletionRecord → List CompletionRecord
insert_record r [] = r ∷ []
insert_record r (x ∷ xs) =
    let later = insert_record r xs in if record_ltb x r then x ∷ later else r ∷ x ∷ xs

-- `sortCompletionRecords`
unfoldable pub sort_completion_records : List CompletionRecord → List CompletionRecord
sort_completion_records [] = []
sort_completion_records (r ∷ rs) = insert_record r (sort_completion_records rs)

-- `normalizeSessionID`
unfoldable pub normalize_session_id : Text → Text
normalize_session_id id = if id == [] then text "default" else id

-- `lossMaskOnes` and `lossMaskZeros`
abbrev pub loss_mask_ones : ℕ → List ℕ
loss_mask_ones n = replicate n 1

abbrev pub loss_mask_zeros : ℕ → List ℕ
loss_mask_zeros n = replicate n 0

-- The tokens of the steps after those of a prefix.
abbrev pub suffix_of : List ℕ → List Step → List ℕ
suffix_of out [] = out
suffix_of out (s ∷ ss) = suffix_of (out ++ s.token_ids) ss

-- `chainSuffix`
abbrev pub chain_suffix : Chain → List ℕ
chain_suffix c = suffix_of c.prefix_token_ids c.steps

-- `tokenIDsEqual`
abbrev pub token_ids_equal : List ℕ → List ℕ → Bool
token_ids_equal a b = a == b

-- `tokenIDsHasPrefix prompt prefix`
unfoldable pub token_ids_has_prefix : List ℕ → List ℕ → Bool
token_ids_has_prefix prompt [] = true
token_ids_has_prefix [] (p ∷ ps) = false
token_ids_has_prefix (t ∷ ts) (p ∷ ps) = t == p && token_ids_has_prefix ts ps

abbrev pub eot_interstitial_token_id : ℕ
eot_interstitial_token_id = 0xE07

-- `hasEOTInterstitialBoundary`
unfoldable pub has_eot_interstitial_boundary : List ℕ → List ℕ → Bool
has_eot_interstitial_boundary suffix prompt =
    token_ids_has_prefix prompt suffix
    && any (λ token. token == eot_interstitial_token_id) (drop (length suffix) prompt)

-- `assistantStep`
unfoldable pub assistant_step : CompletionRecord → Step
assistant_step rec = record {
  token_ids = rec.sampled_token_ids;
  loss_mask = loss_mask_ones (length rec.sampled_token_ids);
  logprobs = rec.logprobs;
  message_group_id = rec.message_group_id;
}

-- `interstitialStep`; the bit pattern of 0.0 is 0.
unfoldable pub interstitial_step : List ℕ → Step
interstitial_step tokens = record {
  token_ids = tokens;
  loss_mask = loss_mask_zeros (length tokens);
  logprobs = replicate (length tokens) 0;
  message_group_id = [];
}

-- `interstitialTokens`
unfoldable pub interstitial_tokens : Chain → List ℕ → List ℕ
interstitial_tokens c prompt =
    if token_ids_has_prefix prompt (chain_suffix c)
    then drop (length (chain_suffix c)) prompt
    else []

-- `chainPartitionKey`
unfoldable pub chain_partition_key : Chain → Text
chain_partition_key c = elim (lookup (text "partition_key") c.metadata) [ none ↦ [] | some k ↦ k ]

-- `chainPartitionCompatible`
unfoldable pub chain_partition_compatible : Chain → CompletionRecord → Bool
chain_partition_compatible c rec =
    if rec.partition_key == []
    then true
    else chain_partition_key c == [] || chain_partition_key c == rec.partition_key

-- `chainMetadataFromRecord`
unfoldable pub chain_metadata_from_record : CompletionRecord → Map Text Text
chain_metadata_from_record rec =
    if rec.partition_key == [] then [] else (text "partition_key", rec.partition_key) ∷ []

-- The tests of the loop in `findPolarExtendableChain`.
unfoldable pub extendable : Chain → CompletionRecord → Bool → Bool
extendable c rec interstitial_eots =
    if not (chain_partition_compatible c rec)
    then false
    else if not (token_ids_has_prefix rec.prompt_token_ids (chain_suffix c))
    then false
    else not
        (interstitial_eots && has_eot_interstitial_boundary (chain_suffix c) rec.prompt_token_ids)

-- The index of the first chain that passes a test.
unfoldable pub find_chain : (Chain → Bool) → List Chain → Option ℕ
find_chain ok [] = none
find_chain ok (c ∷ cs) =
    let later : Option ℕ = elim (find_chain ok cs) [ none ↦ none | some i ↦ some (suc i) ] in
    if ok c then some 0 else later

-- `findPolarExtendableChain` and `findExtendableChain`
abbrev pub find_polar_extendable_chain : List Chain → CompletionRecord → Bool → Option ℕ
find_polar_extendable_chain chains rec interstitial_eots =
    find_chain (λ c. extendable c rec interstitial_eots) chains

abbrev pub find_extendable_chain : List Chain → List ℕ → Option ℕ
find_extendable_chain chains prompt =
    find_chain (λ c. token_ids_equal prompt (chain_suffix c)) chains

-- `chains[i] = f(chains[i])`
unfoldable pub modify : List Chain → ℕ → (Chain → Chain) → List Chain
modify [] i f = []
modify (c ∷ cs) zero f = f c ∷ cs
modify (c ∷ cs) (suc i) f = c ∷ modify cs i f

unfoldable pub add_step : Chain → Step → Chain
add_step c s = record c { steps = c.steps ++ s ∷ [] }

-- A chain that `buildPrefixMergePolar` extends with a record.
unfoldable pub extend_chain : Bool → CompletionRecord → Chain → Chain
extend_chain interstitial_eots rec c =
    let interstitial = interstitial_tokens c rec.prompt_token_ids in
    if interstitial_eots && ltb 0 (length interstitial)
    then add_step (add_step c (interstitial_step interstitial)) (assistant_step rec)
    else add_step c (assistant_step rec)

abbrev pub chain_id_of : CompletionRecord → Text
chain_id_of rec = text "chain-" ++ rec.request_id

unfoldable pub new_chain : CompletionRecord → Map Text Text → Step → Chain
new_chain rec metadata step = record {
  chain_id = chain_id_of rec;
  prefix_token_ids = rec.prompt_token_ids;
  steps = step ∷ [];
  metadata = metadata;
}

-- One round of the loop in `buildPrefixMergePolar`.
unfoldable pub merge_record : Bool → List Chain → CompletionRecord → List Chain
merge_record interstitial_eots chains rec =
    if length rec.sampled_token_ids == 0
    then chains
    else elim (find_polar_extendable_chain chains rec interstitial_eots) [
      | some i ↦ modify chains i (extend_chain interstitial_eots rec)
      | none ↦ chains ++ new_chain rec (chain_metadata_from_record rec) (assistant_step rec) ∷ []
    ]

unfoldable pub merge_records : Bool → List Chain → List CompletionRecord → List Chain
merge_records interstitial_eots chains [] = chains
merge_records interstitial_eots chains (rec ∷ recs) =
    merge_records interstitial_eots (merge_record interstitial_eots chains rec) recs

-- `buildPrefixMergePolar`
unfoldable pub build_prefix_merge_polar : Text → List CompletionRecord → Bool → TrajectoryGroup
build_prefix_merge_polar session_id records interstitial_eots = record {
  session_id = normalize_session_id session_id;
  chains = merge_records interstitial_eots [] (sort_completion_records records);
  rewards = [];
  metadata = (text "builder", text "prefix_merge") ∷ (text "builder_version", text "v2") ∷ [];
}
