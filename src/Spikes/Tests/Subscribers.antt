-- ===== src/Spikes/Tests/Subscribers.antt =====
-- Subscriptions to try, orchestrator/internal/dispatch/spike_subscriptions.go.
use emage_code_cwso.Prelude.{
  ℕ, ◌≡◌, refl, Bool, Option, none, some, List, [], ◌∷◌, All, Text, text, if◌then◌else◌, ◌==◌,
  nat_eq, text_eq,
}
use emage_code_cwso.Prelude.Members.{mem}
use emage_code_cwso.Prelude.Strings.{
  trim_space, trim_by, space_width, space_width_rev, is_ascii_space,
}
use emage_code_cwso.Spikes.{rank, threshold_rank}
use emage_code_cwso.Tasks.Ids.{hex}
use emage_code_cwso.Spikes.Subscriptions.{
  Subscription, Envelope, created, uri, normalize_semantic_threshold, random_subscription_id,
  clean_scope, create, get, remove_subscription, parse_spike_resource_id,
}
use emage_code_cwso.Spikes.Subscriptions.Resources.{create-get}
use emage_code_cwso.Spikes.Subscriptions.Invariant.{subscribe, cancel, run, IsEntry, run-IsEntry}

abbrev match_same : Text → Text → Option Bool
match_same pattern path = some (pattern == path)

abbrev bytes : List ℕ
bytes = 1 ∷ 2 ∷ 3 ∷ 4 ∷ 5 ∷ 6 ∷ 7 ∷ 8 ∷ 9 ∷ 10 ∷ 11 ∷ 12 ∷ 13 ∷ 14 ∷ 15 ∷ 16 ∷ []

abbrev scope : List Text
scope = text " w " ∷ [] ∷ text "w" ∷ []

abbrev watcher : Subscription
watcher = record {
  id = text "0102030405060708090a0b0c0d0e0f10";
  path = [];
  semantic_threshold = text "any";
  workspace_scope = text "w" ∷ [];
  created_at = 9;
  min_rank = 1;
}

abbrev of_w : Envelope
of_w = record {
  workspace = [];
  path = [];
  spike_kind = text "cosmetic";
  hot_paths = [];
  workspaces = text "w" ∷ [];
}

create_test : (create match_same (some bytes) 0 9 [] [] (text "any") scope).1 ≡ created watcher
unfolding create normalize_semantic_threshold random_subscription_id hex clean_scope mem trim_space
    trim_by space_width space_width_rev is_ascii_space rank threshold_rank
create_test = refl

create-get_example :
    let r' = (create match_same (some bytes) 0 9 [] [] (text "any") scope).0 in
    (parse_spike_resource_id (uri watcher) ≡ some watcher.id)
    × (get r' watcher.id ≡ some watcher)
    × ((id : Text) → get r' id ≡ (if watcher.id == id then some watcher else get [] id))
    × (get (remove_subscription r' watcher.id).0 watcher.id ≡ none)
create-get_example =
    create-get match_same (some bytes) 0 9 [] [] (text "any") scope watcher refl create_test

run-IsEntry_example : All (IsEntry match_same) (
    run match_same [] (
      subscribe (some bytes) 0 9 [] (text "any") scope
      ∷ subscribe none 7 9 [] [] []
      ∷ cancel (text "spk-7")
      ∷ []))
run-IsEntry_example = run-IsEntry match_same (
    subscribe (some bytes) 0 9 [] (text "any") scope
    ∷ subscribe none 7 9 [] [] []
    ∷ cancel (text "spk-7")
    ∷ [])
