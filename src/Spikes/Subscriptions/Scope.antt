-- ===== src/Spikes/Subscriptions/Scope.antt =====
-- The workspaces that a subscription takes in, by what it was created with,
-- orchestrator/internal/dispatch/spike_subscriptions.go.
use mathlib.Core.Path.{subst}
use emage_code_cwso.Prelude.{
  ℕ, ◌≡◌, refl, sym, ap, ◌∙◌, Bool, true, false, not, ◌&&◌, Option, List, [], ◌∷◌, any, length, map,
  Text, if◌then◌else◌, ◌==◌, nat_eq, text_eq, arith,
}
use emage_code_cwso.Prelude.Members.{mem, Distinct}
use emage_code_cwso.Prelude.Strings.{trim_space}
use emage_code_cwso.Spikes.Volume.{first_seen}
use emage_code_cwso.Spikes.Volume.HotPaths.{mem-first_seen, Distinct-first_seen}
use emage_code_cwso.Spikes.Subscriptions.{
  Subscription, Registry, Envelope, created, clean_scope, matches_workspace, create,
}
use emage_code_cwso.Spikes.Subscriptions.Registered.{create-Made}

pub clean_scope-first_seen :
    (seen raws : List Text) → clean_scope seen raws ≡ first_seen seen (map trim_space raws)
unfolding clean_scope first_seen
clean_scope-first_seen seen [] = refl
clean_scope-first_seen seen (raw ∷ raws) =
    ground
      (arith, clean_scope-first_seen seen raws, clean_scope-first_seen (trim_space raw ∷ seen) raws)

-- Whether a workspace is one of the list, by its name without the blanks around it.
abbrev pub is_listed : List Text → Text → Bool
is_listed raws ws = not (ws == []) && mem ws (map trim_space raws)

mem-clean_scope : (raws : List Text) (ws : Text) → mem ws (clean_scope [] raws) ≡ is_listed raws ws
unfolding mem
mem-clean_scope raws ws =
    ap (mem ws) (clean_scope-first_seen [] raws)
    ∙ mem-first_seen ws [] (map trim_space raws)
    ∙ ground arith

any-scope :
    (raws : List Text) (workspaces : List Text)
    → any (λ ws. mem ws (clean_scope [] raws)) workspaces ≡ any (is_listed raws) workspaces
any-scope raws [] = refl
any-scope raws (ws ∷ workspaces) =
    ground (arith, any-scope raws workspaces, mem-clean_scope raws ws)

-- Whether every name of the list is blank.
unfoldable pub all_blank : List Text → Bool
all_blank [] = true
all_blank (raw ∷ raws) = trim_space raw == [] && all_blank raws

first_seen-blank :
    (seen raws : List Text)
    → length seen ≡ 0
    → (length (first_seen seen (map trim_space raws)) == 0) ≡ all_blank raws
unfolding first_seen all_blank mem
first_seen-blank seen [] none' = refl
first_seen-blank [] (raw ∷ raws) none' = ground (arith, first_seen-blank [] raws refl)
first_seen-blank (s ∷ seen) (raw ∷ raws) none' = absurd (ground arith)

pub clean_scope-once :
    (raws : List Text) → Distinct (clean_scope [] raws) × (mem [] (clean_scope [] raws) ≡ false)
clean_scope-once raws = (
  subst Distinct (sym (clean_scope-first_seen [] raws))
      (Distinct-first_seen [] (map trim_space raws)),
  mem-clean_scope raws [] ∙ refl,
)

-- A subscription takes in an event by its workspaces where the names it was created with are all blank, or where one of the event's workspaces, that of its envelope or one of those it lists, is among them once the blanks around them are cut off: a repeated or a blank name changes nothing.
pub create-matches_workspace :
    (path_match : Text → Text → Option Bool) (drawn : Option (List ℕ)) (nanos now : ℕ)
    (r : Registry) (path threshold : Text) (raws : List Text) (sub : Subscription) (env : Envelope)
    → (create path_match drawn nanos now r path threshold raws).1 ≡ created sub
    → matches_workspace sub env
      ≡ (if all_blank raws then true else any (is_listed raws) (env.workspace ∷ env.workspaces))
unfolding matches_workspace
create-matches_workspace path_match drawn nanos now r path threshold raws sub env made =
    let m = create-Made path_match drawn nanos now r path threshold raws sub made in
    let scope : List Text → Bool = λ l.
      if length l == 0
      then true
      else if not (env.workspace == []) && mem env.workspace l
      then true
      else any (λ ws. mem ws l) env.workspaces in
    ap scope m.scoped
    ∙ ground (
      arith,
      ap (λ l. length l == 0) (clean_scope-first_seen [] raws),
      first_seen-blank [] raws refl,
      mem-clean_scope raws env.workspace,
      any-scope raws env.workspaces,
    )
