-- ===== src/Spikes/Subscriptions/Resources.antt =====
-- The resources that subscriptions are read by,
-- orchestrator/internal/dispatch/spike_subscriptions.go.
use emage_code_cwso.Prelude.{
  ℕ, zero, suc, ◌+◌, ◌/◌, ◌%◌, ◌≡◌, refl, ap, ◌∙◌, Bool, true, false, Option, none, some, List, [],
  ◌∷◌, ◌++◌, any, drop-append, length, Text, if◌then◌else◌, ◌==◌, eq_iff, nat_eq, text_eq, arith,
}
use emage_code_cwso.Prelude.Map.{lookup, lookup-insert, lookup-remove}
use emage_code_cwso.Prelude.Strings.{has_prefix, digits_from, decimal}
use emage_code_cwso.Tasks.Ids.{hex}
use emage_code_cwso.Spikes.Subscriptions.{
  Subscription, Registry, created, uri, spike_resource_prefix, random_subscription_id, create, get,
  remove_subscription, ends_id, parse_spike_resource_id,
}
use emage_code_cwso.Spikes.Subscriptions.Registered.{create-Made}

-- No byte of an id ends the id of a resource.
abbrev pub IsPlain : Text → Type 0
IsPlain id = any ends_id id ≡ false

hex-IsPlain : (bytes : List ℕ) → IsPlain (hex bytes)
unfolding hex
hex-IsPlain [] = refl
hex-IsPlain (b ∷ bytes) = ground (arith, hex-IsPlain bytes)

digits_from-IsPlain : (f n : ℕ) (acc : Text) → IsPlain acc → IsPlain (digits_from f n acc)
unfolding digits_from
digits_from-IsPlain zero n acc h = h
digits_from-IsPlain (suc f) n acc h =
    ground (arith, digits_from-IsPlain f (n / 10) ((b'0' + n % 10) ∷ acc))

random_subscription_id-IsPlain :
    (drawn : Option (List ℕ)) (nanos : ℕ) → IsPlain (random_subscription_id drawn nanos)
unfolding random_subscription_id decimal
random_subscription_id-IsPlain none nanos =
    ground (arith, digits_from-IsPlain (suc nanos) nanos [] refl)
random_subscription_id-IsPlain (some bytes) nanos = hex-IsPlain bytes

has_prefix-append : (p s : Text) → has_prefix (p ++ s) p ≡ true
unfolding has_prefix
has_prefix-append [] s = refl
has_prefix-append (c ∷ p) s = ground (arith, has_prefix-append p s, eq_iff c c)

parse-uri :
    (s : Subscription)
    → (s.id == []) ≡ false
    → IsPlain s.id
    → parse_spike_resource_id (uri s) ≡ some s.id
unfolding parse_spike_resource_id uri
parse-uri s named plain =
    ground
      (arith, has_prefix-append spike_resource_prefix s.id, drop-append spike_resource_prefix s.id)

-- What is read of the source of randomness: its 16 bytes, or an error.
abbrev pub IsRead : Option (List ℕ) → Type 0
IsRead none = Unit
IsRead (some bytes) = length bytes ≡ 16

random_subscription_id-named :
    (drawn : Option (List ℕ)) (nanos : ℕ)
    → IsRead drawn
    → (random_subscription_id drawn nanos == []) ≡ false
unfolding random_subscription_id hex
random_subscription_id-named none nanos h = refl
random_subscription_id-named (some []) nanos h = absurd (ground arith)
random_subscription_id-named (some (b ∷ bytes)) nanos h = refl

remove_subscription-get :
    (r : Registry) (id : Text) (s : Subscription)
    → lookup id r ≡ some s
    → get (remove_subscription r id).0 id ≡ none
unfolding get remove_subscription
remove_subscription-get r id s there =
    rw (remove_subscription, there) (lookup-remove id id r ∙ ground (arith, eq_iff id id))

-- A subscription that is created is found by the id in its resource URI, with the registry's other subscriptions as they were; once it is removed it is found no more. Its id is of 16 random bytes, or of the clock.
pub create-get :
    (path_match : Text → Text → Option Bool) (drawn : Option (List ℕ)) (nanos now : ℕ)
    (r : Registry) (path threshold : Text) (raws : List Text) (sub : Subscription)
    → IsRead drawn
    → (create path_match drawn nanos now r path threshold raws).1 ≡ created sub
    → let r' = (create path_match drawn nanos now r path threshold raws).0 in
      (parse_spike_resource_id (uri sub) ≡ some sub.id)
      × (get r' sub.id ≡ some sub)
      × ((id : Text) → get r' id ≡ (if sub.id == id then some sub else get r id))
      × (get (remove_subscription r' sub.id).0 sub.id ≡ none)
unfolding get remove_subscription
create-get path_match drawn nanos now r path threshold raws sub read made =
    let m = create-Made path_match drawn nanos now r path threshold raws sub made in
    let r' = (create path_match drawn nanos now r path threshold raws).0 in
    let found : (id : Text) → lookup id r' ≡ (if sub.id == id then some sub else lookup id r) =
      λ id. ap (lookup id) m.registered ∙ lookup-insert sub.id id sub r in
    let here : lookup sub.id r' ≡ some sub = ground (arith, found sub.id, eq_iff sub.id sub.id) in
    (
      parse-uri sub (ap (λ t. t == []) m.id_drawn ∙ random_subscription_id-named drawn nanos read)
          (ap (any ends_id) m.id_drawn ∙ random_subscription_id-IsPlain drawn nanos),
      here,
      found,
      remove_subscription-get r' sub.id sub here,
    )
