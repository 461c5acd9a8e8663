-- ===== src/Sandbox/Policy.antt =====
-- What the tier router promises, orchestrator/internal/sandbox/router.go.
use emage_code_cwso.Prelude.{
  ◌≡◌, refl, ◌⊎◌, inl, inr, ◌≢◌, true, false, Bool-cases, Option-cases, Option, none, some, [],
  Text, ◌==◌, text_eq, eq_iff, arith,
}
use emage_code_cwso.Sandbox.{
  Router, Runner, Route, Reason, policy_requested, policy_default, ok, err, invalid_profile,
  RunRequest, docker_trusted, gvisor_fast_ephemeral, firecracker_secure, to_gvisor, resolve,
  resolve_docker_trusted, resolve_firecracker, valid_profile, execute, run_on,
}

-- What a route of the router may be: its tier names the backend that runs, docker only with the
-- operator's leave and when asked for, firecracker only on a host that has it.
pub data IsAllowed (r : Router) (requested : Text) : Route → Type 0 where
  on_gvisor :
      {why : Reason}
      → IsAllowed r requested
          (record { runner = r.gvisor; tier = gvisor_fast_ephemeral; reason = why })
  on_docker :
      {d : Runner}
      → requested ≡ docker_trusted
      → r.allow_docker_trusted ≡ true
      → r.docker ≡ some d
      → IsAllowed r requested
          (record { runner = d; tier = docker_trusted; reason = policy_requested })
  on_firecracker :
      {f : Runner}
      → requested ≡ firecracker_secure
      → r.degraded_mode ≡ false
      → r.firecracker ≡ some f
      → IsAllowed r requested
          (record { runner = f; tier = firecracker_secure; reason = policy_requested })

docker-IsAllowed :
    (r : Router) (p : Text) → p ≡ docker_trusted → IsAllowed r p (resolve_docker_trusted r)
unfolding resolve_docker_trusted
docker-IsAllowed r p e = elim (Bool-cases r.allow_docker_trusted) [
  | inr denied ↦ simp denied on_gvisor
  | inl leave ↦ elim (Option-cases r.docker) [
    | inl missing ↦ simp (leave, missing) on_gvisor
    | inr (d, there) ↦ simp (leave, there) (on_docker e leave there)
  ]
]

firecracker-IsAllowed :
    (r : Router) (p : Text) → p ≡ firecracker_secure → IsAllowed r p (resolve_firecracker r)
unfolding resolve_firecracker
firecracker-IsAllowed r p e = elim (Option-cases r.firecracker) [
  | inl missing ↦ simp (missing, resolve_firecracker) on_gvisor
  | inr (f, there) ↦ elim (Bool-cases r.degraded_mode) [
    | inl degraded ↦ simp (there, resolve_firecracker, degraded) on_gvisor
    | inr whole ↦ simp (there, resolve_firecracker, whole) (on_firecracker e whole there)
  ]
]

not_known :
    (p : Text)
    → (p == docker_trusted) ≡ false
    → (p == gvisor_fast_ephemeral) ≡ false
    → (p == firecracker_secure) ≡ false
    → valid_profile p ≡ false
unfolding valid_profile
not_known p a b c = rw (a, b, c) refl

-- An unknown profile is refused, the empty one and the three known ones are routed, and a route
-- is allowed: its tier names the backend that runs, docker runs only where the caller asked for it
-- and the operator allows it, firecracker only where it was asked for on a host that is not degraded.
pub resolve-IsAllowed :
    (r : Router) (p : Text)
    → ((route : Route) × (resolve r p ≡ ok route)
        × IsAllowed r p route
        × ((p ≡ []) ⊎ (valid_profile p ≡ true)))
      ⊎ ((resolve r p ≡ err (invalid_profile p)) × (valid_profile p ≡ false))
unfolding resolve
resolve-IsAllowed r p = elim (Bool-cases (p == [])) [
  | inl blank ↦ inl (
    to_gvisor r policy_default,
    rw blank refl,
    on_gvisor {why = policy_default},
    inl ((eq_iff p []).0 blank),
  )
  | inr named ↦ elim (Bool-cases (valid_profile p)) [
    | inr unknown ↦ inr (rw (named, unknown) refl, unknown)
    | inl known ↦ elim (Bool-cases (p == docker_trusted)) [
      | inl d ↦ inl (
        resolve_docker_trusted r,
        rw (named, known, d) refl,
        docker-IsAllowed r p ((eq_iff p docker_trusted).0 d),
        inr known,
      )
      | inr not_d ↦ elim (Bool-cases (p == gvisor_fast_ephemeral)) [
        | inl g ↦ inl (
          to_gvisor r policy_requested,
          rw (named, known, not_d, g) refl,
          on_gvisor {why = policy_requested},
          inr known,
        )
        | inr not_g ↦ elim (Bool-cases (p == firecracker_secure)) [
          | inl f ↦ inl (
            resolve_firecracker r,
            rw (named, known, not_d, not_g, f) refl,
            firecracker-IsAllowed r p ((eq_iff p firecracker_secure).0 f),
            inr known,
          )
          | inr not_f ↦ absurd (ground (arith, not_known p not_d not_g not_f))
        ]
      ]
    ]
  ]
]

differ : (a b : Text) → (a == b) ≡ false → a ≢ b
differ a b h e = ground (arith, eq_iff a b)

is_there : {o : Option Runner} {x : Runner} → o ≡ some x → o ≢ none
is_there e n = ground (arith, e, n)

route_docker :
    {r : Router} {p : Text} {route : Route}
    → IsAllowed r p route
    → route.tier ≡ docker_trusted
    → (p ≡ docker_trusted) × (r.allow_docker_trusted ≡ true) × (r.docker ≢ none)
route_docker on_gvisor e = absurd (differ gvisor_fast_ephemeral docker_trusted refl e)
route_docker (on_docker asked leave there) e = (asked, leave, is_there there)
route_docker (on_firecracker asked whole there) e =
    absurd (differ firecracker_secure docker_trusted refl e)

route_firecracker :
    {r : Router} {p : Text} {route : Route}
    → IsAllowed r p route
    → route.tier ≡ firecracker_secure
    → (p ≡ firecracker_secure) × (r.degraded_mode ≡ false) × (r.firecracker ≢ none)
route_firecracker on_gvisor e = absurd (differ gvisor_fast_ephemeral firecracker_secure refl e)
route_firecracker (on_docker asked leave there) e =
    absurd (differ docker_trusted firecracker_secure refl e)
route_firecracker (on_firecracker asked whole there) e = (asked, whole, is_there there)

-- Whatever the request and the backends answer, a run reports the docker tier only where the caller
-- asked for it, the operator allows it, and a docker backend is there.
pub execute_docker :
    (r : Router) (req : RunRequest)
    → (execute r req).0.sandbox_tier ≡ docker_trusted
    → (req.sandbox_profile ≡ docker_trusted) × (r.allow_docker_trusted ≡ true) × (r.docker ≢ none)
unfolding execute run_on
execute_docker r req h = elim (resolve-IsAllowed r req.sandbox_profile) [
  | inl (route, found, allowed, known) ↦ route_docker allowed (rw (execute, found) at h)
  | inr (denied, unknown) ↦ absurd (differ [] docker_trusted refl (rw (execute, denied) at h))
]

-- A run reports the firecracker tier only where the caller asked for it, on a host that is not
-- degraded and has that backend.
pub execute_firecracker :
    (r : Router) (req : RunRequest)
    → (execute r req).0.sandbox_tier ≡ firecracker_secure
    → (req.sandbox_profile ≡ firecracker_secure)
      × (r.degraded_mode ≡ false)
      × (r.firecracker ≢ none)
unfolding execute run_on
execute_firecracker r req h = elim (resolve-IsAllowed r req.sandbox_profile) [
  | inl (route, found, allowed, known) ↦ route_firecracker allowed (rw (execute, found) at h)
  | inr (denied, unknown) ↦ absurd (differ [] firecracker_secure refl (rw (execute, denied) at h))
]
