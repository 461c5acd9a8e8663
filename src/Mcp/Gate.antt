-- ===== src/Mcp/Gate.antt =====
-- What a request can change, orchestrator/internal/server/server.go.
use emage_code_cwso.Prelude.{
  ℕ, ◌≡◌, refl, ◌∙◌, inl, inr, ◌⊎◌, true, Bool-cases, Option-cases, Option, some, [], Text, text,
  ◌==◌, text_eq, arith,
}
use emage_code_cwso.Prelude.Map.{Map, lookup}
use emage_code_cwso.Prelude.Members.{mem}
use emage_code_cwso.Spikes.Subscriptions.{Registry, parse_spike_resource_id, remove_subscription}
use emage_code_cwso.Agents.{parse_agent_telemetry_resource_id}
use emage_code_cwso.Tools.{Tool, get_tool, authorized}
use emage_code_cwso.Mcp.{
  Request, ToolCallParams, Decoded, decoded, malformed, Codec, Parsed, parsed, rejected,
  parse_request,
}
use emage_code_cwso.Mcp.Resources.{
  State, resources_enabled, handle_resources_unsubscribe, drop_subscription,
}
use emage_code_cwso.Mcp.Server.{
  dispatch_other, role_of, call_tool, handle_tools_call, dispatch, handle,
}

-- A state without one of its subscriptions.
abbrev pub IsDropped : State → State → Type 0
IsDropped s s' =
    (subs : Registry) × (id : Text) × (s.spike_subs ≡ some subs)
    × (s' ≡ record s { spike_subs = some (remove_subscription subs id).0 })

-- A state that a tool has made, which is registered under the name that is called, and may be called in the role.
abbrev pub IsCalled : Map Text (Tool State) → State → Text → ToolCallParams → State → Type 0
IsCalled tools s role p s' =
    (t : Tool State) × (lookup p.name tools ≡ some t)
    × (mem role t.allowed_roles ≡ true)
    × (s' ≡ (t.execute p.arguments s).0)

pub Decoded-cases {ℓ} :
    {A : Type ℓ} (d : Decoded A) → ((a : A) × (d ≡ decoded a)) ⊎ ((e : Text) × (d ≡ malformed e))
Decoded-cases (decoded a) = inl (a, refl)
Decoded-cases (malformed e) = inr (e, refl)

pub Parsed-cases :
    (p : Parsed)
    → ((req : Request) × (p ≡ parsed req)) ⊎ ((code : ℕ) × (e : Text) × (p ≡ rejected code e))
Parsed-cases (parsed req) = inl (req, refl)
Parsed-cases (rejected code e) = inr (code, e, refl)

module _ (c : Codec) (tools : Map Text (Tool State)) where
  call_tool-IsCalled :
      (s : State) (session : Option Text) (req : Request) (p : ToolCallParams)
      → ((call_tool c tools s session req p).0 ≡ s)
        ⊎ IsCalled tools s (role_of session) p (call_tool c tools s session req p).0
  unfolding call_tool authorized get_tool
  call_tool-IsCalled s session req p = elim (Bool-cases (p.name == [])) [
    | inl nameless ↦ inl (simp (call_tool, nameless) refl)
    | inr named ↦ elim (Option-cases (lookup p.name tools)) [
      | inl unknown ↦ inl (simp (call_tool, named, authorized, get_tool, unknown) refl)
      | inr (t, there) ↦ elim (Bool-cases (mem (role_of session) t.allowed_roles)) [
        | inl allowed ↦
            inr (
              t,
              there,
              allowed,
              simp (call_tool, named, authorized, get_tool, there, allowed) refl,
            )
        | inr denied' ↦ inl (simp (call_tool, named, authorized, get_tool, there, denied') refl)
      ]
    ]
  ]

  drop_subscription-IsDropped :
      (s : State) (req : Request) (asked : Text)
      → ((drop_subscription c s req asked).0 ≡ s) ⊎ IsDropped s (drop_subscription c s req asked).0
  unfolding drop_subscription
  drop_subscription-IsDropped s req asked = elim (Option-cases (parse_spike_resource_id asked)) [
    | inl bad ↦ inl (simp (drop_subscription, bad) refl)
    | inr (id, good) ↦ elim (Option-cases s.spike_subs) [
      | inl off ↦ inl (simp (drop_subscription, good, off) refl)
      | inr (subs, on) ↦ inr (subs, id, on, simp (drop_subscription, good, on) refl)
    ]
  ]

  unsubscribe-IsDropped :
      (s : State) (req : Request)
      → ((handle_resources_unsubscribe c s req).0 ≡ s)
        ⊎ IsDropped s (handle_resources_unsubscribe c s req).0
  unfolding handle_resources_unsubscribe drop_subscription
  unsubscribe-IsDropped s req = elim (Bool-cases (resources_enabled s)) [
    | inr off ↦ inl (simp (handle_resources_unsubscribe, off) refl)
    | inl on ↦ elim (Decoded-cases (c.uri_of req.params)) [
      | inr (e, bad) ↦ inl (simp (handle_resources_unsubscribe, on, bad) refl)
      | inl (asked, good) ↦ elim (Option-cases (parse_agent_telemetry_resource_id asked)) [
        | inr (agent, named) ↦ inl (simp (handle_resources_unsubscribe, on, good, named) refl)
        | inl other ↦
            let same : (handle_resources_unsubscribe c s req).0
                ≡ (drop_subscription c s req asked).0 =
              simp (handle_resources_unsubscribe, on, good, other) refl in
            elim (drop_subscription-IsDropped s req asked) [
              | inl kept ↦ inl (same ∙ kept)
              | inr (subs, id, there, gone) ↦ inr (subs, id, there, same ∙ gone)
            ]
      ]
    ]
  ]

  dispatch-cases :
      (s : State) (session : Option Text) (req : Request) (now : ℕ)
      → ((dispatch c tools s session req now).0 ≡ s)
        ⊎ ((((req.method == text "tools/call") ≡ true)
              × ((dispatch c tools s session req now).0
                  ≡ (handle_tools_call c tools s session req).0))
            ⊎ ((dispatch c tools s session req now).0 ≡ (handle_resources_unsubscribe c s req).0))
  unfolding dispatch dispatch_other
  dispatch-cases s session req now = ground arith

  handle_tools_call-IsCalled :
      (s : State) (session : Option Text) (req : Request)
      → ((handle_tools_call c tools s session req).0 ≡ s)
        ⊎ ((p : ToolCallParams) × (c.call_params_of req.params ≡ decoded p)
            × IsCalled tools s (role_of session) p (handle_tools_call c tools s session req).0)
  unfolding handle_tools_call
  handle_tools_call-IsCalled s session req = elim (Decoded-cases (c.call_params_of req.params)) [
    | inr (e, bad) ↦ inl (simp (handle_tools_call, bad) refl)
    | inl (p, good) ↦ elim (call_tool-IsCalled s session req p) [
      | inl same ↦ inl (simp (handle_tools_call, good) same)
      | inr run ↦ inr (p, good, (run.0, run.1, run.2, simp (handle_tools_call, good) run.3))
    ]
  ]

  -- What a message to the server changes: nothing, or it takes one of the spike subscriptions out of the registry, or it is a request for `tools/call` and the state is the one that the tool makes of it which is registered under the name that is called and allows the role of the session.
  abbrev pub IsGated : Text → State → Option Text → State → Type 0
  IsGated raw s session s' =
      (s' ≡ s)
      ⊎ (IsDropped s s'
          ⊎ ((req : Request) × (p : ToolCallParams) × (parse_request c raw ≡ parsed req)
              × ((req.method == text "tools/call") ≡ true)
              × (c.call_params_of req.params ≡ decoded p)
              × IsCalled tools s (role_of session) p s'))

  dispatch-IsGated :
      (raw : Text) (s : State) (session : Option Text) (req : Request) (now : ℕ)
      → parse_request c raw ≡ parsed req
      → IsGated raw s session (dispatch c tools s session req now).0
  dispatch-IsGated raw s session req now good = elim (dispatch-cases s session req now) [
    | inl same ↦ inl same
    | inr (inl (calls, e)) ↦ elim (handle_tools_call-IsCalled s session req) [
      | inl same ↦ inl (e ∙ same)
      | inr (p, args, (t, there, allowed, run)) ↦
          inr (inr (req, p, good, calls, args, (t, there, allowed, e ∙ run)))
    ]
    | inr (inr e) ↦ elim (unsubscribe-IsDropped s req) [
      | inl same ↦ inl (e ∙ same)
      | inr (subs, id, on, run) ↦ inr (inl (subs, id, on, e ∙ run))
    ]
  ]

  -- Whatever a client sends, in whatever role, the server's state stays as it was, or loses a spike subscription, or is the one a tool makes of it that is registered under the name in a request for `tools/call` and allows the role of the session: a tool runs for no other message and in no other role.
  pub handle-IsGated :
      (raw : Text) (s : State) (session : Option Text) (now : ℕ)
      → IsGated raw s session (handle c tools s session raw now).0
  unfolding handle
  handle-IsGated raw s session now = elim (Parsed-cases (parse_request c raw)) [
    | inl (req, good) ↦
        let same : (handle c tools s session raw now).0 ≡ (dispatch c tools s session req now).0 =
          simp (handle, good) refl in
        elim (dispatch-IsGated raw s session req now good) [
          | inl kept ↦ inl (same ∙ kept)
          | inr (inl (subs, id, there, gone)) ↦ inr (inl (subs, id, there, same ∙ gone))
          | inr (inr (req', p, ok', calls, args, (t, there, allowed, run))) ↦
              inr (inr (req', p, ok', calls, args, (t, there, allowed, same ∙ run)))
        ]
    | inr (code, e, bad) ↦ inl (simp (handle, bad) refl)
  ]
