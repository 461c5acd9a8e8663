-- ===== src/Mcp/Parsing.antt =====
-- Which messages are read as requests, `ParseRequest` of orchestrator/internal/mcp/protocol.go.
use mathlib.Core.Path.{subst}
use emage_code_cwso.Prelude.{
  ℕ, ◌≡◌, ◌≢◌, ap, ◌∙◌, inl, inr, ◌⊎◌, false, Bool-cases, [], Text, text, ◌==◌, eq_iff, text_eq,
  arith,
}
use emage_code_cwso.Mcp.{
  Request, decoded, malformed, err_parse, err_invalid_request, Codec, parsed, rejected,
  parse_request,
}
use emage_code_cwso.Mcp.Gate.{Decoded-cases}

not_same : (a b : Text) → (a == b) ≡ false → a ≢ b
not_same a b h e = ground (arith, eq_iff a b)

same_request : (a b : Request) → parsed a ≡ parsed b → a ≡ b
same_request a b h = cc

-- A request of the protocol: of its version, and with a method.
abbrev pub IsProtocol : Request → Type 0
IsProtocol req = (req.jsonrpc ≡ text "2.0") × (req.method ≢ [])

module _ (c : Codec) where
  -- Why a message is refused before its method is read: the decoder refuses it, or it is no
  -- request of the protocol.
  abbrev pub IsRefused : Text → ℕ → Text → Type 0
  IsRefused raw code e =
      ((code ≡ err_parse) × (c.request_of raw ≡ malformed e))
      ⊎ ((code ≡ err_invalid_request)
          × (req : Request) × (c.request_of raw ≡ decoded req)
          × ((req.jsonrpc ≢ text "2.0") ⊎ (req.method ≡ [])))

  pub parse_request-rejected :
      (raw e : Text) (code : ℕ) → parse_request c raw ≡ rejected code e → IsRefused raw code e
  unfolding parse_request
  parse_request-rejected raw e code h = elim (Decoded-cases (c.request_of raw)) [
    | inr (why, bad) ↦ inl (
      ground (arith, rw (parse_request, bad) at h),
      bad ∙ ground (arith, rw (parse_request, bad) at h),
    )
    | inl (req, good) ↦ elim (Bool-cases (req.jsonrpc == text "2.0")) [
      | inr old ↦ inr (
        ground (arith, rw (parse_request, good, old) at h),
        req,
        good,
        inl (not_same req.jsonrpc (text "2.0") old),
      )
      | inl version ↦ elim (Bool-cases (req.method == [])) [
        | inl nameless ↦ inr (
          ground (arith, rw (parse_request, good, version, nameless) at h),
          req,
          good,
          inr ((eq_iff req.method []).0 nameless),
        )
        | inr named ↦ absurd (ground (arith, rw (parse_request, good, version, named) at h))
      ]
    ]
  ]

  pub parse_request-parsed :
      (raw : Text) (req : Request)
      → parse_request c raw ≡ parsed req
      → (c.request_of raw ≡ decoded req) × IsProtocol req
  unfolding parse_request
  parse_request-parsed raw req h = elim (Decoded-cases (c.request_of raw)) [
    | inr (why, bad) ↦ absurd (ground (arith, rw (parse_request, bad) at h))
    | inl (r, good) ↦ elim (Bool-cases (r.jsonrpc == text "2.0")) [
      | inr old ↦ absurd (ground (arith, rw (parse_request, good, old) at h))
      | inl version ↦ elim (Bool-cases (r.method == [])) [
        | inl nameless ↦ absurd (ground (arith, rw (parse_request, good, version, nameless) at h))
        | inr named ↦
            let same : r ≡ req =
              same_request r req (rw (parse_request, good, version, named) at h) in
            (
              good ∙ ap decoded same,
              subst IsProtocol same
                  ((eq_iff r.jsonrpc (text "2.0")).0 version, not_same r.method [] named),
            )
      ]
    ]
  ]
