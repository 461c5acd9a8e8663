-- ===== src/Broker/Sanitize.antt =====
-- The removal of secrets from what is logged: `sanitizePayload`, `sanitizeValue` and
-- `isSensitiveKey` of orchestrator/internal/memorybroker/broker.go.
use emage_code_cwso.Prelude.{
  ◌≡◌, refl, sym, ap, ap₂, false, Bool-cases, inl, inr, ◌⊎◌, if◌then◌else◌, Text, text_eq, text,
}
use emage_code_cwso.Prelude.Strings.{contains, has_prefix, to_lower, trim_space}
use emage_code_cwso.Json.{
  Value, null, bool, num, str, arr, obj, Items, nil, cons, Fields, end, field,
}
use emage_code_cwso.Broker.{
  Payload, absent, tree, unencodable, redacted, is_sensitive_key, sanitize_value, sanitize_items,
  sanitize_fields, sanitize_payload,
}

-- No entry of a map, at whatever depth, has a sensitive key with a value that is not redacted.
unfoldable mutual
  pub IsClean : Value → Type 0
  IsClean null = Unit
  IsClean (bool b) = Unit
  IsClean (num n) = Unit
  IsClean (str s) = Unit
  IsClean (arr xs) = IsCleanItems xs
  IsClean (obj fs) = IsCleanFields fs

  pub IsCleanItems : Items → Type 0
  IsCleanItems nil = Unit
  IsCleanItems (cons x xs) = IsClean x × IsCleanItems xs

  pub IsCleanFields : Fields → Type 0
  IsCleanFields end = Unit
  IsCleanFields (field k v fs) =
      ((is_sensitive_key k ≡ false) ⊎ (v ≡ redacted)) × IsClean v × IsCleanFields fs

entry-IsClean :
    (k : Text) (v : Value)
    → IsClean v
    → let w = if is_sensitive_key k then redacted else v in
      ((is_sensitive_key k ≡ false) ⊎ (w ≡ redacted)) × IsClean w
unfolding IsClean
entry-IsClean k v h = elim (Bool-cases (is_sensitive_key k)) [
  | inl secret ↦ rw secret (inr refl, tt)
  | inr plain ↦ rw plain (inl refl, h)
]

mutual
  unfolding sanitize_value IsClean

  sanitize_value-IsClean : (v : Value) → IsClean (sanitize_value v)
  sanitize_value-IsClean null = tt
  sanitize_value-IsClean (bool b) = tt
  sanitize_value-IsClean (num n) = tt
  sanitize_value-IsClean (str s) = tt
  sanitize_value-IsClean (arr xs) = sanitize_items-IsCleanItems xs
  sanitize_value-IsClean (obj fs) = sanitize_fields-IsCleanFields fs

  sanitize_items-IsCleanItems : (xs : Items) → IsCleanItems (sanitize_items xs)
  sanitize_items-IsCleanItems nil = tt
  sanitize_items-IsCleanItems (cons x xs) =
      (sanitize_value-IsClean x, sanitize_items-IsCleanItems xs)

  sanitize_fields-IsCleanFields : (fs : Fields) → IsCleanFields (sanitize_fields fs)
  sanitize_fields-IsCleanFields end = tt
  sanitize_fields-IsCleanFields (field k v fs) =
      let e = entry-IsClean k (sanitize_value v) (sanitize_value-IsClean v) in
      (e.0, e.1, sanitize_fields-IsCleanFields fs)

entry_fixes :
    (k : Text) (v w : Value)
    → (is_sensitive_key k ≡ false) ⊎ (v ≡ redacted)
    → w ≡ v
    → (if is_sensitive_key k then redacted else w) ≡ v
entry_fixes k v w (inl plain) e = rw plain e
entry_fixes k v w (inr secret) e = elim (Bool-cases (is_sensitive_key k)) [
  | inl hit ↦ rw hit (sym secret)
  | inr plain ↦ rw plain e
]

mutual
  unfolding sanitize_value IsClean

  -- What is clean is left as it is.
  sanitize_value_fixes : (v : Value) → IsClean v → sanitize_value v ≡ v
  sanitize_value_fixes null h = refl
  sanitize_value_fixes (bool b) h = refl
  sanitize_value_fixes (num n) h = refl
  sanitize_value_fixes (str s) h = refl
  sanitize_value_fixes (arr xs) h = ap arr (sanitize_items_fixes xs h)
  sanitize_value_fixes (obj fs) h = ap obj (sanitize_fields_fixes fs h)

  sanitize_items_fixes : (xs : Items) → IsCleanItems xs → sanitize_items xs ≡ xs
  sanitize_items_fixes nil h = refl
  sanitize_items_fixes (cons x xs) h =
      ap₂ cons (sanitize_value_fixes x h.0) (sanitize_items_fixes xs h.1)

  sanitize_fields_fixes : (fs : Fields) → IsCleanFields fs → sanitize_fields fs ≡ fs
  sanitize_fields_fixes end h = refl
  sanitize_fields_fixes (field k v fs) h =
      ap₂ (field k) (entry_fixes k v (sanitize_value v) h.0 (sanitize_value_fixes v h.1))
        (sanitize_fields_fixes fs h.2)

-- `value` is no sensitive key.
value_plain : is_sensitive_key (text "value") ≡ false
unfolding is_sensitive_key contains has_prefix to_lower trim_space
value_plain = refl

-- Whatever a producer hands in, what is logged holds no secret at any depth: every entry with a
-- sensitive key reads "[redacted]".
pub sanitize_payload-IsClean : (p : Payload) → IsClean (sanitize_payload p)
unfolding sanitize_payload IsClean
sanitize_payload-IsClean absent = tt
sanitize_payload-IsClean (tree v) = sanitize_value-IsClean v
sanitize_payload-IsClean (unencodable s) = (inl value_plain, tt, tt)

-- A tree that holds no secret is logged as it is.
pub sanitize_payload_fixes : (v : Value) → IsClean v → sanitize_payload (tree v) ≡ v
unfolding sanitize_payload
sanitize_payload_fixes v h = sanitize_value_fixes v h
