-- ===== src/Tasks/Ids.antt =====
-- The ids of tasks and sessions, `newUUID` of orchestrator/internal/rollout/service.go, from the
-- bytes that `rand.Read` gives.
use emage_code_cwso.Prelude.{
  ℕ, zero, suc, ◌+◌, ◌-◌, ◌/◌, ◌%◌, Option, none, some, List, [], ◌∷◌, ◌++◌, take, drop, set,
  get_or, Text, if◌then◌else◌, ltb,
}

abbrev pub hex_digit : ℕ → ℕ
hex_digit n = if ltb n 10 then b'0' + n else b'a' + (n % 16 - 10)

unfoldable pub hex : List ℕ → Text
hex [] = []
hex (b ∷ bs) = hex_digit (b / 16) ∷ hex_digit (b % 16) ∷ hex bs

-- `newUUID`, once the bytes are read.
unfoldable pub uuid_of : List ℕ → Text
uuid_of bytes =
    let b = set (set bytes 6 (get_or bytes 6 0 % 16 + 0x40)) 8 (get_or bytes 8 0 % 64 + 0x80) in
    hex (take 4 b)
    ++ (b'-'
        ∷ (hex (take 2 (drop 4 b))
            ++ (b'-'
                ∷ (hex (take 2 (drop 6 b))
                    ++ (b'-' ∷ (hex (take 2 (drop 8 b)) ++ (b'-' ∷ hex (drop 10 b))))))))

-- `newUUID` on the n-th read of a call; none is an error of the source of randomness.
unfoldable pub new_uuid : (ℕ → Option (List ℕ)) → ℕ → Option Text
new_uuid draw n = elim (draw n) [ none ↦ none | some bytes ↦ some (uuid_of bytes) ]

-- As many ids as asked for, from the n-th read on.
unfoldable pub new_uuids : (ℕ → Option (List ℕ)) → ℕ → ℕ → Option (List Text)
new_uuids draw n zero = some []
new_uuids draw n (suc count) = elim (new_uuid draw n) [
  | none ↦ none
  | some id ↦ elim (new_uuids draw (n + 1) count) [ none ↦ none | some ids ↦ some (id ∷ ids) ]
]
