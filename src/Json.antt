-- ===== src/Json.antt =====
-- JSON trees, as Go's `encoding/json` decodes them into `any`, and their compact encoding
-- (`json.Marshal`). A number is kept as the text that `json.Marshal` prints for it.
use emage_code_cwso.Prelude.{
  ℕ, ◌+◌, ◌-◌, ◌/◌, ◌%◌, ◌≡◌, refl, Bool, true, false, ◌||◌, ◌&&◌, Option, none, some, List, [],
  ◌∷◌, ◌++◌, Text, text, if◌then◌else◌, ltb, ◌==◌, nat_eq, text_eq,
}
use emage_code_cwso.Prelude.Strings.{text_ltb}

mutual
  pub data Value : Type 0 where
    null : Value
    bool : Bool → Value
    num : Text → Value
    str : Text → Value
    arr : Items → Value
    obj : Fields → Value

  pub data Items : Type 0 where
    nil : Items
    cons : Value → Items → Items

  -- The entries of a map.
  pub data Fields : Type 0 where
    end : Fields
    field : Text → Value → Fields → Fields

-- `obj[key]`
unfoldable pub get : Text → Fields → Option Value
get key end = none
get key (field k v fs) = if k == key then some v else get key fs

hex : ℕ → ℕ
hex n = if ltb n 10 then b'0' + n else b'a' + n - 10

-- One byte below 0x80 inside a string. The encoder escapes `<`, `>` and `&` as well.
escape : ℕ → Text
unfolding hex
escape c =
    if c == 34 || c == 92
    then 92 ∷ c ∷ []
    else if c == 8
    then 92 ∷ b'b' ∷ []
    else if c == 12
    then 92 ∷ b'f' ∷ []
    else if c == 10
    then 92 ∷ b'n' ∷ []
    else if c == 13
    then 92 ∷ b'r' ∷ []
    else if c == 9
    then 92 ∷ b't' ∷ []
    else if ltb c 32 || c == b'<' || c == b'>' || c == b'&'
    then 92 ∷ b'u' ∷ b'0' ∷ b'0' ∷ hex (c / 16) ∷ hex (c % 16) ∷ []
    else c ∷ []

-- The bytes of a string, which is valid UTF-8; U+2028 and U+2029 are escaped.
escape_all : Text → Text
unfolding escape
escape_all [] = []
escape_all (a ∷ []) = escape a
escape_all (a ∷ b ∷ []) = escape a ++ escape_all (b ∷ [])
escape_all (a ∷ b ∷ c ∷ s) =
    let long = text "\\u202" ++ ((b'8' + (c - 0xA8)) ∷ escape_all s) in
    let short = escape a ++ escape_all (b ∷ c ∷ s) in
    if a == 0xE2 && b == 0x80 && (c == 0xA8 || c == 0xA9) then long else short

quote : Text → Text
unfolding escape_all
quote s = 34 ∷ (escape_all s ++ 34 ∷ [])

-- Rendered entries, by key.
insert_entry : Text → Text → List (Text × Text) → List (Text × Text)
insert_entry k v [] = (k, v) ∷ []
insert_entry k v ((j, w) ∷ es) =
    if text_ltb k j then (k, v) ∷ (j, w) ∷ es else (j, w) ∷ insert_entry k v es

join_entries : List (Text × Text) → Text
unfolding quote
join_entries [] = []
join_entries ((k, v) ∷ []) = quote k ++ (b':' ∷ v)
join_entries ((k, v) ∷ e ∷ es) = quote k ++ (b':' ∷ (v ++ (b',' ∷ join_entries (e ∷ es))))

unfoldable mutual
  unfolding quote join_entries insert_entry text_ltb

  -- `json.Marshal`
  pub marshal : Value → Text
  marshal null = text "null"
  marshal (bool true) = text "true"
  marshal (bool false) = text "false"
  marshal (num n) = n
  marshal (str s) = quote s
  marshal (arr xs) = b'[' ∷ marshal_items xs
  marshal (obj fs) = b'{' ∷ (join_entries (marshal_fields fs) ++ b'}' ∷ [])

  pub marshal_items : Items → Text
  marshal_items nil = b']' ∷ []
  marshal_items (cons x nil) = marshal x ++ b']' ∷ []
  marshal_items (cons x (cons y xs)) = marshal x ++ (b',' ∷ marshal_items (cons y xs))

  pub marshal_fields : Fields → List (Text × Text)
  marshal_fields end = []
  marshal_fields (field k v fs) = insert_entry k (marshal v) (marshal_fields fs)

marshal_test :
    marshal (
      obj (
        field
          (text "b")
          (arr (cons null (cons (num (text "1")) nil)))
          (field (text "a") (str (text "x<")) end)))
    ≡ text "{\"a\":\"x\\u003c\",\"b\":[null,1]}"
unfolding marshal
marshal_test = refl
