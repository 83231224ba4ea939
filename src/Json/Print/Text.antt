-- ===== src/Json/Print/Text.antt =====
-- src/json.c: the text that a value stands for, and the room that is left in the buffer when
-- `stringify_value` has written it there.
use modern_c_web_library.Base.{
  ℕ, ◌-◌, Bool, true, false, Option, none, some, [], ◌∷◌, ◌++◌, codes, Bytes, length, if◌then◌else◌,
  ◌==◌, ltb, max,
}
use modern_c_web_library.Json.{
  JsonValue, json_null, json_bool, json_number, json_string, json_object, json_array, Entries,
  no_entry, entry,
}

abbrev pub escaped_char : ℕ → Bytes
escaped_char c =
    if c == b'"'
    then codes "\\\""
    else if c == b'\\'
    then codes "\\\\"
    else if c == b'\n'
    then codes "\\n"
    else if c == b'\r'
    then codes "\\r"
    else if c == b'\t'
    then codes "\\t"
    else c ∷ []

unfoldable pub escaped : Bytes → Bytes
escaped [] = []
escaped (c ∷ s) = escaped_char c ++ escaped s

-- A key is not escaped.
abbrev pub named : Bytes → Bytes
named key = b'"' ∷ key ++ codes "\":"

-- What is left of a room when `n` bytes are written into it; a NUL must have its place too.
abbrev pub spend : ℕ → ℕ → Option ℕ
spend room n = if ltb n room then some (room - n) else none

infixl 5 ◌>>=◌
abbrev ◌>>=◌ : Option ℕ → (ℕ → Option ℕ) → Option ℕ
none >>= f = none
some n >>= f = f n

module _ (format_g : ℕ → Bytes) where
  unfoldable mutual
    pub json_text : JsonValue → Bytes
    json_text json_null = codes "null"
    json_text (json_bool b) = if b then codes "true" else codes "false"
    json_text (json_number num) = format_g num
    json_text (json_string s) = b'"' ∷ escaped s ++ codes "\""
    json_text (json_object es) = b'{' ∷ entries_text true es ++ codes "}"
    json_text json_array = codes "[]"

    -- The entries, a comma before each but the first.
    pub entries_text : Bool → Entries → Bytes
    entries_text first no_entry = []
    entries_text first (entry key value es) =
        (if first then [] else codes ",") ++ named key ++ json_text value ++ entries_text false es

  unfoldable mutual
    -- A value is begun with a room of 256 bytes, and a character of a string with 10.
    pub room_after : JsonValue → Option ℕ
    room_after json_null = some 252
    room_after (json_bool b) = some 251
    room_after (json_number num) = spend 256 (length (format_g num))
    room_after (json_string s) = some (max 7 (254 - length (escaped s)))
    room_after (json_object es) = do room ← room_after_entries 255 true es; spend room 1
    room_after json_array = some 254

    pub room_after_entries : ℕ → Bool → Entries → Option ℕ
    room_after_entries room first no_entry = some room
    room_after_entries room first (entry key value es) = do
      separated ← if first then some room else spend room 1
      _ ← spend separated (length (named key))
      rest ← room_after value
      room_after_entries rest false es
