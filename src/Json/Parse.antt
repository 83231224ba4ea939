-- ===== src/Json/Parse.antt =====
-- src/json.c: `json_parse` and the functions below it. The text is the list of the bytes before the NUL,
-- so the end of the list is `!**str`; a byte from 128 on is no space and no digit. strtod is a parameter:
-- the double and what is left, or none where it converts nothing.
pub mod Returns
use modern_c_web_library.Base.{
  ℕ, zero, suc, ◌+◌, Bool, true, false, Option, none, some, List, [], ◌∷◌, ◌||◌, ◌&&◌, Bytes, codes,
  length, drop, if◌then◌else◌, ◌==◌, leb, isspace, has_prefix,
}
use modern_c_web_library.Json.{
  JsonValue, json_null, json_bool, json_number, json_string, json_object, json_array, Entries,
  no_entry, entry, sizeof_json_value, json_create, json_number_create, json_bool_create,
  entries_set,
}

-- What a parsing function gives: a result and the place behind it, NULL, or its fuel is used up.
pub data Parsed {ℓ} (A : Type ℓ) : Type ℓ where
  parsed : A → Bytes → Parsed A
  refused : Parsed A
  exhausted : Parsed A

infixl 5 ◌>>=◌
abbrev pub ◌>>=◌ {ℓ κ} : {A : Type ℓ} {B : Type κ} → Parsed A → (A × Bytes → Parsed B) → Parsed B
parsed a rest >>= f = f (a, rest)
refused >>= f = refused
exhausted >>= f = exhausted

-- A value that was created, or NULL.
abbrev pub created : Option JsonValue → Bytes → Parsed JsonValue
created none rest = refused
created (some v) rest = parsed v rest

-- `skip_whitespace`
unfoldable pub skip_whitespace : Bytes → Bytes
skip_whitespace [] = []
skip_whitespace (c ∷ s) = let rest = skip_whitespace s in if isspace c then rest else c ∷ s

-- The loop of `parse_string`: the bytes before the closing quote, and those behind it. A backslash and
-- the byte behind it are taken together, and stay as they are.
unfoldable pub scan_string : Bytes → Option (Bytes × Bytes)
scan_string [] = none
scan_string (c ∷ []) = if c == b'"' then some ([], []) else none
scan_string (c ∷ d ∷ s) =
    let next = scan_string (d ∷ s) in
    let skipped = scan_string s in
    if c == b'"'
    then some ([], d ∷ s)
    else if c == b'\\'
    then elim skipped [ none ↦ none | some (a, rest) ↦ some (c ∷ d ∷ a, rest) ]
    else elim next [ none ↦ none | some (a, rest) ↦ some (c ∷ a, rest) ]

-- A colon, behind blanks.
abbrev pub colon : Bytes → Parsed (Unit {0})
colon [] = refused
colon (c ∷ s) = if c == b':' then parsed tt s else refused

-- Digits and the minus sign, which begin a number.
abbrev pub begins_number : ℕ → Bool
begins_number c = c == b'-' || (leb b'0' c && leb c b'9')

-- The start of `parse_object`, behind the brace; `members` is its loop.
abbrev pub open_object : (Entries → Bytes → Parsed JsonValue) → Bytes → Parsed JsonValue
open_object members [] = members no_entry []
open_object members (c ∷ s) =
    if c == b'}' then parsed (json_object no_entry) s else members no_entry (c ∷ s)

-- The end of a round of the loop: a comma goes on, a brace ends.
abbrev pub close_member : (Entries → Bytes → Parsed JsonValue) → Entries → Bytes → Parsed JsonValue
close_member members es [] = refused
close_member members es (c ∷ s) =
    if c == b',' then members es s else if c == b'}' then parsed (json_object es) s else refused

module _ (alloc : ℕ → Bool) (strtod : Bytes → Option (ℕ × Bytes)) where
  -- `parse_string`, from the opening quote on; the string alone.
  unfoldable pub parse_string : Bytes → Parsed Bytes
  parse_string s = elim (scan_string (drop 1 s)) [
    | none ↦ refused
    | some (a, rest) ↦
        if alloc (length a + 1) && alloc sizeof_json_value then parsed a rest else refused
  ]

  -- `parse_number`
  unfoldable pub parse_number : Bytes → Parsed JsonValue
  parse_number s = elim (strtod s) [
    | none ↦ refused
    | some (num, rest) ↦ created (json_number_create alloc num) rest
  ]

  -- `parse_bool`
  unfoldable pub parse_bool : Bytes → Parsed JsonValue
  parse_bool s =
      if has_prefix (codes "true") s
      then created (json_bool_create alloc true) (drop 4 s)
      else if has_prefix (codes "false") s
      then created (json_bool_create alloc false) (drop 5 s)
      else refused

  -- `parse_null`
  unfoldable pub parse_null : Bytes → Parsed JsonValue
  parse_null s =
      if has_prefix (codes "null") s
      then created (json_create alloc json_null) (drop 4 s)
      else refused

  -- `parse_array`: only the empty array.
  abbrev pub close_array : Bytes → Parsed JsonValue
  close_array [] = refused
  close_array (c ∷ s) = if c == b']' then created (json_create alloc json_array) s else refused

  unfoldable pub parse_array : Bytes → Parsed JsonValue
  parse_array s = close_array (skip_whitespace (drop 1 s))

  -- A key with its colon: the start of a round of the loop of `parse_object`.
  unfoldable pub parse_key : Bytes → Parsed Bytes
  parse_key [] = refused
  parse_key (c ∷ s) = if c == b'"' then with_colon (parse_string (c ∷ s)) else refused
    where
      with_colon : Parsed Bytes → Parsed Bytes
      with_colon read = do
        (key, rest) ← read
        (_, rest') ← colon (skip_whitespace rest)
        parsed key rest'

  -- The switch of `parse_value`; `object` is `parse_object` behind its brace.
  abbrev pub parse_by : (Bytes → Parsed JsonValue) → ℕ → Bytes → Parsed JsonValue
  parse_by object c s =
      if c == b'{'
      then object s
      else if c == b'['
      then parse_array (c ∷ s)
      else if c == b'"'
      then parse_string (c ∷ s) >>= (λ out. parsed (json_string out.0) out.1)
      else if c == b't' || c == b'f'
      then parse_bool (c ∷ s)
      else if c == b'n'
      then parse_null (c ∷ s)
      else if begins_number c
      then parse_number (c ∷ s)
      else refused

  abbrev pub parse_at : (Bytes → Parsed JsonValue) → Bytes → Parsed JsonValue
  parse_at object [] = refused
  parse_at object (c ∷ s) = parse_by object c s

  unfoldable mutual
    -- `parse_value`, with `parse_object` up to its loop.
    pub parse_value : ℕ → Bytes → Parsed JsonValue
    parse_value zero s = exhausted
    parse_value (suc fuel) s =
        parse_at
          (λ r.
            if alloc sizeof_json_value
            then open_object (parse_members fuel) (skip_whitespace r)
            else refused)
          (skip_whitespace s)

    -- The loop of `parse_object`. It ends at the end of the text too, with the object as it is.
    pub parse_members : ℕ → Entries → Bytes → Parsed JsonValue
    parse_members zero es s = exhausted
    parse_members (suc fuel) es [] = parsed (json_object es) []
    parse_members (suc fuel) es (c ∷ s) = do
      (key, rest) ← parse_key (skip_whitespace (c ∷ s))
      (value, rest') ← parse_value fuel rest
      close_member (parse_members fuel) (entries_set alloc es key value) (skip_whitespace rest')

  -- `json_parse`; what follows the value is not looked at.
  unfoldable pub json_parse : Bytes → Parsed JsonValue
  json_parse s = parse_value (length s + 1) (skip_whitespace s)
