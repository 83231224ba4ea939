-- ===== src/Json.antt =====
-- src/json.c: JSON values, the functions that build them, and the object's entries. A double is its
-- 64 bits, a number here. Parsing and printing are in the children.
pub mod Parse
pub mod Print
pub mod Objects
pub mod RoundTrip
mod Tests
use modern_c_web_library.Base.{
  ℕ, ◌+◌, Bool, true, false, Option, none, some, ◌&&◌, Bytes, length, if◌then◌else◌, str_eq,
}

-- `json_value_t` with `json_type_t`. No function of the library puts an item into an array.
mutual
  pub data JsonValue : Type 0 where
    json_null : JsonValue
    json_bool : Bool → JsonValue
    json_number : ℕ → JsonValue
    json_string : Bytes → JsonValue
    json_object : Entries → JsonValue
    json_array : JsonValue

  -- The list of `json_object_entry_t`.
  pub data Entries : Type 0 where
    no_entry : Entries
    entry : Bytes → JsonValue → Entries → Entries

abbrev pub sizeof_json_value : ℕ
sizeof_json_value = 16

abbrev pub sizeof_json_entry : ℕ
sizeof_json_entry = 24

-- The value of the first entry with that key.
unfoldable pub entries_get : Entries → Bytes → Option JsonValue
entries_get no_entry key = none
entries_get (entry k v es) key =
    let later = entries_get es key in if str_eq k key then some v else later

-- `json_object_get`
unfoldable pub json_object_get : JsonValue → Bytes → Option JsonValue
json_object_get (json_object es) key = entries_get es key
json_object_get _ key = none

-- The loop of `json_object_set`: the value of the first entry with that key is replaced, `none` if
-- there is none.
unfoldable pub entries_replace : Entries → Bytes → JsonValue → Option Entries
entries_replace no_entry key value = none
entries_replace (entry k v es) key value =
    let later = entries_replace es key value in
    if str_eq k key
    then some (entry k value es)
    else elim later [ none ↦ none | some es' ↦ some (entry k v es') ]

module _ (alloc : ℕ → Bool) where
  -- `json_object_create`, and the same for the other types; `none` is NULL.
  unfoldable pub json_create : JsonValue → Option JsonValue
  json_create value = if alloc sizeof_json_value then some value else none

  abbrev pub json_object_create : Option JsonValue
  json_object_create = json_create (json_object no_entry)

  abbrev pub json_number_create : ℕ → Option JsonValue
  json_number_create num = json_create (json_number num)

  abbrev pub json_bool_create : Bool → Option JsonValue
  json_bool_create val = json_create (json_bool val)

  unfoldable pub json_string_create : Bytes → Option JsonValue
  json_string_create str =
      if alloc sizeof_json_value && alloc (length str + 1) then some (json_string str) else none

  -- A new entry stands before the others.
  unfoldable pub entries_set : Entries → Bytes → JsonValue → Entries
  entries_set es key value = elim (entries_replace es key value) [
    | some es' ↦ es'
    | none ↦ if alloc sizeof_json_entry && alloc (length key + 1) then entry key value es else es
  ]

  -- `json_object_set`
  unfoldable pub json_object_set : JsonValue → Bytes → JsonValue → JsonValue
  json_object_set (json_object es) key value = json_object (entries_set es key value)
  json_object_set obj key value = obj
