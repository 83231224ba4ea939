-- ===== src/Json/Objects.antt =====
-- src/json.c: what `json_object_get` finds after `json_object_set`.
use modern_c_web_library.Base.{
  ℕ, ◌≡◌, Bool, some, Bytes, inl, inr, arith, if◌then◌else◌, str_eq, str_eq_iff, ◌+◌, length,
  Option-cases,
}
use modern_c_web_library.Http.Lists.{Granted}
use modern_c_web_library.Json.{
  JsonValue, json_object, Entries, no_entry, entry, entries_get, json_object_get, entries_replace,
  entries_set, json_object_set,
}

entries_get-replace :
    (es es' : Entries) (k j : Bytes) (v : JsonValue)
    → entries_replace es k v ≡ some es'
    → entries_get es' j ≡ (if str_eq k j then some v else entries_get es j)
unfolding entries_replace entries_get
entries_get-replace no_entry es' k j v e = ground arith
entries_get-replace (entry i w es) es' k j v e = elim (Option-cases (entries_replace es k v)) [
  | inl none' ↦ ground (arith, none', str_eq_iff i k, str_eq_iff i j, str_eq_iff k j)
  | inr (r, some') ↦ ground (
    arith,
    some',
    str_eq_iff i k,
    str_eq_iff i j,
    str_eq_iff k j,
    entries_get-replace es r k j v some',
  )
]

-- When memory is granted, after `json_object_set` on an object the key has the new value, and every
-- other key what it had.
pub json_object_get-set :
    (alloc : ℕ → Bool) (es : Entries) (k j : Bytes) (v : JsonValue)
    → Granted alloc
    → json_object_get (json_object_set alloc (json_object es) k v) j
      ≡ (if str_eq k j then some v else json_object_get (json_object es) j)
unfolding json_object_set json_object_get entries_set entries_get
json_object_get-set alloc es k j v g = elim (Option-cases (entries_replace es k v)) [
  | inl e ↦ ground (arith, e, g 24, g (length k + 1))
  | inr (es', e) ↦ ground (arith, e, entries_get-replace es es' k j v e)
]
