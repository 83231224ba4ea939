-- ===== src/Json/RoundTrip/Lookup.antt =====
-- src/json.c: `json_object_get` in an object that was printed and read again.
use modern_c_web_library.Base.{
  ℕ, ◌≡◌, refl, sym, ◌∙◌, Bool, true, false, Option, none, some, [], Bytes, if◌then◌else◌, arith,
  str_eq, str_eq_sound,
}
use modern_c_web_library.Http.Lists.{Granted}
use modern_c_web_library.Json.{
  JsonValue, json_object, Entries, no_entry, entry, entries_set, entries_get, json_object_get,
  json_object_set,
}
use modern_c_web_library.Json.Parse.{parsed, json_parse}
use modern_c_web_library.Json.Print.Text.{json_text}
use modern_c_web_library.Json.Objects.{json_object_get-set}
use modern_c_web_library.Json.RoundTrip.{json_parse-json_text}
use modern_c_web_library.Json.RoundTrip.Values.{reread, reread_onto, Reads, ReadsAll}

-- What is found in entries, or before them: the first of them comes last where it is alone of its key.
found_first :
    (b : Bool) (found after seen : Option JsonValue) (v : JsonValue) (f : JsonValue → JsonValue)
    → after ≡ (if b then some (f v) else seen)
    → (b ≡ true → found ≡ none)
    → elim found [ none ↦ after | some w ↦ some (f w) ]
      ≡ elim (if b then some v else found) [ none ↦ seen | some w ↦ some (f w) ]
found_first true none after seen v f e gone = e
found_first true (some w) after seen v f e gone = ground (arith, gone refl)
found_first false none after seen v f e gone = e
found_first false (some w) after seen v f e gone = refl

-- Each key is in one entry.
abbrev pub Distinct : Entries → Type 0
Distinct no_entry = Unit
Distinct (entry key value es) = (entries_get es key ≡ none) × Distinct es

module _ (alloc : ℕ → Bool) (strtod : Bytes → Option (ℕ × Bytes)) (format_g : ℕ → Bytes)
    (granted : Granted alloc) where
  entries_get-reread_onto :
      (es seen : Entries) (j : Bytes)
      → Distinct es
      → entries_get (reread_onto alloc strtod format_g seen es) j ≡ elim (entries_get es j) [
        | none ↦ entries_get seen j
        | some v ↦ some (reread alloc strtod format_g v)
      ]
  unfolding reread entries_get json_object_set json_object_get
  entries_get-reread_onto no_entry seen j d = refl
  entries_get-reread_onto (entry k v es) seen j (fresh, d) =
      entries_get-reread_onto es (entries_set alloc seen k (reread alloc strtod format_g v)) j d
      ∙ found_first (str_eq k j) (entries_get es j) _ (entries_get seen j) v
          (reread alloc strtod format_g) after_set gone
    where
      after_set :
          entries_get (entries_set alloc seen k (reread alloc strtod format_g v)) j
          ≡ (if str_eq k j then some (reread alloc strtod format_g v) else entries_get seen j)
      after_set = json_object_get-set alloc seen k j (reread alloc strtod format_g v) granted

      gone : str_eq k j ≡ true → entries_get es j ≡ none
      gone e = rw (sym (str_eq_sound k j e)) fresh

  -- When memory is granted, strtod reads the doubles back from their texts, no key has a quote or a
  -- backslash and each key is in one entry, `json_parse` reads the text of an object to its end, and
  -- `json_object_get` finds in the result the value that it finds in the object, as it is read.
  pub json_object_get-json_parse :
      (es : Entries) (j : Bytes)
      → ReadsAll alloc strtod format_g es
      → Distinct es
      → (v' : JsonValue) × (json_parse alloc strtod (json_text format_g (json_object es))
          ≡ parsed v' [])
        × (json_object_get v' j ≡ elim (json_object_get (json_object es) j) [
          | none ↦ none
          | some v ↦ some (reread alloc strtod format_g v)
        ])
  unfolding Reads reread json_object_get entries_get
  json_object_get-json_parse es j p d = (
    reread alloc strtod format_g (json_object es),
    json_parse-json_text alloc strtod format_g granted (json_object es) p,
    entries_get-reread_onto es no_entry j d,
  )
