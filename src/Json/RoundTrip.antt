-- ===== src/Json/RoundTrip.antt =====
-- src/json.c: `json_parse` on the text of a value.
pub mod Scan
pub mod Values
pub mod Lookup
use modern_c_web_library.Base.{
  ℕ, zero, suc, ◌+◌, ◌^◌, ◌≤◌, ◌<◌, ◌≡◌, ◌≢◌, ◌⊎◌, refl, sym, ap, ◌∙◌, Bool, true, false, Option,
  none, some, List, [], ◌∷◌, ◌++◌, append_assoc, append-nil, codes, Bytes, length, length-append,
  drop, if◌then◌else◌, ◌==◌, arith, All, isspace, str_eq, str_eq_sound, Bool-cases, has_prefix,
  ◌&&◌, ◌||◌, Option-cases, inl, inr,
}
use modern_c_web_library.Http.Lists.{Granted}
use modern_c_web_library.Json.{
  JsonValue, json_null, json_bool, json_number, json_string, json_object, json_array, Entries,
  no_entry, entry, entries_set, entries_get, json_object_get, json_object_set, json_create,
  json_number_create, json_bool_create, sizeof_json_value,
}
use modern_c_web_library.Json.Parse.{
  Parsed, parsed, refused, exhausted, ◌>>=◌, parse_at, parse_by, open_object, skip_whitespace,
  scan_string, parse_string, parse_number, parse_bool, parse_null, parse_array, parse_key,
  begins_number, parse_value, parse_members, close_member, json_parse,
}
use modern_c_web_library.Json.Print.{Output, printed, json_stringify}
use modern_c_web_library.Json.Print.Text.{
  escaped_char, escaped, named, json_text, entries_text, room_after,
}
use modern_c_web_library.Json.Print.Exact.{json_stringify-json_text}
use modern_c_web_library.Json.Objects.{json_object_get-set}
use modern_c_web_library.Json.RoundTrip.Scan.{PlainByte, scan_string-escaped, scan_string-plain}
use modern_c_web_library.Json.RoundTrip.Values.{Reads, reread, parse_value-json_text}

module _ (alloc : ℕ → Bool) (strtod : Bytes → Option (ℕ × Bytes)) (format_g : ℕ → Bytes)
    (granted : Granted alloc) where
  skip_whitespace_twice : (s : Bytes) → skip_whitespace (skip_whitespace s) ≡ skip_whitespace s
  unfolding skip_whitespace
  skip_whitespace_twice [] = refl
  skip_whitespace_twice (c ∷ s) = ground (arith, skip_whitespace_twice s)

  pub json_parse-json_text :
      (v : JsonValue)
      → Reads alloc strtod format_g v
      → json_parse alloc strtod (json_text format_g v) ≡ parsed (reread alloc strtod format_g v) []
  unfolding json_parse parse_value
  json_parse-json_text v p =
      let s = json_text format_g v in
      let more : length s + 1 ≡ suc (length s) = omega arith in
      let nothing : s ++ [] ≡ s = append-nil s in
      let read =
        parse_value-json_text alloc strtod format_g granted v (length s) [] p tt
          (omega (arith, ap length nothing)) in
      ap (λ fuel. parse_value alloc strtod fuel (skip_whitespace s)) more
      ∙ ap (parse_at alloc strtod _) (skip_whitespace_twice s)
      ∙ ap (parse_value alloc strtod (suc (length s))) (sym nothing)
      ∙ read

  -- When memory is granted, strtod reads the doubles back from their texts, no key has a quote or a
  -- backslash, the text has at most 2^63 - 256 bytes and room is always left, `json_stringify` returns a text
  -- that `json_parse` reads to its end: as the same value, but for strings that keep their escapes and
  -- entries that are set one after the other.
  pub json_parse-json_stringify :
      (v : JsonValue) (r : ℕ)
      → Reads alloc strtod format_g v
      → room_after format_g v ≡ some r
      → length (json_text format_g v) + 256 ≤ 2 ^ 63
      → (out : Output) × (json_stringify alloc format_g v ≡ printed out)
        × (json_parse alloc strtod out.text ≡ parsed (reread alloc strtod format_g v) [])
  json_parse-json_stringify v r p e small =
      let (out, printed', text', _, _) =
        json_stringify-json_text alloc granted format_g v r e small in
      (out, printed', ap (json_parse alloc strtod) text' ∙ json_parse-json_text v p)
