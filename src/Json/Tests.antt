-- ===== src/Json/Tests.antt =====
-- src/json.c: runs at concrete inputs. strtod reads one digit here, and a double is printed as one.
use modern_c_web_library.Base.{
  ℕ, zero, suc, ◌+◌, ◌-◌, ◌≤◌, ◌≡◌, ◌≢◌, refl, Bool, true, false, Option, none, some, [], ◌∷◌,
  codes, Bytes, arith, if◌then◌else◌, leb, ◌&&◌, str_eq,
}
use modern_c_web_library.Http.{http_response_create}
use modern_c_web_library.Json.{
  JsonValue, json_null, json_bool, json_number, json_string, json_object, Entries, no_entry, entry,
  json_create, entries_set, entries_replace, entries_get, json_object_get, json_object_set,
}
use modern_c_web_library.Json.Objects.{json_object_get-set}
use modern_c_web_library.Json.Parse.{
  parsed, exhausted, skip_whitespace, scan_string, parse_string, parse_number, parse_key,
  parse_value, json_parse,
}
use modern_c_web_library.Json.Parse.Returns.{json_parse_returns, Stays}
use modern_c_web_library.Json.Print.{
  Output, Printed, printed, overrun, snprintf, put_char, double_capacity, ensure_capacity,
  stringify_char, stringify_chars, stringify_string, stringify_kind, stringify_value,
  json_stringify, http_response_send_json,
}
use modern_c_web_library.Json.Print.Text.{escaped, json_text, room_after}
use modern_c_web_library.Json.Print.Exact.{
  json_stringify-json_text, http_response_send_json-json_text,
}
use modern_c_web_library.Json.RoundTrip.{json_parse-json_stringify}
use modern_c_web_library.Json.RoundTrip.Values.{ReadBack, Reads, ReadsAll, reread}
use modern_c_web_library.Json.RoundTrip.Scan.{PlainByte}
use modern_c_web_library.Json.RoundTrip.Lookup.{Distinct, json_object_get-json_parse}

abbrev granted : ℕ → Bool
granted n = true

unfoldable read_digit : Bytes → Option (ℕ × Bytes)
read_digit [] = none
read_digit (c ∷ s) = if leb b'0' c && leb c b'9' then some (c - 48, s) else none

abbrev print_digit : ℕ → Bytes
print_digit n = (n + 48) ∷ []

read_digit-Stays : Stays read_digit
unfolding read_digit
read_digit-Stays [] num rest e = ground arith
read_digit-Stays (c ∷ s) num rest e = ground arith

json_parse_returns_example :
    json_parse granted read_digit (codes "{\"a\": {}, \"b\": 7}") ≢ exhausted
json_parse_returns_example =
    json_parse_returns granted read_digit read_digit-Stays (codes "{\"a\": {}, \"b\": 7}")

-- { "ok": true, "n": 7, "say": "a\"b" }
abbrev members : Entries
members =
    entry (codes "ok") (json_bool true) (
      entry (codes "n") (json_number 7) (entry (codes "say") (json_string (codes "a\"b")) no_entry))

json_object_get-set_example :
    json_object_get
      (json_object_set granted (json_object members) (codes "n") json_null)
      (codes "n")
    ≡ some json_null
unfolding str_eq
json_object_get-set_example =
    json_object_get-set granted members (codes "n") (codes "n") json_null (λ n. refl)

seven-ReadBack : ReadBack granted read_digit print_digit 7
unfolding read_digit
seven-ReadBack = (b'7', [], refl, refl, λ rest e. refl)

abbrev object : JsonValue
object = json_object members

letter : (c : ℕ) → 97 ≤ c → PlainByte c
letter c le = (omega (arith, le), omega (arith, le))

members-Reads : ReadsAll granted read_digit print_digit members
unfolding Reads
members-Reads = (
  (letter b'o' (omega arith), (letter b'k' (omega arith), tt)),
  tt,
  (
    (letter b'n' (omega arith), tt),
    seven-ReadBack,
    (
      (letter b's' (omega arith), (letter b'a' (omega arith), (letter b'y' (omega arith), tt))),
      tt,
      tt,
    ),
  ),
)

members-Distinct : Distinct members
unfolding entries_get str_eq
members-Distinct = (refl, (refl, (refl, tt)))

json_parse-json_stringify_example :
    (out : Output) × (json_stringify granted print_digit object ≡ printed out)
    × (json_parse granted read_digit out.text
        ≡ parsed (reread granted read_digit print_digit object) [])
unfolding json_text room_after escaped Reads
json_parse-json_stringify_example =
    json_parse-json_stringify granted read_digit print_digit (λ n. refl) object 249 members-Reads
      refl (omega arith)

json_object_get-json_parse_example :
    (v' : JsonValue) × (json_parse granted read_digit (json_text print_digit object) ≡ parsed v' [])
    × (json_object_get v' (codes "n") ≡ some (json_number 7))
unfolding json_object_get entries_get reread str_eq
json_object_get-json_parse_example =
    json_object_get-json_parse granted read_digit print_digit (λ n. refl) members (codes "n")
      members-Reads members-Distinct

json_stringify-json_text_example :
    (out : Output) × (json_stringify granted print_digit object ≡ printed out)
    × (out.text ≡ json_text print_digit object)
    × (out.cut ≡ false)
    × (out.output_length + 249 ≤ out.capacity)
unfolding json_text room_after escaped
json_stringify-json_text_example =
    json_stringify-json_text granted (λ n. refl) print_digit object 249 refl (omega arith)

http_response_send_json-json_text_example :
    http_response_send_json granted print_digit http_response_create 201 object
    ≡ some (record http_response_create {
      status = 201;
      body = some (codes "{\"ok\":true,\"n\":7,\"say\":\"a\\\"b\"}");
      body_length = 30;
    })
unfolding json_text room_after escaped
http_response_send_json-json_text_example =
    http_response_send_json-json_text granted (λ n. refl) print_digit http_response_create 201
      object 249 refl (omega arith)

-- The end of the text closes an object.
truncated_text :
    json_parse granted read_digit (codes "{\"a\":1,")
    ≡ parsed (json_object (entry (codes "a") (json_number 1) no_entry)) []
unfolding json_parse parse_value skip_whitespace parse_key parse_string scan_string parse_number
    read_digit json_create entries_set entries_replace
truncated_text = refl

-- Escapes are not undone.
kept_escape :
    json_parse granted read_digit (codes "\"a\\n\"") ≡ parsed (json_string (codes "a\\n")) []
unfolding json_parse parse_value skip_whitespace parse_string scan_string
kept_escape = refl

abbrev repeated : ℕ → Bytes
repeated zero = []
repeated (suc n) = b'x' ∷ repeated n

abbrev is_cut : Printed → Bool
is_cut (printed out) = out.cut
is_cut _ = false

-- A key of 300 bytes does not fit, and the text ends within it.
cut_key :
    is_cut
      (json_stringify granted print_digit (json_object (entry (repeated 300) json_null no_entry)))
    ≡ true
unfolding json_stringify stringify_value ensure_capacity double_capacity stringify_kind snprintf
cut_key = refl

abbrev nested : ℕ → JsonValue → JsonValue
nested zero v = v
nested (suc n) v = json_object (entry (codes "a") (nested n v) no_entry)

-- Ten braces are written behind a string that fills the buffer.
braces_overrun :
    json_stringify granted print_digit (nested 10 (json_string (repeated 452))) ≡ overrun
unfolding json_stringify stringify_value ensure_capacity double_capacity stringify_kind snprintf
    stringify_string stringify_chars stringify_char put_char
braces_overrun = refl
