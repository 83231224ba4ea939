-- ===== src/Json/Print.antt =====
-- src/json.c: `json_stringify`, `stringify_value` and `http_response_send_json`. `format_g` gives the
-- text of a double under `%g`, and `alloc n` says whether the allocator grants `n` bytes. The result of
-- snprintf is taken for the length of what it prints, which an int holds below 2^31.
pub mod Text
pub mod Room
pub mod Exact
use modern_c_web_library.Base.{
  ℕ, zero, suc, ◌+◌, ◌-◌, ◌*◌, ◌%◌, ◌^◌, Bool, true, false, Option, some, none, List, [], ◌∷◌, ◌++◌,
  ◌||◌, codes, Bytes, length, take, if◌then◌else◌, ◌==◌, ltb,
}
use modern_c_web_library.Http.{HttpResponse}
use modern_c_web_library.Json.{
  JsonValue, json_null, json_bool, json_number, json_string, json_object, json_array, Entries,
  no_entry, entry,
}

-- `*output`, `*length` and `*capacity`. The text is what stands before the first NUL, or before
-- `*length`; once snprintf has had no room for all of its text, the NUL it put at the end of the buffer
-- stays, so the text is `cut`: what is written later stands behind that NUL.
pub record Output : Type 0 where
  pub text : Bytes
  pub cut : Bool
  pub output_length : ℕ
  pub capacity : ℕ

-- `true`, `false`, a write that leaves the buffer, or fuel used up.
pub data Printed : Type 0 where
  printed : Output → Printed
  not_printed : Printed
  overrun : Printed
  hung : Printed

infixl 5 ◌>>=◌
abbrev pub ◌>>=◌ : Printed → (Output → Printed) → Printed
printed out >>= f = f out
not_printed >>= f = not_printed
overrun >>= f = overrun
hung >>= f = hung

-- The state of the buffer when snprintf has put `s` at `*length`, with room for `s` and a NUL or not.
abbrev pub put : Bytes → Output → Output
put s out = record out {
  text =
      if out.cut
      then out.text
      else if ltb (out.output_length + length s) out.capacity
      then out.text ++ s
      else out.text ++ take (out.capacity - out.output_length - 1) s;
  cut = out.cut || not_below (out.output_length + length s) out.capacity;
  output_length = out.output_length + length s;
}
  where
    not_below : ℕ → ℕ → Bool
    not_below a b = if ltb a b then false else true

-- `*length += snprintf(*output + *length, *capacity - *length, "%s", s)`. Behind the end of the buffer
-- the size wraps to a huge one.
unfoldable pub snprintf : Bytes → Output → Printed
snprintf s out = if ltb out.capacity out.output_length then overrun else printed (put s out)

-- `(*output)[(*length)++] = c`
unfoldable pub put_char : ℕ → Output → Printed
put_char c out =
    if ltb out.output_length out.capacity
    then printed (record out {
      text = if out.cut then out.text else out.text ++ (c ∷ []);
      output_length = out.output_length + 1;
    })
    else overrun

-- The switch of the loop over a string.
abbrev pub write_escaped : ℕ → Output → Printed
write_escaped c out =
    if c == b'"'
    then snprintf (codes "\\\"") out
    else if c == b'\\'
    then snprintf (codes "\\\\") out
    else if c == b'\n'
    then snprintf (codes "\\n") out
    else if c == b'\r'
    then snprintf (codes "\\r") out
    else if c == b'\t'
    then snprintf (codes "\\t") out
    else put_char c out

module _ (alloc : ℕ → Bool) where
  -- `*capacity *= 2` with its realloc
  unfoldable pub double_capacity : Output → Printed
  double_capacity out =
      let doubled = out.capacity * 2 % 2 ^ 64 in
      if alloc doubled then printed (record out { capacity = doubled }) else not_printed

  -- The loop at the start of `stringify_value`.
  unfoldable pub ensure_capacity : ℕ → Output → Printed
  ensure_capacity zero out =
      if ltb out.capacity (out.output_length + 256) then hung else printed out
  ensure_capacity (suc fuel) out =
      let doubled = double_capacity out >>= ensure_capacity fuel in
      if ltb out.capacity (out.output_length + 256) then doubled else printed out

  -- One round of the loop over a string.
  unfoldable pub stringify_char : ℕ → Output → Printed
  stringify_char c out =
      (if ltb out.capacity (out.output_length + 10) then double_capacity out else printed out)
      >>= write_escaped c

  unfoldable pub stringify_chars : Bytes → Output → Printed
  stringify_chars [] out = printed out
  stringify_chars (c ∷ s) out = stringify_char c out >>= stringify_chars s

  -- The case of a string.
  unfoldable pub stringify_string : Bytes → Output → Printed
  stringify_string s out = do
    opened ← snprintf (codes "\"") out
    written ← stringify_chars s opened
    snprintf (codes "\"") written

module _ (alloc : ℕ → Bool) (format_g : ℕ → Bytes) where
  unfoldable mutual
    -- `stringify_value` behind its first loop: the switch.
    pub stringify_kind : JsonValue → Output → Printed
    stringify_kind json_null out = snprintf (codes "null") out
    stringify_kind (json_bool b) out = snprintf (if b then codes "true" else codes "false") out
    stringify_kind (json_number num) out = snprintf (format_g num) out
    stringify_kind (json_string s) out = stringify_string alloc s out
    stringify_kind (json_object es) out = do
      opened ← snprintf (codes "{") out
      written ← stringify_entries true es opened
      snprintf (codes "}") written
    stringify_kind json_array out = snprintf (codes "[]") out

    -- The loop over the entries of an object.
    pub stringify_entries : Bool → Entries → Output → Printed
    stringify_entries first no_entry out = printed out
    stringify_entries first (entry key value es) out = do
      separated ← if first then printed out else snprintf (codes ",") out
      named ← snprintf (b'"' ∷ key ++ codes "\":") separated
      ensured ← ensure_capacity alloc (named.output_length + 256) named
      written ← stringify_kind value ensured
      stringify_entries false es written

  -- `stringify_value`
  unfoldable pub stringify_value : JsonValue → Output → Printed
  stringify_value value out =
      ensure_capacity alloc (out.output_length + 256) out >>= stringify_kind value

  -- `json_stringify` on a value: the buffer it returns.
  unfoldable pub json_stringify : JsonValue → Printed
  json_stringify value =
      if alloc 256
      then stringify_value value
          (record { text = []; cut = false; output_length = 0; capacity = 256 })
      else not_printed

  -- `http_response_send_json`; an overrun and an endless loop give no response.
  unfoldable pub http_response_send_json : HttpResponse → ℕ → JsonValue → Option HttpResponse
  http_response_send_json res status json = elim (json_stringify json) [
    | printed out ↦
        some (record res { status = status; body = some out.text; body_length = length out.text })
    | not_printed ↦ some res
    | overrun ↦ none
    | hung ↦ none
  ]
