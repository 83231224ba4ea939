-- ===== src/Json/RoundTrip/Values.antt =====
-- src/json.c: `parse_value` on the text of a value, with whatever follows it.
use modern_c_web_library.Base.{
  ℕ, zero, suc, ◌+◌, ◌≤◌, ◌≡◌, ◌⊎◌, refl, ap, ◌∙◌, Bool, true, false, Option, some, [], ◌∷◌, ◌++◌,
  append_assoc, codes, Bytes, length, length-append, if◌then◌else◌, arith, All, isspace, has_prefix,
  inl, inr,
}
use modern_c_web_library.Http.Lists.{Granted}
use modern_c_web_library.Json.{
  JsonValue, json_null, json_bool, json_number, json_string, json_object, json_array, Entries,
  no_entry, entry, entries_set, json_create, sizeof_json_value,
}
use modern_c_web_library.Json.Parse.{
  Parsed, parsed, refused, ◌>>=◌, parse_at, parse_by, skip_whitespace, scan_string, parse_string,
  parse_number, parse_bool, parse_null, parse_array, parse_key, begins_number, parse_value,
  parse_members, close_member,
}
use modern_c_web_library.Json.Print.Text.{escaped, named, json_text, entries_text}
use modern_c_web_library.Json.RoundTrip.Scan.{PlainByte, scan_string-escaped, scan_string-plain}

regroup : (n j e r : Bytes) → n ++ j ++ e ++ r ≡ n ++ (j ++ (e ++ r))
regroup n j e r = append_assoc (n ++ j) e r ∙ append_assoc n j (e ++ r)

-- What stands behind a value: the end, a comma or a brace.
abbrev pub Ends : Bytes → Type 0
Ends [] = Unit
Ends (c ∷ s) = (c ≡ b',') ⊎ (c ≡ b'}')

module _ (alloc : ℕ → Bool) (strtod : Bytes → Option (ℕ × Bytes)) (format_g : ℕ → Bytes) where
  -- strtod reads a double back from the text that %g gives it, which begins with a digit or a minus sign.
  abbrev pub ReadBack : ℕ → Type 0
  ReadBack num =
      (c : ℕ) × (s : Bytes) × (format_g num ≡ c ∷ s)
      × (begins_number c ≡ true)
      × ((rest : Bytes) → Ends rest → strtod (format_g num ++ rest) ≡ some (num, rest))

  unfoldable mutual
    -- The doubles are read back, and the keys have no quote and no backslash.
    pub Reads : JsonValue → Type 0
    Reads (json_number num) = ReadBack num
    Reads (json_object es) = ReadsAll es
    Reads _ = Unit

    pub ReadsAll : Entries → Type 0
    ReadsAll no_entry = Unit
    ReadsAll (entry key value es) = All PlainByte key × Reads value × ReadsAll es

  unfoldable mutual
    -- The value that is read: the strings with their escapes, the entries set one after the other.
    pub reread : JsonValue → JsonValue
    reread (json_string s) = json_string (escaped s)
    reread (json_object es) = json_object (reread_onto no_entry es)
    reread v = v

    pub reread_onto : Entries → Entries → Entries
    reread_onto seen no_entry = seen
    reread_onto seen (entry key value es) =
        reread_onto (entries_set alloc seen key (reread value)) es

  module _ (granted : Granted alloc) where
    parse_string-text :
        (s t rest : Bytes)
        → scan_string (t ++ (b'"' ∷ rest)) ≡ some (s, rest)
        → parse_string alloc strtod (b'"' ∷ (t ++ (b'"' ∷ rest))) ≡ parsed s rest
    unfolding parse_string
    parse_string-text s t rest e = ground (arith, e, granted (length s + 1), granted 16)

    parse_key-named :
        (key rest : Bytes)
        → All PlainByte key
        → parse_key alloc strtod (named key ++ rest) ≡ parsed key rest
    unfolding parse_key skip_whitespace
    parse_key-named key rest p =
        let ends : (key ++ codes "\":") ++ rest ≡ key ++ (b'"' ∷ b':' ∷ rest) =
          append_assoc key (codes "\":") rest in
        rw ends (
          rw (parse_string-text key key (b':' ∷ rest) (scan_string-plain key (b':' ∷ rest) p)) refl)

    object_granted : {A : Type 0} (x y : A) → (if alloc sizeof_json_value then x else y) ≡ x
    object_granted x y = ground (arith, granted 16)

    parse_bool-text :
        (b : Bool) (rest : Bytes)
        → parse_bool alloc strtod ((if b then codes "true" else codes "false") ++ rest)
          ≡ parsed (json_bool b) rest
    unfolding parse_bool has_prefix json_create
    parse_bool-text true rest = ground (arith, granted 16)
    parse_bool-text false rest = ground (arith, granted 16)

    parse_null-text :
        (rest : Bytes) → parse_null alloc strtod (codes "null" ++ rest) ≡ parsed json_null rest
    unfolding parse_null has_prefix json_create
    parse_null-text rest = ground (arith, granted 16)

    parse_array-text :
        (rest : Bytes) → parse_array alloc strtod (codes "[]" ++ rest) ≡ parsed json_array rest
    unfolding parse_array skip_whitespace json_create
    parse_array-text rest = ground (arith, granted 16)

    number_start :
        (object : Bytes → Parsed JsonValue) (c num : ℕ) (s rest : Bytes)
        → begins_number c ≡ true
        → strtod (c ∷ s) ≡ some (num, rest)
        → parse_at alloc strtod object (skip_whitespace (c ∷ s)) ≡ parsed (json_number num) rest
    unfolding skip_whitespace parse_number json_create
    number_start object c num s rest begins read =
        let blank : isspace c ≡ false = ground (arith, begins) in
        let skipped : skip_whitespace (c ∷ s) ≡ c ∷ s = ground (arith, blank) in
        let chosen : parse_by alloc strtod object c s ≡ parse_number alloc strtod (c ∷ s) =
          ground (arith, begins) in
        ap (parse_at alloc strtod object) skipped ∙ chosen ∙ ground (arith, read, granted 16)

    parse_value-number :
        (num fuel : ℕ) (rest : Bytes)
        → ReadBack num
        → Ends rest
        → parse_value alloc strtod (suc fuel) (format_g num ++ rest) ≡ parsed (json_number num) rest
    unfolding parse_value
    parse_value-number num fuel rest (c, s, starts, begins, back) ends =
        go (format_g num) starts (back rest ends)
      where
        go :
            (u : Bytes)
            → u ≡ c ∷ s
            → strtod (u ++ rest) ≡ some (num, rest)
            → parse_value alloc strtod (suc fuel) (u ++ rest) ≡ parsed (json_number num) rest
        go [] e h = ground arith
        go (d ∷ u) e h = number_start _ d num (u ++ rest) rest (ground (arith, e, begins)) h

    abbrev ValueReads : JsonValue → Type 0
    ValueReads v =
        (fuel : ℕ) (rest : Bytes)
        → Reads v
        → Ends rest
        → length (json_text format_g v ++ rest) ≤ fuel
        → parse_value alloc strtod (suc fuel) (json_text format_g v ++ rest)
          ≡ parsed (reread v) rest

    -- The entries that follow one, up to the brace.
    abbrev CloseReads : Entries → Type 0
    CloseReads es =
        (fuel : ℕ) (seen : Entries) (rest : Bytes)
        → ReadsAll es
        → length (entries_text format_g false es ++ (b'}' ∷ rest)) ≤ fuel
        → close_member (parse_members alloc strtod fuel) seen
            (skip_whitespace (entries_text format_g false es ++ (b'}' ∷ rest)))
          ≡ parsed (json_object (reread_onto seen es)) rest

    entry_length :
        (key : Bytes) (v : JsonValue) (es : Entries) (rest : Bytes)
        → 2 ≤ length (entries_text format_g true (entry key v es) ++ (b'}' ∷ rest))
    unfolding json_text
    entry_length key v es rest = omega (
      arith,
      length-append (entries_text format_g true (entry key v es)) (b'}' ∷ rest),
      length-append (named key ++ json_text format_g v) (entries_text format_g false es),
      length-append (named key) (json_text format_g v),
    )

    parse_members-entry :
        (key : Bytes) (v : JsonValue) (es : Entries)
        → ValueReads v
        → CloseReads es
        → (fuel : ℕ) (seen : Entries) (rest : Bytes) → ReadsAll (entry key v es)
        → length (entries_text format_g true (entry key v es) ++ (b'}' ∷ rest)) ≤ fuel
        → parse_members alloc strtod fuel seen
            (entries_text format_g true (entry key v es) ++ (b'}' ∷ rest))
          ≡ parsed (json_object (reread_onto seen (entry key v es))) rest
    unfolding parse_value skip_whitespace Reads reread json_text
    parse_members-entry key v es value_reads close_reads zero seen rest (p, q, r) le =
        absurd (omega (arith, le))
    parse_members-entry key v es value_reads close_reads (suc zero) seen rest (p, q, r) le =
        absurd (omega (arith, le, entry_length key v es rest))
    parse_members-entry key v es value_reads close_reads (suc (suc fuel)) seen rest (p, q, r) le =
        let tail = entries_text format_g false es ++ (b'}' ∷ rest) in
        let whole : entries_text format_g true (entry key v es) ++ (b'}' ∷ rest)
            ≡ named key ++ (json_text format_g v ++ tail) =
          regroup (named key) (json_text format_g v) (entries_text format_g false es)
            (b'}' ∷ rest) in
        let whole_length : length (entries_text format_g true (entry key v es) ++ (b'}' ∷ rest))
            ≡ length (named key ++ (json_text format_g v ++ tail)) =
          ap length whole in
        let lengths = length-append (named key) (json_text format_g v ++ tail) in
        let named_length : length (named key) ≡ length key + 3 =
          ground (arith, length-append key (codes "\":")) in
        let tail_length = length-append (json_text format_g v) tail in
        let step : Bytes × Bytes → Parsed JsonValue = (λ x.
          parse_value alloc strtod (suc fuel) x.1 >>= (λ y.
            close_member (parse_members alloc strtod (suc fuel)) (entries_set alloc seen x.0 y.0)
              (skip_whitespace y.1))) in
        ap (parse_members alloc strtod (suc (suc fuel)) seen) whole
        ∙ ap (λ read. read >>= step) (parse_key-named key (json_text format_g v ++ tail) p)
        ∙ ap
            (λ read. read >>= (λ y.
              close_member (parse_members alloc strtod (suc fuel)) (entries_set alloc seen key y.0)
                (skip_whitespace y.1)))
            (value_reads fuel tail q (ends es rest)
              (omega (arith, le, whole_length, lengths, named_length)))
        ∙ close_reads (suc fuel) (entries_set alloc seen key (reread v)) rest r
            (omega (arith, le, whole_length, lengths, named_length, tail_length))
      where
        ends :
            (es : Entries) (rest : Bytes) → Ends (entries_text format_g false es ++ (b'}' ∷ rest))
        ends no_entry rest = inr refl
        ends (entry k w es) rest = inl refl

    mutual
      unfolding parse_value skip_whitespace Reads reread json_text

      pub parse_value-json_text : (v : JsonValue) → ValueReads v
      parse_value-json_text json_null fuel rest p ends le = parse_null-text rest
      parse_value-json_text (json_bool true) fuel rest p ends le = parse_bool-text true rest
      parse_value-json_text (json_bool false) fuel rest p ends le = parse_bool-text false rest
      parse_value-json_text (json_number num) fuel rest p ends le =
          parse_value-number num fuel rest p ends
      parse_value-json_text (json_string s) fuel rest p ends le =
          let ends_there : (escaped s ++ codes "\"") ++ rest ≡ escaped s ++ (b'"' ∷ rest) =
            append_assoc (escaped s) (codes "\"") rest in
          ap
            (λ u.
              parse_string alloc strtod (b'"' ∷ u) >>= (λ out. parsed (json_string out.0) out.1))
            ends_there
          ∙ ap (λ read. read >>= (λ out. parsed (json_string out.0) out.1))
              (parse_string-text (escaped s) (escaped s) rest (scan_string-escaped s rest))
      parse_value-json_text (json_object no_entry) fuel rest p ends le =
          object_granted (parsed (json_object no_entry) rest) refused
      parse_value-json_text (json_object (entry key v es)) fuel rest p ends le =
          let entries = entries_text format_g true (entry key v es) in
          let ends_there : (entries ++ codes "}") ++ rest ≡ entries ++ (b'}' ∷ rest) =
            append_assoc entries (codes "}") rest in
          let lengths : length ((entries ++ codes "}") ++ rest)
              ≡ length (entries ++ (b'}' ∷ rest)) =
            ap length ends_there in
          object_granted _ refused
          ∙ ap (parse_members alloc strtod fuel no_entry) ends_there
          ∙ parse_members-entry key v es (parse_value-json_text v) (close_member-entries_text es)
              fuel no_entry rest p (omega (arith, le, lengths))
      parse_value-json_text json_array fuel rest p ends le = parse_array-text rest

      close_member-entries_text : (es : Entries) → CloseReads es
      close_member-entries_text no_entry fuel seen rest p le = refl
      close_member-entries_text (entry key v es) fuel seen rest p le =
          parse_members-entry key v es (parse_value-json_text v) (close_member-entries_text es) fuel
            seen rest p (omega (arith, le))
