-- ===== src/Json/Parse/Returns.antt =====
-- src/json.c: the end of a run of `json_parse`.
use modern_c_web_library.Base.{
  ℕ, zero, suc, ◌+◌, ◌≤◌, ◌<◌, ◌≡◌, ◌≢◌, refl, Bool, true, false, Option, none, some, [], ◌∷◌, ◌&&◌,
  ◌||◌, Bytes, length, drop, length-drop, if◌then◌else◌, ◌==◌, arith, has_prefix, codes,
  Option-cases, inl, inr,
}
use modern_c_web_library.Json.{
  JsonValue, Entries, no_entry, json_create, sizeof_json_value, json_number_create,
  json_bool_create, json_null,
}
use modern_c_web_library.Json.Parse.{
  Parsed, parsed, refused, exhausted, ◌>>=◌, created, skip_whitespace, scan_string, parse_string,
  parse_number, parse_bool, parse_null, parse_array, close_array, colon, parse_key, begins_number,
  parse_by, parse_at, open_object, close_member, parse_value, parse_members, json_parse,
}

-- The result is there, or is NULL; and what is left is at most `n` bytes.
abbrev pub Within {ℓ} : {A : Type ℓ} → ℕ → Parsed A → Type 0
Within n (parsed a rest) = length rest ≤ n
Within n refused = Unit
Within n exhausted = ⊥

pub length-skip_whitespace : (s : Bytes) → length (skip_whitespace s) ≤ length s
unfolding skip_whitespace
length-skip_whitespace [] = omega arith
length-skip_whitespace (c ∷ s) = ground (arith, length-skip_whitespace s)

length-scan_string : (s a rest : Bytes) → scan_string s ≡ some (a, rest) → length rest < length s
unfolding scan_string
length-scan_string [] a rest e = ground arith
length-scan_string (c ∷ []) a rest e = ground arith
length-scan_string (c ∷ d ∷ s) a rest e = elim (Option-cases (scan_string s)) [
  | inl e₁ ↦ elim (Option-cases (scan_string (d ∷ s))) [
    | inl e₂ ↦ ground (arith, e₁, e₂)
    | inr ((a₂, r₂), e₂) ↦ ground (arith, e₁, e₂, length-scan_string (d ∷ s) a₂ r₂ e₂)
  ]
  | inr ((a₁, r₁), e₁) ↦ elim (Option-cases (scan_string (d ∷ s))) [
    | inl e₂ ↦ ground (arith, e₁, e₂, length-scan_string s a₁ r₁ e₁)
    | inr ((a₂, r₂), e₂) ↦
        ground (arith, e₁, e₂, length-scan_string s a₁ r₁ e₁, length-scan_string (d ∷ s) a₂ r₂ e₂)
  ]
]

Within->>= {ℓ κ} :
    {A : Type ℓ} {B : Type κ} (n m : ℕ) (r : Parsed A) (f : A × Bytes → Parsed B)
    → Within n r
    → ((a : A) (rest : Bytes) → length rest ≤ n → Within m (f (a, rest)))
    → Within m (r >>= f)
Within->>= n m (parsed a rest) f h k = k a rest h
Within->>= n m refused f h k = tt
Within->>= n m exhausted f h k = absurd h

Within-if {ℓ} :
    {A : Type ℓ} (n : ℕ) (b : Bool) (x y : Parsed A)
    → Within n x
    → Within n y
    → Within n (if b then x else y)
Within-if n true x y h k = h
Within-if n false x y h k = k

Within-mono {ℓ} : {A : Type ℓ} (n m : ℕ) (r : Parsed A) → n ≤ m → Within n r → Within m r
Within-mono n m (parsed a rest) le h = omega (arith, le, h)
Within-mono n m refused le h = tt
Within-mono n m exhausted le h = h

Within-created :
    (n : ℕ) (o : Option JsonValue) (rest : Bytes) → length rest ≤ n → Within n (created o rest)
Within-created n none rest h = tt
Within-created n (some v) rest h = h

-- What is said of strtod: it does not go beyond the end of the text.
abbrev pub Stays : (Bytes → Option (ℕ × Bytes)) → Type 0
Stays strtod =
    (s : Bytes) (num : ℕ) (rest : Bytes) → strtod s ≡ some (num, rest) → length rest ≤ length s

colon-Within : (n : ℕ) (s : Bytes) → length s ≤ n → Within n (colon s)
colon-Within n [] h = tt
colon-Within n (c ∷ s) h = Within-if n (c == b':') _ _ (omega (arith, h)) tt

open_object-Within :
    (members : Entries → Bytes → Parsed JsonValue) (n : ℕ) (s : Bytes)
    → length s ≤ n
    → ((es : Entries) (r : Bytes) → length r ≤ n → Within n (members es r))
    → Within n (open_object members s)
open_object-Within members n [] h k = k no_entry [] h
open_object-Within members n (c ∷ s) h k =
    Within-if n (c == b'}') _ _ (omega (arith, h)) (k no_entry (c ∷ s) h)

close_member-Within :
    (members : Entries → Bytes → Parsed JsonValue) (n : ℕ) (es : Entries) (s : Bytes)
    → length s ≤ n
    → ((r : Bytes) → length r ≤ n → Within n (members es r))
    → Within n (close_member members es s)
close_member-Within members n es [] h k = tt
close_member-Within members n es (c ∷ s) h k =
    Within-if n (c == b',') _ _ (k s (omega (arith, h)))
      (Within-if n (c == b'}') _ _ (omega (arith, h)) tt)

module _ (alloc : ℕ → Bool) (strtod : Bytes → Option (ℕ × Bytes)) where
  parse_string-Within : (c : ℕ) (s : Bytes) → Within (length s) (parse_string alloc strtod (c ∷ s))
  unfolding parse_string
  parse_string-Within c s = go (scan_string s) (length-scan_string s)
    where
      stored :
          (a rest : Bytes) (b : Bool)
          → length rest ≤ length s
          → Within (length s) (if b then parsed a rest else refused)
      stored a rest true h = h
      stored a rest false h = tt

      go :
          (r : Option (Bytes × Bytes))
          → ((a rest : Bytes) → r ≡ some (a, rest) → length rest < length s)
          → let read : Parsed Bytes = elim r [
            | none ↦ refused
            | some (a, rest) ↦
                if alloc (length a + 1) && alloc sizeof_json_value then parsed a rest else refused
          ] in
            Within (length s) read
      go none k = tt
      go (some (a, rest)) k =
          stored a rest (alloc (length a + 1) && alloc sizeof_json_value)
            (omega (arith, k a rest refl))

  -- A key takes a byte at least.
  parse_key-Within : (n : ℕ) (s : Bytes) → length s ≤ suc n → Within n (parse_key alloc strtod s)
  unfolding parse_key
  parse_key-Within n [] h = tt
  parse_key-Within n (c ∷ s) h =
      Within-if n (c == b'"') _ _
        (Within->>= n n _ _
          (Within-mono (length s) n (parse_string alloc strtod (c ∷ s)) (omega (arith, h))
            (parse_string-Within c s))
          λ key rest le.
            Within->>= n n _ _
              (colon-Within n (skip_whitespace rest)
                (omega (arith, length-skip_whitespace rest, le)))
              λ _ rest' le'. le')
        tt

  parse_word-Within :
      (n c : ℕ) (s : Bytes)
      → suc (length s) ≤ n
      → Within n (parse_bool alloc strtod (c ∷ s)) × Within n (parse_null alloc strtod (c ∷ s))
  unfolding parse_bool parse_null
  parse_word-Within n c s h =
      let four : length (drop 4 (c ∷ s)) ≤ n = omega (arith, h, length-drop 4 (c ∷ s)) in
      let five : length (drop 5 (c ∷ s)) ≤ n = omega (arith, h, length-drop 5 (c ∷ s)) in
      let yes_value = created (json_bool_create alloc true) (drop 4 (c ∷ s)) in
      let no_value = created (json_bool_create alloc false) (drop 5 (c ∷ s)) in
      let null_value = created (json_create alloc json_null) (drop 4 (c ∷ s)) in
      (
        Within-if n (has_prefix (codes "true") (c ∷ s)) yes_value _
            (Within-created n (json_bool_create alloc true) (drop 4 (c ∷ s)) four)
            (Within-if n (has_prefix (codes "false") (c ∷ s)) no_value refused
              (Within-created n (json_bool_create alloc false) (drop 5 (c ∷ s)) five) tt),
        Within-if n (has_prefix (codes "null") (c ∷ s)) null_value refused
            (Within-created n (json_create alloc json_null) (drop 4 (c ∷ s)) four) tt,
      )

  module _ (stays : Stays strtod) where
    parse_number-Within :
        (n : ℕ) (s : Bytes) → length s ≤ n → Within n (parse_number alloc strtod s)
    unfolding parse_number
    parse_number-Within n s h = go (strtod s) (stays s)
      where
        go :
            (r : Option (ℕ × Bytes))
            → ((num : ℕ) (rest : Bytes) → r ≡ some (num, rest) → length rest ≤ length s)
            → let read : Parsed JsonValue = elim r [
              | none ↦ refused
              | some (num, rest) ↦ created (json_number_create alloc num) rest
            ] in
              Within n read
        go none k = tt
        go (some (num, rest)) k = Within-created n _ rest (omega (arith, h, k num rest refl))

    parse_by-Within :
        (object : Bytes → Parsed JsonValue) (n c : ℕ) (s : Bytes)
        → suc (length s) ≤ n
        → Within n (object s)
        → Within n (parse_by alloc strtod object c s)
    unfolding parse_array
    parse_by-Within object n c s h k = Within-if n (c == b'{') _ _ k (
        Within-if n (c == b'[') _ _
          (closed (skip_whitespace s) (omega (arith, h, length-skip_whitespace s)))
          (Within-if n (c == b'"') _ _
            (Within->>= n n _ _
              (Within-mono (length s) n _ (omega (arith, h)) (parse_string-Within c s))
              λ a rest le. le)
            (Within-if n (c == b't' || c == b'f') _ _ (parse_word-Within n c s h).0 (
              Within-if n (c == b'n') _ _ (parse_word-Within n c s h).1
                (Within-if n (begins_number c) _ refused (parse_number-Within n (c ∷ s) h) tt)))))
      where
        closed : (r : Bytes) → length r ≤ n → Within n (close_array alloc strtod r)
        closed [] le = tt
        closed (d ∷ r) le =
            Within-if n (d == b']') _ _ (Within-created n _ r (omega (arith, le))) tt

    mutual
      unfolding parse_value

      parse_value-Within :
          (fuel : ℕ) (s : Bytes)
          → length s < fuel
          → Within (length s) (parse_value alloc strtod fuel s)
      parse_value-Within zero s h = absurd (omega arith)
      parse_value-Within (suc fuel) s h =
          at_start (skip_whitespace s) (length-skip_whitespace s)
            λ es r lt. parse_members-Within fuel es r (omega (arith, h, lt))
        where
          object : Bytes → Parsed JsonValue
          object q =
              if alloc sizeof_json_value
              then open_object (parse_members alloc strtod fuel) (skip_whitespace q)
              else refused

          at_start :
              (r : Bytes)
              → length r ≤ length s
              → ((es : Entries) (q : Bytes)
                  → length q < length s
                  → Within (length q) (parse_members alloc strtod fuel es q))
              → Within (length s) (parse_at alloc strtod object r)
          at_start [] le k = tt
          at_start (c ∷ r) le k =
              let opened = open_object (parse_members alloc strtod fuel) (skip_whitespace r) in
              let inside : Within (length r) opened =
                open_object-Within (parse_members alloc strtod fuel) (length r) (skip_whitespace r)
                  (length-skip_whitespace r)
                  λ es q le'.
                    Within-mono (length q) (length r) (parse_members alloc strtod fuel es q) le'
                      (k es q (omega (arith, le, le'))) in
              parse_by-Within object (length s) c r le (
                Within-if (length s) (alloc sizeof_json_value) opened refused
                  (Within-mono (length r) (length s) opened (omega (arith, le)) inside) tt)

      parse_members-Within :
          (fuel : ℕ) (es : Entries) (s : Bytes)
          → length s < fuel
          → Within (length s) (parse_members alloc strtod fuel es s)
      parse_members-Within zero es s h = absurd (omega arith)
      parse_members-Within (suc fuel) es [] h = omega arith
      parse_members-Within (suc fuel) es (c ∷ s) h =
          Within->>= (length s) (suc (length s)) _ _
            (parse_key-Within (length s) (skip_whitespace (c ∷ s)) (length-skip_whitespace (c ∷ s)))
            λ key rest le.
              Within->>= (length s) (suc (length s)) _ _
                (Within-mono (length rest) (length s) _ le
                  (parse_value-Within fuel rest (omega (arith, h, le))))
                λ value rest' le'. Within-mono (length s) (suc (length s)) _ (omega arith) (
                  close_member-Within (parse_members alloc strtod fuel) (length s) _
                    (skip_whitespace rest') (omega (arith, length-skip_whitespace rest', le'))
                    λ r le''.
                      Within-mono (length r) (length s) _ le''
                        (parse_members-Within fuel _ r (omega (arith, h, le''))))

    -- As strtod stays within the text, `json_parse` ends on every text: with as many rounds as it has
    -- bytes, and one more, it gives a value or NULL.
    pub json_parse_returns : (s : Bytes) → json_parse alloc strtod s ≢ exhausted
    unfolding json_parse
    json_parse_returns s e = go (json_parse alloc strtod s) e (
        parse_value-Within (length s + 1) (skip_whitespace s)
          (omega (arith, length-skip_whitespace s)))
      where
        go : (r : Parsed JsonValue) → r ≡ exhausted → Within (length (skip_whitespace s)) r → ⊥
        go (parsed v rest) e h = ground arith
        go refused e h = ground arith
        go exhausted e h = h
