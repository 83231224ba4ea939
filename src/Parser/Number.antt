-- ===== src/Parser/Number.antt =====
-- The functions strtoull and strtoul of <stdlib.h> in bases 10 and 16, on 64 bits, as
-- src/http_server.c uses them for Content-Length and for chunk sizes.
use modern_c_web_library.Base.{
  ℕ, ◌+◌, ◌-◌, ◌*◌, ◌%◌, ◌^◌, Bool, true, false, Option, none, some, [], ◌∷◌, ◌&&◌, Bytes,
  if◌then◌else◌, ◌==◌, ltb, leb, isspace, tolower,
}

-- The value of a digit in a base of at most 16.
abbrev pub digit : ℕ → ℕ → Option ℕ
digit base c =
    if leb b'0' c && leb c b'9' && ltb (c - b'0') base
    then some (c - b'0')
    else if base == 16 && leb b'a' (tolower c) && leb (tolower c) b'f'
    then some (tolower c - b'a' + 10)
    else none

-- The digits at the front, read on from `acc`, and what follows them.
unfoldable pub digits : ℕ → ℕ → Bytes → ℕ × Bytes
digits base acc [] = (acc, [])
digits base acc (c ∷ s) = elim (digit base c) [
  | none ↦ (acc, c ∷ s)
  | some d ↦ digits base (acc * base + d) s
]

abbrev pub skip_isspace : Bytes → Bytes
skip_isspace [] = []
skip_isspace (c ∷ s) = if isspace c then skip_isspace s else c ∷ s

-- The sign, true for a minus, and what follows it.
abbrev pub sign : Bytes → Bool × Bytes
sign [] = (false, [])
sign (c ∷ s) = if c == b'-' then (true, s) else if c == b'+' then (false, s) else (false, c ∷ s)

abbrev pub starts_digit : ℕ → Bytes → Bool
starts_digit base [] = false
starts_digit base (c ∷ s) = elim (digit base c) [ none ↦ false | some _ ↦ true ]

-- In base 16 a prefix 0x is skipped if a digit follows it.
abbrev pub skip_prefix : ℕ → Bytes → Bytes
skip_prefix base [] = []
skip_prefix base (z ∷ []) = z ∷ []
skip_prefix base (z ∷ x ∷ s) =
    if base == 16 && z == b'0' && tolower x == b'x' && starts_digit 16 s then s else z ∷ x ∷ s

-- ULLONG_MAX when the number is too large, else the number, negated modulo 2^64 after a minus.
abbrev pub to_word : Bool → ℕ → ℕ
to_word negative n =
    if leb (2 ^ 64) n then 2 ^ 64 - 1 else if negative then (2 ^ 64 - n) % 2 ^ 64 else n

-- The number and the text at `endptr`; `none` when nothing is converted (`endptr == s`).
unfoldable pub strtoull : ℕ → Bytes → Option (ℕ × Bytes)
unfolding digits
strtoull base s =
    let (negative, t) = sign (skip_isspace s) in
    let u = skip_prefix base t in
    if starts_digit base u
    then some (to_word negative (digits base 0 u).0, (digits base 0 u).1)
    else none
