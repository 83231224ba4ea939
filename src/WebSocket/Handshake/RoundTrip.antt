-- ===== src/WebSocket/Handshake/RoundTrip.antt =====
-- src/websocket.c, `base64_encode`: a decoder of RFC 4648 gives back the bytes.
use modern_c_web_library.Base.{
  ℕ, suc, ◌+◌, ◌-◌, ◌*◌, ◌/◌, ◌%◌, ◌^◌, ◌≡◌, ◌<◌, refl, Bool, true, false, none, some, [], ◌∷◌,
  ◌==◌, Bytes, length, get_or, if◌then◌else◌, arith, All, each_upto, each_upto_lem, ==_iff, not,
  ◌&&◌,
}
use mathlib.Core.Option.{some-injective}
use modern_c_web_library.WebSocket.Frame.RoundTrip.{IsByte}
use modern_c_web_library.WebSocket.Handshake.Base64.{
  base64_table, symbols, triple_of, encode_triples, output_length, pad, base64_encode,
}

-- The place of a character.
abbrev index_of : Bytes → ℕ → ℕ
index_of [] c = 0
index_of (d ∷ ds) c = if d == c then 0 else suc (index_of ds c)

abbrev joined : ℕ → ℕ → ℕ → ℕ → ℕ
joined w x y z =
    index_of base64_table w * 2 ^ 18
    + index_of base64_table x * 2 ^ 12
    + index_of base64_table y * 2 ^ 6
    + index_of base64_table z

-- Four characters are three bytes; one or two signs of equality at the end say that one or two of them
-- are missing.
unfoldable pub base64_decode : Bytes → Bytes
base64_decode (w ∷ x ∷ y ∷ z ∷ rest) =
    let more = base64_decode rest in
    if y == b'='
    then (joined w x b'A' b'A' / 2 ^ 16 % 256) ∷ []
    else if z == b'='
    then (joined w x y b'A' / 2 ^ 16 % 256) ∷ (joined w x y b'A' / 2 ^ 8 % 256) ∷ []
    else (joined w x y z / 2 ^ 16 % 256)
      ∷ (joined w x y z / 2 ^ 8 % 256)
      ∷ (joined w x y z % 256)
      ∷ more
base64_decode _ = []

abbrev symbol : ℕ → ℕ
symbol x = get_or base64_table x 0

abbrev symbol_test : ℕ → Bool
symbol_test x = index_of base64_table (symbol x) == x && not (symbol x == b'=')

symbol_table : each_upto symbol_test 64 ≡ true
unfolding each_upto
symbol_table = refl

symbol_lem :
    (x : ℕ) → x < 64 → (index_of base64_table (symbol x) ≡ x) × ((symbol x == b'=') ≡ false)
symbol_lem x h =
    go (index_of base64_table (symbol x) == x) refl (symbol x == b'=') refl
      (each_upto_lem symbol_test 64 x h symbol_table)
  where
    go :
        (p : Bool)
        → (index_of base64_table (symbol x) == x) ≡ p
        → (q : Bool) → (symbol x == b'=') ≡ q
        → (p && not q) ≡ true
        → (index_of base64_table (symbol x) ≡ x) × ((symbol x == b'=') ≡ false)
    go true ep true eq h = absurd (ground arith)
    go true ep false eq h = ((==_iff _ x).0 ep, eq)
    go false ep q eq h = absurd (ground arith)

module _ (t : ℕ) (small : t < 2 ^ 24) where
  rejoined :
      index_of base64_table (symbol (t / 2 ^ 18 % 64)) * 2 ^ 18
        + index_of base64_table (symbol (t / 2 ^ 12 % 64)) * 2 ^ 12
        + index_of base64_table (symbol (t / 2 ^ 6 % 64)) * 2 ^ 6
        + index_of base64_table (symbol (t % 64))
      ≡ t
  rejoined =
      rw
        (
          (symbol_lem (t / 2 ^ 18 % 64) (omega arith)).0,
          (symbol_lem (t / 2 ^ 12 % 64) (omega arith)).0,
          (symbol_lem (t / 2 ^ 6 % 64) (omega arith)).0,
          (symbol_lem (t % 64) (omega arith)).0,
        )
        (omega arith)

  decode-symbols :
      (rest : Bytes)
      → base64_decode (symbols t rest)
        ≡ (t / 2 ^ 16 % 256) ∷ (t / 2 ^ 8 % 256) ∷ (t % 256) ∷ base64_decode rest
  unfolding base64_decode
  decode-symbols rest =
      rw
        (
          base64_decode,
          (symbol_lem (t / 2 ^ 6 % 64) (omega arith)).1,
          (symbol_lem (t % 64) (omega arith)).1,
          rejoined,
        )
        refl

-- Behind the first four characters the index of a character is less by four.
last-later :
    (n : ℕ) → 0 < n → output_length (3 + n) - 1 ≡ suc (suc (suc (suc (output_length n - 1))))
last-later n h = omega arith

before-later :
    (n : ℕ) → 0 < n → output_length (3 + n) - 2 ≡ suc (suc (suc (suc (output_length n - 2))))
before-later n h = omega arith

pad-symbols : (n t : ℕ) (xs : Bytes) → pad (3 + n) (symbols t xs) ≡ symbols t (pad n xs)
unfolding pad
pad-symbols n t xs = go (n % 3 == 1) (n % 3 == 2) refl refl
  where
    same : (3 + n) % 3 ≡ n % 3
    same = omega arith

    go :
        (one two : Bool)
        → (n % 3 == 1) ≡ one
        → (n % 3 == 2) ≡ two
        → pad (3 + n) (symbols t xs) ≡ symbols t (pad n xs)
    go true two e₁ e₂ =
        let h : 0 < n = ground arith in rw (pad, same, e₁, last-later n h, before-later n h) refl
    go false true e₁ e₂ =
        let h : 0 < n = ground arith in rw (pad, same, e₁, e₂, last-later n h) refl
    go false false e₁ e₂ = rw (pad, same, e₁, e₂) refl

decode-one : (a : ℕ) → a < 256 → base64_decode (pad 1 (symbols (triple_of a 0 0) [])) ≡ a ∷ []
unfolding base64_decode pad
decode-one a h =
    rw
      (
        base64_decode,
        (symbol_lem (triple_of a 0 0 / 2 ^ 18 % 64) (omega arith)).0,
        (symbol_lem (triple_of a 0 0 / 2 ^ 12 % 64) (omega arith)).0,
        exact,
      )
      refl
  where
    exact :
        (triple_of a 0 0 / 2 ^ 18 % 64 * 2 ^ 18 + triple_of a 0 0 / 2 ^ 12 % 64 * 2 ^ 12 + 0 + 0)
          / 2 ^ 16
          % 256
        ≡ a
    exact = omega arith

decode-two :
    (a b : ℕ)
    → a < 256
    → b < 256
    → base64_decode (pad 2 (symbols (triple_of a b 0) [])) ≡ a ∷ b ∷ []
unfolding base64_decode pad
decode-two a b ha hb =
    rw
      (
        base64_decode,
        (symbol_lem (triple_of a b 0 / 2 ^ 6 % 64) (omega arith)).1,
        (symbol_lem (triple_of a b 0 / 2 ^ 18 % 64) (omega arith)).0,
        (symbol_lem (triple_of a b 0 / 2 ^ 12 % 64) (omega arith)).0,
        (symbol_lem (triple_of a b 0 / 2 ^ 6 % 64) (omega arith)).0,
        first,
        second,
      )
      refl
  where
    bits : ℕ
    bits =
        triple_of a b 0 / 2 ^ 18 % 64 * 2 ^ 18
        + triple_of a b 0 / 2 ^ 12 % 64 * 2 ^ 12
        + triple_of a b 0 / 2 ^ 6 % 64 * 2 ^ 6
        + 0

    first : bits / 2 ^ 16 % 256 ≡ a
    first = omega arith

    second : bits / 2 ^ 8 % 256 ≡ b
    second = omega arith

decode-padded :
    (bytes : Bytes)
    → All IsByte bytes
    → base64_decode (pad (length bytes) (encode_triples bytes)) ≡ bytes
unfolding encode_triples pad base64_decode
decode-padded [] h = refl
decode-padded (a ∷ []) (ha, _) = decode-one a ha
decode-padded (a ∷ b ∷ []) (ha, (hb, _)) = decode-two a b ha hb
decode-padded (a ∷ b ∷ c ∷ rest) (ha, (hb, (hc, h))) =
    let first : triple_of a b c / 2 ^ 16 % 256 ≡ a = omega arith in
    let second : triple_of a b c / 2 ^ 8 % 256 ≡ b = omega arith in
    let third : triple_of a b c % 256 ≡ c = omega arith in
    rw
      (
        later,
        decode-symbols (triple_of a b c) (omega arith) (pad (length rest) (encode_triples rest)),
        decode-padded rest h,
        first,
        second,
        third,
      )
      refl
  where
    later :
        pad (suc (suc (suc (length rest)))) (symbols (triple_of a b c) (encode_triples rest))
        ≡ symbols (triple_of a b c) (pad (length rest) (encode_triples rest))
    later = rw (← n) (pad-symbols (length rest) (triple_of a b c) (encode_triples rest))
      where
        n : 3 + length rest ≡ suc (suc (suc (length rest)))
        n = omega arith

-- The Base64 text of bytes, when memory is granted, is decoded to these bytes.
pub base64_decode-base64_encode :
    (alloc : ℕ → Bool) (bytes encoded : Bytes)
    → All IsByte bytes
    → base64_encode alloc bytes ≡ some encoded
    → base64_decode encoded ≡ bytes
unfolding base64_encode
base64_decode-base64_encode alloc bytes encoded h e =
    go (alloc (output_length (length bytes) + 1)) e
  where
    go :
        (granted : Bool)
        → (if granted then some (pad (length bytes) (encode_triples bytes)) else none)
          ≡ some encoded
        → base64_decode encoded ≡ bytes
    go true e = rw (← some-injective _ encoded e) (decode-padded bytes h)
    go false e = absurd (ground arith)
