-- ===== src/WebSocket/Handshake/Sha1.antt =====
-- src/websocket.c: SHA-1. Words are of 32 bits; `& 63` and `& 504` are written as remainders.
use Prim.Native.Nat.{bit_and, bit_or, bit_xor}
use modern_c_web_library.Base.{
  ℕ, zero, suc, ◌+◌, ◌-◌, ◌*◌, ◌/◌, ◌%◌, ◌^◌, Option, none, some, List, [], ◌∷◌, ◌++◌, ◌==◌, Bytes,
  length, get_or, take, drop, if◌then◌else◌, ltb, reverse,
}

-- Addition and left rotation (SHA1_ROTLEFT) of words, and their complement.
abbrev pub word_add : ℕ → ℕ → ℕ
word_add a b = (a + b) % 2 ^ 32

abbrev pub rotl : ℕ → ℕ → ℕ
rotl n a = bit_or (a * 2 ^ n % 2 ^ 32) (a / 2 ^ (32 - n))

abbrev pub complement : ℕ → ℕ
complement a = 2 ^ 32 - 1 - a

-- The five words of `state`.
pub record Sha1State : Type 0 where
  pub a : ℕ
  pub b : ℕ
  pub c : ℕ
  pub d : ℕ
  pub e : ℕ

-- `sha1_ctx_t`; of `buffer`, the bytes that are filled.
pub record Sha1Ctx : Type 0 where
  pub state : Sha1State
  pub count_low : ℕ
  pub count_high : ℕ
  pub buffer : Bytes

-- The sixteen words of a block, the last one first.
unfoldable pub block_words : Bytes → List ℕ → List ℕ
block_words (a ∷ b ∷ c ∷ d ∷ rest) words =
    block_words rest ((a * 2 ^ 24 + b * 2 ^ 16 + c * 2 ^ 8 + d) ∷ words)
block_words _ words = words

-- The words up to m[79], the last one first: each from the words 3, 8, 14 and 16 places before.
unfoldable pub extend_words : ℕ → List ℕ → List ℕ
extend_words zero words = words
extend_words (suc n) words = extend_words n (
    rotl 1 (
      bit_xor (bit_xor (bit_xor (get_or words 2 0) (get_or words 7 0)) (get_or words 13 0))
        (get_or words 15 0))
    ∷ words)

-- What round `i` adds: the function of b, c and d, and the constant.
abbrev pub mix : ℕ → Sha1State → ℕ
mix i s =
    if ltb i 20
    then word_add (bit_xor (bit_and s.b s.c) (bit_and (complement s.b) s.d)) 0x5A827999
    else if ltb i 40
    then word_add (bit_xor (bit_xor s.b s.c) s.d) 0x6ED9EBA1
    else if ltb i 60
    then word_add (bit_xor (bit_xor (bit_and s.b s.c) (bit_and s.b s.d)) (bit_and s.c s.d))
        0x8F1BBCDC
    else word_add (bit_xor (bit_xor s.b s.c) s.d) 0xCA62C1D6

-- The rounds from `i` on.
unfoldable pub sha1_rounds : ℕ → List ℕ → Sha1State → Sha1State
sha1_rounds i [] s = s
sha1_rounds i (word ∷ words) s = sha1_rounds (i + 1) words (record {
  a = word_add (word_add (word_add (rotl 5 s.a) (mix i s)) s.e) word;
  b = s.a;
  c = rotl 30 s.b;
  d = s.c;
  e = s.d;
})

-- `sha1_transform` on a block of 64 bytes.
unfoldable pub sha1_transform : Sha1State → Bytes → Sha1State
sha1_transform s block = add (sha1_rounds 0 (reverse (extend_words 64 (block_words block []))) s)
  where
    add : Sha1State → Sha1State
    add t = record {
      a = word_add s.a t.a;
      b = word_add s.b t.b;
      c = word_add s.c t.c;
      d = word_add s.d t.d;
      e = word_add s.e t.e;
    }

-- `sha1_init`
unfoldable pub sha1_init : Sha1Ctx
sha1_init = record {
  state = record { a = 0x67452301; b = 0xEFCDAB89; c = 0x98BADCFE; d = 0x10325476; e = 0xC3D2E1F0 };
  count_low = 0;
  count_high = 0;
  buffer = [];
}

-- The loop of `sha1_update` over whole blocks, and what is left; a block takes 64 bytes, so as many
-- rounds as bytes are enough.
unfoldable pub transform_blocks : ℕ → Sha1State → Bytes → Sha1State × Bytes
transform_blocks zero s bytes = (s, bytes)
transform_blocks (suc fuel) s bytes =
    let rest = transform_blocks fuel (sha1_transform s (take 64 bytes)) (drop 64 bytes) in
    if ltb 63 (length bytes) then rest else (s, bytes)

-- `sha1_update`
unfoldable pub sha1_update : Sha1Ctx → Bytes → Sha1Ctx
sha1_update ctx bytes =
    if ltb 63 (j + length bytes)
    then record { state = blocks.0; count_low = low; count_high = high; buffer = blocks.1 }
    else record ctx { count_low = low; count_high = high; buffer = take j ctx.buffer ++ bytes }
  where
    low : ℕ
    low = (ctx.count_low + length bytes * 8) % 2 ^ 32

    high : ℕ
    high =
        ((if ltb low ctx.count_low then ctx.count_high + 1 else ctx.count_high)
          + length bytes / 2 ^ 29)
        % 2 ^ 32

    j : ℕ
    j = ctx.count_low / 8 % 64

    blocks : Sha1State × Bytes
    blocks =
        transform_blocks (length bytes)
          (sha1_transform ctx.state (take j ctx.buffer ++ take (64 - j) bytes))
          (drop (64 - j) bytes)

-- The loop of `sha1_final` that appends zeros.
unfoldable pub append_zeros : ℕ → Sha1Ctx → Option Sha1Ctx
append_zeros zero ctx = none
append_zeros (suc fuel) ctx =
    let rest = append_zeros fuel (sha1_update ctx (0 ∷ [])) in
    if ctx.count_low / 8 % 64 == 56 then some ctx else rest

-- The bytes of a word, the highest first.
abbrev pub word_bytes : ℕ → Bytes
word_bytes w = (w / 2 ^ 24 % 256) ∷ (w / 2 ^ 16 % 256) ∷ (w / 2 ^ 8 % 256) ∷ (w % 256) ∷ []

-- The bytes of the digest.
abbrev pub digest : Sha1State → Bytes
digest s = word_bytes s.a ++ word_bytes s.b ++ word_bytes s.c ++ word_bytes s.d ++ word_bytes s.e

-- `sha1_final`; the zeros come to at most 63.
unfoldable pub sha1_final : Sha1Ctx → Option Bytes
sha1_final ctx = elim (append_zeros 64 (sha1_update ctx (128 ∷ []))) [
  | none ↦ none
  | some ctx' ↦
      some (digest (sha1_update ctx' (word_bytes ctx.count_high ++ word_bytes ctx.count_low)).state)
]
