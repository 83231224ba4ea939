-- ===== src/WebSocket/Handshake/Base64.antt =====
-- src/websocket.c: `base64_encode`, and a decoder that it is compared with.
use modern_c_web_library.Base.{
  ℕ, ◌+◌, ◌-◌, ◌*◌, ◌/◌, ◌%◌, ◌^◌, Bool, Option, none, some, [], ◌∷◌, ◌==◌, Bytes, codes, length,
  get_or, set, if◌then◌else◌,
}

-- `base64_table`
abbrev pub base64_table : Bytes
base64_table = codes "ABCDEFGHIJKLMNOPQRSTUVWXYZabcdefghijklmnopqrstuvwxyz0123456789+/"

-- The characters of `triple`.
abbrev pub symbols : ℕ → Bytes → Bytes
symbols triple rest =
    get_or base64_table (triple / 2 ^ 18 % 64) 0
    ∷ get_or base64_table (triple / 2 ^ 12 % 64) 0
    ∷ get_or base64_table (triple / 2 ^ 6 % 64) 0
    ∷ get_or base64_table (triple % 64) 0
    ∷ rest

abbrev pub triple_of : ℕ → ℕ → ℕ → ℕ
triple_of a b c = a * 2 ^ 16 + b * 2 ^ 8 + c

-- The loop: an octet that is missing counts as 0.
unfoldable pub encode_triples : Bytes → Bytes
encode_triples [] = []
encode_triples (a ∷ []) = symbols (triple_of a 0 0) []
encode_triples (a ∷ b ∷ []) = symbols (triple_of a b 0) []
encode_triples (a ∷ b ∷ c ∷ rest) = symbols (triple_of a b c) (encode_triples rest)

abbrev pub output_length : ℕ → ℕ
output_length n = 4 * ((n + 2) / 3)

-- The padding.
unfoldable pub pad : ℕ → Bytes → Bytes
pad n encoded =
    if n % 3 == 1
    then set (set encoded (output_length n - 1) b'=') (output_length n - 2) b'='
    else if n % 3 == 2
    then set encoded (output_length n - 1) b'='
    else encoded

-- `base64_encode`
unfoldable pub base64_encode : (ℕ → Bool) → Bytes → Option Bytes
base64_encode alloc bytes =
    if alloc (output_length (length bytes) + 1)
    then some (pad (length bytes) (encode_triples bytes))
    else none
