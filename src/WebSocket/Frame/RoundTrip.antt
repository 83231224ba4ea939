-- ===== src/WebSocket/Frame/RoundTrip.antt =====
-- src/websocket.c: what `websocket_send` writes as a header is what `ws_parse_frame_header` reads,
-- and masking is undone by unmasking.
use Prim.Native.Nat.{bit_xor}
use modern_c_web_library.Base.{
  ℕ, zero, suc, ◌+◌, ◌%◌, ◌^◌, ◌≡◌, ◌<◌, refl, ap, sym, ◌∙◌, Bool, true, false, some, [], ◌∷◌, ◌++◌,
  Bytes, arith, length, get_or, ltb, ◌==◌, All, each_upto, each_upto_lem, ==_iff, Bool-cases, inl,
  inr,
}
use modern_c_web_library.WebSocket.{WsFrame, frame_header, byte}
use modern_c_web_library.WebSocket.Frame.{
  ws_parse_frame_header, with_mask, read_length, unmask_from, ws_unmask_payload,
}

abbrev pub IsByte : ℕ → Type 0
IsByte b = b < 256

-- The frame of a whole message, unmasked, as the server sends it.
abbrev pub plain_frame : ℕ → ℕ → WsFrame
plain_frame opcode len = record {
  fin = true;
  rsv1 = false;
  rsv2 = false;
  rsv3 = false;
  opcode = opcode;
  masked = false;
  payload_length = len;
  masking_key = [];
}

read_length_bytes :
    (n : ℕ)
    → n < 2 ^ 64
    → read_length 0
        (byte n 7 ∷ byte n 6 ∷ byte n 5 ∷ byte n 4 ∷ byte n 3 ∷ byte n 2 ∷ byte n 1 ∷ byte n 0 ∷ [])
      ≡ n
unfolding read_length
read_length_bytes n h = omega arith

-- A header that the server writes for a message is read back: final, unmasked, with the opcode and
-- the length that were given, and of the size that was written. (`rest` is what follows it.)
pub ws_parse_frame_header-frame_header :
    (opcode len : ℕ) (rest : Bytes)
    → opcode < 16
    → len < 2 ^ 64
    → ws_parse_frame_header (frame_header opcode len ++ rest)
      ≡ some (length (frame_header opcode len), plain_frame opcode len)
unfolding ws_parse_frame_header frame_header with_mask
ws_parse_frame_header-frame_header opcode len rest h₀ h₁ = elim (Bool-cases (ltb len 126)) [
  | inl small ↦ ground (arith, small)
  | inr large ↦ elim (Bool-cases (ltb len 65536)) [
    | inl medium ↦ ground (arith, large, medium)
    | inr huge ↦ ground (arith, large, huge, read_length_bytes len h₁)
  ]
]

abbrev xor_back : ℕ → ℕ → Bool
xor_back x m = bit_xor (bit_xor x m) m == x

abbrev xor_back_all : ℕ → Bool
xor_back_all x = each_upto (xor_back x) 256

xor_table : each_upto xor_back_all 256 ≡ true
unfolding each_upto
xor_table = refl

xor_twice : (x m : ℕ) → x < 256 → m < 256 → bit_xor (bit_xor x m) m ≡ x
xor_twice x m hx hm =
    (==_iff _ x).0
      (each_upto_lem (xor_back x) 256 m hm (each_upto_lem xor_back_all 256 x hx xor_table))

get_or-IsByte : (xs : Bytes) (i : ℕ) → All IsByte xs → get_or xs i 0 < 256
get_or-IsByte [] i h = omega arith
get_or-IsByte (x ∷ xs) zero h = h.0
get_or-IsByte (x ∷ xs) (suc i) h = get_or-IsByte xs i h.1

-- How a client masks by RFC 6455, 5.3, with a key of four bytes: the first byte of the payload with the
-- first of the key, the next with the next, and round again behind the fourth.
unfoldable pub client_masked : ℕ → ℕ → ℕ → ℕ → Bytes → Bytes
client_masked a b c d [] = []
client_masked a b c d (x ∷ xs) = bit_xor x a ∷ client_masked b c d a xs

pub length-client_masked :
    (a b c d : ℕ) (payload : Bytes) → length (client_masked a b c d payload) ≡ length payload
unfolding client_masked
length-client_masked a b c d [] = refl
length-client_masked a b c d (x ∷ xs) = omega (arith, length-client_masked b c d a xs)

-- The byte of the key that stands for index `i` of the payload.
abbrev key_byte : Bytes → ℕ → ℕ
key_byte mask i = get_or mask (i % 4) 0

key_byte_round : (mask : Bytes) (i : ℕ) → key_byte mask (i + 4) ≡ key_byte mask i
key_byte_round mask i = let e : (i + 4) % 4 ≡ i % 4 = omega arith in ap (λ k. get_or mask k 0) e

unmask_from-client_masked :
    (i : ℕ) (payload mask : Bytes)
    → All IsByte payload
    → All IsByte mask
    → unmask_from i
        (client_masked
          (key_byte mask i)
          (key_byte mask (i + 1))
          (key_byte mask (i + 2))
          (key_byte mask (i + 3))
          payload)
        mask
      ≡ payload
unfolding unmask_from client_masked
unmask_from-client_masked i [] mask h k = refl
unmask_from-client_masked i (x ∷ xs) mask h k =
    let later = unmask_from-client_masked (i + 1) xs mask h.1 k in
    let two : i + 1 + 1 ≡ i + 2 = omega arith in
    let three : i + 1 + 2 ≡ i + 3 = omega arith in
    let four : i + 1 + 3 ≡ i + 4 = omega arith in
    let last : key_byte mask (i + 1 + 3) ≡ key_byte mask i =
      ap (key_byte mask) four ∙ key_byte_round mask i in
    let from : ℕ → ℕ → ℕ → Bytes =
      λ n m k. unmask_from (i + 1) (client_masked (key_byte mask (i + 1)) n m k xs) mask in
    let came : from (key_byte mask (i + 2)) (key_byte mask (i + 3)) (key_byte mask i) ≡ xs =
      ap (λ n. from (key_byte mask n) (key_byte mask (i + 3)) (key_byte mask i)) (sym two)
      ∙ ap (λ n. from (key_byte mask (i + 1 + 1)) (key_byte mask n) (key_byte mask i)) (sym three)
      ∙ ap (from (key_byte mask (i + 1 + 1)) (key_byte mask (i + 1 + 2))) (sym last)
      ∙ later in
    rw (xor_twice x (key_byte mask i) h.0 (get_or-IsByte mask (i % 4) k), came) refl

-- What a client masks with the key of its frame as RFC 6455 has it, the payload and the key being
-- bytes, is unmasked by `ws_unmask_payload` to what it was.
pub ws_unmask_payload-client_masked :
    (a b c d : ℕ) (payload : Bytes)
    → All IsByte payload
    → All IsByte (a ∷ b ∷ c ∷ d ∷ [])
    → ws_unmask_payload (client_masked a b c d payload) (a ∷ b ∷ c ∷ d ∷ []) ≡ payload
unfolding ws_unmask_payload
ws_unmask_payload-client_masked a b c d payload h k =
    unmask_from-client_masked 0 payload (a ∷ b ∷ c ∷ d ∷ []) h k

-- A frame as a client sends it: header with the mask bit, key, masked payload. The length is given
-- in 7 bits, so this is a frame of at most 125 bytes.
abbrev pub client_frame : ℕ → ℕ → ℕ → ℕ → ℕ → Bytes → Bytes
client_frame opcode a b c d payload =
    (128 + opcode) ∷ (128 + length payload) ∷ a ∷ b ∷ c ∷ d ∷ client_masked a b c d payload

abbrev pub masked_frame : ℕ → Bytes → ℕ → WsFrame
masked_frame opcode mask len = record (plain_frame opcode len) { masked = true; masking_key = mask }

-- The header of a frame of at most 125 bytes that a client sends is read back, whatever follows the
-- frame: final, masked, with opcode, key and length as given, and of 6 bytes.
pub ws_parse_frame_header-client_frame :
    (opcode : ℕ) (a b c d : ℕ) (payload rest : Bytes)
    → opcode < 16
    → length payload < 126
    → ws_parse_frame_header (client_frame opcode a b c d payload ++ rest)
      ≡ some (6, masked_frame opcode (a ∷ b ∷ c ∷ d ∷ []) (length payload))
unfolding ws_parse_frame_header with_mask
ws_parse_frame_header-client_frame opcode a b c d payload rest h₀ h₁ = ground arith
