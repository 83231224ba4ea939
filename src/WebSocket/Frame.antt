-- ===== src/WebSocket/Frame.antt =====
-- src/websocket.c, `ws_parse_frame_header` and `ws_unmask_payload`.
pub mod RoundTrip
use Prim.Native.Nat.{bit_xor}
use modern_c_web_library.Base.{
  ℕ, zero, suc, ◌+◌, ◌*◌, ◌/◌, ◌%◌, ◌^◌, Bool, true, false, Option, none, some, List, [], ◌∷◌,
  Bytes, length, take, drop, get_or, if◌then◌else◌, ltb, ◌==◌,
}
use modern_c_web_library.WebSocket.{WsFrame}

-- (b & 2^k) != 0
abbrev pub bit : ℕ → ℕ → Bool
bit b k = b / 2 ^ k % 2 == 1

-- The loop over the eight bytes of a 64-bit length.
unfoldable pub read_length : ℕ → Bytes → ℕ
read_length acc [] = acc
read_length acc (b ∷ bs) = read_length ((acc * 256 + b) % 2 ^ 64) bs

-- The frame with the length read, `n` bytes of header so far, and the flag for a mask.
unfoldable pub with_mask : Bytes → WsFrame → ℕ → Option (ℕ × WsFrame)
with_mask bytes frame n =
    if frame.masked
    then if ltb (length bytes) (n + 4)
      then none
      else some (n + 4, record frame { masking_key = take 4 (drop n bytes) })
    else some (n, frame)

-- `ws_parse_frame_header`: the header's size and the frame, `none` for the result -1. An entry of
-- `data` is only read where it lies within `len`.
unfoldable pub ws_parse_frame_header : Bytes → Option (ℕ × WsFrame)
ws_parse_frame_header bytes =
    if ltb (length bytes) 2
    then none
    else if payload_len == 126
    then if ltb (length bytes) 4
      then none
      else with_mask bytes (frame (get_or bytes 2 0 * 256 + get_or bytes 3 0)) 4
    else if payload_len == 127
    then if ltb (length bytes) 10
      then none
      else with_mask bytes (frame (read_length 0 (take 8 (drop 2 bytes)))) 10
    else with_mask bytes (frame payload_len) 2
  where
    first : ℕ
    first = get_or bytes 0 0

    second : ℕ
    second = get_or bytes 1 0

    payload_len : ℕ
    payload_len = second % 128

    frame : ℕ → WsFrame
    frame n = record {
      fin = bit first 7;
      rsv1 = bit first 6;
      rsv2 = bit first 5;
      rsv3 = bit first 4;
      opcode = first % 16;
      masked = bit second 7;
      payload_length = n;
      masking_key = [];
    }

-- `ws_unmask_payload`, from index `i` on.
unfoldable pub unmask_from : ℕ → Bytes → Bytes → Bytes
unmask_from i [] mask = []
unmask_from i (b ∷ payload) mask =
    bit_xor b (get_or mask (i % 4) 0) ∷ unmask_from (i + 1) payload mask

unfoldable pub ws_unmask_payload : Bytes → Bytes → Bytes
ws_unmask_payload payload mask = unmask_from 0 payload mask
