-- ===== src/WebSocket/Receive/Ends.antt =====
-- src/websocket.c, `websocket_process_data`: when its loop ends, and when it does not.
use modern_c_web_library.Base.{
  ℕ, zero, suc, ◌+◌, ◌-◌, ◌^◌, ◌*◌, ◌%◌, ltb, ◌≡◌, ◌≢◌, ◌≤◌, ◌<◌, ◌∙◌, sym, ap, inl, inr, refl,
  arith, Bool, Option, none, some, [], ◌∷◌, ◌++◌, Bytes, length, drop, size_add, Option-cases,
  Bool-cases, length-drop,
}
use modern_c_web_library.WebSocket.{WsConnection, WsFrame, Run, ok, fault, hung, is_open, ◌>>=◌}
use modern_c_web_library.WebSocket.Frame.{ws_parse_frame_header, with_mask, read_length}
use modern_c_web_library.WebSocket.Receive.{
  handle_frame, take_frame, round, process_frames, receive, websocket_process_data, double_cap,
  process_received,
}
use modern_c_web_library.WebSocket.Receive.Quiet.{Leaves, take_frame-Leaves}

-- The size of a header, and that it has arrived.
pub ws_parse_frame_header_size :
    (bytes : Bytes) {h : ℕ} {frame : WsFrame}
    → ws_parse_frame_header bytes ≡ some (h, frame)
    → (2 ≤ h) × (h ≤ 14) × (h ≤ length bytes)
unfolding ws_parse_frame_header with_mask
ws_parse_frame_header_size bytes e = ground arith

-- The pong header 8A 7F FF FF FF FF FF FF FF F6: with its length of 2^64 - 10 the size of the
-- frame, 10 bytes of header included, wraps to 0.
abbrev pub endless : Bytes
endless = 0x8a ∷ 0x7f ∷ 255 ∷ 255 ∷ 255 ∷ 255 ∷ 255 ∷ 255 ∷ 255 ∷ 0xf6 ∷ []

-- As RFC 6455 demands, no length that the parser may read in these bytes, from any place on, has
-- its top bit set.
abbrev pub IsSane : Bytes → Type 0
IsSane bytes =
    (n h : ℕ) (frame : WsFrame)
    → ws_parse_frame_header (drop n bytes) ≡ some (h, frame)
    → frame.payload_length < 2 ^ 63

drop-nil : (n : ℕ) → drop {A = ℕ} n [] ≡ []
drop-nil zero = refl
drop-nil (suc n) = refl

drop-drop : (m n : ℕ) (xs : Bytes) → drop n (drop m xs) ≡ drop (m + n) xs
drop-drop zero n xs = ap (λ k. drop k xs) (omega arith)
drop-drop (suc m) n [] = drop-nil n ∙ sym (drop-nil (suc m + n))
drop-drop (suc m) n (x ∷ xs) =
    let e : suc (m + n) ≡ suc m + n = omega arith in drop-drop m n xs ∙ ap (λ k. drop k (x ∷ xs)) e

IsSane-drop : (m : ℕ) (bytes : Bytes) → IsSane bytes → IsSane (drop m bytes)
IsSane-drop m bytes s n h frame e = s (m + n) h frame (rw (← drop-drop m n bytes) e)

-- The capacity behind `n` doublings that do not wrap.
reaches : ℕ → ℕ → ℕ
reaches zero cap = cap
reaches (suc n) cap = reaches n (cap * 2)

double_cap-reaches :
    (n required cap : ℕ)
    → required < 2 ^ 63
    → required ≤ reaches n cap
    → double_cap (suc n) required cap ≢ none
unfolding double_cap reaches
double_cap-reaches zero required cap small enough = ground (arith, enough)
double_cap-reaches (suc n) required cap small enough = elim (Bool-cases (ltb cap required)) [
  | inr done ↦ ground (arith, done)
  | inl less ↦
      let same : cap * 2 % 2 ^ 64 ≡ cap * 2 = ground (arith, less) in
      let later = double_cap-reaches n required (cap * 2) small enough in
      ground (arith, less, same, later)
]

double_cap_ends :
    (required cap : ℕ) → required < 2 ^ 63 → 0 < cap → double_cap 65 required cap ≢ none
unfolding reaches
double_cap_ends required cap small pos =
    double_cap-reaches 64 required cap small (omega (arith, small, pos))

module _ (alloc : ℕ → Bool) (net : Bytes → Bool) where
  Leaves-of_eq :
      (rest : Bytes) (r : Run WsConnection) {c : WsConnection}
      → Leaves alloc net rest r
      → r ≡ ok c
      → c.buffer ≡ rest
  Leaves-of_eq rest (ok d) q e = ground arith
  Leaves-of_eq rest fault q e = ground arith
  Leaves-of_eq rest hung q e = ground arith

  Leaves-ne-hung : (rest : Bytes) (r : Run WsConnection) → Leaves alloc net rest r → r ≢ hung
  Leaves-ne-hung rest (ok d) q e = ground arith
  Leaves-ne-hung rest fault q e = ground arith
  Leaves-ne-hung rest hung q e = q

  round-runs :
      (conn : WsConnection) (h : ℕ) (frame : WsFrame) {r : Run WsConnection}
      → ws_parse_frame_header conn.buffer ≡ some (h, frame)
      → round alloc net conn ≡ some r
      → (take_frame alloc net conn h frame (size_add h frame.payload_length) ≡ r)
        × (size_add h frame.payload_length ≤ length conn.buffer)
  unfolding round
  round-runs conn h frame e run = ground (arith, e, run)

  round-needs :
      (conn : WsConnection) {r : Run WsConnection}
      → ws_parse_frame_header conn.buffer ≡ none
      → round alloc net conn ≢ some r
  unfolding round
  round-needs conn e = ground (arith, e)

  -- A round that goes on has taken at least two bytes.
  round-shrinks :
      (conn conn' : WsConnection)
      → IsSane conn.buffer
      → round alloc net conn ≡ some (ok conn')
      → (size : ℕ) × (conn'.buffer ≡ drop size conn.buffer)
        × (length conn'.buffer < length conn.buffer)
  round-shrinks conn conn' s run = elim (Option-cases (ws_parse_frame_header conn.buffer)) [
    | inl e ↦ absurd (round-needs conn e run)
    | inr ((h, frame), e) ↦
        let size = size_add h frame.payload_length in
        let (taken, within) = round-runs conn h frame e run in
        let kept =
          Leaves-of_eq (drop size conn.buffer) (take_frame alloc net conn h frame size)
            (take_frame-Leaves alloc net conn h frame size) taken in
        let short : length conn'.buffer ≡ length conn.buffer - size =
          ap length kept ∙ length-drop size conn.buffer in
        let (two, most, arrived) = ws_parse_frame_header_size conn.buffer e in
        (size, kept, omega (arith, s 0 h frame e))
  ]

  round-ne-hung : (conn : WsConnection) → round alloc net conn ≢ some hung
  round-ne-hung conn run = elim (Option-cases (ws_parse_frame_header conn.buffer)) [
    | inl e ↦ round-needs conn e run
    | inr ((h, frame), e) ↦
        let size = size_add h frame.payload_length in
        Leaves-ne-hung (drop size conn.buffer) (take_frame alloc net conn h frame size)
          (take_frame-Leaves alloc net conn h frame size) (round-runs conn h frame e run).0
  ]

  process_frames-ends :
      (fuel : ℕ) (conn : WsConnection)
      → IsSane conn.buffer
      → length conn.buffer < fuel
      → process_frames alloc net fuel conn ≢ hung
  unfolding process_frames
  process_frames-ends zero conn s h e = absurd (omega arith)
  process_frames-ends (suc fuel) conn s h e =
      go (round alloc net conn) refl (process_frames-ends fuel)
    where
      go :
          (r : Option (Run WsConnection))
          → round alloc net conn ≡ r
          → ((c : WsConnection)
              → IsSane c.buffer
              → length c.buffer < fuel
              → process_frames alloc net fuel c ≢ hung)
          → ⊥
      go none run ih = ground (arith, run, e)
      go (some fault) run ih = ground (arith, run, e)
      go (some hung) run ih = round-ne-hung conn run
      go (some (ok c)) run ih =
          let (size, kept, less) = round-shrinks conn c s run in
          ih c (rw kept (IsSane-drop size conn.buffer s)) (omega arith) (ground (arith, run, e))

  -- What is received leaves the loop that makes room, and stands behind what was there.
  Received : WsConnection → Bytes → Run (Option WsConnection) → Type 0
  Received conn bytes (ok none) = Unit
  Received conn bytes (ok (some c)) = c.buffer ≡ conn.buffer ++ bytes
  Received conn bytes fault = ⊥
  Received conn bytes hung = ⊥

  receive-Received :
      (conn : WsConnection) (bytes : Bytes)
      → 0 < conn.buffer_capacity
      → length conn.buffer + length bytes < 2 ^ 63
      → Received conn bytes (receive alloc net conn bytes)
  unfolding receive Received
  receive-Received conn bytes pos small =
      elim (Bool-cases (ltb conn.buffer_capacity (size_add (length conn.buffer) (length bytes)))) [
        | inr room ↦ ground (arith, room)
        | inl full ↦
            elim (Option-cases (
              double_cap 65 (size_add (length conn.buffer) (length bytes))
                (conn.buffer_capacity * 2 % 2 ^ 64))) [
                  | inl e ↦
                      absurd (double_cap_ends _ _ (ground (arith, full)) (ground (arith, full)) e)
                  | inr (cap, e) ↦ ground (arith, full, e)
                ]
      ]

  -- On all data in which no length has its top bit set (which RFC 6455 forbids), with a capacity that
  -- is not 0 and less than 2^63 bytes in all, no loop of `websocket_process_data` goes on for ever: it
  -- returns or is undefined behaviour. The loop that makes room then ends, and that over the frames
  -- takes at least two bytes each time.
  pub websocket_process_data-ends :
      (conn : WsConnection) (bytes : Bytes)
      → 0 < conn.buffer_capacity
      → length conn.buffer + length bytes < 2 ^ 63
      → IsSane (conn.buffer ++ bytes)
      → websocket_process_data alloc net conn bytes ≢ hung
  unfolding websocket_process_data Received
  websocket_process_data-ends conn bytes pos small s e = elim (Bool-cases (is_open conn.state)) [
    | inl up ↦
        go (receive alloc net conn bytes) (receive-Received conn bytes pos small)
          (ground (arith, up, e))
    | inr down ↦ ground (arith, down, e)
  ]
    where
      go :
          (r : Run (Option WsConnection))
          → Received conn bytes r
          → (r >>= process_received alloc net conn) ≢ hung
      go (ok none) h e = ground (arith, e)
      go (ok (some c)) h e =
          let s' : IsSane c.buffer = rw h s in
          ground (arith, e, process_frames-ends (length c.buffer + 1) c s' (omega arith))
      go fault h e = h
      go hung h e = h

  round-endless :
      (conn : WsConnection) (rest : Bytes)
      → conn.buffer ≡ endless ++ rest
      → round alloc net conn ≡ some (ok conn)
  unfolding round take_frame handle_frame ws_parse_frame_header with_mask read_length
  round-endless conn rest h = ground (arith, h)

  -- A connection that has received this header never leaves the loop, whatever follows it and
  -- however many rounds are allowed.
  pub process_frames-endless :
      (fuel : ℕ) (conn : WsConnection) (rest : Bytes)
      → conn.buffer ≡ endless ++ rest
      → process_frames alloc net fuel conn ≡ hung
  unfolding process_frames
  process_frames-endless zero conn rest h = refl
  process_frames-endless (suc fuel) conn rest h =
      ground (arith, round-endless conn rest h, process_frames-endless fuel conn rest h)
