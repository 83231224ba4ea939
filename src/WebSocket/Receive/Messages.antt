-- ===== src/WebSocket/Receive/Messages.antt =====
-- src/websocket.c, `websocket_process_data`: what comes of the frames that a client sends.
use modern_c_web_library.Base.{
  ℕ, suc, ◌+◌, ◌-◌, ◌%◌, ◌^◌, ◌≡◌, ◌≤◌, ◌<◌, ◌∙◌, sym, refl, arith, Bool, true, some, List, [], ◌∷◌,
  ◌++◌, Bytes, length, take, drop, take-append, drop-append, length-append, if◌then◌else◌, ltb, All,
  append-nil,
}
use modern_c_web_library.WebSocket.{
  WsConnection, WsFrame, WsMessageType, text, Command, message, sent, Run, ok, fault, hung, emit,
  open_state, run_commands, send_control, websocket_send_pong,
}
use modern_c_web_library.WebSocket.Frame.{ws_parse_frame_header}
use modern_c_web_library.WebSocket.Frame.RoundTrip.{
  IsByte, client_frame, client_masked, masked_frame, ws_parse_frame_header-client_frame,
  ws_unmask_payload-client_masked, length-client_masked,
}
use modern_c_web_library.WebSocket.Receive.{
  deliver, handle_data, handle_frame, take_frame, round, process_frames, receive,
  websocket_process_data,
}
use modern_c_web_library.WebSocket.Receive.Quiet.{Quiet, handle_frame-Quiet}

module _ (alloc : ℕ → Bool) (net : Bytes → Bool) where
  Quiet-of_eq :
      (conn : WsConnection) (r : Run WsConnection) {c : WsConnection}
      → Quiet conn r
      → r ≡ ok c
      → c.buffer ≡ conn.buffer
  Quiet-of_eq conn (ok d) q e = ground arith
  Quiet-of_eq conn fault q e = ground arith
  Quiet-of_eq conn hung q e = ground arith

  module _ (opcode a b c d : ℕ) (payload : Bytes) (code : opcode < 16)
      (short : length payload < 126) (bytes : All IsByte payload)
      (key : All IsByte (a ∷ b ∷ c ∷ d ∷ [])) where
    abbrev mask : Bytes
    mask = a ∷ b ∷ c ∷ d ∷ []

    abbrev frame : WsFrame
    frame = masked_frame opcode mask (length payload)

    abbrev masked : Bytes
    masked = client_masked a b c d payload

    length-masked : length masked ≡ length payload
    length-masked = length-client_masked a b c d payload

    -- The frame is read, unmasked and handled.
    take_frame-client :
        (conn conn' : WsConnection) (rest : Bytes)
        → conn.buffer ≡ client_frame opcode a b c d payload ++ rest
        → handle_frame alloc net conn (frame) payload ≡ ok conn'
        → take_frame alloc net conn 6 (frame) (6 + length payload)
          ≡ ok (record conn' { buffer = rest })
    unfolding take_frame
    take_frame-client conn conn' rest front handled =
        let cut : take (length payload) (masked ++ rest) ≡ masked =
          rw (← length-masked) (take-append masked rest) in
        let left : drop (length payload) (masked ++ rest) ≡ rest =
          rw (← length-masked) (drop-append masked rest) in
        let same =
          Quiet-of_eq conn (handle_frame alloc net conn frame payload)
            (handle_frame-Quiet alloc net conn frame payload) handled in
        let n : 6 + length payload ≡ suc (suc (suc (suc (suc (suc (length payload)))))) =
          omega arith in
        let came : take (length payload) (drop 6 conn.buffer) ≡ masked = rw front cut in
        let stays : drop (6 + length payload) conn'.buffer ≡ rest = rw (same ∙ front, n) left in
        ground (
          arith,
          came,
          stays,
          length-masked,
          handled,
          ws_unmask_payload-client_masked a b c d payload bytes key,
        )

    -- A frame that stands at the front of the buffer is taken from it whole, and handled with its
    -- opcode and the payload as the client had it before masking, whatever follows.
    pub round-client_frame :
        (conn conn' : WsConnection) (rest : Bytes)
        → conn.buffer ≡ client_frame opcode a b c d payload ++ rest
        → handle_frame alloc net conn frame payload ≡ ok conn'
        → round alloc net conn ≡ some (ok (record conn' { buffer = rest }))
    unfolding round
    round-client_frame conn conn' rest front handled =
        let parsed : ws_parse_frame_header conn.buffer ≡ some (6, frame) =
          rw front (ws_parse_frame_header-client_frame opcode a b c d payload rest code short) in
        let long : length conn.buffer ≡ 6 + length payload + length rest =
          rw front (omega (arith, length-masked, length-append masked rest)) in
        ground (arith, parsed, long, take_frame-client conn conn' rest front handled)

module _ (alloc : ℕ → Bool) (net : Bytes → Bool) (a b c d : ℕ) (payload : Bytes)
    (short : length payload < 126) (bytes : All IsByte payload)
    (key : All IsByte (a ∷ b ∷ c ∷ d ∷ [])) where
  handle_frame-text :
      (conn conn' : WsConnection) {callback : WsMessageType → Bytes → List Command}
      → conn.on_message ≡ some callback
      → run_commands net (emit conn (message text payload)) (callback text payload) ≡ ok conn'
      → handle_frame alloc net conn (masked_frame 1 (a ∷ b ∷ c ∷ d ∷ []) (length payload)) payload
        ≡ ok conn'
  unfolding handle_frame handle_data deliver
  handle_frame-text conn conn' set ran = ground (arith, set, ran)

  process_frames-last :
      (fuel : ℕ) (conn conn' : WsConnection)
      → round alloc net conn ≡ some (ok conn')
      → conn'.buffer ≡ []
      → process_frames alloc net (suc (suc fuel)) conn ≡ ok conn'
  unfolding process_frames round
  process_frames-last fuel conn conn' r e = ground (arith, r, e)

  receive-room :
      (conn : WsConnection) (bs : Bytes)
      → length conn.buffer + length bs ≤ conn.buffer_capacity
      → conn.buffer_capacity < 2 ^ 64
      → receive alloc net conn bs ≡ ok (some (record conn { buffer = conn.buffer ++ bs }))
  unfolding receive
  receive-room conn bs room small = ground (arith, room, small)

  -- A whole text message of at most 125 bytes that a client masks as RFC 6455 has it and sends in one
  -- frame, on an open connection with nothing pending and room for 131 bytes, reaches the message callback exactly as the client had it; the
  -- callback's calls are made, and the buffer is empty again.
  pub received_text :
      (conn conn' : WsConnection) {callback : WsMessageType → Bytes → List Command}
      → conn.state ≡ open_state
      → conn.buffer ≡ []
      → 131 ≤ conn.buffer_capacity
      → conn.buffer_capacity < 2 ^ 64
      → conn.on_message ≡ some callback
      → let received = record conn { buffer = client_frame 1 a b c d payload } in
        run_commands net (emit received (message text payload)) (callback text payload) ≡ ok conn'
        → websocket_process_data alloc net conn (client_frame 1 a b c d payload)
          ≡ ok (record conn' { buffer = [] }, true)
  unfolding websocket_process_data
  received_text conn conn' up empty room small set ran =
      let bs = client_frame 1 a b c d payload in
      let now : WsConnection = record conn { buffer = bs } in
      let size : length bs ≡ 6 + length payload =
        omega (arith, length-client_masked a b c d payload) in
      let got : receive alloc net conn bs ≡ ok (some now) =
        receive-room conn bs (ground (arith, empty, size)) small ∙ ground (arith, empty) in
      let went =
        round-client_frame alloc net 1 a b c d payload (omega arith) short bytes key now conn' []
          (sym (append-nil bs)) (handle_frame-text now conn' set ran) in
      let more : length bs + 1 ≡ suc (suc (length bs - 1)) = omega (arith, size) in
      let done = process_frames-last (length bs - 1) now (record conn' { buffer = [] }) went refl in
      let all : process_frames alloc net (length bs + 1) now ≡ ok (record conn' { buffer = [] }) =
        rw more done in
      ground (arith, up, got, all)

  handle_frame-ping :
      (conn : WsConnection)
      → ((bs : Bytes) → net bs ≡ true)
      → conn.state ≡ open_state
      → handle_frame alloc net conn (masked_frame 9 (a ∷ b ∷ c ∷ d ∷ []) (length payload)) payload
        ≡ ok (record conn {
          events =
              (conn.events ++ (sent (0x8a ∷ length payload ∷ []) ∷ []))
              ++ (if ltb 0 (length payload) then sent payload ∷ [] else []);
        })
  unfolding handle_frame websocket_send_pong send_control
  handle_frame-ping conn sends up = ground (
    arith,
    up,
    sends payload,
    sends (0x8a ∷ (length payload % 256) ∷ []),
    append-nil (conn.events ++ (sent (0x8a ∷ length payload ∷ []) ∷ [])),
  )

  -- A ping of at most 125 bytes is answered, on an open connection whose sends succeed, by a pong
  -- with the same payload, and nothing else changes.
  pub answered_ping :
      (conn : WsConnection) (rest : Bytes)
      → ((bs : Bytes) → net bs ≡ true)
      → conn.state ≡ open_state
      → conn.buffer ≡ client_frame 9 a b c d payload ++ rest
      → round alloc net conn
        ≡ some (
            ok (record conn {
              buffer = rest;
              events =
                  (conn.events ++ (sent (0x8a ∷ length payload ∷ []) ∷ []))
                  ++ (if ltb 0 (length payload) then sent payload ∷ [] else []);
            }))
  answered_ping conn rest sends up front =
      round-client_frame alloc net 9 a b c d payload (omega arith) short bytes key conn
        (record conn {
          events =
              (conn.events ++ (sent (0x8a ∷ length payload ∷ []) ∷ []))
              ++ (if ltb 0 (length payload) then sent payload ∷ [] else []);
        })
        rest front (handle_frame-ping conn sends up)
