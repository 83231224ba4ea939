-- ===== src/WebSocket/Receive.antt =====
-- src/websocket.c, `websocket_process_data`.
pub mod Quiet
pub mod Ends
pub mod Messages
pub mod Fragments
mod Tests
use modern_c_web_library.Base.{
  ℕ, zero, suc, ◌+◌, ◌*◌, ◌%◌, ◌^◌, Bool, true, false, Option, none, some, List, [], ◌∷◌, ◌++◌,
  ◌&&◌, ◌||◌, codes, Bytes, length, take, drop, get_or, if◌then◌else◌, ltb, leb, ◌==◌, size_add,
}
use modern_c_web_library.WebSocket.{
  WsConnection, WsFrame, WsMessageType, text, binary, Command, Event, message, close_called,
  error_called, Fragment, null, live, dangling, Run, ok, fault, hung, ◌>>=◌, emit, is_open,
  run_commands, websocket_close, websocket_send_pong,
}
use modern_c_web_library.WebSocket.Frame.{ws_parse_frame_header, ws_unmask_payload}

-- `while (new_capacity < required) new_capacity *= 2;` with its wrap, on fuel; `none` is the fuel used
-- up.
unfoldable pub double_cap : ℕ → ℕ → ℕ → Option ℕ
double_cap zero required cap = none
double_cap (suc fuel) required cap =
    let more = double_cap fuel required (cap * 2 % 2 ^ 64) in
    if ltb cap required then more else some cap

-- The test `frame.opcode == WS_OPCODE_TEXT`.
abbrev pub message_type : ℕ → WsMessageType
message_type opcode = if opcode == 1 then text else binary

module _ (alloc : ℕ → Bool) (net : Bytes → Bool) where
  -- The call of `on_message`, if one is set, and what it does.
  unfoldable pub deliver : WsConnection → ℕ → Bytes → Run WsConnection
  deliver conn opcode payload = elim conn.on_message [
    | none ↦ ok conn
    | some callback ↦
        run_commands net (emit conn (message (message_type opcode) payload))
          (callback (message_type opcode) payload)
  ]

  -- The first frame of a fragmented message. A block that `fragment_buffer` held is not freed.
  unfoldable pub start_fragment : WsConnection → WsFrame → Bytes → WsConnection
  start_fragment conn frame payload = record conn {
    fragment_opcode = frame.opcode;
    fragment_len = frame.payload_length;
    fragment_capacity = frame.payload_length * 2 % 2 ^ 64;
    fragment = if alloc (frame.payload_length * 2 % 2 ^ 64) then live payload else null;
  }

  -- The cases WS_OPCODE_TEXT and WS_OPCODE_BINARY.
  unfoldable pub handle_data : WsConnection → WsFrame → Bytes → Run WsConnection
  handle_data conn frame payload =
      if frame.fin
      then deliver conn frame.opcode payload
      else ok (start_fragment conn frame payload)

  -- The realloc of a continuation that does not fit: the capacity is doubled once. realloc(…, 0)
  -- frees the block and returns null, so the pointer dangles.
  unfoldable pub grow_fragment : WsConnection → Bytes → ℕ → WsConnection
  grow_fragment conn stored extra =
      if ltb conn.fragment_capacity (size_add conn.fragment_len extra)
      then if new_cap == 0
        then record conn { fragment = dangling }
        else if alloc new_cap
        then record conn { fragment_capacity = new_cap }
        else conn
      else conn
    where
      new_cap : ℕ
      new_cap = conn.fragment_capacity * 2 % 2 ^ 64

  -- The memcpy behind it, only if the fragment fits by now.
  unfoldable pub append_fragment : WsConnection → Bytes → Bytes → WsConnection
  append_fragment conn stored payload =
      if leb (size_add conn.fragment_len (length payload)) conn.fragment_capacity
      then record conn {
        fragment = live (stored ++ payload);
        fragment_len = size_add conn.fragment_len (length payload);
      }
      else conn

  -- The end of a fragmented message: it is delivered, then the block is freed.
  unfoldable pub finish_fragment : WsConnection → Bytes → Run WsConnection
  finish_fragment conn stored = elim conn.on_message [
    | none ↦ ok conn
    | some callback ↦ do
      conn' ← deliver conn conn.fragment_opcode stored
      ok (record conn' { fragment = null; fragment_len = 0; fragment_capacity = 0 })
  ]

  -- FIN on a continuation, by what the pointer is now. To deliver or free a dangling block is a
  -- fault.
  unfoldable pub end_fragment : WsConnection → Bool → Run WsConnection
  end_fragment conn fin = elim conn.fragment [
    | null ↦ ok conn
    | live stored ↦ if fin then finish_fragment conn stored else ok conn
    | dangling ↦ elim conn.on_message [ none ↦ ok conn | some _ ↦ if fin then fault else ok conn ]
  ]

  -- What a grown fragment takes: nothing once it dangles and has no room.
  unfoldable pub extend_fragment : WsConnection → Bytes → Bytes → WsConnection
  extend_fragment conn stored payload = elim conn.fragment [
    | live _ ↦ append_fragment conn stored payload
    | _ ↦ conn
  ]

  -- The case WS_OPCODE_CONTINUATION. With a block that dangles the memcpy is a fault.
  unfoldable pub handle_continuation : WsConnection → WsFrame → Bytes → Run WsConnection
  handle_continuation conn frame payload = elim conn.fragment [
    | null ↦ ok conn
    | live stored ↦
        end_fragment (extend_fragment (grow_fragment conn stored (length payload)) stored payload)
          frame.fin
    | dangling ↦ fault
  ]

  -- The status code of a close frame, 1000 when there is none.
  abbrev pub close_code : Bytes → ℕ
  close_code (hi ∷ lo ∷ rest) = (hi * 256 + lo) % 65536
  close_code _ = 1000

  -- The case WS_OPCODE_CLOSE.
  unfoldable pub handle_close : WsConnection → Bytes → Run WsConnection
  handle_close conn payload = do
    conn' ← elim conn.on_close [
      | none ↦ ok conn
      | some callback ↦
          run_commands net (emit conn (close_called (close_code payload)))
            (callback (close_code payload))
    ]
    out ← websocket_close net conn' 1000 (some (codes "Normal closure"))
    ok out.0

  -- The default case.
  unfoldable pub handle_unknown : WsConnection → Run WsConnection
  handle_unknown conn = elim conn.on_error [
    | none ↦ ok conn
    | some commands ↦ run_commands net (emit conn error_called) commands
  ]

  -- The switch over the opcode.
  unfoldable pub handle_frame : WsConnection → WsFrame → Bytes → Run WsConnection
  handle_frame conn frame payload =
      if frame.opcode == 1 || frame.opcode == 2
      then handle_data conn frame payload
      else if frame.opcode == 0
      then handle_continuation conn frame payload
      else if frame.opcode == 8
      then handle_close conn payload
      else if frame.opcode == 9
      then ok (websocket_send_pong net conn payload).0
      else if frame.opcode == 10
      then ok conn
      else handle_unknown conn

  -- Whether the frame's payload is read or written: not that of an unmasked pong or of an unmasked
  -- frame with an unknown opcode. (Without a callback a whole text is not read either; it counts
  -- as read here.)
  abbrev pub touches : WsFrame → Bool
  touches frame = frame.masked || leb frame.opcode 2 || frame.opcode == 8 || frame.opcode == 9

  abbrev pub unmasked : WsFrame → Bytes → Bytes
  unmasked frame payload =
      if frame.masked then ws_unmask_payload payload frame.masking_key else payload

  -- The body of the loop behind the two tests that break: the frame is handled and taken from the
  -- buffer. The payload lies within the buffer unless `frame_size` has wrapped; then touching it
  -- is out of bounds.
  unfoldable pub take_frame : WsConnection → ℕ → WsFrame → ℕ → Run WsConnection
  take_frame conn header_size frame frame_size =
      if touches frame && ltb (length payload) frame.payload_length then fault else do
        conn' ← handle_frame conn frame (unmasked frame payload)
        ok (record conn' { buffer = drop frame_size conn'.buffer })
    where
      payload : Bytes
      payload = take frame.payload_length (drop header_size conn.buffer)

  -- One round: `none` where the loop breaks.
  unfoldable pub round : WsConnection → Option (Run WsConnection)
  round conn = if length conn.buffer == 0 then none else elim (ws_parse_frame_header conn.buffer) [
    | none ↦ none
    | some (header_size, frame) ↦
        if ltb (length conn.buffer) (size_add header_size frame.payload_length)
        then none
        else some (take_frame conn header_size frame (size_add header_size frame.payload_length))
  ]

  -- The loop, on fuel.
  unfoldable pub process_frames : ℕ → WsConnection → Run WsConnection
  process_frames zero conn = hung
  process_frames (suc fuel) conn = elim (round conn) [
    | none ↦ ok conn
    | some fault ↦ fault
    | some hung ↦ hung
    | some (ok conn') ↦ process_frames fuel conn'
  ]

  -- The part that makes room and appends; `ok none` when the room is not granted. Behind 64 doublings
  -- the capacity is 0 for good, so the loop ends within 65 rounds or never.
  unfoldable pub receive : WsConnection → Bytes → Run (Option WsConnection)
  receive conn bytes =
      if ltb conn.buffer_capacity required
      then elim (double_cap 65 required (conn.buffer_capacity * 2 % 2 ^ 64)) [
        | none ↦ hung
        | some new_capacity ↦
            if alloc new_capacity
            then ok (
                some
                  (record conn { buffer = conn.buffer ++ bytes; buffer_capacity = new_capacity }))
            else ok none
      ]
      else ok (some (record conn { buffer = conn.buffer ++ bytes }))
    where
      required : ℕ
      required = size_add (length conn.buffer) (length bytes)

  -- The frames that the bytes received complete.
  abbrev pub process_received : WsConnection → Option WsConnection → Run (WsConnection × Bool)
  process_received conn none = ok (conn, false)
  process_received conn (some conn') =
      process_frames (length conn'.buffer + 1) conn' >>= λ conn''. ok (conn'', true)

  -- `websocket_process_data`; the Boolean is true for 0 and false for -1.
  unfoldable pub websocket_process_data : WsConnection → Bytes → Run (WsConnection × Bool)
  websocket_process_data conn bytes =
      if is_open conn.state then receive conn bytes >>= process_received conn else ok (conn, false)
