-- ===== src/WebSocket/Receive/Fragments.antt =====
-- src/websocket.c, `websocket_process_data`: a fragmented message whose first fragment is empty.
use modern_c_web_library.Base.{
  ℕ, ◌≡◌, ◌<◌, ◌^◌, ◌==◌, ◌||◌, refl, arith, Bool, true, false, [], Bytes, length,
}
use modern_c_web_library.WebSocket.{WsConnection, WsFrame, dangling, ok, fault}
use modern_c_web_library.WebSocket.Frame.RoundTrip.{plain_frame}
use modern_c_web_library.WebSocket.Receive.{
  start_fragment, grow_fragment, extend_fragment, append_fragment, end_fragment, handle_data,
  handle_continuation, handle_frame,
}

-- The first of several frames of a text or binary message, without payload.
abbrev pub first_frame : ℕ → WsFrame
first_frame opcode = record (plain_frame opcode 0) { fin = false }

-- When a text or binary message begins with an empty fragment, for which the allocator gives a block,
-- a continuation with some payload that is not the last leaves `fragment_buffer` pointing to the
-- block that realloc(…, 0) has freed, and any continuation behind it uses that block.
pub handle_frame-dangling :
    (alloc : ℕ → Bool) (net : Bytes → Bool) (conn : WsConnection) (opcode : ℕ)
    (middle last : WsFrame) (payload rest : Bytes)
    → alloc 0 ≡ true
    → (opcode == 1 || opcode == 2) ≡ true
    → middle.opcode ≡ 0
    → middle.fin ≡ false
    → last.opcode ≡ 0
    → 0 < length payload
    → length payload < 2 ^ 64
    → (started conn' : WsConnection) × (handle_frame alloc net conn (first_frame opcode) []
        ≡ ok started)
      × (handle_frame alloc net started middle payload ≡ ok conn')
      × (conn'.fragment ≡ dangling)
      × (handle_frame alloc net conn' last rest ≡ fault)
unfolding start_fragment grow_fragment extend_fragment append_fragment end_fragment handle_data
    handle_continuation handle_frame
handle_frame-dangling alloc net conn opcode middle last payload rest block kind cont more end some
      small =
    (
      start_fragment alloc net conn (first_frame opcode) [],
      record (start_fragment alloc net conn (first_frame opcode) []) { fragment = dangling },
      ground (arith, kind),
      middle_runs,
      refl,
      ground (arith, end),
    )
  where
    started : WsConnection
    started = start_fragment alloc net conn (first_frame opcode) []

    middle_runs :
        handle_frame alloc net started middle payload ≡ ok (record started { fragment = dangling })
    middle_runs = ground (arith, block, cont, more, some, small)
