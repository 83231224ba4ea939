-- ===== src/WebSocket/Receive/Tests.antt =====
-- Runs of src/websocket.c, and its theorems at concrete connections.
use modern_c_web_library.Base.{
  ℕ, zero, suc, ◌≡◌, ◌≢◌, refl, Bool, true, none, some, List, [], ◌∷◌, ◌++◌, codes, Bytes, length,
  arith, All, replicate,
}
use modern_c_web_library.WebSocket.{
  WsConnection, WsMessageType, text, Command, send, Event, message, sent, fd_closed, Run, ok, fault,
  hung, emit, open_state, null, run_command, run_commands, websocket_send, send_control,
  websocket_send_ping, websocket_send_pong, websocket_close, frame_header,
}
use modern_c_web_library.WebSocket.Frame.{
  read_length, with_mask, ws_parse_frame_header, ws_unmask_payload, unmask_from,
}
use modern_c_web_library.WebSocket.Frame.RoundTrip.{
  IsByte, client_frame, masked_frame, plain_frame, ws_parse_frame_header-frame_header,
  client_masked, ws_unmask_payload-client_masked,
}
use modern_c_web_library.WebSocket.Receive.{
  double_cap, deliver, start_fragment, handle_data, grow_fragment, append_fragment, finish_fragment,
  end_fragment, extend_fragment, handle_continuation, handle_close, handle_unknown, handle_frame,
  take_frame, round, process_frames, receive, websocket_process_data,
}
use modern_c_web_library.WebSocket.Receive.Ends.{
  IsSane, websocket_process_data-ends, process_frames-endless, endless,
}
use modern_c_web_library.WebSocket.Receive.Messages.{received_text, answered_ping}

abbrev always : ℕ → Bool
always _ = true

abbrev up : Bytes → Bool
up _ = true

-- A callback that sends back what it is told.
abbrev echo : WsMessageType → Bytes → List Command
echo type payload = send type payload ∷ []

abbrev conn : WsConnection
conn = record {
  state = open_state;
  user_data = none;
  on_message = some echo;
  on_close = none;
  on_error = none;
  buffer = [];
  buffer_capacity = 65536;
  fragment_opcode = 0;
  fragment = null;
  fragment_len = 0;
  fragment_capacity = 0;
  events = [];
}

abbrev key : Bytes
key = 1 ∷ 2 ∷ 3 ∷ 250 ∷ []

abbrev hi : Bytes
hi = codes "Hi"

-- What a run computes with.
runs : Unit {0}
unfolding run_command run_commands websocket_send send_control websocket_send_ping
    websocket_send_pong websocket_close frame_header read_length with_mask ws_parse_frame_header
    ws_unmask_payload unmask_from client_masked double_cap deliver start_fragment handle_data
    grow_fragment append_fragment finish_fragment end_fragment extend_fragment handle_continuation
    handle_close handle_unknown handle_frame take_frame round process_frames receive
    websocket_process_data
runs = tt

-- What a run has done to the outside.
abbrev events_of : Run (WsConnection × Bool) → List Event
events_of (ok (c, _)) = c.events
events_of _ = []

echoes :
    events_of (websocket_process_data always up conn (client_frame 1 1 2 3 250 hi))
    ≡ message text hi ∷ sent (0x81 ∷ 2 ∷ []) ∷ sent hi ∷ []
unfolding runs
echoes = refl

-- A text in two frames, with a ping between them.
joins_fragments :
    events_of (
      websocket_process_data always up conn
        ((0x01 ∷ 1 ∷ 72 ∷ []) ++ (0x89 ∷ 0 ∷ []) ++ (0x80 ∷ 1 ∷ 105 ∷ [])))
    ≡ sent (0x8a ∷ 0 ∷ []) ∷ message text hi ∷ sent (0x81 ∷ 2 ∷ []) ∷ sent hi ∷ []
unfolding runs
joins_fragments = refl

-- The message behind the close frame is still delivered, though no longer answered.
delivers_after_close :
    events_of (websocket_process_data always up conn ((0x88 ∷ 0 ∷ []) ++ (0x81 ∷ 2 ∷ []) ++ hi))
    ≡ sent (0x88 ∷ 16 ∷ 3 ∷ 232 ∷ codes "Normal closure") ∷ fd_closed ∷ message text hi ∷ []
unfolding runs
delivers_after_close = refl

-- A reason of 122 bytes does not fit.
close_overflows : websocket_close up conn 1000 (some (replicate 122 65)) ≡ fault
unfolding runs
close_overflows = refl

hi-bytes : All IsByte hi
hi-bytes = (omega arith, (omega arith, tt))

hello-bytes : All IsByte (codes "Hello")
hello-bytes = (omega arith, (omega arith, (omega arith, (omega arith, (omega arith, tt)))))

key-bytes : All IsByte key
key-bytes = (omega arith, (omega arith, (omega arith, (omega arith, tt))))

ws_parse_frame_header-frame_header_example :
    ws_parse_frame_header (frame_header 2 70000 ++ [])
    ≡ some (length (frame_header 2 70000), plain_frame 2 70000)
ws_parse_frame_header-frame_header_example =
    ws_parse_frame_header-frame_header 2 70000 [] (omega arith) (omega arith)

ws_unmask_payload-client_masked_example :
    ws_unmask_payload (client_masked 1 2 3 250 (codes "Hello")) key ≡ codes "Hello"
ws_unmask_payload-client_masked_example =
    ws_unmask_payload-client_masked 1 2 3 250 (codes "Hello") hello-bytes key-bytes

-- A text whose first fragment is empty, one byte behind it, and an empty end.
frees_twice :
    websocket_process_data always up conn
      ((0x01 ∷ 0 ∷ []) ++ (0x00 ∷ 1 ∷ 65 ∷ []) ++ (0x80 ∷ 0 ∷ []))
    ≡ fault
unfolding runs
frees_twice = refl

-- A ping without payload.
ping-IsSane : IsSane ([] ++ (0x89 ∷ 0 ∷ []))
unfolding runs
ping-IsSane zero h frame e = ground arith
ping-IsSane (suc zero) h frame e = ground arith
ping-IsSane (suc (suc zero)) h frame e = ground arith
ping-IsSane (suc (suc (suc n))) h frame e = ground arith

websocket_process_data-ends_example : websocket_process_data always up conn (0x89 ∷ 0 ∷ []) ≢ hung
websocket_process_data-ends_example =
    websocket_process_data-ends always up conn (0x89 ∷ 0 ∷ []) (omega arith) (omega arith)
      ping-IsSane

process_frames-endless_example :
    process_frames always up 1000 (record conn { buffer = endless ++ hi }) ≡ hung
process_frames-endless_example =
    process_frames-endless always up 1000 (record conn { buffer = endless ++ hi }) hi refl

abbrev front : WsConnection
front = record conn { buffer = client_frame 1 1 2 3 250 hi ++ hi }

abbrev echoed : WsConnection
echoed = record front { events = message text hi ∷ sent (0x81 ∷ 2 ∷ []) ∷ sent hi ∷ [] }

front-handled : handle_frame always up front (masked_frame 1 key 2) hi ≡ ok echoed
unfolding runs
front-handled = refl

abbrev whole : WsConnection
whole = record conn { buffer = client_frame 1 1 2 3 250 hi }

abbrev answered : WsConnection
answered = record whole { events = message text hi ∷ sent (0x81 ∷ 2 ∷ []) ∷ sent hi ∷ [] }

whole-ran : run_commands up (emit whole (message text hi)) (echo text hi) ≡ ok answered
unfolding runs
whole-ran = refl

received_text_example :
    websocket_process_data always up conn (client_frame 1 1 2 3 250 hi)
    ≡ ok (record answered { buffer = [] }, true)
received_text_example =
    received_text always up 1 2 3 250 hi (omega arith) hi-bytes key-bytes conn answered refl refl
      (omega arith) (omega arith) refl whole-ran

answered_ping_example :
    round always up (record conn { buffer = client_frame 9 1 2 3 250 hi ++ [] })
    ≡ some (ok (record conn { events = sent (0x8a ∷ 2 ∷ []) ∷ sent hi ∷ [] }))
answered_ping_example =
    answered_ping always up 1 2 3 250 hi (omega arith) hi-bytes key-bytes
      (record conn { buffer = client_frame 9 1 2 3 250 hi ++ [] }) [] (λ _. refl) refl refl
