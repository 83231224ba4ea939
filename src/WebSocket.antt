-- ===== src/WebSocket.antt =====
-- src/websocket.c, lines 24 to 79 and 297 to 501: frames, connections, and the functions that send.
-- A connection is opaque to its callbacks, which reach it through the functions of weblib.h only; a
-- callback is therefore a function from what it is told to the calls that it makes. (A callback
-- that feeds the connection or destroys it is not modelled.) `net` says whether the call of send(2)
-- with these bytes succeeds; as in the source, a short count counts as success.
pub mod Frame
pub mod Receive
pub mod Handshake
use modern_c_web_library.Base.{
  ℕ, zero, suc, ◌+◌, ◌*◌, ◌/◌, ◌%◌, ◌^◌, Bool, true, false, Option, none, some, List, [], ◌∷◌, ◌++◌,
  ◌&&◌, codes, Bytes, length, take, if◌then◌else◌, ltb, leb,
}

-- WS_FRAME_MAX_SIZE
abbrev pub ws_frame_max_size : ℕ
ws_frame_max_size = 65536

-- `ws_opcode_t`, as numbers, since the parser stores any four bits.
abbrev pub ws_opcode_continuation : ℕ
ws_opcode_continuation = 0

abbrev pub ws_opcode_text : ℕ
ws_opcode_text = 1

abbrev pub ws_opcode_binary : ℕ
ws_opcode_binary = 2

abbrev pub ws_opcode_close : ℕ
ws_opcode_close = 8

abbrev pub ws_opcode_ping : ℕ
ws_opcode_ping = 9

abbrev pub ws_opcode_pong : ℕ
ws_opcode_pong = 10

-- `ws_frame_t` without the payload pointer.
pub record WsFrame : Type 0 where
  pub fin : Bool
  pub rsv1 : Bool
  pub rsv2 : Bool
  pub rsv3 : Bool
  pub opcode : ℕ
  pub masked : Bool
  pub payload_length : ℕ
  pub masking_key : Bytes

-- `ws_state_t`
pub data WsState : Type 0 where
  connecting open_state closing closed : WsState

-- `ws_message_type_t`
pub data WsMessageType : Type 0 where
  text binary : WsMessageType

-- A call that a callback makes on its connection.
pub data Command : Type 0 where
  send : WsMessageType → Bytes → Command
  ping : Bytes → Command
  pong : Bytes → Command
  close : ℕ → Option Bytes → Command

-- What the connection does to the outside, in order.
pub data Event : Type 0 where
  sent : Bytes → Event
  message : WsMessageType → Bytes → Event
  close_called : ℕ → Event
  error_called : Event
  fd_closed : Event

-- The block that `fragment_buffer` points to: no block, the bytes stored in one, or a block that
-- was freed by realloc(…, 0) while the pointer was kept.
pub data Fragment : Type 0 where
  null : Fragment
  live : Bytes → Fragment
  dangling : Fragment

-- `struct websocket_connection`, with the events so far. The bytes in the buffer are a list, so
-- `buffer_len` is its length; `fragment_len` is the length of the fragment's bytes.
pub record WsConnection : Type 0 where
  pub state : WsState
  pub user_data : Option ℕ
  pub on_message : Option (WsMessageType → Bytes → List Command)
  pub on_close : Option (ℕ → List Command)
  pub on_error : Option (List Command)
  pub buffer : Bytes
  pub buffer_capacity : ℕ
  pub fragment_opcode : ℕ
  pub fragment : Fragment
  pub fragment_len : ℕ
  pub fragment_capacity : ℕ
  pub events : List Event

-- A run ends, is undefined behaviour (memory out of bounds or freed), or uses up its fuel.
pub data Run {ℓ} (A : Type ℓ) : Type ℓ where
  ok : A → Run A
  fault : Run A
  hung : Run A

infixl 5 ◌>>=◌
abbrev pub ◌>>=◌ {ℓ κ} : {A : Type ℓ} {B : Type κ} → Run A → (A → Run B) → Run B
ok a >>= f = f a
fault >>= f = fault
hung >>= f = hung

abbrev pub sizeof_websocket_connection : ℕ
sizeof_websocket_connection = 96

-- `websocket_connection_create`
unfoldable pub websocket_connection_create : (ℕ → Bool) → Option WsConnection
websocket_connection_create alloc =
    if alloc sizeof_websocket_connection && alloc ws_frame_max_size
    then some (record {
      state = open_state;
      user_data = none;
      on_message = none;
      on_close = none;
      on_error = none;
      buffer = [];
      buffer_capacity = ws_frame_max_size;
      fragment_opcode = 0;
      fragment = null;
      fragment_len = 0;
      fragment_capacity = 0;
      events = [];
    })
    else none

-- `websocket_is_open`, and the test that the functions below begin with.
abbrev pub is_open : WsState → Bool
is_open open_state = true
is_open _ = false

abbrev pub is_closed : WsState → Bool
is_closed closed = true
is_closed _ = false

-- `websocket_set_message_callback` and its siblings.
unfoldable pub websocket_set_message_callback :
    WsConnection → (WsMessageType → Bytes → List Command) → WsConnection
websocket_set_message_callback conn callback = record conn { on_message = some callback }

unfoldable pub websocket_set_close_callback : WsConnection → (ℕ → List Command) → WsConnection
websocket_set_close_callback conn callback = record conn { on_close = some callback }

unfoldable pub websocket_set_error_callback : WsConnection → List Command → WsConnection
websocket_set_error_callback conn callback = record conn { on_error = some callback }

unfoldable pub websocket_set_user_data : WsConnection → Option ℕ → WsConnection
websocket_set_user_data conn user_data = record conn { user_data = user_data }

-- The code of `opcode` in a message of that type.
abbrev pub opcode_of : WsMessageType → ℕ
opcode_of text = ws_opcode_text
opcode_of binary = ws_opcode_binary

abbrev pub byte : ℕ → ℕ → ℕ
byte n k = n / 2 ^ (8 * k) % 256

-- The header of `websocket_send`: FIN and opcode, then the length in 7 bits, 16 bits or 64 bits.
unfoldable pub frame_header : ℕ → ℕ → Bytes
frame_header opcode len =
    if ltb len 126
    then (128 + opcode) ∷ len ∷ []
    else if ltb len 65536
    then (128 + opcode) ∷ 126 ∷ byte len 1 ∷ byte len 0 ∷ []
    else (128 + opcode)
      ∷ 127
      ∷ byte len 7
      ∷ byte len 6
      ∷ byte len 5
      ∷ byte len 4
      ∷ byte len 3
      ∷ byte len 2
      ∷ byte len 1
      ∷ byte len 0
      ∷ []

abbrev pub emit : WsConnection → Event → WsConnection
emit conn event = record conn { events = conn.events ++ (event ∷ []) }

module _ (net : Bytes → Bool) where
  -- The two sends of `websocket_send`: the second only for a payload that is not empty, and only
  -- after the first.
  unfoldable pub websocket_send : WsConnection → WsMessageType → Bytes → WsConnection × Bool
  websocket_send conn type payload =
      if is_open conn.state
      then if net header
        then if ltb 0 (length payload)
          then if net payload
            then (emit (emit conn (sent header)) (sent payload), true)
            else (emit conn (sent header), false)
          else (emit conn (sent header), true)
        else (conn, false)
      else (conn, false)
    where
      header : Bytes
      header = frame_header (opcode_of type) (length payload)

  -- A send whose result is not looked at.
  abbrev pub send_ignored : WsConnection → Bytes → WsConnection
  send_ignored conn bytes = if net bytes then emit conn (sent bytes) else conn

  -- `websocket_send_ping` and `websocket_send_pong` but for the opcode: the length is cut to a
  -- byte, whatever the payload's.
  unfoldable pub send_control : WsConnection → ℕ → Bytes → WsConnection × Bool
  send_control conn opcode payload =
      if is_open conn.state
      then (if ltb 0 (length payload) then send_ignored with_header payload else with_header, true)
      else (conn, false)
    where
      with_header : WsConnection
      with_header = send_ignored conn ((128 + opcode) ∷ (length payload % 256) ∷ [])

  unfoldable pub websocket_send_ping : WsConnection → Bytes → WsConnection × Bool
  websocket_send_ping conn payload = send_control conn ws_opcode_ping payload

  unfoldable pub websocket_send_pong : WsConnection → Bytes → WsConnection × Bool
  websocket_send_pong conn payload = send_control conn ws_opcode_pong payload

  -- The reason as it is sent: at most 123 bytes of it.
  abbrev pub reason_bytes : Option Bytes → Bytes
  reason_bytes none = []
  reason_bytes (some reason) = take 123 reason

  -- The close frame: header, code, reason.
  abbrev pub close_frame : ℕ → Option Bytes → Bytes
  close_frame code reason =
      (128 + ws_opcode_close)
      ∷ (2 + length (reason_bytes reason))
      ∷ byte code 1
      ∷ byte code 0
      ∷ reason_bytes reason

  -- `websocket_close`: the frame is put together in an array of 125 bytes, so a longer one is
  -- written past its end.
  unfoldable pub websocket_close : WsConnection → ℕ → Option Bytes → Run (WsConnection × Bool)
  websocket_close conn code reason =
      if is_closed conn.state
      then ok (conn, false)
      else if ltb 125 (length (close_frame code reason))
      then fault
      else ok (
        emit
            (record (send_ignored (record conn { state = closing }) (close_frame code reason)) {
              state = closed;
            })
            fd_closed,
        true,
      )

  -- The calls of a callback, in order.
  unfoldable pub run_command : WsConnection → Command → Run WsConnection
  run_command conn (send type payload) = ok (websocket_send conn type payload).0
  run_command conn (ping payload) = ok (websocket_send_ping conn payload).0
  run_command conn (pong payload) = ok (websocket_send_pong conn payload).0
  run_command conn (close code reason) = websocket_close conn code reason >>= λ out. ok out.0

  unfoldable pub run_commands : WsConnection → List Command → Run WsConnection
  run_commands conn [] = ok conn
  run_commands conn (c ∷ cs) = run_command conn c >>= λ conn'. run_commands conn' cs
