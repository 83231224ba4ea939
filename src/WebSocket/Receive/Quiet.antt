-- ===== src/WebSocket/Receive/Quiet.antt =====
-- src/websocket.c: handling a frame neither loops nor changes the receive buffer, and a round takes
-- the frame from it.
use modern_c_web_library.Base.{
  ℕ, ◌≡◌, ◌∙◌, ap, inl, inr, refl, arith, Bool, true, false, Option, none, some, List, [], ◌∷◌,
  Bytes, length, take, drop, if◌then◌else◌, ltb, ◌==◌, codes, Bool-cases, ◌&&◌, ◌||◌,
}
use modern_c_web_library.WebSocket.{
  WsConnection, WsFrame, WsMessageType, Command, send, ping, pong, close, message, close_called,
  error_called, Fragment, null, live, dangling, Run, ok, fault, hung, ◌>>=◌, emit, is_closed,
  close_frame, run_command, run_commands, websocket_close, websocket_send, send_control,
  websocket_send_ping, websocket_send_pong,
}
use modern_c_web_library.WebSocket.Receive.{
  deliver, start_fragment, handle_data, grow_fragment, append_fragment, finish_fragment,
  end_fragment, extend_fragment, handle_continuation, handle_close, close_code, handle_unknown,
  handle_frame, touches, unmasked, take_frame, message_type,
}

-- The run does not use up fuel, and what it leaves has the buffer that was there.
abbrev pub Quiet : WsConnection → Run WsConnection → Type 0
Quiet conn (ok conn') = conn'.buffer ≡ conn.buffer
Quiet conn fault = Unit
Quiet conn hung = ⊥

Quiet-bind :
    (conn : WsConnection) (m : Run WsConnection) (f : WsConnection → Run WsConnection)
    → Quiet conn m
    → ((c : WsConnection) → Quiet c (f c))
    → Quiet conn (m >>= f)
Quiet-bind conn (ok c) f q h = Quiet-of_eq c conn (f c) q (h c)
  where
    Quiet-of_eq :
        (c conn : WsConnection) (r : Run WsConnection)
        → c.buffer ≡ conn.buffer
        → Quiet c r
        → Quiet conn r
    Quiet-of_eq c conn (ok d) e q = q ∙ e
    Quiet-of_eq c conn fault e q = tt
    Quiet-of_eq c conn hung e q = q
Quiet-bind conn fault f q h = tt
Quiet-bind conn hung f q h = q

Quiet-if :
    (conn : WsConnection) (t : Bool) (a b : Run WsConnection)
    → Quiet conn a
    → Quiet conn b
    → Quiet conn (if t then a else b)
Quiet-if conn true a b p q = p
Quiet-if conn false a b p q = q

module _ (net : Bytes → Bool) where
  buffer-send_control :
      (conn : WsConnection) (opcode : ℕ) (payload : Bytes)
      → (send_control net conn opcode payload).0.buffer ≡ conn.buffer
  unfolding send_control
  buffer-send_control conn opcode payload = ground arith

  websocket_close-Quiet :
      (conn : WsConnection) (code : ℕ) (reason : Option Bytes)
      → Quiet conn (websocket_close net conn code reason >>= λ out. ok out.0)
  unfolding websocket_close
  websocket_close-Quiet conn code reason = elim (Bool-cases (is_closed conn.state)) [
    | inl e ↦ rw e refl
    | inr e ↦ elim (Bool-cases (ltb 125 (length (close_frame net code reason)))) [
      | inl f ↦ rw (e, f) tt
      | inr f ↦ rw (e, f) (ground arith)
    ]
  ]

  run_command-Quiet : (conn : WsConnection) (c : Command) → Quiet conn (run_command net conn c)
  unfolding run_command websocket_send websocket_send_ping websocket_send_pong
  run_command-Quiet conn (send type payload) = ground arith
  run_command-Quiet conn (ping payload) = buffer-send_control conn 9 payload
  run_command-Quiet conn (pong payload) = buffer-send_control conn 10 payload
  run_command-Quiet conn (close code reason) = websocket_close-Quiet conn code reason

  run_commands-Quiet :
      (conn : WsConnection) (cs : List Command) → Quiet conn (run_commands net conn cs)
  unfolding run_commands
  run_commands-Quiet conn [] = refl
  run_commands-Quiet conn (c ∷ cs) =
      Quiet-bind conn (run_command net conn c) (λ d. run_commands net d cs)
        (run_command-Quiet conn c) (λ d. run_commands-Quiet d cs)

module _ (alloc : ℕ → Bool) (net : Bytes → Bool) where
  deliver-Quiet :
      (conn : WsConnection) (opcode : ℕ) (payload : Bytes)
      → Quiet conn (deliver alloc net conn opcode payload)
  unfolding deliver
  deliver-Quiet conn opcode payload = go conn.on_message
    where
      go :
          (callback : Option (WsMessageType → Bytes → List Command))
          → Quiet conn (elim callback [
            | none ↦ ok conn
            | some f ↦
                run_commands net
                  (emit conn (message (message_type opcode) payload))
                  (f (message_type opcode) payload)
          ])
      go none = refl
      go (some f) =
          run_commands-Quiet net (emit conn (message (message_type opcode) payload))
            (f (message_type opcode) payload)

  buffer-extend :
      (conn : WsConnection) (stored payload : Bytes) (n : ℕ)
      → (extend_fragment alloc net (grow_fragment alloc net conn stored n) stored payload).buffer
        ≡ conn.buffer
  unfolding extend_fragment grow_fragment append_fragment
  buffer-extend conn stored payload n = ground arith

  finish_fragment-Quiet :
      (conn : WsConnection) (stored : Bytes) → Quiet conn (finish_fragment alloc net conn stored)
  unfolding finish_fragment
  finish_fragment-Quiet conn stored = go conn.on_message
    where
      go :
          (callback : Option (WsMessageType → Bytes → List Command))
          → Quiet conn (elim callback [
            | none ↦ ok conn
            | some f ↦ deliver alloc net conn conn.fragment_opcode stored >>= λ conn'.
                ok (record conn' { fragment = null; fragment_len = 0; fragment_capacity = 0 })
          ])
      go none = refl
      go (some f) =
          Quiet-bind conn (deliver alloc net conn conn.fragment_opcode stored)
            (λ conn'.
              ok (record conn' { fragment = null; fragment_len = 0; fragment_capacity = 0 }))
            (deliver-Quiet conn conn.fragment_opcode stored) (λ c. refl)

  end_fragment-Quiet :
      (conn : WsConnection) (fin : Bool) → Quiet conn (end_fragment alloc net conn fin)
  unfolding end_fragment
  end_fragment-Quiet conn fin = go conn.fragment conn.on_message
    where
      go :
          (f : Fragment) (callback : Option (WsMessageType → Bytes → List Command))
          → Quiet conn (elim f [
            | null ↦ ok conn
            | live stored ↦ if fin then finish_fragment alloc net conn stored else ok conn
            | dangling ↦ elim callback [ none ↦ ok conn | some _ ↦ if fin then fault else ok conn ]
          ])
      go null c = refl
      go (live stored) c = Quiet-if conn fin _ _ (finish_fragment-Quiet conn stored) refl
      go dangling none = refl
      go dangling (some f) = Quiet-if conn fin _ _ tt refl

  Quiet-of_same :
      (c conn : WsConnection) (r : Run WsConnection)
      → c.buffer ≡ conn.buffer
      → Quiet c r
      → Quiet conn r
  Quiet-of_same c conn (ok d) e q = q ∙ e
  Quiet-of_same c conn fault e q = tt
  Quiet-of_same c conn hung e q = q

  handle_continuation-Quiet :
      (conn : WsConnection) (frame : WsFrame) (payload : Bytes)
      → Quiet conn (handle_continuation alloc net conn frame payload)
  unfolding handle_continuation
  handle_continuation-Quiet conn frame payload = go conn.fragment
    where
      grown : Bytes → WsConnection
      grown stored =
          extend_fragment alloc net (grow_fragment alloc net conn stored (length payload)) stored
            payload

      go :
          (f : Fragment)
          → Quiet conn (elim f [
            | null ↦ ok conn
            | live stored ↦ end_fragment alloc net (grown stored) frame.fin
            | dangling ↦ fault
          ])
      go null = refl
      go (live stored) =
          Quiet-of_same (grown stored) conn (end_fragment alloc net (grown stored) frame.fin)
            (buffer-extend conn stored payload (length payload))
            (end_fragment-Quiet (grown stored) frame.fin)
      go dangling = tt

  handle_close-Quiet :
      (conn : WsConnection) (payload : Bytes) → Quiet conn (handle_close alloc net conn payload)
  unfolding handle_close
  handle_close-Quiet conn payload =
      Quiet-bind conn _ _ (go conn.on_close)
        (λ c. websocket_close-Quiet net c 1000 (some (codes "Normal closure")))
    where
      go :
          (callback : Option (ℕ → List Command))
          → Quiet conn (elim callback [
            | none ↦ ok conn
            | some f ↦
                run_commands net
                  (emit conn (close_called (close_code alloc net payload)))
                  (f (close_code alloc net payload))
          ])
      go none = refl
      go (some f) =
          run_commands-Quiet net (emit conn (close_called (close_code alloc net payload)))
            (f (close_code alloc net payload))

  handle_unknown-Quiet : (conn : WsConnection) → Quiet conn (handle_unknown alloc net conn)
  unfolding handle_unknown
  handle_unknown-Quiet conn = go conn.on_error
    where
      go :
          (callback : Option (List Command))
          → Quiet conn (elim callback [
            | none ↦ ok conn
            | some commands ↦ run_commands net (emit conn error_called) commands
          ])
      go none = refl
      go (some commands) = run_commands-Quiet net (emit conn error_called) commands

  handle_data-Quiet :
      (conn : WsConnection) (frame : WsFrame) (payload : Bytes)
      → Quiet conn (handle_data alloc net conn frame payload)
  unfolding handle_data start_fragment
  handle_data-Quiet conn frame payload =
      Quiet-if conn frame.fin _ _ (deliver-Quiet conn frame.opcode payload) refl

  pub handle_frame-Quiet :
      (conn : WsConnection) (frame : WsFrame) (payload : Bytes)
      → Quiet conn (handle_frame alloc net conn frame payload)
  unfolding handle_frame websocket_send_pong
  handle_frame-Quiet conn frame payload =
      Quiet-if conn (frame.opcode == 1 || frame.opcode == 2) _ _
        (handle_data-Quiet conn frame payload)
        (Quiet-if conn (frame.opcode == 0) _ _ (handle_continuation-Quiet conn frame payload) (
          Quiet-if conn (frame.opcode == 8) _ _ (handle_close-Quiet conn payload) (
            Quiet-if conn (frame.opcode == 9) _ _ (buffer-send_control net conn 10 payload)
              (Quiet-if conn (frame.opcode == 10) _ _ refl (handle_unknown-Quiet conn)))))

  -- What a round leaves in the buffer when it goes on.
  abbrev pub Leaves : Bytes → Run WsConnection → Type 0
  Leaves rest (ok conn) = conn.buffer ≡ rest
  Leaves rest fault = Unit
  Leaves rest hung = ⊥

  Leaves-drop :
      (conn : WsConnection) (size : ℕ) (r : Run WsConnection)
      → Quiet conn r
      → Leaves (drop size conn.buffer) (r >>= λ c. ok (record c { buffer = drop size c.buffer }))
  Leaves-drop conn size (ok c) q = ap (drop size) q
  Leaves-drop conn size fault q = tt
  Leaves-drop conn size hung q = q

  Leaves-if :
      (rest : Bytes) (t : Bool) (a b : Run WsConnection)
      → Leaves rest a
      → Leaves rest b
      → Leaves rest (if t then a else b)
  Leaves-if rest true a b p q = p
  Leaves-if rest false a b p q = q

  pub take_frame-Leaves :
      (conn : WsConnection) (header_size : ℕ) (frame : WsFrame) (size : ℕ)
      → Leaves (drop size conn.buffer) (take_frame alloc net conn header_size frame size)
  unfolding take_frame
  take_frame-Leaves conn header_size frame size =
      Leaves-if (drop size conn.buffer)
        (touches alloc net frame && ltb (length payload) frame.payload_length) _ _ tt
        (Leaves-drop conn size
          (handle_frame alloc net conn frame (unmasked alloc net frame payload))
          (handle_frame-Quiet conn frame (unmasked alloc net frame payload)))
    where
      payload : Bytes
      payload = take frame.payload_length (drop header_size conn.buffer)
