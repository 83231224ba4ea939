-- ===== src/Server/Connection.antt =====
-- src/http_server.c, lines 330 to 505: `handle_connection` and `handle_websocket_connection`, over what
-- recv and send give. Behind the last result of recv the thread waits for more.
pub mod Serves
use modern_c_web_library.Base.{
  ℕ, Bool, true, false, Option, none, some, List, [], ◌∷◌, ◌++◌, ◌&&◌, not, codes, Bytes,
  if◌then◌else◌, ◌==◌,
}
use modern_c_web_library.Http.{
  HttpRequest, HttpResponse, http_request_create, http_response_create, http_response_send_text,
  response_forces_close,
}
use modern_c_web_library.Parser.{
  HttpParser, ParserResult, parser_incomplete, parser_complete, parser_error, ParseState, error,
}
use modern_c_web_library.Parser.Execute.{http_parser_execute, http_parser_init, http_parser_reset}
use modern_c_web_library.Router.{Router, router_route}
use modern_c_web_library.WebSocket.{
  WsConnection, WsMessageType, Command, Run, ok, ◌>>=◌, is_open, websocket_connection_create,
  websocket_set_message_callback, websocket_set_close_callback, websocket_set_error_callback,
  websocket_set_user_data,
}
use modern_c_web_library.WebSocket.Receive.{websocket_process_data}
use modern_c_web_library.Server.{
  RecvResult, recv_bytes, recv_end, recv_interrupted, recv_again, recv_failed, SendResult, Sent,
  sent_to, waits, spins, send_response, send_error_response, sizeof_http_response,
}
use modern_c_web_library.Server.Async.{sizeof_http_request}
use modern_c_web_library.Server.Async.Write.{execute_buffered}

-- What the connection reads and writes: the results of recv and of send that are left, and the bytes that
-- were put on the socket.
pub record Socket : Type 0 where
  pub recvs : List RecvResult
  pub results : List SendResult
  pub output : Bytes

-- How the loop over recv ends: with a result of the parser, with an error or the end of the stream, or it
-- waits; or the parser has used up its fuel.
pub data Read : Type 0 where
  read_result : HttpParser → ParserResult → List RecvResult → Read
  read_error read_end : List RecvResult → Read
  read_waits unread : Read

-- How a round of the loop of `handle_connection` ends: it goes on with the parser, the connection is
-- closed, it becomes a WebSocket for a request, the thread waits in recv or send; the head of a response
-- had no room; or a loop does not end: that which widens the room, or the parser with its fuel used up.
pub data Round : Type 0 where
  goes_on : HttpParser → Socket → Round
  closes : Socket → Round
  upgrades : HttpRequest → Socket → Round
  stays : Bytes → Round
  fault : Round
  hung : Round

-- What follows a function that has sent.
abbrev pub after_sent : Socket → (Socket → Round) → Sent → Round
after_sent socket next (sent_to _ results taken) =
    next (record socket { results = results; output = socket.output ++ taken })
after_sent socket next (waits taken) = stays (socket.output ++ taken)
after_sent socket next Sent.fault = fault
after_sent socket next spins = hung

module _ (alloc : ℕ → Bool) (date : Option Bytes) (router : Option Router) where
  -- The inner loop.
  unfoldable pub read_request : List RecvResult → HttpParser → ParserResult → Read
  read_request recvs p parser_complete = read_result p parser_complete recvs
  read_request recvs p parser_error = read_result p parser_error recvs
  read_request [] p parser_incomplete = read_waits
  read_request (recv_interrupted ∷ recvs) p parser_incomplete =
      read_request recvs p parser_incomplete
  read_request (recv_again ∷ recvs) p parser_incomplete = read_error recvs
  read_request (recv_failed ∷ recvs) p parser_incomplete = read_error recvs
  read_request (recv_end ∷ recvs) p parser_incomplete = read_end recvs
  read_request (recv_bytes bytes ∷ recvs) p parser_incomplete =
      elim (http_parser_execute alloc p bytes) [
        | none ↦ unread
        | some (p', result) ↦ read_request recvs p' result
      ]

  -- `send_error_response(…)`, with the connection closed.
  abbrev pub fails : Socket → ℕ → Option Bytes → Round
  fails socket status message =
      after_sent socket closes (send_error_response alloc date socket.results status message)

  -- The response to a complete request is sent.
  abbrev pub respond : HttpParser → Socket → HttpRequest → HttpResponse → Round
  respond p socket req res =
      let keep_alive = p.keep_alive && not (response_forces_close res) in
      let kept : Socket → Round = λ socket'.
        if keep_alive then goes_on (record p { req = req }) socket' else closes socket' in
      if res.status == 101
      then after_sent socket (upgrades req) (send_response alloc date socket.results res false)
      else after_sent socket kept (send_response alloc date socket.results res keep_alive)

  -- A complete request is handed to the router.
  unfoldable pub answer_request : HttpParser → Socket → Round
  answer_request p socket = elim router [
    | none ↦
        respond p socket p.req
          (http_response_send_text alloc http_response_create 404 (codes "Not Found"))
    | some r ↦
        let (done, req, res) = router_route alloc r p.req http_response_create in
        respond p socket req
          (if done then res else http_response_send_text alloc res 404 (codes "Not Found"))
  ]

  -- What follows the inner loop.
  abbrev pub after_read : Socket → Read → Round
  after_read socket (read_result p parser_complete recvs) =
      answer_request p (record socket { recvs = recvs })
  after_read socket (read_result p _ recvs) =
      fails (record socket { recvs = recvs }) (if p.error_status == 0 then 400 else p.error_status)
        p.error_message
  after_read socket (read_error recvs) =
      fails (record socket { recvs = recvs }) 500 (some (codes "Socket read error"))
  after_read socket (read_end recvs) = closes (record socket { recvs = recvs })
  after_read socket read_waits = stays socket.output
  after_read socket unread = hung

  abbrev pub after_buffered : Socket → Option (HttpParser × ParserResult) → Round
  after_buffered socket none = hung
  after_buffered socket (some (p, result)) = after_read socket (read_request socket.recvs p result)

  -- A round of the loop behind the first test, with the parser initialised or reset.
  unfoldable pub serve_request : HttpParser → Socket → Round
  serve_request p socket = after_buffered socket (execute_buffered alloc p)

  -- The fresh request of a round, with the descriptor of the client.
  abbrev pub request_of : ℕ → HttpRequest
  request_of client_fd = record http_request_create { socket_fd = client_fd }

  -- The first round.
  unfoldable pub first_round : ℕ → Socket → Round
  first_round client_fd socket =
      let p = http_parser_init alloc (request_of client_fd) in
      let refused_memory : Round = fails socket p.error_status p.error_message in
      let served = serve_request p socket in
      if alloc sizeof_http_request && alloc sizeof_http_response
      then elim p.state [ error ↦ refused_memory | _ ↦ served ]
      else fails socket 500 (some (codes "Internal Server Error"))

  -- A later round: the parser is reset, and keeps the bytes that it has not used.
  unfoldable pub next_round : ℕ → HttpParser → Socket → Round
  next_round client_fd p socket =
      if alloc sizeof_http_request && alloc sizeof_http_response
      then serve_request (http_parser_reset p (request_of client_fd) true) socket
      else fails socket 500 (some (codes "Internal Server Error"))

-- How `handle_websocket_connection` ends: no connection could be made, the thread waits in recv, or the loop
-- is left.
pub data Upgraded : Type 0 where
  not_created waits_for_data : Upgraded
  left_loop : WsConnection → Upgraded

-- The callbacks that a route leaves in `user_data` of a request.
pub record WebsocketCallbacks : Type 0 where
  pub on_message : Option (WsMessageType → Bytes → List Command)
  pub on_close : Option (ℕ → List Command)
  pub on_error : Option (List Command)
  pub user_data : Option ℕ

-- The callbacks that are given are set.
abbrev pub set_callbacks : WsConnection → WebsocketCallbacks → WsConnection
set_callbacks conn callbacks =
    let conn₁ : WsConnection = elim callbacks.on_message [
      | none ↦ conn
      | some f ↦ websocket_set_message_callback conn f
    ] in
    let conn₂ : WsConnection = elim callbacks.on_close [
      | none ↦ conn₁
      | some f ↦ websocket_set_close_callback conn₁ f
    ] in
    let conn₃ : WsConnection = elim callbacks.on_error [
      | none ↦ conn₂
      | some f ↦ websocket_set_error_callback conn₂ f
    ] in
    elim callbacks.user_data [ none ↦ conn₃ | some u ↦ websocket_set_user_data conn₃ (some u) ]

module _ (alloc : ℕ → Bool) (net : Bytes → Bool) where
  -- The loop of `handle_websocket_connection`.
  unfoldable pub websocket_loop : List RecvResult → WsConnection → Run Upgraded
  websocket_loop [] conn = ok (if is_open conn.state then waits_for_data else left_loop conn)
  websocket_loop (recv_interrupted ∷ recvs) conn =
      let again = websocket_loop recvs conn in
      if is_open conn.state then again else ok (left_loop conn)
  websocket_loop (recv_bytes bytes ∷ recvs) conn =
      let processed =
        websocket_process_data alloc net conn bytes
        >>= (λ out. if out.1 then websocket_loop recvs out.0 else ok (left_loop out.0)) in
      if is_open conn.state then processed else ok (left_loop conn)
  websocket_loop (_ ∷ recvs) conn = ok (left_loop conn)

  -- `handle_websocket_connection`; `callbacks` are those that `user_data` of the request points to.
  unfoldable pub handle_websocket_connection :
      List RecvResult → Option WebsocketCallbacks → Run Upgraded
  handle_websocket_connection recvs callbacks = elim (websocket_connection_create alloc) [
    | none ↦ ok not_created
    | some conn ↦ elim callbacks [
      | none ↦ websocket_loop recvs conn
      | some given ↦ websocket_loop recvs (set_callbacks conn given)
    ]
  ]
