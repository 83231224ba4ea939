-- ===== src/Server/Async/Read.antt =====
-- src/http_server.c: `async_read_handler`, and `async_accept_handler` once it has a descriptor.
use modern_c_web_library.Base.{
  ℕ, Bool, true, false, Option, none, some, List, [], ◌∷◌, ◌++◌, ◌&&◌, ◌||◌, not, codes, Bytes,
  if◌then◌else◌, ◌==◌,
}
use modern_c_web_library.Http.{http_request_create, http_response_create}
use modern_c_web_library.Parser.{
  HttpParser, ParserResult, parser_incomplete, parser_complete, parser_error, error,
}
use modern_c_web_library.Parser.Execute.{http_parser_execute, http_parser_init}
use modern_c_web_library.Router.{Router}
use modern_c_web_library.EventLoop.{EventLoop, event_loop_add_fd}
use modern_c_web_library.Server.{
  Sent, sent_to, waits, send_error_response, RecvResult, recv_bytes, recv_end, recv_interrupted,
  recv_again, recv_failed, SendResult, would_block, sizeof_http_response,
}
use modern_c_web_library.Server.Async.{
  AsyncConnection, event_error, event_read, event_write, has_event, sizeof_async_connection,
  sizeof_http_request,
}
use modern_c_web_library.Server.Async.Write.{
  Answered, Handled, answered, async_on_parser_result, async_write_handler, dropped,
  execute_buffered, fault, handled, hung, no_room, spins, widens, remove_connection,
}

-- How the loop over recv ends: with a result of the parser, with the connection to be given up, or with
-- the fuel of the parser used up.
pub data Received : Type 0 where
  received : HttpParser → ParserResult → Received
  closed unread : Received

module _ (alloc : ℕ → Bool) (ctl : ℕ → Bool) (date : Option Bytes) (router : Option Router) where
  -- The loop over recv in `async_read_handler`; behind the last result there is nothing to read for now.
  unfoldable pub read_loop : List RecvResult → HttpParser → ParserResult → Received
  read_loop recvs p parser_complete = received p parser_complete
  read_loop recvs p parser_error = received p parser_error
  read_loop [] p parser_incomplete = received p parser_incomplete
  read_loop (recv_again ∷ recvs) p parser_incomplete = received p parser_incomplete
  read_loop (recv_interrupted ∷ recvs) p parser_incomplete = read_loop recvs p parser_incomplete
  read_loop (recv_failed ∷ recvs) p parser_incomplete = closed
  read_loop (recv_end ∷ recvs) p parser_incomplete = closed
  read_loop (recv_bytes bytes ∷ recvs) p parser_incomplete =
      elim (http_parser_execute alloc p bytes) [
        | none ↦ unread
        | some (p', result) ↦ read_loop recvs p' result
      ]

  -- `async_read_handler`
  unfoldable pub async_read_handler :
      EventLoop → AsyncConnection → ℕ → ℕ → List RecvResult → List SendResult → Handled
  async_read_handler loop conn fd events recvs results =
      if has_event events event_error
      then remove_connection loop fd results
      else if not (has_event events event_read)
      then handled loop (some conn) results []
      else if not conn.parser_initialized || conn.response_ready
      then handled loop (some conn) results []
      else started (execute_buffered alloc conn.parser)
    where
      answer : Answered → Handled
      answer (answered loop' conn') =
          if conn'.response_ready
          then async_write_handler alloc ctl date router loop' conn' fd event_write results
          else handled loop' (some conn') results []
      answer (dropped loop') = handled loop' none results []
      answer no_room = fault
      answer widens = spins

      read : Received → Handled
      read closed = remove_connection loop fd results
      read unread = hung
      read (received p parser_incomplete) =
          handled loop (some (record conn { parser = p })) results []
      read (received p result) =
          answer (
            async_on_parser_result alloc ctl date router loop (record conn { parser = p }) fd
              result)

      started : Option (HttpParser × ParserResult) → Handled
      started none = hung
      started (some (p, result)) = read (read_loop recvs p result)

  -- A new connection, before its parser is initialised.
  abbrev pub new_connection : ℕ → AsyncConnection
  new_connection client_fd = record {
    client_fd = client_fd;
    parser = http_parser_init alloc http_request_create;
    response = http_response_create;
    header_buf = none;
    header_sent = 0;
    body_sent = 0;
    parser_initialized = true;
    response_ready = false;
    keep_alive = false;
    closing = false;
  }

  -- An error response on a socket that takes no more behind the last result, and the connection freed.
  abbrev pub fails_with : EventLoop → List SendResult → ℕ → Option Bytes → Handled
  fails_with loop results status message =
      freed (send_error_response alloc date (results ++ (would_block ∷ [])) status message)
    where
      freed : Sent → Handled
      freed (sent_to _ left taken) = handled loop none left taken
      freed (waits taken) = handled loop none [] taken
      freed Sent.fault = fault
      freed Sent.spins = spins

  -- The new connection is registered for what arrives.
  abbrev pub register_connection : List SendResult → AsyncConnection → EventLoop × Bool → Handled
  register_connection results conn (loop, true) = handled loop (some conn) results []
  register_connection results conn (loop, false) = handled loop none results []

  -- `async_accept_handler` once accept has given a descriptor that was made non-blocking.
  unfoldable pub async_accept : ℕ → ℕ → EventLoop → ℕ → List SendResult → Handled
  async_accept callback user_data loop client_fd results =
      let conn = new_connection client_fd in
      let no_parser =
        fails_with loop results
          (if conn.parser.error_status == 0 then 500 else conn.parser.error_status)
          conn.parser.error_message in
      let registered_connection =
        register_connection results conn
          (event_loop_add_fd alloc ctl loop client_fd event_read callback user_data) in
      if alloc sizeof_async_connection
      then if alloc sizeof_http_request && alloc sizeof_http_response
        then elim conn.parser.state [ error ↦ no_parser | _ ↦ registered_connection ]
        else fails_with loop results 500 (some (codes "Internal Server Error"))
      else handled loop none results []
