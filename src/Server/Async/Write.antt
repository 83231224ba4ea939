-- ===== src/Server/Async/Write.antt =====
-- src/http_server.c: `async_on_parser_result` and `async_write_handler`.
use modern_c_web_library.Base.{
  ℕ, zero, suc, Bool, true, false, Option, none, some, List, [], ◌++◌, ◌&&◌, not, codes, Bytes,
  length, if◌then◌else◌, ◌==◌, ltb,
}
use modern_c_web_library.Http.{
  HttpResponse, http_request_create, http_response_create, http_response_send_text,
  response_forces_close,
}
use modern_c_web_library.Parser.{
  HttpParser, ParserResult, parser_incomplete, parser_complete, parser_error,
}
use modern_c_web_library.Parser.Execute.{http_parser_execute, http_parser_reset}
use modern_c_web_library.Router.{Router, router_route}
use modern_c_web_library.EventLoop.{EventLoop, event_loop_modify_fd, event_loop_remove_fd}
use modern_c_web_library.Server.{
  Buffered, buffered, refused, overflow, endless, serialize_response, SendResult,
  sizeof_http_response,
}
use modern_c_web_library.Server.Async.{
  AsyncConnection, Stop, all_sent, event_error, event_read, event_write, given_up, has_event,
  send_pending, sizeof_http_request, take_no_more,
}

-- A handler's end: the event loop, the connection unless it was freed, the results that are left and the
-- bytes taken; the head had no room; the loop by which serialize_response widens its buffer does not
-- end; or the parser or the loop over responses used up its fuel.
pub data Handled : Type 0 where
  handled : EventLoop → Option AsyncConnection → List SendResult → Bytes → Handled
  fault : Handled
  spins : Handled
  hung : Handled

-- The result of `async_on_parser_result`: true with the connection, or false when it was freed.
pub data Answered : Type 0 where
  answered : EventLoop → AsyncConnection → Answered
  dropped : EventLoop → Answered
  no_room : Answered
  widens : Answered

-- A header that is there.
abbrev pub is_some : Option Bytes → Bool
is_some none = false
is_some (some _) = true

-- The bytes that were taken before.
abbrev pub taken_before : Bytes → Handled → Handled
taken_before taken (handled loop conn results more) = handled loop conn results (taken ++ more)
taken_before taken fault = fault
taken_before taken spins = spins
taken_before taken hung = hung

-- `event_loop_remove_fd(…); free_async_connection(conn);`
abbrev pub remove_connection : EventLoop → ℕ → List SendResult → Handled
remove_connection loop fd results = handled (event_loop_remove_fd loop fd).0 none results []

-- `http_parser_execute(&conn->parser, NULL, 0)` where the buffer holds something.
abbrev pub execute_buffered : (ℕ → Bool) → HttpParser → Option (HttpParser × ParserResult)
execute_buffered alloc p =
    if ltb 0 (length p.buffer) then http_parser_execute alloc p [] else some (p, parser_incomplete)

-- The end of `async_on_parser_result`: the event loop is to report when the socket takes bytes.
abbrev pub registered : ℕ → EventLoop × Bool → AsyncConnection → Answered
registered fd (loop, true) conn = answered loop conn
registered fd (loop, false) conn = dropped (event_loop_remove_fd loop fd).0

-- A connection that is used again, with a fresh request and response.
abbrev pub renewed : AsyncConnection → AsyncConnection
renewed conn = record conn {
  parser = http_parser_reset conn.parser http_request_create true;
  response = http_response_create;
  header_buf = none;
  header_sent = 0;
  body_sent = 0;
  response_ready = false;
  keep_alive = false;
  closing = false;
}

-- The next request is not complete: the event loop is to report what arrives.
abbrev pub awaiting : AsyncConnection → ℕ → List SendResult → EventLoop × Bool → Handled
awaiting conn fd results (loop, true) = handled loop (some conn) results []
awaiting conn fd results (loop, false) = remove_connection loop fd results

-- The next request is answered; `again` is the next round.
abbrev pub continued :
    (EventLoop → AsyncConnection → List SendResult → Handled) → List SendResult → Answered → Handled
continued again results (answered loop conn) = again loop conn results
continued again results (dropped loop) = handled loop none results []
continued again results no_room = fault
continued again results widens = spins

module _ (alloc : ℕ → Bool) (ctl : ℕ → Bool) (date : Option Bytes) (router : Option Router) where
  -- The answer to a complete request, from the router or a 404.
  unfoldable pub route_connection : AsyncConnection → AsyncConnection
  route_connection conn = elim router [
    | none ↦ record conn {
      response = http_response_send_text alloc conn.response 404 (codes "Not Found");
    }
    | some r ↦
        let (ok, req, res) = router_route alloc r conn.parser.req conn.response in
        record conn {
          parser = record conn.parser { req = req };
          response = if ok then res else http_response_send_text alloc res 404 (codes "Not Found");
        }
  ]

  -- What follows its call of `serialize_response`.
  abbrev pub serialized :
      EventLoop → AsyncConnection → ℕ → Bool → HttpResponse × Buffered → Answered
  serialized loop conn fd keep_alive (res, buffered header _) =
      registered fd (event_loop_modify_fd alloc ctl loop fd event_write) (record conn {
        response = res;
        header_buf = some header;
        header_sent = 0;
        body_sent = 0;
        keep_alive = keep_alive;
        closing = not keep_alive;
        response_ready = true;
      })
  serialized loop conn fd keep_alive (res, refused) = dropped (event_loop_remove_fd loop fd).0
  serialized loop conn fd keep_alive (res, overflow) = no_room
  serialized loop conn fd keep_alive (res, endless) = widens

  -- `async_on_parser_result`, once the response is filled in.
  unfoldable pub make_ready : EventLoop → AsyncConnection → ℕ → Bool → Answered
  make_ready loop conn fd keep_alive =
      serialized loop conn fd keep_alive (serialize_response alloc date conn.response keep_alive)

  -- `async_on_parser_result`
  unfoldable pub async_on_parser_result : EventLoop → AsyncConnection → ℕ → ParserResult → Answered
  async_on_parser_result loop conn fd parser_incomplete = answered loop conn
  async_on_parser_result loop conn fd parser_error =
      let status = if conn.parser.error_status == 0 then 400 else conn.parser.error_status in
      let message : Bytes = elim conn.parser.error_message [
        | none ↦ codes "Bad Request"
        | some text ↦ text
      ] in
      make_ready loop
        (record conn { response = http_response_send_text alloc conn.response status message }) fd
        false
  async_on_parser_result loop conn fd parser_complete =
      let conn' = route_connection conn in
      make_ready loop conn' fd
        (conn'.parser.keep_alive && not (response_forces_close conn'.response))

  -- What follows a response that is sent, on a connection that is used again.
  abbrev pub next_request :
      (EventLoop → AsyncConnection → List SendResult → Handled)
      → EventLoop
      → ℕ
      → List SendResult
      → Option (HttpParser × ParserResult)
      → AsyncConnection
      → Handled
  next_request again loop fd results none conn = hung
  next_request again loop fd results (some (p, parser_incomplete)) conn =
      awaiting (record conn { parser = p }) fd results
        (event_loop_modify_fd alloc ctl loop fd event_read)
  next_request again loop fd results (some (p, parser_complete)) conn =
      continued again results
        (async_on_parser_result loop (record conn { parser = p }) fd parser_complete)
  next_request again loop fd results (some (p, parser_error)) conn =
      continued again results
        (async_on_parser_result loop (record conn { parser = p }) fd parser_error)

  -- What follows the two loops that send.
  abbrev pub after_sending :
      (EventLoop → AsyncConnection → List SendResult → Handled)
      → EventLoop
      → ℕ
      → AsyncConnection × List SendResult × Bytes × Stop
      → Handled
  after_sending again loop fd (conn, results, taken, take_no_more) =
      handled loop (some conn) results taken
  after_sending again loop fd (conn, results, taken, given_up) =
      taken_before taken (remove_connection loop fd results)
  after_sending again loop fd (conn, results, taken, all_sent) =
      if not (conn.keep_alive && not conn.closing)
      then taken_before taken (remove_connection loop fd results)
      else if alloc sizeof_http_request && alloc sizeof_http_response
      then taken_before taken (
          next_request again loop fd results (execute_buffered alloc (renewed conn).parser)
            (renewed conn))
      else taken_before taken (remove_connection loop fd results)

  -- The loop `for (;;)` of `async_write_handler`, on fuel.
  unfoldable pub write_loop : ℕ → EventLoop → AsyncConnection → ℕ → List SendResult → Handled
  write_loop zero loop conn fd results = hung
  write_loop (suc fuel) loop conn fd results =
      after_sending (λ loop' conn' results'. write_loop fuel loop' conn' fd results') loop fd
        (send_pending results conn)

  -- Each round but the first takes at least a byte of what the parser has buffered, or is the last.
  unfoldable pub async_write_handler :
      EventLoop → AsyncConnection → ℕ → ℕ → List SendResult → Handled
  async_write_handler loop conn fd events results =
      if has_event events event_error
      then remove_connection loop fd results
      else if has_event events event_write && conn.response_ready && is_some conn.header_buf
      then write_loop (suc (suc (length conn.parser.buffer))) loop conn fd results
      else handled loop (some conn) results []
