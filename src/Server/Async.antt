-- ===== src/Server/Async.antt =====
-- src/http_server.c, lines 99 to 113 and 1597 to 1841: the connections of the asynchronous
-- server. `results` are the results that send gives one after the other; behind the last of them the
-- socket takes no more for now. `callback` numbers the handlers for the event loop. Freed memory is gone.
pub mod Write
pub mod Read
pub mod Pending
pub mod Delivers
pub mod Returns
use modern_c_web_library.Base.{
  ℕ, zero, suc, ◌+◌, ◌-◌, ◌/◌, ◌%◌, ◌^◌, Bool, true, false, Option, none, some, List, [], ◌∷◌, ◌++◌,
  ◌&&◌, ◌||◌, not, codes, Bytes, length, take, drop, if◌then◌else◌, ◌==◌, ltb,
}
use modern_c_web_library.Http.{
  HttpRequest, HttpResponse, http_request_create, http_response_create, http_response_send_text,
  response_forces_close,
}
use modern_c_web_library.Parser.{
  HttpParser, ParserResult, parser_incomplete, parser_complete, parser_error, error,
}
use modern_c_web_library.Parser.Execute.{http_parser_execute, http_parser_init, http_parser_reset}
use modern_c_web_library.Router.{Router, router_route}
use modern_c_web_library.EventLoop.{
  EventLoop, event_loop_add_fd, event_loop_modify_fd, event_loop_remove_fd,
}
use modern_c_web_library.Server.{
  Sent, sent_to, waits, send_error_response, RecvResult, recv_bytes, recv_end, recv_interrupted,
  recv_again, recv_failed, Buffered, buffered, refused, overflow, endless, serialize_response,
  SendResult, accepted, interrupted, would_block, send_failed, sizeof_http_response,
}

abbrev pub event_read : ℕ
event_read = 1

abbrev pub event_write : ℕ
event_write = 2

abbrev pub event_error : ℕ
event_error = 4

-- events & EVENT_…
abbrev pub has_event : ℕ → ℕ → Bool
has_event events event = events / event % 2 == 1

abbrev pub sizeof_http_request : ℕ
sizeof_http_request = 72

abbrev pub sizeof_async_connection : ℕ
sizeof_async_connection = 192

-- `async_connection_t`; its request is that of the parser, and `header_len` the length of `header_buf`.
pub record AsyncConnection : Type 0 where
  pub client_fd : ℕ
  pub parser : HttpParser
  pub response : HttpResponse
  pub header_buf : Option Bytes
  pub header_sent : ℕ
  pub body_sent : ℕ
  pub parser_initialized : Bool
  pub response_ready : Bool
  pub keep_alive : Bool
  pub closing : Bool

-- How far a loop over send came: all is sent, the socket takes no more, or the connection is to be given up.
pub data Stop : Type 0 where
  all_sent take_no_more given_up : Stop

-- The loop over the header: results that are left, bytes taken, and how it stopped.
unfoldable pub send_header : List SendResult → Bytes → List SendResult × Bytes × Stop
send_header results [] = (results, [], all_sent)
send_header [] (c ∷ buf) = ([], [], take_no_more)
send_header (accepted zero ∷ results) (c ∷ buf) = (results, [], given_up)
send_header (accepted (suc n) ∷ results) (c ∷ buf) =
    let (left, taken, stop) = send_header results (drop n buf) in
    (left, c ∷ (take n buf ++ taken), stop)
send_header (interrupted ∷ results) (c ∷ buf) = send_header results (c ∷ buf)
send_header (would_block ∷ results) (c ∷ buf) = (results, [], take_no_more)
send_header (send_failed ∷ results) (c ∷ buf) = (results, [], given_up)

-- The loop over the body: it leaves when send takes a part only.
unfoldable pub send_rest : List SendResult → Bytes → List SendResult × Bytes × Stop
send_rest results [] = (results, [], all_sent)
send_rest [] (c ∷ buf) = ([], [], take_no_more)
send_rest (accepted zero ∷ results) (c ∷ buf) = (results, [], given_up)
send_rest (accepted (suc n) ∷ results) (c ∷ buf) =
    (results, c ∷ take n buf, if ltb n (length buf) then take_no_more else all_sent)
send_rest (interrupted ∷ results) (c ∷ buf) = send_rest results (c ∷ buf)
send_rest (would_block ∷ results) (c ∷ buf) = (results, [], take_no_more)
send_rest (send_failed ∷ results) (c ∷ buf) = (results, [], given_up)

-- What of the header and of the body is still to be sent; a body that is not there is sent.
abbrev pub header_left : AsyncConnection → Bytes
header_left conn = elim conn.header_buf [ none ↦ [] | some header ↦ drop conn.header_sent header ]

abbrev pub body_left : AsyncConnection → Bytes
body_left conn = elim conn.response.body [
  | none ↦ []
  | some body ↦ drop conn.body_sent (take conn.response.body_length body)
]

-- The counters behind the two loops; without a body `body_sent` becomes its length.
abbrev pub count_body : AsyncConnection → Bytes → AsyncConnection
count_body conn taken = elim conn.response.body [
  | none ↦ record conn { body_sent = conn.response.body_length }
  | some _ ↦ record conn { body_sent = conn.body_sent + length taken }
]

-- The second loop of `async_write_handler`, when the first has sent the header.
abbrev pub send_behind :
    AsyncConnection
    → List SendResult × Bytes × Stop
    → AsyncConnection × List SendResult × Bytes × Stop
send_behind conn (results, taken, all_sent) =
    let (left, more, stop) = send_rest results (body_left conn) in
    (count_body conn more, left, taken ++ more, stop)
send_behind conn (results, taken, take_no_more) = (conn, results, taken, take_no_more)
send_behind conn (results, taken, given_up) = (conn, results, taken, given_up)

-- The two loops of `async_write_handler`.
unfoldable pub send_pending :
    List SendResult → AsyncConnection → AsyncConnection × List SendResult × Bytes × Stop
send_pending results conn =
    let sent = send_header results (header_left conn) in
    send_behind (record conn { header_sent = conn.header_sent + length sent.1 }) sent
