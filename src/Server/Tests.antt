-- ===== src/Server/Tests.antt =====
-- src/http_server.c: responses that are sent, at concrete inputs.
use modern_c_web_library.Base.{
  ℕ, zero, suc, ◌+◌, ◌^◌, ◌≤◌, ◌<◌, ◌≡◌, ◌≢◌, refl, Bool, true, false, none, some, List, [], ◌∷◌,
  ◌++◌, codes, Bytes, length, arith, str_eq,
}
use modern_c_web_library.Http.{HttpResponse, http_request_create, header_list_add}
use modern_c_web_library.Http.Lists.{header_value, Granted}
use modern_c_web_library.EventLoop.{new_event_loop}
use modern_c_web_library.Parser.Execute.{http_parser_init}
use modern_c_web_library.Server.{
  recv_bytes, recv_end, recv_interrupted, buffered, complete_headers, serialize_response,
  decimal_before, SendResult, accepted, interrupted, would_block, sent_to, send_response,
}
use modern_c_web_library.Server.Head.{header_lines, head_text}
use modern_c_web_library.Server.Serialize.{serialize_response_lem, completed_header}
use modern_c_web_library.Server.Delivery.{send_response_lem, body_text, willing}
use modern_c_web_library.Server.Async.{AsyncConnection, event_write}
use modern_c_web_library.Server.Async.Write.{hung, async_write_handler}
use modern_c_web_library.Server.Async.Pending.{pending, send_calls, send_calls-pending}
use modern_c_web_library.Server.Async.Delivers.{Delivers, async_write_handler-Delivers}
use modern_c_web_library.Server.Connection.{Socket, first_round}
use modern_c_web_library.Server.Connection.Serves.{Answers, first, Rounds-Answers}
use modern_c_web_library.Server.Lifecycle.{
  HttpServer, Host, new_http_server, http_server_listen, http_server_stop, http_server_listen_fails,
}
use modern_c_web_library.Server.Async.Returns.{async_write_handler_returns}

abbrev always : ℕ → Bool
always n = true

always-Granted : Granted always
always-Granted n = refl

-- "hi", with status 200.
abbrev greeting : HttpResponse
greeting = record {
  status = 200;
  body = some (codes "hi");
  body_length = 2;
  headers = [];
  sent = false;
}

abbrev greeting_sent : HttpResponse
greeting_sent = (complete_headers always none greeting false).0

greeting_head :
    head_text greeting_sent
    ≡ codes "HTTP/1.1 200 OK\r\nContent-Length: 2\r\nConnection: close\r\n\r\n"
unfolding complete_headers header_list_add decimal_before str_eq
greeting_head = refl

greeting_short : length (header_lines greeting_sent.headers) + 53 < 2 ^ 62
unfolding complete_headers header_list_add decimal_before str_eq
greeting_short = omega arith

serialize_response_lem_example :
    (cap : ℕ) × (serialize_response always none greeting false
      ≡ (greeting_sent, buffered (head_text greeting_sent) cap))
    × (length (head_text greeting_sent) ≤ cap)
    × (greeting_sent.status ≡ 200)
    × ((name : Bytes)
        → header_value greeting_sent.headers name ≡ completed_header none greeting false name)
serialize_response_lem_example =
    serialize_response_lem always always-Granted none greeting false greeting_short

abbrev bytewise : ℕ → List SendResult
bytewise zero = []
bytewise (suc n) = interrupted ∷ accepted 1 ∷ bytewise n

send_response_lem_example :
    (left : List SendResult) × (send_response always none (bytewise 70) greeting false
      ≡ sent_to
          (record greeting_sent { sent = true })
          left
          (head_text greeting_sent ++ body_text greeting_sent))
unfolding complete_headers header_list_add decimal_before str_eq willing
send_response_lem_example =
    send_response_lem always none (bytewise 70) greeting false always-Granted refl greeting_short
      (omega arith)

-- A connection whose answer is ready, and is closed behind it.
abbrev answering : AsyncConnection
answering = record {
  client_fd = 5;
  parser = http_parser_init always http_request_create;
  response = greeting;
  header_buf = some (codes "HTTP/1.1 200 OK\r\n\r\n");
  header_sent = 0;
  body_sent = 0;
  parser_initialized = true;
  response_ready = true;
  keep_alive = false;
  closing = true;
}

abbrev two_calls : List (List SendResult)
two_calls =
    (accepted 3 ∷ interrupted ∷ accepted 7 ∷ would_block ∷ [])
    ∷ (accepted 100 ∷ accepted 1 ∷ [])
    ∷ []

send_calls-pending_example :
    (send_calls two_calls answering).1 ++ pending (send_calls two_calls answering).0
    ≡ codes "HTTP/1.1 200 OK\r\n\r\nhi"
send_calls-pending_example = send_calls-pending two_calls answering

async_write_handler-Delivers_example : Delivers answering (
    async_write_handler always always none none new_event_loop answering 5 event_write
      (accepted 100 ∷ accepted 1 ∷ []))
async_write_handler-Delivers_example =
    async_write_handler-Delivers always always none none new_event_loop answering 5 event_write
      (accepted 100 ∷ accepted 1 ∷ []) refl

-- Its connection is used again, and two requests wait in the buffer of the parser.
abbrev pipelining : AsyncConnection
pipelining = record answering {
  parser = record answering.parser {
    buffer = codes "GET / HTTP/1.1\r\nHost: a\r\n\r\nGET /b HTTP/1.1\r\nHost: a\r\n\r\n";
  };
  keep_alive = true;
  closing = false;
}

async_write_handler_returns_example :
    async_write_handler always always none none new_event_loop pipelining 5 event_write
      (bytewise 300)
    ≢ hung
async_write_handler_returns_example =
    async_write_handler_returns always always none none new_event_loop pipelining 5 event_write
      (bytewise 300)

abbrev one_request : Socket
one_request = record {
  recvs = recv_interrupted ∷ recv_bytes (codes "GET / HTTP/1.1\r\nHost: a\r\n\r\n") ∷ recv_end ∷ [];
  results = accepted 100 ∷ accepted 100 ∷ [];
  output = [];
}

Rounds-Answers_example : Answers always none none (first_round always none none 5 one_request)
Rounds-Answers_example =
    Rounds-Answers always none none 5 one_request (first_round always none none 5 one_request)
      (tt, (omega arith, (tt, tt))) first

-- The system opens a socket, and starts no thread.
abbrev no_thread : Host
no_thread = record {
  socket = some 7;
  setsockopt = true;
  bind = true;
  listen = true;
  nonblocking = false;
  accept_thread = false;
}

abbrev listened : HttpServer
listened = (http_server_listen always always (λ loop. loop) 1 2 no_thread new_http_server 8080).0

http_server_listen_fails_example :
    (listened.running ≡ false) × (listened.closed ≡ 7 ∷ []) × (http_server_stop listened ≡ listened)
unfolding new_http_server http_server_listen
http_server_listen_fails_example =
    http_server_listen_fails always always (λ loop. loop) 1 2 no_thread new_http_server 8080 refl
      refl refl

-- In the asynchronous mode the server runs on when it could not listen, and stopping closes the socket again.
closed_twice :
    (http_server_stop
      (http_server_listen always always
        (λ loop. loop)
        1
        2
        no_thread
        (record new_http_server { async_mode = true; event_loop = some new_event_loop })
        8080).0).closed
    ≡ 7 ∷ 7 ∷ []
unfolding new_http_server http_server_listen http_server_stop
closed_twice = refl
