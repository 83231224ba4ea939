-- ===== src/Lib.antt =====
-- The verification of modern-c-web-library, a web server library in C: what its files compute, in
-- functions that evaluate, and theorems on them.
--
-- The program. A server (src/http_server.c) reads a request with an incremental parser, hands it
-- to a router (src/router.c), whose middlewares and handlers fill in a response, and sends that.
-- In its asynchronous mode the connections are driven by an event loop (src/event_loop.c); a
-- connection may become a WebSocket (src/websocket.c). include/weblib.h declares the types that
-- they share.
--
-- The files.
--   Base (with Tests, Lists, Cstring): numbers, lists, and the functions of <string.h>,
--     <strings.h> and <ctype.h> that the sources call. A C string is the list of its bytes before
--     the NUL.
--   Http (with Lists): requests, responses, and their header and parameter lists (header_list_*,
--     param_list_*, http_request_*, http_response_*).
--   Parser: http_parser_t and the functions on it, one child per part of the grammar
--     (RequestLine, Headers, Body), Number for strtoull and strtoul, and Execute for
--     http_parser_execute. Valid is the invariant; Execute/Bounds is about the invariant in a
--     run, Execute/Progress and Execute/Outcome about a run's end and its result, and
--     Execute/Shrinks about the bytes that a request takes.
--   Router: struct router and its functions; Matching, Params, Dispatch and Adding are about
--     match_route, extract_params, router_route and router_add_route.
--   WebSocket: connections and the functions that send; Frame is ws_parse_frame_header and
--     ws_unmask_payload, Receive is websocket_process_data, Handshake (with Sha1, Base64,
--     Upgrade) is websocket_handle_upgrade and what it calls. Frame/RoundTrip also has how a
--     client masks by RFC 6455.
--   EventLoop: struct event_loop and its functions, as built with epoll; Arrays has the lemmas on
--     its two arrays, Registry is the invariant, Timers is about single timers and descriptors,
--     Wait about get_next_timeout, Growth about callbacks that cancel nothing, Expiry about
--     process_timers. Run is event_loop_run, over a list of what epoll_wait reports in each turn,
--     and Run/Ends is about its end.
--   Json (with Objects): json_value_t, its constructors, json_object_get and json_object_set.
--     Parse is json_parse, and Parse/Returns about its end. Print is json_stringify and
--     http_response_send_json; Print/Text is the text of a value and the room it needs,
--     Print/Room and Print/Exact compare it with what the buffer gets. RoundTrip (with Scan,
--     Values, Lookup) reads what was printed.
--   Server: serialize_response and the functions that send a response; Head and Serialize are
--     about what is written, Delivery about what reaches a blocking socket. Async is
--     async_connection_t with the loops that send, Async/Write async_on_parser_result and
--     async_write_handler, Async/Read async_read_handler and async_accept_handler; Async/Pending
--     and Async/Delivers are about the bytes of a response, Async/Returns about the loop over
--     pipelined responses. Connection is handle_connection and handle_websocket_connection;
--     Connection/Serves has the rounds of a connection as a relation. Lifecycle is
--     http_server_create, http_server_listen, http_server_stop and the setters.
--
-- How the state corresponds. A struct is a record with the fields of the source. An array with a
-- count is a list, whose length is the count; a capacity stays a field. A pointer that may be
-- NULL is an option. A function that changes its argument returns the new one. The results 0 and
-- -1 are true and false. The arithmetic of size_t wraps at 2 ^ 64 wherever the source adds what
-- it was given. The allocator is a parameter: `alloc n` says whether n bytes are granted, and
-- every branch for a refusal is there. The sizes of structs are those of a 64-bit machine. The
-- ints timeout_ms of the event loop are given by their 32 bits. Parameters are also send(2)
-- (`net`), epoll_ctl (`ctl`), strtod and the text of a double under %g. A pointer argument is
-- taken to be given where the library's own calls give it.
--
-- Handlers and middlewares are functions on request and response. A callback of a WebSocket or of
-- the event loop is a list of calls of the library, which are run on the connection or loop.
--
-- What send and recv give is a list of results, which the functions take one after the other; the
-- date is the text that strftime gives.
--
-- Fuel. A loop that need not end is on fuel, and a theorem says that it is enough. For
-- http_parser_execute each round consumes a byte or moves to a later state; for
-- websocket_process_data a round takes at least two bytes, as long as no length has its top bit
-- set. process_timers takes its fuel as an argument, since callbacks may add timers without end;
-- one round more than there are timers is enough for callbacks that leave the timers alone. The
-- loop that pads in sha1_final has 64 rounds, which is what it needs at most. json_parse has a
-- round more than the text has bytes. The loop of stringify_value that doubles the capacity has a
-- round for each byte of the room that it asks for. The loop of async_write_handler over
-- responses has two rounds more than the parser has bytes buffered, since each request takes some
-- of them. The loop of websocket_process_data that doubles the capacity has 65 rounds: by then the
-- capacity is large enough, or 0 for good.
--
-- Where timer_count falls below 0, the model of process_timers stops with a result of its own, since
-- its list of timers has no such length; what the source does from there on is not modelled.
--
-- Not modelled: sockets and threads themselves (accept_connections, set_nonblocking), the builds
-- of the event loop with kqueue and poll, the functions that free memory, and the overflow of the
-- int that counts timer ids.
pub mod Base
pub mod Http
pub mod Router
pub mod Server
pub mod Parser
pub mod WebSocket
pub mod EventLoop
pub mod Json
