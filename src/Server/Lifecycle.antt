-- ===== src/Server/Lifecycle.antt =====
-- src/http_server.c, lines 76 to 91, 148 to 292 and 1478 to 1511: the server itself. The answers of the system
-- are a record, and `run` is event_loop_run; `closed` are the descriptors that were closed, in order.
use modern_c_web_library.Base.{
  ℕ, ◌≡◌, refl, ◌++◌, Bool, true, false, Option, none, some, List, [], ◌∷◌, ◌&&◌, if◌then◌else◌,
  arith,
}
use modern_c_web_library.Router.{Router}
use modern_c_web_library.EventLoop.{EventLoop, event_loop_add_fd, event_loop_stop}
use modern_c_web_library.Server.Async.{event_read}

-- `struct http_server`; a `socket_fd` of -1 is none.
pub record HttpServer : Type 0 where
  pub socket_fd : Option ℕ
  pub port : ℕ
  pub router : Option Router
  pub running : Bool
  pub async_mode : Bool
  pub event_loop : Option EventLoop
  pub closed : List ℕ

-- What socket, setsockopt, bind, listen, fcntl and pthread_create answer.
pub record Host : Type 0 where
  pub socket : Option ℕ
  pub setsockopt : Bool
  pub bind : Bool
  pub listen : Bool
  pub nonblocking : Bool
  pub accept_thread : Bool

-- The server that `http_server_create` fills in.
unfoldable pub new_http_server : HttpServer
new_http_server = record {
  socket_fd = none;
  port = 0;
  router = none;
  running = false;
  async_mode = false;
  event_loop = none;
  closed = [];
}

abbrev pub sizeof_http_server : ℕ
sizeof_http_server = 48

-- `http_server_create`; `none` for NULL.
unfoldable pub http_server_create : (ℕ → Bool) → Option HttpServer
http_server_create alloc = if alloc sizeof_http_server then some new_http_server else none

-- `http_server_set_router`
unfoldable pub http_server_set_router : HttpServer → Option Router → HttpServer
http_server_set_router server router = record server { router = router }

-- `http_server_set_async`; `created` is what event_loop_create gives. The Boolean is true for 0.
unfoldable pub http_server_set_async : Option EventLoop → HttpServer → Bool → HttpServer × Bool
http_server_set_async created server enable =
    if server.running then (server, false) else switched server.event_loop enable created
  where
    switched : Option EventLoop → Bool → Option EventLoop → HttpServer × Bool
    switched none true none = (server, false)
    switched none true (some loop) =
        (record server { event_loop = some loop; async_mode = true }, true)
    switched (some loop) false _ = (record server { event_loop = none; async_mode = false }, true)
    switched _ _ _ = (record server { async_mode = enable }, true)

-- `http_server_get_event_loop`
unfoldable pub http_server_get_event_loop : HttpServer → Option EventLoop
http_server_get_event_loop server = if server.async_mode then server.event_loop else none

-- `close(server->socket_fd);` with the descriptor kept in the field.
abbrev pub close_socket : HttpServer → ℕ → HttpServer
close_socket server fd = record server { closed = server.closed ++ (fd ∷ []) }

module _ (alloc : ℕ → Bool) (ctl : ℕ → Bool) (run : EventLoop → EventLoop) (callback : ℕ)
    (user_data : ℕ) where
  -- The asynchronous branch of `http_server_listen`. Without an event loop event_loop_add_fd fails.
  abbrev pub listen_async : Host → HttpServer → ℕ → HttpServer × Bool
  listen_async host server fd =
      if host.nonblocking then added server.event_loop else (close_socket server fd, false)
    where
      added_to : EventLoop × Bool → HttpServer × Bool
      added_to (loop, true) = (record server { event_loop = some (run loop) }, true)
      added_to (loop, false) = (close_socket (record server { event_loop = some loop }) fd, false)

      added : Option EventLoop → HttpServer × Bool
      added none = (close_socket server fd, false)
      added (some loop) =
          added_to (event_loop_add_fd alloc ctl loop fd event_read callback user_data)

  -- The branch with a thread.
  abbrev pub listen_threaded : Host → HttpServer → ℕ → HttpServer × Bool
  listen_threaded host server fd =
      if host.accept_thread
      then (server, true)
      else (close_socket (record server { running = false }) fd, false)

  -- `http_server_listen`; the Boolean is true for 0 and false for -1.
  unfoldable pub http_server_listen : Host → HttpServer → ℕ → HttpServer × Bool
  http_server_listen host server port = elim host.socket [
    | none ↦ (record server { socket_fd = none }, false)
    | some fd ↦
        let opened : HttpServer = record server { socket_fd = some fd } in
        let listening : HttpServer = record opened { port = port; running = true } in
        if host.setsockopt && host.bind && host.listen
        then if server.async_mode
          then listen_async host listening fd
          else listen_threaded host listening fd
        else (close_socket opened fd, false)
  ]

-- `http_server_stop`
unfoldable pub http_server_stop : HttpServer → HttpServer
http_server_stop server = if server.running then stopped else server
  where
    stopping : HttpServer
    stopping = record server {
      running = false;
      event_loop =
          if server.async_mode
          then elim server.event_loop [ none ↦ none | some loop ↦ some (event_loop_stop loop) ]
          else server.event_loop;
    }

    stopped : HttpServer
    stopped = elim server.socket_fd [
      | none ↦ stopping
      | some fd ↦ record (close_socket stopping fd) { socket_fd = none }
    ]

-- What a server has closed when it could not listen: the socket, where one was opened.
abbrev pub closed_by : HttpServer → Option ℕ → List ℕ
closed_by server none = server.closed
closed_by server (some fd) = server.closed ++ (fd ∷ [])

abbrev Fails : HttpServer → Option ℕ → HttpServer × Bool → Type 0
Fails server socket r = r.1 ≡ false → (r.0.running ≡ false) × (r.0.closed ≡ closed_by server socket)

Fails-if :
    (server : HttpServer) (socket : Option ℕ) (b : Bool) (x y : HttpServer × Bool)
    → (b ≡ true → Fails server socket x)
    → (b ≡ false → Fails server socket y)
    → Fails server socket (if b then x else y)
Fails-if server socket true x y h k = h refl
Fails-if server socket false x y h k = k refl

http_server_stop-idle :
    (server : HttpServer) → server.running ≡ false → http_server_stop server ≡ server
unfolding http_server_stop
http_server_stop-idle server idle = rw idle refl

http_server_listen-Fails :
    (alloc ctl : ℕ → Bool) (run : EventLoop → EventLoop) (callback user_data : ℕ) (host : Host)
    (server : HttpServer) (port : ℕ)
    → server.running ≡ false
    → server.async_mode ≡ false
    → Fails server host.socket
        (http_server_listen alloc ctl run callback user_data host server port)
unfolding http_server_listen
http_server_listen-Fails alloc ctl run callback user_data host server port idle threaded =
    go host.socket
  where
    go :
        (socket : Option ℕ)
        → Fails server socket (
            http_server_listen alloc ctl run callback user_data
              (record host { socket = socket })
              server
              port)
    go none = λ failed. (idle, refl)
    go (some fd) =
        Fails-if server (some fd) (host.setsockopt && host.bind && host.listen) _ _
          (λ _.
            Fails-if server (some fd) server.async_mode _ _
              (λ asynchronous. ground (arith, asynchronous, threaded))
              (λ _.
                Fails-if server (some fd) host.accept_thread _ _
                  (λ _ failed. ground (arith, failed)) (λ _ failed. (refl, refl))))
          (λ _ failed. (idle, refl))

-- When `http_server_listen` fails on a server that does not run and is not asynchronous, the server still
-- does not run, a socket that was opened has been closed once, and `http_server_stop` then changes nothing.
pub http_server_listen_fails :
    (alloc ctl : ℕ → Bool) (run : EventLoop → EventLoop) (callback user_data : ℕ) (host : Host)
    (server : HttpServer) (port : ℕ)
    → server.running ≡ false
    → server.async_mode ≡ false
    → (http_server_listen alloc ctl run callback user_data host server port).1 ≡ false
    → let server' = (http_server_listen alloc ctl run callback user_data host server port).0 in
      (server'.running ≡ false)
      × (server'.closed ≡ closed_by server host.socket)
      × (http_server_stop server' ≡ server')
http_server_listen_fails alloc ctl run callback user_data host server port idle threaded failed =
    let (stopped, closed) =
      http_server_listen-Fails alloc ctl run callback user_data host server port idle threaded
        failed in
    (stopped, closed, http_server_stop-idle _ stopped)
