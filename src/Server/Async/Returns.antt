-- ===== src/Server/Async/Returns.antt =====
-- src/http_server.c: the loop of `async_write_handler` over pipelined responses.
use modern_c_web_library.Base.{
  ℕ, zero, suc, ◌+◌, ◌<◌, ◌≤◌, ◌≡◌, ◌≢◌, refl, ap, Bool, true, false, Option, none, some, List, [],
  ◌&&◌, not, Bytes, length, length-take, if◌then◌else◌, arith, ltb, Bool-cases, inl, inr,
}
use modern_c_web_library.Http.{HttpResponse}
use modern_c_web_library.EventLoop.{EventLoop, event_loop_modify_fd}
use modern_c_web_library.Parser.{
  HttpParser, ParserResult, parser_incomplete, parser_complete, parser_error, request_line,
  max_request_buffer,
}
use modern_c_web_library.Parser.Execute.{http_parser_execute, http_parser_reset}
use modern_c_web_library.Parser.Execute.Outcome.{http_parser_execute_returns}
use modern_c_web_library.Parser.Execute.Shrinks.{http_parser_execute-shorter}
use modern_c_web_library.Router.{Router}
use modern_c_web_library.Server.{
  Buffered, buffered, refused, overflow, endless, serialize_response, SendResult,
  sizeof_http_response,
}
use modern_c_web_library.Server.Async.{
  AsyncConnection, Stop, all_sent, take_no_more, given_up, send_header, header_left, send_behind,
  send_pending, event_read, event_write, has_event, event_error, sizeof_http_request,
}
use modern_c_web_library.Server.Async.Write.{
  Answered, answered, dropped, no_room, widens, make_ready, serialized, registered, awaiting,
  continued, async_on_parser_result, Handled, handled, fault, spins, hung, remove_connection,
  taken_before, route_connection, next_request, after_sending, renewed, execute_buffered,
  write_loop, async_write_handler, is_some,
}

-- The rounds that are left suffice: one for what is to be sent now, and when the connection is used
-- again behind it, one more than the parser has bytes buffered.
abbrev Fits : ℕ → AsyncConnection → Type 0
Fits fuel conn =
    (0 < fuel)
    × ((conn.keep_alive && not conn.closing) ≡ true → length conn.parser.buffer + 1 < fuel)

abbrev FitsAnswer : ℕ → Answered → Type 0
FitsAnswer fuel (answered loop conn) = Fits fuel conn
FitsAnswer fuel _ = Unit

-- Sending leaves what decides on the next round as it is.
abbrev SameRounds : AsyncConnection → AsyncConnection → Type 0
SameRounds conn conn' =
    (conn'.parser ≡ conn.parser)
    × (conn'.keep_alive ≡ conn.keep_alive)
    × (conn'.closing ≡ conn.closing)

send_pending-SameRounds :
    (results : List SendResult) (conn : AsyncConnection)
    → SameRounds conn (send_pending results conn).0
unfolding send_pending
send_pending-SameRounds results conn =
    go (send_header results (header_left conn)) conn.response.body
  where
    counted : Bytes → Option Bytes → AsyncConnection
    counted taken body = record conn {
      header_sent = conn.header_sent + length taken;
      response = record conn.response { body = body };
    }

    go :
        (sent : List SendResult × Bytes × Stop) (body : Option Bytes)
        → SameRounds conn (send_behind (counted sent.1 body) sent).0
    go (left, taken, take_no_more) body = (refl, refl, refl)
    go (left, taken, given_up) body = (refl, refl, refl)
    go (left, taken, all_sent) none = (refl, refl, refl)
    go (left, taken, all_sent) (some body) = (refl, refl, refl)

module _ (alloc : ℕ → Bool) (ctl : ℕ → Bool) (date : Option Bytes) (router : Option Router) where
  registered-Fits :
      (fuel fd : ℕ) (r : EventLoop × Bool) (conn : AsyncConnection)
      → Fits fuel conn
      → FitsAnswer fuel (registered fd r conn)
  registered-Fits fuel fd (loop, true) conn h = h
  registered-Fits fuel fd (loop, false) conn h = tt

  make_ready-Fits :
      (fuel : ℕ) (loop : EventLoop) (conn : AsyncConnection) (fd : ℕ) (keep_alive : Bool)
      → 0 < fuel
      → (keep_alive ≡ true → length conn.parser.buffer + 1 < fuel)
      → FitsAnswer fuel (make_ready alloc ctl date router loop conn fd keep_alive)
  unfolding make_ready
  make_ready-Fits fuel loop conn fd keep_alive pos h =
      go (serialize_response alloc date conn.response keep_alive)
    where
      go :
          (out : HttpResponse × Buffered)
          → FitsAnswer fuel (serialized alloc ctl date router loop conn fd keep_alive out)
      go (res, buffered header _) =
          registered-Fits fuel fd (event_loop_modify_fd alloc ctl loop fd event_write) _
            (pos, (λ k. h (ground (arith, k))))
      go (res, refused) = tt
      go (res, overflow) = tt
      go (res, endless) = tt

  route_connection-buffer :
      (conn : AsyncConnection)
      → (route_connection alloc ctl date router conn).parser.buffer ≡ conn.parser.buffer
  unfolding route_connection
  route_connection-buffer conn = go router
    where
      go :
          (r : Option Router)
          → (route_connection alloc ctl date r conn).parser.buffer ≡ conn.parser.buffer
      go none = refl
      go (some r) = refl

  answer_complete :
      (fuel : ℕ) (loop : EventLoop) (conn : AsyncConnection) (fd : ℕ)
      → length conn.parser.buffer + 1 < fuel
      → FitsAnswer fuel (async_on_parser_result alloc ctl date router loop conn fd parser_complete)
  unfolding async_on_parser_result
  answer_complete fuel loop conn fd enough =
      make_ready-Fits fuel loop (route_connection alloc ctl date router conn) fd _ (omega arith)
        (λ k. omega (arith, ap length (route_connection-buffer conn)))

  answer_error :
      (fuel : ℕ) (loop : EventLoop) (conn : AsyncConnection) (fd : ℕ)
      → 0 < fuel
      → FitsAnswer fuel (async_on_parser_result alloc ctl date router loop conn fd parser_error)
  unfolding async_on_parser_result
  answer_error fuel loop conn fd pos =
      make_ready-Fits fuel loop _ fd false pos (λ k. absurd (ground arith))

  continued-returns :
      (again : EventLoop → AsyncConnection → List SendResult → Handled) (results : List SendResult)
      (fuel : ℕ) (a : Answered)
      → FitsAnswer fuel a
      → ((loop : EventLoop) (conn : AsyncConnection)
          → Fits fuel conn
          → again loop conn results ≢ hung)
      → continued again results a ≢ hung
  continued-returns again results fuel (answered loop conn) h k = k loop conn h
  continued-returns again results fuel (dropped loop) h k = λ e. ground (arith, e)
  continued-returns again results fuel no_room h k = λ e. ground (arith, e)
  continued-returns again results fuel widens h k = λ e. ground (arith, e)

  -- What the parser makes of what is buffered: a complete request takes at least a byte.
  abbrev Shortens : HttpParser → Option (HttpParser × ParserResult) → Type 0
  Shortens p none = ⊥
  Shortens p (some (p', parser_complete)) = length p'.buffer < length p.buffer
  Shortens p (some (p', _)) = Unit

  execute_buffered-Shortens :
      (p : HttpParser) → p.state ≡ request_line → Shortens p (execute_buffered alloc p)
  execute_buffered-Shortens p s = elim (Bool-cases (ltb 0 (length p.buffer))) [
    | inr none-left ↦ rw none-left tt
    | inl some-left ↦
        let (p', result, runs, _) = http_parser_execute_returns alloc p [] in
        rw (some-left, runs) (shorter p' result runs)
  ]
    where
      shorter :
          (p' : HttpParser) (result : ParserResult)
          → http_parser_execute alloc p [] ≡ some (p', result)
          → Shortens p (some (p', result))
      shorter p' parser_complete runs = http_parser_execute-shorter alloc p p' s runs
      shorter p' parser_error runs = tt
      shorter p' parser_incomplete runs = tt

  next_request-returns :
      (again : EventLoop → AsyncConnection → List SendResult → Handled) (loop : EventLoop) (fd : ℕ)
      (results : List SendResult) (fuel : ℕ) (run : Option (HttpParser × ParserResult))
      (conn : AsyncConnection)
      → Shortens conn.parser run
      → length conn.parser.buffer < fuel
      → ((loop : EventLoop) (conn : AsyncConnection)
          → Fits fuel conn
          → again loop conn results ≢ hung)
      → next_request alloc ctl date router again loop fd results run conn ≢ hung
  next_request-returns again loop fd results fuel none conn short enough k = absurd short
  next_request-returns again loop fd results fuel (some (p, parser_incomplete)) conn short enough
        k =
      waits (event_loop_modify_fd alloc ctl loop fd event_read)
    where
      waits : (r : EventLoop × Bool) → awaiting (record conn { parser = p }) fd results r ≢ hung
      waits (loop', true) = λ e. ground (arith, e)
      waits (loop', false) = λ e. ground (arith, e)
  next_request-returns again loop fd results fuel (some (p, parser_complete)) conn short enough k =
      continued-returns again results fuel _
        (answer_complete fuel loop (record conn { parser = p }) fd (omega (arith, short, enough))) k
  next_request-returns again loop fd results fuel (some (p, parser_error)) conn short enough k =
      continued-returns again results fuel _
        (answer_error fuel loop (record conn { parser = p }) fd (omega (arith, enough))) k

  taken_before-returns :
      (taken : Bytes) (out : Handled) → out ≢ hung → taken_before taken out ≢ hung
  taken_before-returns taken (handled loop conn results more) h = λ e. ground (arith, e)
  taken_before-returns taken fault h = λ e. ground (arith, e)
  taken_before-returns taken spins h = λ e. ground (arith, e)
  taken_before-returns taken hung h = absurd (h refl)

  if-returns :
      (b : Bool) (x y : Handled)
      → (b ≡ true → x ≢ hung)
      → (b ≡ false → y ≢ hung)
      → (if b then x else y) ≢ hung
  if-returns true x y h k = h refl
  if-returns false x y h k = k refl

  renewed-parser :
      (conn : AsyncConnection)
      → ((renewed conn).parser.state ≡ request_line)
        × (length (renewed conn).parser.buffer ≤ length conn.parser.buffer)
  unfolding http_parser_reset
  renewed-parser conn = (refl, omega (arith, length-take max_request_buffer conn.parser.buffer))

  after_sending-returns :
      (again : EventLoop → AsyncConnection → List SendResult → Handled) (loop : EventLoop) (fd : ℕ)
      (fuel : ℕ) (conn : AsyncConnection) (results : List SendResult) (taken : Bytes) (stop : Stop)
      → Fits (suc fuel) conn
      → ((loop : EventLoop) (conn : AsyncConnection)
          → Fits fuel conn
          → again loop conn results ≢ hung)
      → after_sending alloc ctl date router again loop fd (conn, results, taken, stop) ≢ hung
  after_sending-returns again loop fd fuel conn results taken take_no_more h k =
      λ e. ground (arith, e)
  after_sending-returns again loop fd fuel conn results taken given_up h k = λ e. ground (arith, e)
  after_sending-returns again loop fd fuel conn results taken all_sent h k =
      let removed : taken_before taken (remove_connection loop fd results) ≢ hung =
        (λ e. ground (arith, e)) in
      let (start, shorter) = renewed-parser conn in
      if-returns (not (conn.keep_alive && not conn.closing)) _ _ (λ _. removed)
        (λ kept.
          if-returns (alloc sizeof_http_request && alloc sizeof_http_response) _ _
            (λ _. taken_before-returns taken _ (
              next_request-returns again loop fd results fuel
                (execute_buffered alloc (renewed conn).parser) (renewed conn)
                (execute_buffered-Shortens (renewed conn).parser start)
                (omega (arith, shorter, h.1 (ground (arith, kept)))) k))
            (λ _. removed))

  write_loop-returns :
      (fuel : ℕ) (loop : EventLoop) (conn : AsyncConnection) (fd : ℕ) (results : List SendResult)
      → Fits fuel conn
      → write_loop alloc ctl date router fuel loop conn fd results ≢ hung
  unfolding write_loop
  write_loop-returns zero loop conn fd results (pos, _) = absurd (omega arith)
  write_loop-returns (suc fuel) loop conn fd results (pos, h) =
      let sent = send_pending results conn in
      let (same, keeps, closes) = send_pending-SameRounds results conn in
      after_sending-returns
        (λ loop' conn' results'. write_loop alloc ctl date router fuel loop' conn' fd results') loop
        fd fuel sent.0 sent.1 sent.2 sent.3
        (
          pos,
          (λ k.
              omega (arith, ap (λ p. length p.buffer) same, h (ground (arith, keeps, closes, k)))),
        )
        λ loop' conn' fits. write_loop-returns fuel loop' conn' fd sent.1 fits

  -- The loop of `async_write_handler` over responses ends on every connection, whatever send gives and
  -- however much it takes, whatever requests wait in the buffer of the parser and whatever the router
  -- answers: two rounds more than there are bytes in that buffer are enough, since each request takes
  -- some of them. (The handler may still not end in the loop by which `serialize_response` widens its
  -- buffer, which is another result.)
  pub async_write_handler_returns :
      (loop : EventLoop) (conn : AsyncConnection) (fd events : ℕ) (results : List SendResult)
      → async_write_handler alloc ctl date router loop conn fd events results ≢ hung
  unfolding async_write_handler
  async_write_handler_returns loop conn fd events results =
      if-returns (has_event events event_error) _ _ (λ _ e. ground (arith, e))
        (λ _.
          if-returns
            (has_event events event_write && conn.response_ready && is_some conn.header_buf) _ _
            (λ _.
              write_loop-returns (suc (suc (length conn.parser.buffer))) loop conn fd results
                (omega arith, (λ _. omega arith)))
            (λ _ e. ground (arith, e)))
