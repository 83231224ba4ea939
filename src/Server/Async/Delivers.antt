-- ===== src/Server/Async/Delivers.antt =====
-- src/http_server.c: `async_write_handler` on a connection that is closed behind its response.
use modern_c_web_library.Base.{
  ℕ, suc, ◌+◌, ◌≡◌, refl, ap, ◌∙◌, Bool, true, false, Option, none, some, List, ◌++◌, ◌&&◌,
  append-nil, Bytes, length, if◌then◌else◌,
}
use modern_c_web_library.EventLoop.{EventLoop}
use modern_c_web_library.Router.{Router}
use modern_c_web_library.Server.{SendResult}
use modern_c_web_library.Server.Async.{
  AsyncConnection, Stop, all_sent, take_no_more, given_up, send_header, header_left, send_behind,
  send_pending, has_event, event_error, event_write,
}
use modern_c_web_library.Server.Async.Write.{
  Handled, handled, fault, spins, hung, after_sending, write_loop, async_write_handler, is_some,
}
use modern_c_web_library.Server.Async.Pending.{pending, Moves, send_pending-Moves}

-- How `async_write_handler` leaves a connection that is closed behind its response.
abbrev pub Delivers : AsyncConnection → Handled → Type 0
Delivers conn (handled loop (some conn') results taken) = taken ++ pending conn' ≡ pending conn
Delivers conn (handled loop none results taken) = (rest : Bytes) × (taken ++ rest ≡ pending conn)
Delivers conn fault = ⊥
Delivers conn spins = ⊥
Delivers conn hung = ⊥

Delivers-if :
    (conn : AsyncConnection) (b : Bool) (x y : Handled)
    → Delivers conn x
    → Delivers conn y
    → Delivers conn (if b then x else y)
Delivers-if conn true x y h k = h
Delivers-if conn false x y h k = k

module _ (alloc : ℕ → Bool) (ctl : ℕ → Bool) (date : Option Bytes) (router : Option Router) where
  after_sending-Delivers :
      (again : EventLoop → AsyncConnection → List SendResult → Handled) (loop : EventLoop) (fd : ℕ)
      (results : List SendResult) (conn : AsyncConnection)
      (sent : AsyncConnection × List SendResult × Bytes × Stop)
      → Moves results conn sent
      → sent.0.keep_alive ≡ false
      → Delivers conn (after_sending alloc ctl date router again loop fd sent)
  after_sending-Delivers again loop fd results conn (conn', left, taken, take_no_more) (e, _, _) h =
      e
  after_sending-Delivers again loop fd results conn (conn', left, taken, given_up) (e, _, _) h =
      (pending conn', ap (λ b. b ++ pending conn') (append-nil taken) ∙ e)
  after_sending-Delivers again loop fd results conn (conn', left, taken, all_sent) (e, _, _) h =
      rw h (pending conn', ap (λ b. b ++ pending conn') (append-nil taken) ∙ e)

  keep_alive-send_pending :
      (results : List SendResult) (conn : AsyncConnection)
      → (send_pending results conn).0.keep_alive ≡ conn.keep_alive
  unfolding send_pending
  keep_alive-send_pending results conn =
      go (send_header results (header_left conn)) conn.response.body
    where
      counted : Bytes → Option Bytes → AsyncConnection
      counted taken body = record conn {
        header_sent = conn.header_sent + length taken;
        response = record conn.response { body = body };
      }

      go :
          (sent : List SendResult × Bytes × Stop) (body : Option Bytes)
          → (send_behind (counted sent.1 body) sent).0.keep_alive ≡ conn.keep_alive
      go (left, taken, take_no_more) body = refl
      go (left, taken, given_up) body = refl
      go (left, taken, all_sent) none = refl
      go (left, taken, all_sent) (some body) = refl

  -- On a connection that is not kept alive, `async_write_handler` ends, whatever send gives. Where the
  -- connection stays, what was put on the socket, followed by what is still to be sent, is what was to be
  -- sent before; where it is removed, what was put on the socket is the start of that.
  pub async_write_handler-Delivers :
      (loop : EventLoop) (conn : AsyncConnection) (fd events : ℕ) (results : List SendResult)
      → conn.keep_alive ≡ false
      → Delivers conn (async_write_handler alloc ctl date router loop conn fd events results)
  unfolding async_write_handler write_loop
  async_write_handler-Delivers loop conn fd events results h =
      Delivers-if conn (has_event events event_error) _ _ (pending conn, refl)
        (Delivers-if conn
          (has_event events event_write && conn.response_ready && is_some conn.header_buf) _ _
          (after_sending-Delivers
            (λ loop' conn' results'.
              write_loop alloc ctl date router (suc (length conn.parser.buffer)) loop' conn' fd
                results')
            loop fd results conn (send_pending results conn) (send_pending-Moves results conn)
            (keep_alive-send_pending results conn ∙ h))
          refl)
