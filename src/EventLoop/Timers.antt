-- ===== src/EventLoop/Timers.antt =====
-- src/event_loop.c: an addition followed by the removal of the same entry, and a timer that cancels
-- itself.
use modern_c_web_library.Base.{
  ℕ, suc, ◌^◌, ◌<◌, Bool, true, false, Option, none, some, List, [], ◌∷◌, ◌++◌, ◌&&◌, ◌≡◌, refl,
  length, All, if◌then◌else◌, leb, ◌==◌, arith, ==_refl,
}
use modern_c_web_library.EventLoop.{
  EventHandler, EventTimer, EventLoop, find_handler_index, find_timer, remove_at, new_handler,
  expand_handlers, event_loop_add_fd, event_loop_remove_fd, max_timers, expiry,
  event_loop_add_timeout, event_loop_cancel_timeout, Call, cancel_timeout, run_call, run_calls,
  fire, timer_call, Fired, process_from, process_timers, underflow, expired,
}
use modern_c_web_library.EventLoop.Registry.{IsValid, Expanded, expand_handlers-Expanded}
use modern_c_web_library.EventLoop.Arrays.{remove_at-append}

find_timer-append :
    (ts : List EventTimer) (t : EventTimer)
    → All (λ u. u.id < t.id) ts
    → t.active ≡ true
    → find_timer (ts ++ (t ∷ [])) t.id ≡ some (length ts)
unfolding find_timer
find_timer-append [] t h a = ground arith
find_timer-append (u ∷ ts) t (lt, h) a = rw (other, find_timer-append ts t h a)
  where
    other : (u.id == t.id) ≡ false
    other = ground arith

-- In a well-formed loop with fewer than 64 timers, a timeout that is not below 0 as an int is added under the next id, and is
-- cancelled by that id: the cancellation succeeds, and the timers are those that there were before.
pub cancel-add_timeout :
    (loop : EventLoop) (sec usec ms callback user_data : ℕ)
    → IsValid loop
    → length loop.timers < 64
    → ms < 2 ^ 31
    → let added = event_loop_add_timeout loop sec usec ms callback user_data in
      (added.1 ≡ some loop.next_timer_id)
      × ((event_loop_cancel_timeout added.0 loop.next_timer_id).1 ≡ true)
      × ((event_loop_cancel_timeout added.0 loop.next_timer_id).0.timers ≡ loop.timers)
unfolding event_loop_add_timeout event_loop_cancel_timeout
cancel-add_timeout loop sec usec ms callback user_data v room int =
    rw (not_below_0, has_room)
      (
        refl,
        rw (event_loop_cancel_timeout, found) refl,
        rw (event_loop_cancel_timeout, found) (remove_at-append loop.timers timer),
      )
  where
    timer : EventTimer
    timer = record {
      id = loop.next_timer_id;
      sec = (expiry sec usec ms).0;
      usec = (expiry sec usec ms).1;
      callback = callback;
      user_data = user_data;
      active = true;
    }

    not_below_0 : leb (2 ^ 31) ms ≡ false
    not_below_0 = ground arith

    has_room : leb max_timers (length loop.timers) ≡ false
    has_room = ground arith

    found : find_timer (loop.timers ++ (timer ∷ [])) loop.next_timer_id ≡ some (length loop.timers)
    found = find_timer-append loop.timers timer v.ids-below refl

find_handler_index-append :
    (hs : List EventHandler) (h : EventHandler)
    → find_handler_index hs h.fd ≡ none
    → h.active ≡ true
    → find_handler_index (hs ++ (h ∷ [])) h.fd ≡ some (length hs)
unfolding find_handler_index
find_handler_index-append [] h e a = ground arith
find_handler_index-append (g ∷ hs) h e a =
    go (g.fd == h.fd && g.active) (find_handler_index hs h.fd) refl refl
      (find_handler_index-append hs h)
  where
    go :
        (b : Bool) (r : Option ℕ)
        → (g.fd == h.fd && g.active) ≡ b
        → find_handler_index hs h.fd ≡ r
        → (find_handler_index hs h.fd ≡ none
            → h.active ≡ true
            → find_handler_index (hs ++ (h ∷ [])) h.fd ≡ some (length hs))
        → find_handler_index (g ∷ (hs ++ (h ∷ []))) h.fd ≡ some (suc (length hs))
    go true r eb er ih = absurd (ground arith)
    go false none eb er ih = rw (eb, ih er a) refl
    go false (some i) eb er ih = absurd (ground arith)

removed-appended :
    (loop : EventLoop) (hs : List EventHandler) (h : EventHandler)
    → loop.handlers ≡ hs ++ (h ∷ [])
    → find_handler_index hs h.fd ≡ none
    → h.active ≡ true
    → ((event_loop_remove_fd loop h.fd).1 ≡ true)
      × ((event_loop_remove_fd loop h.fd).0.handlers ≡ hs)
unfolding event_loop_remove_fd
removed-appended loop hs h e fresh a =
    rw (event_loop_remove_fd, found) (refl, rw e (remove_at-append hs h))
  where
    found : find_handler_index loop.handlers h.fd ≡ some (length hs)
    found = rw e (find_handler_index-append hs h fresh a)

-- In a well-formed loop, a descriptor that is not registered, and whose addition succeeds, can be removed again, and the handlers
-- are then those that there were before.
pub remove-add_fd :
    (alloc ctl : ℕ → Bool) (loop : EventLoop) (fd events callback user_data : ℕ)
    → IsValid loop
    → find_handler_index loop.handlers fd ≡ none
    → (event_loop_add_fd alloc ctl loop fd events callback user_data).1 ≡ true
    → let added = (event_loop_add_fd alloc ctl loop fd events callback user_data).0 in
      ((event_loop_remove_fd added fd).1 ≡ true)
      × ((event_loop_remove_fd added fd).0.handlers ≡ loop.handlers)
unfolding event_loop_add_fd
remove-add_fd alloc ctl loop fd events callback user_data v fresh ok =
    go (find_handler_index loop.handlers fd) (expand_handlers alloc ctl loop) (ctl fd) fresh
      (expand_handlers-Expanded alloc ctl loop v) ok
  where
    handler : EventHandler
    handler = new_handler fd events callback user_data

    go :
        (r : Option ℕ) (o : Option EventLoop) (granted : Bool)
        → r ≡ none
        → Expanded alloc ctl loop o
        → let added : EventLoop × Bool = elim r [
          | some _ ↦ (loop, false)
          | none ↦ elim o [
            | none ↦ (loop, false)
            | some loop' ↦
                if granted
                then (record loop' { handlers = loop'.handlers ++ (handler ∷ []) }, true)
                else (loop', false)
          ]
        ] in
          added.1 ≡ true
          → ((event_loop_remove_fd added.0 fd).1 ≡ true)
            × ((event_loop_remove_fd added.0 fd).0.handlers ≡ loop.handlers)
    go (some i) o granted er x ok = absurd (ground arith)
    go none none granted er x ok = absurd (ground arith)
    go none (some loop') false er x ok = absurd (ground arith)
    go none (some loop') true er x ok =
        removed-appended (record loop' { handlers = loop'.handlers ++ (handler ∷ []) })
          loop.handlers handler (rw x.1 refl) fresh refl

cancel-only :
    (loop : EventLoop) (t : EventTimer)
    → loop.timers ≡ t ∷ []
    → t.active ≡ true
    → (event_loop_cancel_timeout loop t.id).0.timers ≡ []
unfolding event_loop_cancel_timeout find_timer remove_at
cancel-only loop t only a = rw (event_loop_cancel_timeout, found) removed
  where
    head : find_timer (t ∷ []) t.id ≡ some 0
    head = rw (find_timer, ==_refl t.id, a) refl

    found : find_timer loop.timers t.id ≡ some 0
    found = rw only head

    removed : remove_at loop.timers 0 ≡ []
    removed = rw only refl

-- A timer whose callback cancels it, while it is the only one, takes the count of timers below 0: the
-- loop of `process_timers` removes the entry that the cancellation has already removed.
pub process_timers-underflow :
    (alloc ctl : ℕ → Bool) (behaviour : Fired → List Call) (fuel sec usec : ℕ) (loop : EventLoop)
    (t : EventTimer)
    → loop.timers ≡ t ∷ []
    → t.active ≡ true
    → expired sec usec t ≡ true
    → behaviour (timer_call t) ≡ cancel_timeout t.id ∷ []
    → process_timers alloc ctl behaviour (suc fuel) sec usec loop ≡ underflow
unfolding process_timers process_from fire run_calls run_call
process_timers-underflow alloc ctl behaviour fuel sec usec loop t only a x b =
    rw (process_timers, process_from, only, a, x, gone) refl
  where
    gone : (fire alloc ctl behaviour loop (timer_call t)).timers ≡ []
    gone =
        rw (fire, b)
          (cancel-only (record loop { fired = loop.fired ++ (timer_call t ∷ []) }) t only a)
