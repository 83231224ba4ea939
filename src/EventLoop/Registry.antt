-- ===== src/EventLoop/Registry.antt =====
-- src/event_loop.c: the arrays of handlers and timers, whose entries are found by a search, added at
-- the end, and removed by a move of the last one.
use modern_c_web_library.Base.{
  ℕ, ◌^◌, ◌+◌, ◌*◌, ◌≤◌, ◌<◌, Bool, true, false, Option, none, some, List, [], ◌∷◌, ◌++◌, ◌≡◌, refl,
  length, get_elem?, set, All, length-append, length-set, if◌then◌else◌, leb, arith,
}
use modern_c_web_library.EventLoop.{
  EventHandler, EventTimer, EventLoop, find_handler_index, find_timer, remove_at, new_handler,
  expand_handlers, event_loop_add_fd, event_loop_remove_fd, event_loop_modify_fd, max_timers,
  expiry, event_loop_add_timeout, event_loop_cancel_timeout, Call, add_fd, modify_fd, remove_fd,
  cancel_timeout, add_timeout, stop, run_call, run_calls, event_loop_stop, sizeof_event_handler,
  Fired,
}
use modern_c_web_library.EventLoop.Arrays.{
  length-remove_at, All-set, All-append, All-get, All-remove_at,
}

-- The arrays stay inside their bounds, every used entry is active, and no timer has an id that
-- is still to be given out.
pub record IsValid (loop : EventLoop) : Type 0 where
  pub handlers-bound : length loop.handlers ≤ loop.handler_capacity
  pub capacity-positive : 0 < loop.handler_capacity
  pub handlers-active : All (λ h. h.active ≡ true) loop.handlers
  pub timers-bound : length loop.timers ≤ 64
  pub timers-active : All (λ t. t.active ≡ true) loop.timers
  pub ids-below : All (λ t. t.id < loop.next_timer_id) loop.timers

pub event_loop_remove_fd-IsValid :
    (loop : EventLoop) (fd : ℕ) → IsValid loop → IsValid (event_loop_remove_fd loop fd).0
unfolding event_loop_remove_fd
event_loop_remove_fd-IsValid loop fd v = go (find_handler_index loop.handlers fd)
  where
    go :
        (r : Option ℕ)
        → let removed : EventLoop × Bool = elim r [
          | none ↦ (loop, false)
          | some i ↦ (record loop { handlers = remove_at loop.handlers i }, true)
        ] in
          IsValid removed.0
    go none = v
    go (some i) = record {
      timers-bound = v.timers-bound;
      timers-active = v.timers-active;
      ids-below = v.ids-below;
      capacity-positive = v.capacity-positive;
      handlers-bound = omega (arith, length-remove_at loop.handlers i, v.handlers-bound);
      handlers-active = All-remove_at _ loop.handlers i v.handlers-active;
    }

pub event_loop_cancel_timeout-IsValid :
    (loop : EventLoop) (id : ℕ) → IsValid loop → IsValid (event_loop_cancel_timeout loop id).0
unfolding event_loop_cancel_timeout
event_loop_cancel_timeout-IsValid loop id v = go (find_timer loop.timers id)
  where
    go :
        (r : Option ℕ)
        → let removed : EventLoop × Bool = elim r [
          | none ↦ (loop, false)
          | some i ↦ (record loop { timers = remove_at loop.timers i }, true)
        ] in
          IsValid removed.0
    go none = v
    go (some i) = record {
      handlers-bound = v.handlers-bound;
      capacity-positive = v.capacity-positive;
      handlers-active = v.handlers-active;
      timers-bound = omega (arith, length-remove_at loop.timers i, v.timers-bound);
      timers-active = All-remove_at _ loop.timers i v.timers-active;
      ids-below = All-remove_at _ loop.timers i v.ids-below;
    }

All-weaken : (n : ℕ) (ts : List EventTimer) → All (λ t. t.id < n) ts → All (λ t. t.id < n + 1) ts
All-weaken n [] h = tt
All-weaken n (t ∷ ts) (p, h) = (omega arith, All-weaken n ts h)

pub event_loop_add_timeout-IsValid :
    (loop : EventLoop) (sec usec ms callback user_data : ℕ)
    → IsValid loop
    → IsValid (event_loop_add_timeout loop sec usec ms callback user_data).0
unfolding event_loop_add_timeout
event_loop_add_timeout-IsValid loop sec usec ms callback user_data v =
    refused _ (leb (2 ^ 31) ms) (go (leb max_timers (length loop.timers)) refl)
  where
    timer : EventTimer
    timer = record {
      id = loop.next_timer_id;
      sec = (expiry sec usec ms).0;
      usec = (expiry sec usec ms).1;
      callback = callback;
      user_data = user_data;
      active = true;
    }

    refused :
        (a : EventLoop × Option ℕ) (b : Bool)
        → IsValid a.0
        → let added : EventLoop × Option ℕ = if b then (loop, none) else a in IsValid added.0
    refused a true h = v
    refused a false h = h

    go :
        (b : Bool)
        → leb max_timers (length loop.timers) ≡ b
        → let added : EventLoop × Option ℕ = if b then (loop, none) else (
          record loop {
            next_timer_id = loop.next_timer_id + 1;
            timers = loop.timers ++ (timer ∷ []);
          },
          some loop.next_timer_id,
        ) in
          IsValid added.0
    go true e = v
    go false e = record {
      handlers-bound = v.handlers-bound;
      capacity-positive = v.capacity-positive;
      handlers-active = v.handlers-active;
      timers-bound = ground (arith, length-append loop.timers (timer ∷ []));
      timers-active = All-append _ loop.timers timer v.timers-active refl;
      ids-below =
          All-append _ loop.timers timer (All-weaken loop.next_timer_id loop.timers v.ids-below)
            (omega arith);
    }

module _ (alloc : ℕ → Bool) (ctl : ℕ → Bool) where
  -- What an expansion of `loop` comes to: a granted one leaves room for one entry more.
  abbrev pub Expanded : EventLoop → Option EventLoop → Type 0
  Expanded loop none = Unit
  Expanded loop (some loop') =
      IsValid loop'
      × (loop'.handlers ≡ loop.handlers)
      × (length loop'.handlers < loop'.handler_capacity)

  pub expand_handlers-Expanded :
      (loop : EventLoop) → IsValid loop → Expanded loop (expand_handlers alloc ctl loop)
  unfolding expand_handlers
  expand_handlers-Expanded loop v =
      go (leb loop.handler_capacity (length loop.handlers))
        (alloc (loop.handler_capacity * 2 * sizeof_event_handler)) refl
    where
      go :
          (full granted : Bool)
          → leb loop.handler_capacity (length loop.handlers) ≡ full
          → Expanded loop (
              if full
              then if granted
                then some (record loop { handler_capacity = loop.handler_capacity * 2 })
                else none
              else some loop)
      go true true e = (
        record {
          handlers-bound = omega (arith, v.handlers-bound);
          capacity-positive = omega (arith, v.capacity-positive);
          handlers-active = v.handlers-active;
          timers-bound = v.timers-bound;
          timers-active = v.timers-active;
          ids-below = v.ids-below;
        },
        refl,
        omega (arith, v.handlers-bound, v.capacity-positive),
      )
      go true false e = tt
      go false granted e = (v, refl, ground arith)

  pub event_loop_add_fd-IsValid :
      (loop : EventLoop) (fd events callback user_data : ℕ)
      → IsValid loop
      → IsValid (event_loop_add_fd alloc ctl loop fd events callback user_data).0
  unfolding event_loop_add_fd
  event_loop_add_fd-IsValid loop fd events callback user_data v =
      go (find_handler_index loop.handlers fd) (expand_handlers alloc ctl loop) (ctl fd)
        (expand_handlers-Expanded loop v)
    where
      go :
          (r : Option ℕ) (o : Option EventLoop) (granted : Bool)
          → Expanded loop o
          → let added : EventLoop × Bool = elim r [
            | some _ ↦ (loop, false)
            | none ↦ elim o [
              | none ↦ (loop, false)
              | some loop' ↦
                  if granted
                  then (
                    record loop' {
                      handlers = loop'.handlers ++ (new_handler fd events callback user_data ∷ []);
                    },
                    true,
                  )
                  else (loop', false)
            ]
          ] in
            IsValid added.0
      go (some _) o granted x = v
      go none none granted x = v
      go none (some loop') false x = x.0
      go none (some loop') true x = record {
        handlers-bound = omega (
          arith,
          length-append loop'.handlers (new_handler fd events callback user_data ∷ []),
          x.2,
        );
        capacity-positive = x.0.capacity-positive;
        handlers-active = All-append _ loop'.handlers _ x.0.handlers-active refl;
        timers-bound = x.0.timers-bound;
        timers-active = x.0.timers-active;
        ids-below = x.0.ids-below;
      }

  pub event_loop_modify_fd-IsValid :
      (loop : EventLoop) (fd events : ℕ)
      → IsValid loop
      → IsValid (event_loop_modify_fd alloc ctl loop fd events).0
  unfolding event_loop_modify_fd
  event_loop_modify_fd-IsValid loop fd events v = found (find_handler_index loop.handlers fd)
    where
      go :
          (i : ℕ) (r : Option EventHandler)
          → ((h : EventHandler) → r ≡ some h → h.active ≡ true)
          → let modified : EventLoop × Bool = elim r [
            | none ↦ (loop, false)
            | some h ↦ (
              record loop { handlers = set loop.handlers i (record h { events = events }) },
              ctl fd,
            )
          ] in
            IsValid modified.0
      go i none k = v
      go i (some h) k = record {
        handlers-bound =
            omega
              (arith, length-set loop.handlers i (record h { events = events }), v.handlers-bound);
        capacity-positive = v.capacity-positive;
        handlers-active = All-set _ loop.handlers i _ (k h refl) v.handlers-active;
        timers-bound = v.timers-bound;
        timers-active = v.timers-active;
        ids-below = v.ids-below;
      }

      found :
          (o : Option ℕ)
          → let modified : EventLoop × Bool = elim o [
            | none ↦ (loop, false)
            | some i ↦ elim (get_elem? loop.handlers i) [
              | none ↦ (loop, false)
              | some h ↦ (
                record loop { handlers = set loop.handlers i (record h { events = events }) },
                ctl fd,
              )
            ]
          ] in
            IsValid modified.0
      found none = v
      found (some i) =
          go i (get_elem? loop.handlers i) (λ h e. All-get _ loop.handlers i h e v.handlers-active)

module _ (alloc : ℕ → Bool) (ctl : ℕ → Bool) (behaviour : Fired → List Call) where
  pub run_call-IsValid :
      (loop : EventLoop) (c : Call) → IsValid loop → IsValid (run_call alloc ctl behaviour loop c)
  unfolding run_call event_loop_stop
  run_call-IsValid loop (add_fd fd events callback user_data) v =
      event_loop_add_fd-IsValid alloc ctl loop fd events callback user_data v
  run_call-IsValid loop (modify_fd fd events _ _) v =
      event_loop_modify_fd-IsValid alloc ctl loop fd events v
  run_call-IsValid loop (remove_fd fd) v = event_loop_remove_fd-IsValid loop fd v
  run_call-IsValid loop (cancel_timeout id) v = event_loop_cancel_timeout-IsValid loop id v
  run_call-IsValid loop (add_timeout sec usec ms callback user_data) v =
      event_loop_add_timeout-IsValid loop sec usec ms callback user_data v
  run_call-IsValid loop stop v = record {
    handlers-bound = v.handlers-bound;
    capacity-positive = v.capacity-positive;
    handlers-active = v.handlers-active;
    timers-bound = v.timers-bound;
    timers-active = v.timers-active;
    ids-below = v.ids-below;
  }

  -- Whatever calls a callback makes on a well-formed loop, and whatever the allocator and epoll
  -- answer, the loop stays well-formed: handlers within their capacity, at most 64 timers, every
  -- entry active, and no timer with an id that is still to be given out.
  pub run_calls-IsValid :
      (loop : EventLoop) (cs : List Call)
      → IsValid loop
      → IsValid (run_calls alloc ctl behaviour loop cs)
  unfolding run_calls
  run_calls-IsValid loop [] v = v
  run_calls-IsValid loop (c ∷ cs) v =
      run_calls-IsValid (run_call alloc ctl behaviour loop c) cs (run_call-IsValid loop c v)
