-- ===== src/EventLoop.antt =====
-- src/event_loop.c, as built with epoll: the handlers, the timers and the loop.
-- A descriptor argument below 0 is refused by every function, so descriptors are natural numbers
-- here. Callbacks are numbers; what one does is a list of calls of the functions of weblib.h, since
-- the loop is opaque to it. `alloc n` says whether the allocator grants `n` bytes, `ctl` whether
-- epoll_ctl succeeds for a descriptor.
pub mod Arrays
pub mod Registry
pub mod Timers
pub mod Wait
pub mod Growth
pub mod Run
pub mod Expiry
mod Tests
use modern_c_web_library.Base.{
  ℕ, zero, suc, ◌+◌, ◌-◌, ◌*◌, ◌/◌, ◌%◌, ◌^◌, Bool, true, false, Option, none, some, List, [], ◌∷◌,
  ◌++◌, ◌&&◌, ◌||◌, not, length, take, get_elem?, set, if◌then◌else◌, ltb, leb, ◌==◌,
}

abbrev pub max_timers : ℕ
max_timers = 64

-- `struct event_handler`
pub record EventHandler : Type 0 where
  pub fd : ℕ
  pub events : ℕ
  pub callback : ℕ
  pub user_data : ℕ
  pub active : Bool

-- `event_timer_t`
pub record EventTimer : Type 0 where
  pub id : ℕ
  pub sec : ℕ
  pub usec : ℕ
  pub callback : ℕ
  pub user_data : ℕ
  pub active : Bool

-- A call of a callback: which, on which descriptor (`none` for the -1 of a timer), with which events.
pub record Fired : Type 0 where
  pub callback : ℕ
  pub fd : Option ℕ
  pub events : ℕ
  pub user_data : ℕ

-- `struct event_loop`: the used parts of the arrays, so the counts are their lengths, and the
-- callbacks called so far.
pub record EventLoop : Type 0 where
  pub running : Bool
  pub next_timer_id : ℕ
  pub handlers : List EventHandler
  pub handler_capacity : ℕ
  pub timers : List EventTimer
  pub fired : List Fired

-- The loop that `event_loop_create` fills in.
unfoldable pub new_event_loop : EventLoop
new_event_loop = record {
  running = false;
  next_timer_id = 1;
  handlers = [];
  handler_capacity = 16;
  timers = [];
  fired = [];
}

abbrev pub sizeof_event_handler : ℕ
sizeof_event_handler = 32

-- The 64 timers of 48 bytes stand within the structure.
abbrev pub sizeof_event_loop : ℕ
sizeof_event_loop = 3112

-- `event_loop_create`; `epoll` is whether epoll_create1 succeeds. `none` for NULL.
unfoldable pub event_loop_create : (ℕ → Bool) → Bool → Option EventLoop
event_loop_create alloc epoll =
    if not (alloc sizeof_event_loop)
    then none
    else if not (alloc (16 * sizeof_event_handler))
    then none
    else if not epoll
    then none
    else some new_event_loop

-- `find_handler_index`, `none` for -1.
unfoldable pub find_handler_index : List EventHandler → ℕ → Option ℕ
find_handler_index [] fd = none
find_handler_index (h ∷ hs) fd =
    let later = find_handler_index hs fd in
    if h.fd == fd && h.active then some 0 else elim later [ none ↦ none | some i ↦ some (suc i) ]

-- `a[i] = a[count - 1]` where `i` is not the last, then `count--`.
unfoldable pub remove_at {ℓ} : {A : Type ℓ} → List A → ℕ → List A
remove_at xs i = elim (get_elem? xs (length xs - 1)) [
  | none ↦ []
  | some last ↦ take (length xs - 1) (if ltb i (length xs - 1) then set xs i last else xs)
]

-- The entry that `event_loop_add_fd` writes.
abbrev pub new_handler : ℕ → ℕ → ℕ → ℕ → EventHandler
new_handler fd events callback user_data = record {
  fd = fd;
  events = events;
  callback = callback;
  user_data = user_data;
  active = true;
}

module _ (alloc : ℕ → Bool) (ctl : ℕ → Bool) where
  -- The array is doubled when it is full; `none` when that is not granted.
  unfoldable pub expand_handlers : EventLoop → Option EventLoop
  expand_handlers loop =
      if leb loop.handler_capacity (length loop.handlers)
      then if alloc (loop.handler_capacity * 2 * sizeof_event_handler)
        then some (record loop { handler_capacity = loop.handler_capacity * 2 })
        else none
      else some loop

  -- `event_loop_add_fd`; the Boolean is true for 0 and false for -1. When epoll refuses, the count
  -- goes back.
  unfoldable pub event_loop_add_fd : EventLoop → ℕ → ℕ → ℕ → ℕ → EventLoop × Bool
  event_loop_add_fd loop fd events callback user_data = elim (find_handler_index loop.handlers fd) [
    | some _ ↦ (loop, false)
    | none ↦ elim (expand_handlers loop) [
      | none ↦ (loop, false)
      | some loop' ↦
          if ctl fd
          then (
            record loop' {
              handlers = loop'.handlers ++ (new_handler fd events callback user_data ∷ []);
            },
            true,
          )
          else (loop', false)
    ]
  ]

  -- `event_loop_modify_fd`: the events are stored before epoll is asked.
  unfoldable pub event_loop_modify_fd : EventLoop → ℕ → ℕ → EventLoop × Bool
  event_loop_modify_fd loop fd events = elim (find_handler_index loop.handlers fd) [
    | none ↦ (loop, false)
    | some i ↦ elim (get_elem? loop.handlers i) [
      | none ↦ (loop, false)
      | some h ↦
          (record loop { handlers = set loop.handlers i (record h { events = events }) }, ctl fd)
    ]
  ]

-- `event_loop_remove_fd`
unfoldable pub event_loop_remove_fd : EventLoop → ℕ → EventLoop × Bool
event_loop_remove_fd loop fd = elim (find_handler_index loop.handlers fd) [
  | none ↦ (loop, false)
  | some i ↦ (record loop { handlers = remove_at loop.handlers i }, true)
]

-- `event_loop_stop`
unfoldable pub event_loop_stop : EventLoop → EventLoop
event_loop_stop loop = record loop { running = false }

-- A timer that expires `ms` after the time given: seconds and microseconds with a carry.
abbrev pub expiry : ℕ → ℕ → ℕ → ℕ × ℕ
expiry sec usec ms =
    let usec' = usec + ms % 1000 * 1000 in
    if leb 1000000 usec' then (sec + ms / 1000 + 1, usec' - 1000000) else (sec + ms / 1000, usec')

-- `event_loop_add_timeout` at the time given; `none` for -1, else the id. The int `timeout_ms` is given
-- by its 32 bits, so it is below 0 from 2^31 on.
unfoldable pub event_loop_add_timeout : EventLoop → ℕ → ℕ → ℕ → ℕ → ℕ → EventLoop × Option ℕ
event_loop_add_timeout loop sec usec ms callback user_data =
    if leb (2 ^ 31) ms
    then (loop, none)
    else if leb max_timers (length loop.timers)
    then (loop, none)
    else (
      record loop { next_timer_id = loop.next_timer_id + 1; timers = loop.timers ++ (timer ∷ []) },
      some loop.next_timer_id,
    )
  where
    timer : EventTimer
    timer = record {
      id = loop.next_timer_id;
      sec = (expiry sec usec ms).0;
      usec = (expiry sec usec ms).1;
      callback = callback;
      user_data = user_data;
      active = true;
    }

-- The search of `event_loop_cancel_timeout`.
unfoldable pub find_timer : List EventTimer → ℕ → Option ℕ
find_timer [] id = none
find_timer (t ∷ ts) id =
    let later = find_timer ts id in
    if t.id == id && t.active then some 0 else elim later [ none ↦ none | some i ↦ some (suc i) ]

-- `event_loop_cancel_timeout`
unfoldable pub event_loop_cancel_timeout : EventLoop → ℕ → EventLoop × Bool
event_loop_cancel_timeout loop id = elim (find_timer loop.timers id) [
  | none ↦ (loop, false)
  | some i ↦ (record loop { timers = remove_at loop.timers i }, true)
]

-- The test of `process_timers`.
abbrev pub expired : ℕ → ℕ → EventTimer → Bool
expired sec usec t = ltb t.sec sec || (sec == t.sec && leb t.usec usec)

-- The low 32 bits of a - b.
abbrev pub low_difference : ℕ → ℕ → ℕ
low_difference a b = (a + (2 ^ 32 - b % 2 ^ 32)) % 2 ^ 32

-- What `get_next_timeout` stores in the int `timeout_ms`, as its 32 bits: the difference in
-- milliseconds, where the part from the microseconds is rounded towards 0.
abbrev pub timeout_bits : ℕ → ℕ → EventTimer → ℕ
timeout_bits sec usec t =
    if leb usec t.usec
    then low_difference (t.sec * 1000 + (t.usec - usec) / 1000) (sec * 1000)
    else low_difference (t.sec * 1000) (sec * 1000 + (usec - t.usec) / 1000)

-- `if (timeout_ms < 0) timeout_ms = 0;`
abbrev pub remaining_ms : ℕ → ℕ → EventTimer → ℕ
remaining_ms sec usec t =
    if leb (2 ^ 31) (timeout_bits sec usec t) then 0 else timeout_bits sec usec t

-- The loop of `get_next_timeout`: `none` is the -1 of the start.
unfoldable pub min_timeout : ℕ → ℕ → List EventTimer → Option ℕ → Option ℕ
min_timeout sec usec [] least = least
min_timeout sec usec (t ∷ ts) least =
    min_timeout sec usec ts (if t.active then next least else least)
  where
    next : Option ℕ → Option ℕ
    next none = some (remaining_ms sec usec t)
    next (some m) =
        if ltb (remaining_ms sec usec t) m then some (remaining_ms sec usec t) else some m

-- `get_next_timeout`
unfoldable pub get_next_timeout : ℕ → ℕ → EventLoop → Option ℕ
get_next_timeout sec usec loop = min_timeout sec usec loop.timers none

-- A call that a callback makes on its loop, a timeout at the time at which it makes it.
pub data Call : Type 0 where
  add_fd modify_fd : ℕ → ℕ → ℕ → ℕ → Call
  remove_fd cancel_timeout : ℕ → Call
  add_timeout : ℕ → ℕ → ℕ → ℕ → ℕ → Call
  stop : Call

-- How a timer's callback is called.
abbrev pub timer_call : EventTimer → Fired
timer_call t = record { callback = t.callback; fd = none; events = 8; user_data = t.user_data }

-- The result of a run of `process_timers`: the loop; or `timer_count` has gone below 0, because a
-- callback cancelled the last timers itself (the source then goes on with that count, which is not
-- modelled); or the fuel is used up.
pub data Processed : Type 0 where
  processed : EventLoop → Processed
  underflow exhausted : Processed

module _ (alloc : ℕ → Bool) (ctl : ℕ → Bool) (behaviour : Fired → List Call) where
  unfoldable pub run_call : EventLoop → Call → EventLoop
  run_call loop (add_fd fd events callback user_data) =
      (event_loop_add_fd alloc ctl loop fd events callback user_data).0
  run_call loop (modify_fd fd events _ _) = (event_loop_modify_fd alloc ctl loop fd events).0
  run_call loop (remove_fd fd) = (event_loop_remove_fd loop fd).0
  run_call loop (cancel_timeout id) = (event_loop_cancel_timeout loop id).0
  run_call loop (add_timeout sec usec ms callback user_data) =
      (event_loop_add_timeout loop sec usec ms callback user_data).0
  run_call loop stop = event_loop_stop loop

  unfoldable pub run_calls : EventLoop → List Call → EventLoop
  run_calls loop [] = loop
  run_calls loop (c ∷ cs) = run_calls (run_call loop c) cs

  -- A callback is called, and makes its calls.
  unfoldable pub fire : EventLoop → Fired → EventLoop
  fire loop f = run_calls (record loop { fired = loop.fired ++ (f ∷ []) }) (behaviour f)

  -- One round of the loop over the events of epoll_wait.
  unfoldable pub dispatch_event : EventLoop → ℕ → ℕ → EventLoop
  dispatch_event loop fd flags = elim (find_handler_index loop.handlers fd) [
    | none ↦ loop
    | some i ↦ elim (get_elem? loop.handlers i) [
      | none ↦ loop
      | some h ↦
          fire loop (record {
            callback = h.callback;
            fd = some fd;
            events = flags;
            user_data = h.user_data;
          })
    ]
  ]

  unfoldable pub dispatch_events : EventLoop → List (ℕ × ℕ) → EventLoop
  dispatch_events loop [] = loop
  dispatch_events loop ((fd, flags) ∷ events) =
      dispatch_events (dispatch_event loop fd flags) events

  -- The loop of `process_timers` from index `i` on. Behind a callback the entry at `i` is taken to
  -- be the timer that fired; its place is filled from the end, and looked at again.
  unfoldable pub process_from : ℕ → ℕ → ℕ → ℕ → EventLoop → Processed
  process_from zero sec usec i loop = exhausted
  process_from (suc fuel) sec usec i loop = elim (get_elem? loop.timers i) [
    | none ↦ processed loop
    | some t ↦
        let next = process_from fuel sec usec (suc i) loop in
        let loop' = fire loop (timer_call t) in
        let loop'' : EventLoop = record loop' { timers = remove_at loop'.timers i } in
        let same = process_from fuel sec usec i loop'' in
        let past = process_from fuel sec usec (suc i) loop'' in
        if t.active && expired sec usec t
        then if length loop'.timers == 0
          then underflow
          else if ltb i (length loop'.timers - 1)
          then same
          else past
        else next
  ]

  -- `process_timers`
  unfoldable pub process_timers : ℕ → ℕ → ℕ → EventLoop → Processed
  process_timers fuel sec usec loop = process_from fuel sec usec 0 loop
