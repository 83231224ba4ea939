-- ===== src/EventLoop/Run.antt =====
-- src/event_loop.c, `event_loop_run`: the loop over what epoll_wait reports, and what holds after it.
pub mod Ends
use modern_c_web_library.Base.{
  ℕ, zero, suc, ◌-◌, Bool, true, false, Option, none, some, List, [], ◌∷◌, ◌++◌, ◌&&◌, length,
  if◌then◌else◌, ltb, ◌==◌, arith, get_elem?, All, ◌≡◌, refl,
}
use modern_c_web_library.EventLoop.{
  EventHandler, EventTimer, EventLoop, find_handler_index, remove_at, Call, fire, dispatch_event,
  dispatch_events, timer_call, Fired, process_from, process_timers, Processed, processed, underflow,
  exhausted, expired,
}
use modern_c_web_library.EventLoop.Registry.{IsValid, run_calls-IsValid}
use modern_c_web_library.EventLoop.Growth.{IsKeeping, fire-grows}
use modern_c_web_library.EventLoop.Arrays.{get-some, length-remove_at, All-remove_at}

-- What one turn of the loop meets: the descriptors that epoll_wait reports with the flags that the loop
-- makes of them, and the time at which the timers are looked at.
pub record Turn : Type 0 where
  pub events : List (ℕ × ℕ)
  pub sec : ℕ
  pub usec : ℕ

module _ (alloc : ℕ → Bool) (ctl : ℕ → Bool) (behaviour : Fired → List Call) where
  -- The loop of `event_loop_run`, as far as there are turns. (A turn that epoll_wait leaves on EINTR
  -- has no effect; one that it leaves on another error ends the run.) A run in which `timer_count` goes
  -- below 0 is followed no further than to there.
  unfoldable pub run_turns : ℕ → List Turn → EventLoop → Processed
  run_turns fuel [] loop = processed loop
  run_turns fuel (turn ∷ turns) loop =
      if loop.running
      then elim (process_timers alloc ctl behaviour fuel turn.sec turn.usec dispatched) [
        | processed loop' ↦ run_turns fuel turns loop'
        | underflow ↦ underflow
        | exhausted ↦ exhausted
      ]
      else processed loop
    where
      dispatched : EventLoop
      dispatched = dispatch_events alloc ctl behaviour loop turn.events

  -- `event_loop_run`
  unfoldable pub event_loop_run : ℕ → List Turn → EventLoop → Processed
  event_loop_run fuel turns loop = run_turns fuel turns (record loop { running = true })

-- The loop that is left is well-formed; or a pass over the timers takes more rounds than the fuel.
abbrev pub LeavesIsValid : Processed → Type 0
LeavesIsValid (processed loop) = IsValid loop
LeavesIsValid underflow = ⊥
LeavesIsValid exhausted = Unit

-- The parts of a loop that the invariant is about.
pub IsValid-same :
    (loop : EventLoop) (running : Bool) (fired : List Fired)
    → IsValid loop
    → IsValid (record loop { running = running; fired = fired })
IsValid-same loop running fired v = record {
  handlers-bound = v.handlers-bound;
  capacity-positive = v.capacity-positive;
  handlers-active = v.handlers-active;
  timers-bound = v.timers-bound;
  timers-active = v.timers-active;
  ids-below = v.ids-below;
}

module _ (alloc : ℕ → Bool) (ctl : ℕ → Bool) (behaviour : Fired → List Call) where
  fire-IsValid :
      (loop : EventLoop) (f : Fired) → IsValid loop → IsValid (fire alloc ctl behaviour loop f)
  unfolding fire
  fire-IsValid loop f v =
      run_calls-IsValid alloc ctl behaviour (record loop { fired = loop.fired ++ (f ∷ []) })
        (behaviour f) (IsValid-same loop loop.running (loop.fired ++ (f ∷ [])) v)

  dispatch_event-IsValid :
      (loop : EventLoop) (fd flags : ℕ)
      → IsValid loop
      → IsValid (dispatch_event alloc ctl behaviour loop fd flags)
  unfolding dispatch_event
  dispatch_event-IsValid loop fd flags v = found (find_handler_index loop.handlers fd)
    where
      called :
          (r : Option EventHandler)
          → let after : EventLoop = elim r [
            | none ↦ loop
            | some h ↦ fire alloc ctl behaviour loop (record {
              callback = h.callback;
              fd = some fd;
              events = flags;
              user_data = h.user_data;
            })
          ] in
            IsValid after
      called none = v
      called (some h) = fire-IsValid loop _ v

      found :
          (o : Option ℕ)
          → let after : EventLoop = elim o [
            | none ↦ loop
            | some i ↦ elim (get_elem? loop.handlers i) [
              | none ↦ loop
              | some h ↦ fire alloc ctl behaviour loop (record {
                callback = h.callback;
                fd = some fd;
                events = flags;
                user_data = h.user_data;
              })
            ]
          ] in
            IsValid after
      found none = v
      found (some i) = called (get_elem? loop.handlers i)

  pub dispatch_events-IsValid :
      (loop : EventLoop) (events : List (ℕ × ℕ))
      → IsValid loop
      → IsValid (dispatch_events alloc ctl behaviour loop events)
  unfolding dispatch_events
  dispatch_events-IsValid loop [] v = v
  dispatch_events-IsValid loop ((fd, flags) ∷ events) v =
      dispatch_events-IsValid (dispatch_event alloc ctl behaviour loop fd flags) events
        (dispatch_event-IsValid loop fd flags v)

module _ (alloc : ℕ → Bool) (ctl : ℕ → Bool) (behaviour : Fired → List Call)
    (keeping : (t : EventTimer) → All IsKeeping (behaviour (timer_call t))) where
  pub process_from-IsValid :
      (fuel sec usec i : ℕ) (loop : EventLoop)
      → IsValid loop
      → LeavesIsValid (process_from alloc ctl behaviour fuel sec usec i loop)
  unfolding process_from
  process_from-IsValid zero sec usec i loop v = tt
  process_from-IsValid (suc fuel) sec usec i loop v =
      go (get_elem? loop.timers i) (λ k l. process_from-IsValid fuel sec usec k l) refl
    where
      fired : EventTimer → EventLoop
      fired t = fire alloc ctl behaviour loop (timer_call t)

      compacted : EventTimer → EventLoop
      compacted t = record (fired t) { timers = remove_at (fired t).timers i }

      compacted-IsValid : (t : EventTimer) → IsValid (compacted t)
      compacted-IsValid t =
          let w = fire-IsValid alloc ctl behaviour loop (timer_call t) v in
          record {
            handlers-bound = w.handlers-bound;
            capacity-positive = w.capacity-positive;
            handlers-active = w.handlers-active;
            timers-bound = omega (arith, length-remove_at (fired t).timers i, w.timers-bound);
            timers-active = All-remove_at _ (fired t).timers i w.timers-active;
            ids-below = All-remove_at _ (fired t).timers i w.ids-below;
          }

      some-left :
          (t : EventTimer)
          → get_elem? loop.timers i ≡ some t
          → (length (fired t).timers == 0) ≡ false
      some-left t e =
          let inside = get-some loop.timers i t e in
          ground (arith, inside, fire-grows alloc ctl behaviour loop (timer_call t) (keeping t))

      due :
          (t : EventTimer) (none-left moved : Bool)
          → ((k : ℕ) (l : EventLoop)
              → IsValid l
              → LeavesIsValid (process_from alloc ctl behaviour fuel sec usec k l))
          → none-left ≡ false
          → LeavesIsValid (
              if none-left
              then underflow
              else if moved
              then process_from alloc ctl behaviour fuel sec usec i (compacted t)
              else process_from alloc ctl behaviour fuel sec usec (suc i) (compacted t))
      due t true moved ih some-left = ground (arith, some-left)
      due t false true ih some-left = ih i (compacted t) (compacted-IsValid t)
      due t false false ih some-left = ih (suc i) (compacted t) (compacted-IsValid t)

      go :
          (r : Option EventTimer)
          → ((k : ℕ) (l : EventLoop)
              → IsValid l
              → LeavesIsValid (process_from alloc ctl behaviour fuel sec usec k l))
          → get_elem? loop.timers i ≡ r
          → let after : Processed = elim r [
            | none ↦ processed loop
            | some t ↦
                if t.active && expired sec usec t
                then if length (fired t).timers == 0
                  then underflow
                  else if ltb i (length (fired t).timers - 1)
                  then process_from alloc ctl behaviour fuel sec usec i (compacted t)
                  else process_from alloc ctl behaviour fuel sec usec (suc i) (compacted t)
                else process_from alloc ctl behaviour fuel sec usec (suc i) loop
          ] in
            LeavesIsValid after
      go none ih e = v
      go (some t) ih e =
          elim (t.active && expired sec usec t)
            as (λ b. LeavesIsValid (
              if b
              then if length (fired t).timers == 0
                then underflow
                else if ltb i (length (fired t).timers - 1)
                then process_from alloc ctl behaviour fuel sec usec i (compacted t)
                else process_from alloc ctl behaviour fuel sec usec (suc i) (compacted t)
              else process_from alloc ctl behaviour fuel sec usec (suc i) loop)) [
                | true ↦
                    due t (length (fired t).timers == 0) (ltb i (length (fired t).timers - 1)) ih
                      (some-left t e)
                | false ↦ ih (suc i) loop v
              ]

  pub run_turns-IsValid :
      (fuel : ℕ) (turns : List Turn) (loop : EventLoop)
      → IsValid loop
      → LeavesIsValid (run_turns alloc ctl behaviour fuel turns loop)
  unfolding run_turns process_timers
  run_turns-IsValid fuel [] loop v = v
  run_turns-IsValid fuel (turn ∷ turns) loop v =
      go loop.running (process_from alloc ctl behaviour fuel turn.sec turn.usec 0 dispatched)
        (process_from-IsValid fuel turn.sec turn.usec 0 dispatched
          (dispatch_events-IsValid alloc ctl behaviour loop turn.events v))
        (λ l. run_turns-IsValid fuel turns l)
    where
      dispatched : EventLoop
      dispatched = dispatch_events alloc ctl behaviour loop turn.events

      go :
          (b : Bool) (r : Processed)
          → LeavesIsValid r
          → ((l : EventLoop)
              → IsValid l
              → LeavesIsValid (run_turns alloc ctl behaviour fuel turns l))
          → let after : Processed =
              if b
              then elim r [
                | processed loop' ↦ run_turns alloc ctl behaviour fuel turns loop'
                | underflow ↦ underflow
                | exhausted ↦ exhausted
              ]
              else processed loop in
            LeavesIsValid after
      go true (processed loop') w ih = ih loop' w
      go true underflow w ih = w
      go true exhausted w ih = tt
      go false r w ih = v

  -- When the callbacks of timers cancel no timers, whatever else they and the callbacks of descriptors
  -- do, whatever is reported and whatever the time: a run of `event_loop_run` from a well-formed loop
  -- never takes `timer_count` below 0, and leaves the loop well-formed when it comes to the end of its
  -- turns or stops, provided that no pass over the timers takes more rounds than the fuel.
  pub event_loop_run-IsValid :
      (fuel : ℕ) (turns : List Turn) (loop : EventLoop)
      → IsValid loop
      → LeavesIsValid (event_loop_run alloc ctl behaviour fuel turns loop)
  unfolding event_loop_run
  event_loop_run-IsValid fuel turns loop v =
      run_turns-IsValid fuel turns (record loop { running = true })
        (IsValid-same loop true loop.fired v)
