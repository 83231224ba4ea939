-- ===== src/EventLoop/Run/Ends.antt =====
-- src/event_loop.c, `event_loop_run`: every pass over the timers ends.
use modern_c_web_library.Base.{
  ℕ, ◌≡◌, refl, ap, Bool, true, false, if◌then◌else◌, List, [], ◌∷◌, All, arith,
}
use modern_c_web_library.EventLoop.{
  EventTimer, EventLoop, dispatch_events, Call, add_fd, modify_fd, remove_fd, stop, cancel_timeout,
  add_timeout, timer_call, Fired, process_timers, Processed, processed, underflow, exhausted,
}
use modern_c_web_library.EventLoop.Registry.{IsValid}
use modern_c_web_library.EventLoop.Growth.{IsKeeping}
use modern_c_web_library.EventLoop.Expiry.{IsFdCall, process_from-Ends}
use modern_c_web_library.EventLoop.Run.{
  Turn, run_turns, event_loop_run, LeavesIsValid, process_from-IsValid, dispatch_events-IsValid,
  IsValid-same,
}

IsFdCAll-IsKeeping : (c : Call) → IsFdCall c → IsKeeping c
IsFdCAll-IsKeeping (add_fd fd events callback user_data) q = tt
IsFdCAll-IsKeeping (modify_fd fd events callback user_data) q = tt
IsFdCAll-IsKeeping (remove_fd fd) q = tt
IsFdCAll-IsKeeping (cancel_timeout id) q = q
IsFdCAll-IsKeeping (add_timeout sec usec ms callback user_data) q = tt
IsFdCAll-IsKeeping stop q = tt

All-IsKeeping : (cs : List Call) → All IsFdCall cs → All IsKeeping cs
All-IsKeeping [] q = tt
All-IsKeeping (c ∷ cs) (p, q) = (IsFdCAll-IsKeeping c p, All-IsKeeping cs q)

same : {a b : EventLoop} → processed a ≡ processed b → a ≡ b
same {a} e = ap (λ r. elim r [ processed l ↦ l | underflow ↦ a | exhausted ↦ a ]) e

module _ (alloc : ℕ → Bool) (ctl : ℕ → Bool) (behaviour : Fired → List Call)
    (calm : (t : EventTimer) → All IsFdCall (behaviour (timer_call t))) where
  -- The run ends with a well-formed loop.
  abbrev pub EndsIsValid : Processed → Type 0
  EndsIsValid r = (loop' : EventLoop) × (r ≡ processed loop') × IsValid loop'

  process_timers-EndsIsValid :
      (sec usec : ℕ) (loop : EventLoop)
      → IsValid loop
      → EndsIsValid (process_timers alloc ctl behaviour 65 sec usec loop)
  unfolding process_timers
  process_timers-EndsIsValid sec usec loop v =
      let (loop', ran, _) =
        process_from-Ends alloc ctl behaviour calm sec usec 65 0 loop
          (omega (arith, v.timers-bound)) tt in
      let keeping : (t : EventTimer) → All IsKeeping (behaviour (timer_call t)) =
        λ t. All-IsKeeping (behaviour (timer_call t)) (calm t) in
      let left = process_from-IsValid alloc ctl behaviour keeping 65 sec usec 0 loop v in
      (loop', ran, rw (← ap LeavesIsValid ran) left)

  run_turns-EndsIsValid :
      (turns : List Turn) (loop : EventLoop)
      → IsValid loop
      → EndsIsValid (run_turns alloc ctl behaviour 65 turns loop)
  unfolding run_turns
  run_turns-EndsIsValid [] loop v = (loop, refl, v)
  run_turns-EndsIsValid (turn ∷ turns) loop v =
      let dispatched = dispatch_events alloc ctl behaviour loop turn.events in
      go loop.running (process_timers alloc ctl behaviour 65 turn.sec turn.usec dispatched)
        (process_timers-EndsIsValid turn.sec turn.usec dispatched
          (dispatch_events-IsValid alloc ctl behaviour loop turn.events v))
        (run_turns-EndsIsValid turns)
    where
      go :
          (b : Bool) (r : Processed)
          → EndsIsValid r
          → ((l : EventLoop) → IsValid l → EndsIsValid (run_turns alloc ctl behaviour 65 turns l))
          → let after : Processed =
              if b
              then elim r [
                | processed loop' ↦ run_turns alloc ctl behaviour 65 turns loop'
                | underflow ↦ underflow
                | exhausted ↦ exhausted
              ]
              else processed loop in
            EndsIsValid after
      go false r h ih = (loop, refl, v)
      go true (processed loop') (l, e, w) ih = ih loop' (rw (same e) w)
      go true underflow (l, e, w) ih = absurd (ground (arith, e))
      go true exhausted (l, e, w) ih = absurd (ground (arith, e))

  -- When the callbacks of timers neither set nor cancel timers, while those of descriptors do what they
  -- like: 65 rounds are enough for every pass over the timers of a run of `event_loop_run` from a
  -- well-formed loop, so the run comes to the end of its turns or stops, and the loop is then
  -- well-formed.
  pub event_loop_run_ends :
      (turns : List Turn) (loop : EventLoop)
      → IsValid loop
      → EndsIsValid (event_loop_run alloc ctl behaviour 65 turns loop)
  unfolding event_loop_run
  event_loop_run_ends turns loop v =
      run_turns-EndsIsValid turns (record loop { running = true })
        (IsValid-same loop true loop.fired v)
