-- ===== src/EventLoop/Growth.antt =====
-- src/event_loop.c: callbacks that do not cancel timers leave at least as many timers as there were.
use modern_c_web_library.Base.{ℕ, ◌≤◌, ◌∷◌, [], List, Bool, ◌++◌, length, length-append, All, arith}
use modern_c_web_library.EventLoop.{
  EventLoop, event_loop_add_fd, event_loop_modify_fd, expand_handlers, event_loop_remove_fd,
  event_loop_add_timeout, event_loop_stop, Call, add_fd, modify_fd, remove_fd, stop, cancel_timeout,
  add_timeout, run_call, run_calls, fire, Fired,
}

-- A call that cancels no timer.
abbrev pub IsKeeping : Call → Type 0
IsKeeping (cancel_timeout id) = ⊥
IsKeeping _ = Unit

module _ (alloc : ℕ → Bool) (ctl : ℕ → Bool) (behaviour : Fired → List Call) where
  run_call-grows :
      (loop : EventLoop) (c : Call)
      → IsKeeping c
      → length loop.timers ≤ length (run_call alloc ctl behaviour loop c).timers
  unfolding run_call event_loop_add_fd event_loop_modify_fd event_loop_remove_fd event_loop_stop
      expand_handlers event_loop_add_timeout
  run_call-grows loop (add_fd fd events callback user_data) q = ground arith
  run_call-grows loop (modify_fd fd events _ _) q = ground arith
  run_call-grows loop (remove_fd fd) q = ground arith
  run_call-grows loop (cancel_timeout id) q = absurd q
  run_call-grows loop (add_timeout sec usec ms callback user_data) q = grind (arith, length-append)
  run_call-grows loop stop q = omega arith

  run_calls-grows :
      (loop : EventLoop) (cs : List Call)
      → All IsKeeping cs
      → length loop.timers ≤ length (run_calls alloc ctl behaviour loop cs).timers
  unfolding run_calls
  run_calls-grows loop [] q = omega arith
  run_calls-grows loop (c ∷ cs) (p, q) =
      let next = run_call alloc ctl behaviour loop c in
      omega (arith, run_call-grows loop c p, run_calls-grows next cs q)

  pub fire-grows :
      (loop : EventLoop) (f : Fired)
      → All IsKeeping (behaviour f)
      → length loop.timers ≤ length (fire alloc ctl behaviour loop f).timers
  unfolding fire
  fire-grows loop f q =
      run_calls-grows (record loop { fired = loop.fired ++ (f ∷ []) }) (behaviour f) q
