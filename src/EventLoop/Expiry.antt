-- ===== src/EventLoop/Expiry.antt =====
-- src/event_loop.c, `process_timers`: it ends, and leaves no timer that is due.
use modern_c_web_library.Base.{
  ℕ, zero, suc, ◌+◌, ◌-◌, ◌≤◌, ◌<◌, Bool, false, Option, none, some, List, [], ◌∷◌, ◌++◌, ◌&&◌, ◌≡◌,
  refl, ◌∙◌, sym, ap, length, All, ltb, ◌==◌, arith, get_elem?, take, take-length, Bool-cases, inl,
  inr,
}
use modern_c_web_library.EventLoop.{
  EventTimer, EventLoop, remove_at, event_loop_add_fd, event_loop_modify_fd, expand_handlers,
  event_loop_remove_fd, event_loop_stop, Call, add_fd, modify_fd, remove_fd, stop, cancel_timeout,
  add_timeout, run_call, run_calls, fire, timer_call, Fired, process_from, process_timers,
  Processed, processed, expired,
}
use modern_c_web_library.EventLoop.Arrays.{get-none, get-some, remove_at_keeps, All-snoc}

-- A call that leaves the timers alone.
abbrev pub IsFdCall : Call → Type 0
IsFdCall (cancel_timeout id) = ⊥
IsFdCall (add_timeout sec usec ms callback user_data) = ⊥
IsFdCall _ = Unit

-- The timer is not to be fired at that time.
abbrev pub NotDue : ℕ → ℕ → EventTimer → Type 0
NotDue sec usec t = (t.active && expired sec usec t) ≡ false

module _ (alloc : ℕ → Bool) (ctl : ℕ → Bool) (behaviour : Fired → List Call) where
  run_call-timers :
      (loop : EventLoop) (c : Call)
      → IsFdCall c
      → (run_call alloc ctl behaviour loop c).timers ≡ loop.timers
  unfolding run_call event_loop_add_fd event_loop_modify_fd event_loop_remove_fd event_loop_stop
      expand_handlers
  run_call-timers loop (add_fd fd events callback user_data) q = ground (arith)
  run_call-timers loop (modify_fd fd events _ _) q = ground arith
  run_call-timers loop (remove_fd fd) q = ground arith
  run_call-timers loop (cancel_timeout id) q = absurd q
  run_call-timers loop (add_timeout sec usec ms callback user_data) q = absurd q
  run_call-timers loop stop q = refl

  run_calls-timers :
      (loop : EventLoop) (cs : List Call)
      → All IsFdCall cs
      → (run_calls alloc ctl behaviour loop cs).timers ≡ loop.timers
  unfolding run_calls
  run_calls-timers loop [] q = refl
  run_calls-timers loop (c ∷ cs) (p, q) =
      run_calls-timers (run_call alloc ctl behaviour loop c) cs q ∙ run_call-timers loop c p

  module _ (calm : (t : EventTimer) → All IsFdCall (behaviour (timer_call t))) (sec usec : ℕ) where
    fire-timers :
        (loop : EventLoop) (t : EventTimer)
        → (fire alloc ctl behaviour loop (timer_call t)).timers ≡ loop.timers
    unfolding fire
    fire-timers loop t =
        run_calls-timers (record loop { fired = loop.fired ++ (timer_call t ∷ []) })
          (behaviour (timer_call t)) (calm t)

    abbrev pub Ends : Processed → Type 0
    Ends r = (loop' : EventLoop) × (r ≡ processed loop') × All (NotDue sec usec) loop'.timers

    pub process_from-Ends :
        (fuel i : ℕ) (loop : EventLoop)
        → length loop.timers - i < fuel
        → All (NotDue sec usec) (take i loop.timers)
        → Ends (process_from alloc ctl behaviour fuel sec usec i loop)
    unfolding process_from
    process_from-Ends zero i loop enough before = absurd (omega arith)
    process_from-Ends (suc fuel) i loop enough before =
        go (get_elem? loop.timers i) refl (λ k l. process_from-Ends fuel k l)
      where
        Again : Type 0
        Again =
            (k : ℕ) (l : EventLoop)
            → length l.timers - k < fuel
            → All (NotDue sec usec) (take k l.timers)
            → Ends (process_from alloc ctl behaviour fuel sec usec k l)

        compacted : EventTimer → EventLoop
        compacted t = record (fire alloc ctl behaviour loop (timer_call t)) {
          timers = remove_at (fire alloc ctl behaviour loop (timer_call t)).timers i;
        }

        go :
            (r : Option EventTimer)
            → get_elem? loop.timers i ≡ r
            → Again
            → Ends (process_from alloc ctl behaviour (suc fuel) sec usec i loop)
        go none e ih = (
          loop,
          rw (process_from, e) refl,
          rw (← take-length i loop.timers (get-none loop.timers i e)) before,
        )
        go (some t) e ih = elim (Bool-cases (t.active && expired sec usec t)) [
          | inr later ↦
              let (loop', ran, rest) =
                ih (suc i) loop (omega (arith, inside))
                  (All-snoc (NotDue sec usec) loop.timers i t e before later) in
              (loop', rw (process_from, e, later) ran, rest)
          | inl due ↦
              elim (Bool-cases
                (ltb i (length (fire alloc ctl behaviour loop (timer_call t)).timers - 1))) [
                  | inl moved ↦
                      let (loop', ran, rest) =
                        ih i (compacted t) (omega (arith, shorter, inside)) (rw (kept) before) in
                      (loop', rw (process_from, e, due, some-left, moved) ran, rest)
                  | inr last ↦
                      let (loop', ran, rest) =
                        ih (suc i) (compacted t) (omega (arith, shorter, inside))
                          (rw (nothing-behind last) before) in
                      (loop', rw (process_from, e, due, some-left, last) ran, rest)
                ]
        ]
          where
            same : (fire alloc ctl behaviour loop (timer_call t)).timers ≡ loop.timers
            same = fire-timers loop t

            inside : i < length loop.timers
            inside = get-some loop.timers i t e

            some-left : (length (fire alloc ctl behaviour loop (timer_call t)).timers == 0) ≡ false
            some-left = rw same (ground (arith, inside))

            shorter : length (compacted t).timers + 1 ≡ length loop.timers
            shorter = rw same (remove_at_keeps loop.timers i inside).1

            kept : take i (compacted t).timers ≡ take i loop.timers
            kept = rw same (remove_at_keeps loop.timers i inside).0

            nothing-behind :
                ltb i (length (fire alloc ctl behaviour loop (timer_call t)).timers - 1) ≡ false
                → take (suc i) (compacted t).timers ≡ take i loop.timers
            nothing-behind last =
                let short : length (compacted t).timers ≤ i =
                  ground (arith, shorter, ap length same, last) in
                take-length (suc i) (compacted t).timers (omega (arith, short))
                ∙ sym (take-length i (compacted t).timers short)
                ∙ kept

-- When the callbacks of timers neither set nor cancel timers, `process_timers` ends within one round more than there
-- are timers, and no timer that is left is due at its time.
pub process_timers_ends :
    (alloc ctl : ℕ → Bool) (behaviour : Fired → List Call) (sec usec : ℕ) (loop : EventLoop)
    → ((t : EventTimer) → All IsFdCall (behaviour (timer_call t)))
    → (loop' : EventLoop) × (process_timers alloc ctl behaviour
          (length loop.timers + 1)
          sec
          usec
          loop
        ≡ processed loop')
      × All (NotDue sec usec) loop'.timers
unfolding process_timers
process_timers_ends alloc ctl behaviour sec usec loop calm =
    process_from-Ends alloc ctl behaviour calm sec usec (length loop.timers + 1) 0 loop
      (omega arith) tt
