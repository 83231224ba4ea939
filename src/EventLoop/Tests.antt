-- ===== src/EventLoop/Tests.antt =====
-- src/event_loop.c: runs of the loop's functions, and its theorems at concrete loops.
use modern_c_web_library.Base.{
  ℕ, Bool, true, false, not, ◌==◌, Option, none, some, List, [], ◌∷◌, ◌≡◌, refl, length, All, arith,
}
use modern_c_web_library.EventLoop.{
  EventLoop, new_event_loop, event_loop_create, find_handler_index, find_timer, remove_at,
  event_loop_add_fd, event_loop_modify_fd, event_loop_remove_fd, event_loop_add_timeout,
  event_loop_cancel_timeout, expand_handlers, Call, add_fd, modify_fd, remove_fd, cancel_timeout,
  add_timeout, stop, min_timeout, get_next_timeout, run_call, run_calls, fire, Fired, process_from,
  process_timers, Processed, processed, underflow, dispatch_event, dispatch_events,
}
use modern_c_web_library.EventLoop.Registry.{IsValid, run_calls-IsValid}
use modern_c_web_library.EventLoop.Run.{
  Turn, run_turns, event_loop_run, LeavesIsValid, event_loop_run-IsValid,
}
use modern_c_web_library.EventLoop.Expiry.{NotDue, process_timers_ends}
use modern_c_web_library.EventLoop.Timers.{
  cancel-add_timeout, remove-add_fd, process_timers-underflow,
}
use modern_c_web_library.EventLoop.Wait.{get_next_timeout-IsLeast, InTime, ComesDue, Any}
use modern_c_web_library.EventLoop.Run.Ends.{event_loop_run_ends, EndsIsValid}

abbrev always : ℕ → Bool
always _ = true

abbrev quiet : Fired → List Call
quiet _ = []

-- Each refusal of `event_loop_create`, and the loop it gives otherwise.
creates :
    (event_loop_create (λ n. not (n == 3112)) true ≡ none)
    × (event_loop_create (λ n. not (n == 512)) true ≡ none)
    × (event_loop_create always false ≡ none)
    × (event_loop_create always true ≡ some new_event_loop)
unfolding event_loop_create
creates = (refl, refl, refl, refl)

-- A loop with a timer for 250 ms after 5.9 s.
abbrev waiting : EventLoop
waiting = record new_event_loop {
  next_timer_id = 2;
  timers =
      record { id = 1; sec = 6; usec = 150000; callback = 7; user_data = 0; active = true } ∷ [];
}

create-IsValid : IsValid new_event_loop
unfolding new_event_loop
create-IsValid = record {
  handlers-bound = omega arith;
  capacity-positive = omega arith;
  handlers-active = tt;
  timers-bound = omega arith;
  timers-active = tt;
  ids-below = tt;
}

waiting-IsValid : IsValid waiting
unfolding new_event_loop
waiting-IsValid = record {
  handlers-bound = omega arith;
  capacity-positive = omega arith;
  handlers-active = tt;
  timers-bound = omega arith;
  timers-active = (refl, tt);
  ids-below = (omega arith, tt);
}

runs : Unit {0}
unfolding new_event_loop find_handler_index find_timer remove_at event_loop_add_fd
    event_loop_modify_fd event_loop_remove_fd event_loop_add_timeout event_loop_cancel_timeout
    expand_handlers min_timeout get_next_timeout run_call run_calls fire process_from process_timers
    dispatch_event dispatch_events run_turns event_loop_run
runs = tt

abbrev script : List Call
script =
    add_fd 4 1 10 0
    ∷ add_fd 5 1 11 0
    ∷ add_fd 4 2 12 0
    ∷ modify_fd 5 3 0 0
    ∷ remove_fd 4
    ∷ add_timeout 5 900000 250 7 0
    ∷ []

abbrev after : EventLoop
after = run_calls always always quiet new_event_loop script

keeps_one_handler : length after.handlers ≡ 1
unfolding runs
keeps_one_handler = refl

finds_what_is_left :
    (find_handler_index after.handlers 5 ≡ some 0) × (find_handler_index after.handlers 4 ≡ none)
unfolding runs
finds_what_is_left = (refl, refl)

sets_the_timer : after.timers ≡ waiting.timers
unfolding runs
sets_the_timer = refl

waits : (get_next_timeout 6 0 after ≡ some 150) × (get_next_timeout 7 0 after ≡ some 0)
unfolding runs
waits = (refl, refl)

abbrev called : Processed → Option (ℕ × ℕ)
called (processed loop) = some (length loop.timers, length loop.fired)
called _ = none

fires_when_due :
    (called (process_timers always always quiet 2 6 150000 waiting) ≡ some (0, 1))
    × (called (process_timers always always quiet 2 6 149999 waiting) ≡ some (1, 0))
unfolding runs
fires_when_due = (refl, refl)

least_wait : get_next_timeout 6 0 waiting ≡ some 150
unfolding runs
least_wait = refl

run_calls-IsValid_example :
    IsValid (run_calls always always quiet waiting (add_fd 4 1 10 0 ∷ cancel_timeout 1 ∷ stop ∷ []))
run_calls-IsValid_example =
    run_calls-IsValid always always quiet waiting (add_fd 4 1 10 0 ∷ cancel_timeout 1 ∷ stop ∷ [])
      waiting-IsValid

cancel-add_timeout_example :
    let added = event_loop_add_timeout waiting 5 900000 40 8 0 in
    (added.1 ≡ some 2)
    × ((event_loop_cancel_timeout added.0 2).1 ≡ true)
    × ((event_loop_cancel_timeout added.0 2).0.timers ≡ waiting.timers)
cancel-add_timeout_example =
    cancel-add_timeout waiting 5 900000 40 8 0 waiting-IsValid (omega arith) (omega arith)

get_next_timeout-IsLeast_example :
    All (λ t. t.active ≡ true → InTime 6 0 150 t) waiting.timers
    × Any (λ t. (t.active ≡ true) × ComesDue 6 0 150 t) waiting.timers
get_next_timeout-IsLeast_example =
    get_next_timeout-IsLeast 6 0 waiting waiting-IsValid (omega arith)
      ((omega arith, omega arith, omega arith), tt) 150 least_wait

remove-add_fd_example :
    let added = (event_loop_add_fd always always waiting 4 1 10 0).0 in
    ((event_loop_remove_fd added 4).1 ≡ true)
    × ((event_loop_remove_fd added 4).0.handlers ≡ waiting.handlers)
unfolding runs
remove-add_fd_example = remove-add_fd always always waiting 4 1 10 0 waiting-IsValid refl refl

process_timers-underflow_example :
    process_timers always always (λ _. cancel_timeout 1 ∷ []) 1 7 0 waiting ≡ underflow
process_timers-underflow_example =
    process_timers-underflow always always (λ _. cancel_timeout 1 ∷ []) 0 7 0 waiting
      (record { id = 1; sec = 6; usec = 150000; callback = 7; user_data = 0; active = true }) refl
      refl refl refl

abbrev turns : List Turn
turns =
    record { events = (4, 1) ∷ []; sec = 6; usec = 0 }
    ∷ record { events = []; sec = 6; usec = 150000 }
    ∷ []

-- The timer fires in the second turn; nothing is registered for the descriptor.
fires_in_turn : called (event_loop_run always always quiet 10 turns waiting) ≡ some (0, 1)
unfolding runs
fires_in_turn = refl

event_loop_run-IsValid_example : LeavesIsValid (event_loop_run always always quiet 10 turns waiting)
event_loop_run-IsValid_example =
    event_loop_run-IsValid always always quiet (λ t. tt) 10 turns waiting waiting-IsValid

event_loop_run_ends_example :
    EndsIsValid always always quiet (λ t. tt) (event_loop_run always always quiet 65 turns waiting)
event_loop_run_ends_example =
    event_loop_run_ends always always quiet (λ t. tt) turns waiting waiting-IsValid

process_timers_ends_example :
    (loop' : EventLoop) × (process_timers always always quiet 2 7 0 waiting ≡ processed loop')
    × All (NotDue 7 0) loop'.timers
process_timers_ends_example = process_timers_ends always always quiet 7 0 waiting (λ f. tt)
