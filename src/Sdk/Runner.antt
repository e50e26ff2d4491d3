-- ===== src/Sdk/Runner.antt =====
-- observers/ObserverRunner.ts between its waits: which loops wait for their tick, which for their
-- timer, and which calls of finalizeAndStop wait for the end. What happens next is an event, in any
-- order; a tick that calls `stop` itself is two events.
pub mod Loops
pub mod Stopping
use universal_login_sdk.Prelude.{
  ℕ, suc, ◌+◌, ◌-◌, Bool, true, false, List, [], ◌∷◌, ltb, if◌then◌else◌,
}
use universal_login_sdk.Sdk.DeploymentObserver.{
  ObserverRunnerState, stopped, stopping, running, is_running, is_stopping,
}

pub record Runner : Type 0 where
  pub state : ObserverRunnerState
  -- loops that wait for their tick
  pub ticking : ℕ
  -- loops that wait for their timer
  pub sleeping : ℕ
  -- calls of `finalizeAndStop` that wait
  pub waiting : ℕ
  -- calls of `finalizeAndStop` that returned
  pub returned : ℕ

abbrev pub new_runner : Runner
new_runner = record { state = stopped; ticking = 0; sleeping = 0; waiting = 0; returned = 0 }

-- `loop`, up to the wait for its tick
unfoldable pub enter_loop : Runner → Runner
enter_loop r = if is_running r.state then record r { ticking = suc r.ticking } else r

-- `loop`, once its tick is over
unfoldable pub leave_tick : Runner → Runner
leave_tick r =
    if is_stopping r.state
    then record r { state = stopped }
    else record r { sleeping = suc r.sleeping }

unfoldable pub start : Runner → Runner
unfolding enter_loop
start r = if is_running r.state then r else enter_loop (record r { state = running })

unfoldable pub stop : Runner → Runner
stop r = record r { state = stopped }

-- `finalizeAndStop`, up to its first wait
unfoldable pub finalize_and_stop : Runner → Runner
finalize_and_stop r = record r { state = stopping; waiting = suc r.waiting }

-- the test of its loop, after a wait
unfoldable pub check_stopped : Runner → Runner
check_stopped r =
    if is_running r.state
    then r
    else record r { waiting = r.waiting - 1; returned = suc r.returned }

pub data Event : Type 0 where
  start_called stop_called finalize_called : Event
  tick_returned tick_threw timer_fired wait_ended : Event

-- An event for which nothing waits changes nothing.
unfoldable pub step : Event → Runner → Runner
unfolding start stop finalize_and_stop enter_loop leave_tick check_stopped
step start_called r = start r
step stop_called r = stop r
step finalize_called r = finalize_and_stop r
step tick_returned r =
    if ltb 0 r.ticking then leave_tick (record r { ticking = r.ticking - 1 }) else r
step tick_threw r = if ltb 0 r.ticking then record r { ticking = r.ticking - 1 } else r
step timer_fired r =
    if ltb 0 r.sleeping then enter_loop (record r { sleeping = r.sleeping - 1 }) else r
step wait_ended r = if ltb 0 r.waiting then check_stopped r else r

unfoldable pub run : List Event → Runner → Runner
unfolding step
run [] r = r
run (e ∷ es) r = run es (step e r)
