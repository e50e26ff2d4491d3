-- ===== src/Tests/Lifecycle.antt =====
-- The SDK's observers that are started and stopped, at schedules in which ticks end and throw.
use universal_login_sdk.Prelude.{◌<◌, ◌≡◌, refl, some, List, [], ◌∷◌, ◌++◌, ok}
use universal_login_sdk.Sdk.DeploymentObserver.{running}
use universal_login_sdk.Sdk.Runner.{
  Runner, new_runner, Event, start_called, finalize_called, tick_returned, tick_threw, timer_fired,
  wait_ended, step, run, start, enter_loop,
}
use universal_login_sdk.Sdk.Runner.Loops.{IsSingle, restarts, run-IsSingle, run-restarts}
use universal_login_sdk.Sdk.Runner.Stopping.{
  IsStuck, finalize_and_stop-IsStuck, finalize_and_stop-returns,
}
use universal_login_sdk.Sdk.Client.Lifecycle.{Observers, Happening, happen_all}
use universal_login_sdk.Sdk.Client.Lifecycle.Stranded.{IsStranded, happen_all-IsStranded}

-- A runner whose one loop waits for its tick.
abbrev ticking : Runner
ticking = record new_runner { state = running; ticking = 1 }

started : step start_called new_runner ≡ ticking
unfolding step start enter_loop
started = refl

abbrev usual : List Event
usual = start_called ∷ tick_returned ∷ timer_fired ∷ finalize_called ∷ tick_returned ∷ []

run-IsSingle_example : IsSingle (run usual new_runner)
run-IsSingle_example = run-IsSingle usual tt

run-restarts_example : run (restarts 3) ticking ≡ record ticking { ticking = 4 }
run-restarts_example = run-restarts 3 ticking refl

-- A runner whose tick threw.
abbrev dead : Runner
dead = record new_runner { state = running }

died : step tick_threw ticking ≡ dead
unfolding step
died = refl

finalize_and_stop-IsStuck_example :
    IsStuck 0 (run (wait_ended ∷ start_called ∷ wait_ended ∷ []) (step finalize_called dead))
finalize_and_stop-IsStuck_example =
    finalize_and_stop-IsStuck (wait_ended ∷ start_called ∷ wait_ended ∷ []) dead tt refl

finalize_and_stop-returns_example :
    0
    < (run
        ((wait_ended ∷ [])
          ++ timer_fired ∷ ((wait_ended ∷ []) ++ tick_returned ∷ ([] ++ wait_ended ∷ [])))
        (step finalize_called ticking)).returned
finalize_and_stop-returns_example =
    finalize_and_stop-returns ticking (wait_ended ∷ []) (wait_ended ∷ []) [] refl refl tt tt tt

abbrev observers : Observers
observers = record { relayer = dead; blockchain = ticking; last_block = some 7 }

abbrev happenings : List Happening
happenings =
    Happening.in_relayer wait_ended
    ∷ Happening.start_called (ok 9)
    ∷ Happening.in_blockchain tick_returned
    ∷ []

happen_all-IsStranded_example :
    ((happen_all (Happening.finalize_called ∷ happenings) observers).blockchain.returned ≡ 0)
    × IsStranded 0 (happen_all (Happening.finalize_called ∷ happenings) observers)
happen_all-IsStranded_example =
    happen_all-IsStranded happenings observers refl refl refl (tt, (tt, tt))
