-- ===== src/Sdk/Runner/Loops.antt =====
-- How many loops of an observer run at once.
use universal_login_sdk.Prelude.{
  ℕ, zero, suc, ◌+◌, ◌≤◌, ◌≡◌, refl, false, List, [], ◌∷◌, ap, ◌∙◌, arith,
}
use universal_login_sdk.Sdk.DeploymentObserver.{running, is_running}
use universal_login_sdk.Sdk.Runner.{
  Runner, new_runner, Event, start_called, stop_called, finalize_called, tick_returned, tick_threw,
  timer_fired, wait_ended, step, run, start, stop,
}

-- All events but calls of `stop`.
abbrev pub NeverStops : List Event → Type 0
NeverStops [] = Unit
NeverStops (stop_called ∷ es) = ⊥
NeverStops (_ ∷ es) = NeverStops es

-- At most one loop, and none once the observer is stopped.
pub record IsSingle (r : Runner) : Type 0 where
  pub most : r.ticking + r.sleeping ≤ 1
  pub none_left : is_running r.state ≡ false → r.ticking + r.sleeping ≡ 0

step-IsSingle :
    (e : Event) (es : List Event) (r : Runner)
    → NeverStops (e ∷ es)
    → IsSingle r
    → IsSingle (step e r) × NeverStops es
unfolding step start
step-IsSingle start_called es r never s = (ground arith, never)
step-IsSingle stop_called es r never s = elim never [ ]
step-IsSingle finalize_called es r never s = (ground arith, never)
step-IsSingle tick_returned es r never s = (ground arith, never)
step-IsSingle tick_threw es r never s = (ground arith, never)
step-IsSingle timer_fired es r never s = (ground arith, never)
step-IsSingle wait_ended es r never s = (ground arith, never)

run-IsSingle_from :
    (es : List Event) (r : Runner) → NeverStops es → IsSingle r → IsSingle (run es r)
unfolding run
run-IsSingle_from [] r never s = s
run-IsSingle_from (e ∷ es) r never s =
    let (s', never') = step-IsSingle e es r never s in run-IsSingle_from es (step e r) never' s'

-- As long as `stop` is not called, an observer has one loop at most, whatever is called, in whatever
-- order ticks and timers end, and whichever ticks throw; it has none once it is stopped.
pub run-IsSingle : (es : List Event) → NeverStops es → IsSingle (run es new_runner)
run-IsSingle es never =
    run-IsSingle_from es new_runner never (record { most = omega arith; none_left = λ _. refl })

-- So many calls of `stop`, each with a call of `start` right after it.
abbrev pub restarts : ℕ → List Event
restarts zero = []
restarts (suc n) = stop_called ∷ start_called ∷ restarts n

restart :
    (r : Runner)
    → r.state ≡ running
    → step start_called (step stop_called r) ≡ record r { ticking = suc r.ticking }
unfolding step start stop
restart r runs = ground arith

run-suc :
    (n : ℕ) (r : Runner)
    → run (restarts (suc n)) r ≡ run (restarts n) (step start_called (step stop_called r))
unfolding run
run-suc n r = refl

-- A running observer that is stopped and started again before its timer fires keeps its old loop and
-- gets another one: after n such restarts, n more loops ask at once.
pub run-restarts :
    (n : ℕ) (r : Runner)
    → r.state ≡ running
    → run (restarts n) r ≡ record r { ticking = r.ticking + n }
unfolding run
run-restarts zero r runs = ground arith
run-restarts (suc n) r runs =
    run-suc n r
    ∙ ap (run (restarts n)) (restart r runs)
    ∙ run-restarts n (record r { ticking = suc r.ticking }) runs
    ∙ ground arith
