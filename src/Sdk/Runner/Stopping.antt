-- ===== src/Sdk/Runner/Stopping.antt =====
-- When finalizeAndStop returns.
use universal_login_sdk.Prelude.{
  if◌then◌else◌, ℕ, ◌+◌, ◌≤◌, ◌<◌, ◌≡◌, ◌≢◌, refl, sym, subst, ◌∙◌, List, [], ◌∷◌, ◌++◌, arith,
  true, false,
}
use universal_login_sdk.Sdk.DeploymentObserver.{stopping, running, is_running}
use universal_login_sdk.Sdk.Runner.{
  Runner, Event, start_called, stop_called, finalize_called, tick_returned, tick_threw, timer_fired,
  wait_ended, step, run,
}
use universal_login_sdk.Sdk.Runner.Loops.{NeverStops}

-- An observer that is stopping, but has no loop that could end.
pub record IsStuck (base : ℕ) (r : Runner) : Type 0 where
  pub is_stopping : r.state ≡ stopping
  pub no_loop : r.ticking + r.sleeping ≡ 0
  pub same : r.returned ≡ base

step-IsStuck :
    (base : ℕ) (e : Event) (es : List Event) (r : Runner)
    → NeverStops (e ∷ es)
    → IsStuck base r
    → IsStuck base (step e r) × NeverStops es
unfolding step
step-IsStuck base start_called es r never s = (ground arith, never)
step-IsStuck base stop_called es r never s = elim never [ ]
step-IsStuck base finalize_called es r never s = (ground arith, never)
step-IsStuck base tick_returned es r never s = (ground arith, never)
step-IsStuck base tick_threw es r never s = (ground arith, never)
step-IsStuck base timer_fired es r never s = (ground arith, never)
step-IsStuck base wait_ended es r never s = (ground arith, never)

run-IsStuck :
    (base : ℕ) (es : List Event) (r : Runner)
    → NeverStops es
    → IsStuck base r
    → IsStuck base (run es r)
unfolding run
run-IsStuck base [] r never s = s
run-IsStuck base (e ∷ es) r never s =
    let (s', never') = step-IsStuck base e es r never s in run-IsStuck base es (step e r) never' s'

finalize-IsStuck :
    (r : Runner) → r.ticking + r.sleeping ≡ 0 → IsStuck r.returned (step finalize_called r)
unfolding step
finalize-IsStuck r no_loop = ground arith

-- Where no loop is left, because none was started, or its tick threw, finalizeAndStop never returns:
-- whatever is called but `stop`, a start too, and whatever ends, the observer goes on stopping.
pub finalize_and_stop-IsStuck :
    (es : List Event) (r : Runner)
    → NeverStops es
    → r.ticking + r.sleeping ≡ 0
    → IsStuck r.returned (run es (step finalize_called r))
finalize_and_stop-IsStuck es r never no_loop =
    run-IsStuck r.returned es (step finalize_called r) never (finalize-IsStuck r no_loop)

-- All events but further calls, and ticks that throw.
abbrev pub IsOrderly : List Event → Type 0
IsOrderly [] = Unit
IsOrderly (start_called ∷ es) = ⊥
IsOrderly (stop_called ∷ es) = ⊥
IsOrderly (finalize_called ∷ es) = ⊥
IsOrderly (tick_threw ∷ es) = ⊥
IsOrderly (_ ∷ es) = IsOrderly es

-- An observer whose one loop is about to end, or has ended, with a call of `finalizeAndStop` that
-- waits, or has returned.
record IsEnding (base : ℕ) (r : Runner) : Type 0 where
  not_running : r.state ≢ running
  one_loop : is_running r.state ≡ true → r.ticking + r.sleeping ≡ 1
  no_loop : is_running r.state ≡ false → r.ticking + r.sleeping ≡ 0
  called : base < r.waiting + r.returned
  since : base ≤ r.returned

-- How far the loop has come to its end: its timer, its tick, nothing.
abbrev stage : Runner → ℕ
stage r = if is_running r.state then r.ticking else 2

step-IsEnding :
    (base : ℕ) (e : Event) (es : List Event) (r : Runner)
    → IsOrderly (e ∷ es)
    → IsEnding base r
    → IsEnding base (step e r)
      × (stage r ≤ stage (step e r))
      × (r.returned ≤ (step e r).returned)
      × IsOrderly es
unfolding step
step-IsEnding base start_called es r orderly s = elim orderly [ ]
step-IsEnding base stop_called es r orderly s = elim orderly [ ]
step-IsEnding base finalize_called es r orderly s = elim orderly [ ]
step-IsEnding base tick_returned es r orderly s =
    (ground arith, ground arith, ground arith, orderly)
step-IsEnding base tick_threw es r orderly s = elim orderly [ ]
step-IsEnding base timer_fired es r orderly s = (ground arith, ground arith, ground arith, orderly)
step-IsEnding base wait_ended es r orderly s = (ground arith, ground arith, ground arith, orderly)

-- What holds after orderly events of a runner that has come so far.
record HasCome (base far : ℕ) (r : Runner) : Type 0 where
  ending : IsEnding base r
  come : far ≤ stage r

run-HasCome :
    (base far : ℕ) (es : List Event) (r : Runner)
    → IsOrderly es
    → HasCome base far r
    → HasCome base far (run es r) × (r.returned ≤ (run es r).returned)
unfolding run
run-HasCome base far [] r orderly c = (c, omega arith)
run-HasCome base far (e ∷ es) r orderly c =
    let (ending, further, more, orderly') = step-IsEnding base e es r orderly c.ending in
    let (c', more') =
      run-HasCome base far es (step e r) orderly'
        (record { ending = ending; come = omega (arith, c.come, further) }) in
    (c', omega (arith, more, more'))

timer_fired-HasCome :
    (base : ℕ) (r : Runner) → HasCome base 0 r → HasCome base 1 (step timer_fired r)
unfolding step
timer_fired-HasCome base r c =
    let kept = step-IsEnding base timer_fired [] r tt c.ending in
    let s = c.ending in record { ending = kept.0; come = ground (arith, s.one_loop, s.no_loop) }

tick_returned-HasCome :
    (base : ℕ) (r : Runner) → HasCome base 1 r → HasCome base 2 (step tick_returned r)
unfolding step
tick_returned-HasCome base r c =
    let kept = step-IsEnding base tick_returned [] r tt c.ending in
    let s = c.ending in let came = c.come in record { ending = kept.0; come = ground arith }

wait_ended-HasCome :
    (base : ℕ) (r : Runner) → HasCome base 2 r → base < (step wait_ended r).returned
unfolding step
wait_ended-HasCome base r c = let s = c.ending in let came = c.come in ground arith

finalize-HasCome :
    (r : Runner)
    → is_running r.state ≡ true
    → r.ticking + r.sleeping ≡ 1
    → HasCome r.returned 0 (step finalize_called r)
unfolding step
finalize-HasCome r runs one = record {
  ending = record {
    not_running = ground arith;
    one_loop = ground arith;
    no_loop = ground arith;
    called = ground arith;
    since = ground arith;
  };
  come = ground arith;
}

run-append : (es es' : List Event) (r : Runner) → run (es ++ es') r ≡ run es' (run es r)
unfolding run
run-append [] es' r = refl
run-append (e ∷ es) es' r = run-append es es' (step e r)

run-HasCome_then :
    (base far : ℕ) (es : List Event) (e : Event) (rest : List Event) (r : Runner)
    → IsOrderly es
    → HasCome base far r
    → (r' : Runner) × HasCome base far r' × (run (es ++ e ∷ rest) r ≡ run rest (step e r'))
unfolding run
run-HasCome_then base far es e rest r orderly c =
    (run es r, (run-HasCome base far es r orderly c).0, run-append es (e ∷ rest) r)

-- An observer with one loop, in its tick or before it, ends: once its timer fired, its tick returned,
-- and a wait of finalizeAndStop is over after that, finalizeAndStop has returned, whatever else ends
-- before, between and after these, if no tick throws and nothing else is called.
pub finalize_and_stop-returns :
    (r : Runner) (before between after : List Event)
    → is_running r.state ≡ true
    → r.ticking + r.sleeping ≡ 1
    → IsOrderly before
    → IsOrderly between
    → IsOrderly after
    → r.returned
      < (run
          (before ++ timer_fired ∷ (between ++ tick_returned ∷ (after ++ wait_ended ∷ [])))
          (step finalize_called r)).returned
unfolding run step
finalize_and_stop-returns r before between after runs one o1 o2 o3 =
    let (r1, c1, e1) =
      run-HasCome_then r.returned 0 before timer_fired
        (between ++ tick_returned ∷ (after ++ wait_ended ∷ [])) (step finalize_called r) o1
        (finalize-HasCome r runs one) in
    let (r2, c2, e2) =
      run-HasCome_then r.returned 1 between tick_returned (after ++ wait_ended ∷ [])
        (step timer_fired r1) o2 (timer_fired-HasCome r.returned r1 c1) in
    let (r3, c3, e3) =
      run-HasCome_then r.returned 2 after wait_ended [] (step tick_returned r2) o3
        (tick_returned-HasCome r.returned r2 c2) in
    subst (λ t. r.returned < t.returned) (sym (e1 ∙ e2 ∙ e3)) (returns r3 c3)
  where
    returns :
        (t : Runner) → HasCome r.returned 2 t → r.returned < (run [] (step wait_ended t)).returned
    returns t c = wait_ended-HasCome r.returned t c
