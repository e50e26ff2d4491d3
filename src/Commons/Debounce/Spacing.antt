-- ===== src/Commons/Debounce/Spacing.antt =====
-- How far the calls of a debounced function are apart.
use universal_login_sdk.Prelude.{ℕ, ◌+◌, ◌≤◌, Option, none, some, List, [], ◌∷◌, arith, subst, sym}
use universal_login_sdk.Commons.Debounce.{
  Timer, Ran, Debounced, call, do_later, Step, called, passed, fired, Run, here, then, fresh,
}

module _ {A : Type 0} (wait_milliseconds : ℕ) where
  -- Each call is so long after the one before it.
  abbrev pub AreSpaced : List (Ran A) → Type 0
  AreSpaced [] = Unit
  AreSpaced (r ∷ []) = Unit
  AreSpaced (r ∷ q ∷ rs) = (q.at + wait_milliseconds ≤ r.at) × AreSpaced (q ∷ rs)

  -- No call was made after a time.
  abbrev IsPast : ℕ → List (Ran A) → Type 0
  IsPast time [] = Unit
  IsPast time (r ∷ rs) = r.at ≤ time

  -- A timer that is set is due so long after the last call.
  abbrev IsLater : Option (Timer A) → List (Ran A) → Type 0
  IsLater none ran = Unit
  IsLater (some timer) [] = Unit
  IsLater (some timer) (r ∷ rs) = r.at + wait_milliseconds ≤ timer.due

  record IsWell (s : Debounced A) : Type 0 where
    spaced : AreSpaced s.ran
    past : IsPast s.now s.ran
    later : IsLater s.timeout s.ran

  IsPast-mono : (n m : ℕ) (ran : List (Ran A)) → n ≤ m → IsPast n ran → IsPast m ran
  IsPast-mono n m [] le past = tt
  IsPast-mono n m (r ∷ rs) le past = omega arith

  IsLater-call :
      (now : ℕ) (args : A) (ran : List (Ran A))
      → IsPast now ran
      → IsLater (some (record { args = args; due = now + wait_milliseconds })) ran
  IsLater-call now args [] past = tt
  IsLater-call now args (r ∷ rs) past = omega arith

  AreSpaced-∷ :
      (now : ℕ) (timer : Timer A) (ran : List (Ran A))
      → timer.due ≤ now
      → IsLater (some timer) ran
      → AreSpaced ran
      → AreSpaced (record { args = timer.args; at = now } ∷ ran)
  AreSpaced-∷ now timer [] due later spaced = tt
  AreSpaced-∷ now timer (r ∷ rs) due later spaced = (omega arith, spaced)

  Step-IsWell : (s s' : Debounced A) → Step wait_milliseconds s s' → IsWell s → IsWell s'
  unfolding call do_later
  Step-IsWell s s' (called args e) well = subst IsWell (sym e) (record {
    spaced = well.spaced;
    past = well.past;
    later = IsLater-call s.now args s.ran well.past;
  })
  Step-IsWell s s' (passed ms e) well = subst IsWell (sym e) (record {
    spaced = well.spaced;
    past = IsPast-mono s.now (s.now + ms) s.ran (omega arith) well.past;
    later = well.later;
  })
  Step-IsWell s s' (fired timer set due e) well = subst IsWell (sym e) (record {
    spaced =
        AreSpaced-∷ s.now timer s.ran due (subst (λ t. IsLater t s.ran) set well.later) well.spaced;
    past = omega arith;
    later = tt;
  })

  Run-IsWell : (s s' : Debounced A) → Run wait_milliseconds s s' → IsWell s → IsWell s'
  Run-IsWell s s' here well = well
  Run-IsWell s s' (then run step) well = Step-IsWell _ s' step (Run-IsWell s _ run well)

  -- However calls come and time passes, and however late timers fire, two calls of a debounced
  -- function are at least the waiting time apart.
  pub Run-AreSpaced :
      (now : ℕ) (s : Debounced A) → Run wait_milliseconds (fresh now) s → AreSpaced s.ran
  Run-AreSpaced now s run =
      let well = Run-IsWell (fresh now) s run (record { spaced = tt; past = tt; later = tt }) in
      well.spaced
