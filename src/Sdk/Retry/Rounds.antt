-- ===== src/Sdk/Retry/Rounds.antt =====
-- How often a call is repeated, and when its result is returned.
use universal_login_sdk.Prelude.{
  Result-cases, ℕ, zero, suc, ◌+◌, ◌*◌, ◌≤◌, ◌<◌, ◌≡◌, ◌∙◌, refl, inl, inr, ◌⊎◌, Bool, true, false,
  List, [], ◌∷◌, length, ltb, Result, ok, err, arith, ap, subst, sym, Bool-cases,
}
use universal_login_sdk.Sdk.Errors.{SdkError, timeout_error}
use universal_login_sdk.Sdk.RelayerApi.{HttpRequest, Net, Line, Api}
use universal_login_sdk.Sdk.Retry.Asked.{Asked, Asked-∷}
use universal_login_sdk.Sdk.Retry.{sleep, rounds}

module _ {R : Type 0} (net : Net) (callback : Api R) (predicate : R → Result SdkError Bool)
    (tick : ℕ) where
  -- The line after a call and the sleep after it.
  abbrev pub after_round : Line → Line
  after_round w = (sleep net tick (callback w).1).1

  -- One round: it throws, or it returns a result that is wanted, or the rounds go on.
  rounds-suc :
      (n stop_time : ℕ) (w : Line)
      → ((x : SdkError) × (w' : Line) × (rounds net callback predicate tick (suc n) stop_time w
            ≡ (err x, w'))
          × ((w'.requests ≡ w.requests) ⊎ (w'.requests ≡ (callback w).1.requests)))
        ⊎ (((a : R) × (predicate a ≡ ok false)
              × (rounds net callback predicate tick (suc n) stop_time w ≡ (ok a, after_round w)))
            ⊎ ((w.now < stop_time)
                × (rounds net callback predicate tick (suc n) stop_time w
                    ≡ rounds net callback predicate tick n stop_time (after_round w))))
  unfolding rounds sleep
  rounds-suc n stop_time w = elim (Bool-cases (ltb w.now stop_time)) [
    | inr e1 ↦ inl (timeout_error, w, ground arith, inl refl)
    | inl e1 ↦ elim (Result-cases ((callback w).0)) [
      | inl (x, e2) ↦ inl (x, (callback w).1, ground arith, ground arith)
      | inr (a, e2) ↦ elim (Result-cases (predicate a)) [
        | inl (x, e3) ↦ inl (x, after_round w, ground arith, ground arith)
        | inr (again, e3) ↦ elim (Bool-cases again) [
          | inl e4 ↦ inr (inr (ground arith, ground arith))
          | inr e4 ↦ inr (inl (a, ground arith, ground arith))
        ]
      ]
    ]
  ]

  -- Where no time is left, the loop throws.
  rounds-stop :
      (n stop_time : ℕ) (w : Line)
      → stop_time ≤ w.now
      → rounds net callback predicate tick n stop_time w ≡ (err timeout_error, w)
  unfolding rounds
  rounds-stop zero stop_time w over = refl
  rounds-stop (suc n) stop_time w over = ground arith

  rounds-suc_more :
      (n more stop_time : ℕ) (w : Line)
      → (rounds net callback predicate tick n stop_time (after_round w)
          ≡ rounds net callback predicate tick more stop_time (after_round w))
      → rounds net callback predicate tick (suc n) stop_time w
        ≡ rounds net callback predicate tick (suc more) stop_time w
  unfolding rounds sleep
  rounds-suc_more n more stop_time w same = elim (Bool-cases (ltb w.now stop_time)) [
    | inr e1 ↦ ground arith
    | inl e1 ↦ elim (Result-cases ((callback w).0)) [
      | inl (x, e2) ↦ ground arith
      | inr (a, e2) ↦ elim (Result-cases (predicate a)) [
        | inl (x, e3) ↦ ground arith
        | inr (again, e3) ↦ ground arith
      ]
    ]
  ]

  -- All fuels that the time left does not exceed do the same, where the clock moves in each round.
  pub rounds-fuel :
      ((w : Line) → w.now < (after_round w).now)
      → (n more stop_time : ℕ) (w : Line) → stop_time ≤ w.now + n
      → stop_time ≤ w.now + more
      → rounds net callback predicate tick n stop_time w
        ≡ rounds net callback predicate tick more stop_time w
  rounds-fuel passes zero more stop_time w enough enough' =
      rounds-stop zero stop_time w (omega arith) ∙ sym (rounds-stop more stop_time w (omega arith))
  rounds-fuel passes (suc n) zero stop_time w enough enough' =
      rounds-stop (suc n) stop_time w (omega arith)
      ∙ sym (rounds-stop zero stop_time w (omega arith))
  rounds-fuel passes (suc n) (suc more) stop_time w enough enough' =
      rounds-suc_more n more stop_time w (
        rounds-fuel passes n more stop_time (after_round w) (omega (arith, passes w))
          (omega (arith, passes w)))

  rounds-zero :
      (stop_time : ℕ) (w : Line)
      → rounds net callback predicate tick zero stop_time w ≡ (err timeout_error, w)
  unfolding rounds
  rounds-zero stop_time w = refl

  -- Where each call makes one request, and there is time for at most so many ticks, at most so many
  -- requests are made, each of that kind.
  pub rounds-Asked :
      (Kind : HttpRequest → Type 0)
      → ((w : Line) → (r : HttpRequest) × Kind r × ((callback w).1.requests ≡ r ∷ w.requests))
      → ((w : Line) → w.now + tick ≤ (after_round w).now)
      → (n k stop_time : ℕ) (w : Line) → stop_time ≤ w.now + tick * k
      → Asked Kind k w.requests (rounds net callback predicate tick n stop_time w).1.requests
  unfolding sleep
  rounds-Asked Kind one passes zero k stop_time w left =
      subst (λ r. Asked Kind k w.requests r.1.requests) (sym (rounds-zero stop_time w))
        ([], refl, tt, omega arith)
  rounds-Asked Kind one passes (suc n) zero stop_time w left =
      subst (λ r. Asked Kind 0 w.requests r.1.requests)
        (sym (rounds-stop (suc n) stop_time w (omega arith))) ([], refl, tt, omega arith)
  rounds-Asked Kind one passes (suc n) (suc k) stop_time w left =
      let (r, kind, made) = one w in
      let once : Asked Kind (suc k) w.requests (callback w).1.requests =
        (r ∷ [], made, (kind, tt), omega arith) in
      let end : List HttpRequest =
        (rounds net callback predicate tick n stop_time (after_round w)).1.requests in
      elim (rounds-suc n stop_time w) [
        | inl (x, w', e, inl same) ↦
            subst (λ r. Asked Kind (suc k) w.requests r.1.requests) (sym e)
              ([], same, tt, omega arith)
        | inl (x, w', e, inr same) ↦
            subst (λ r. Asked Kind (suc k) w.requests r.1.requests) (sym e)
              (subst (Asked Kind (suc k) w.requests) (sym same) once)
        | inr (inl (a, _, e)) ↦ subst (λ r. Asked Kind (suc k) w.requests r.1.requests) (sym e) once
        | inr (inr (_, e)) ↦
            subst (λ r. Asked Kind (suc k) w.requests r.1.requests) (sym e)
              (Asked-∷ Kind k r w.requests end kind (
                subst (λ before. Asked Kind k before end) made
                  (rounds-Asked Kind one passes n k stop_time (after_round w)
                    (omega (arith, passes w)))))
      ]

  -- A result that is returned is one that is not wanted again.
  pub rounds-wanted :
      (n stop_time : ℕ) (w : Line) (a : R)
      → (rounds net callback predicate tick n stop_time w).0 ≡ ok a
      → predicate a ≡ ok false
  rounds-wanted zero stop_time w a e = ground (arith, rounds-zero stop_time w)
  rounds-wanted (suc n) stop_time w a e = elim (rounds-suc n stop_time w) [
    | inl (x, w', same, _) ↦ ground arith
    | inr (inl (b, wanted, same)) ↦ ground arith
    | inr (inr (_, same)) ↦
        rounds-wanted n stop_time (after_round w) a (ap (λ r. r.0) (sym same) ∙ e)
  ]

  rounds-once :
      (n stop_time : ℕ) (w : Line) (a : R) (again : Bool)
      → w.now < stop_time
      → (callback w).0 ≡ ok a
      → predicate a ≡ ok again
      → rounds net callback predicate tick (suc n) stop_time w
        ≡ (elim again as (λ b. Result SdkError R × Line) [
          | true ↦ rounds net callback predicate tick n stop_time (after_round w)
          | false ↦ (ok a, after_round w)
        ])
  unfolding rounds sleep
  rounds-once n stop_time w a true time called test = ground arith
  rounds-once n stop_time w a false time called test = ground arith

  -- Where the calls do not throw and the results are wanted once so many requests were made, a
  -- result is returned if the time is enough for the rounds up to it.
  pub rounds-return :
      (Good : R → Type 0) (most wanted_from : ℕ)
      → ((w : Line)
          → (a : R) × (again : Bool) × ((callback w).0 ≡ ok a)
            × (predicate a ≡ ok again)
            × Good a
            × (wanted_from ≤ length w.requests → again ≡ false))
      → ((w : Line) → (after_round w).now ≤ w.now + most)
      → ((w : Line) → suc (length w.requests) ≤ length (after_round w).requests)
      → (n j stop_time : ℕ) (w : Line) → j ≤ n
      → w.now + most * j < stop_time
      → wanted_from ≤ length w.requests + j
      → (a : R) × (w' : Line) × (rounds net callback predicate tick (suc n) stop_time w
          ≡ (ok a, w'))
        × Good a
  unfolding sleep
  rounds-return Good most wanted_from answers passes one n zero stop_time w fuel time wanted =
      let (a, again, called, test, good, last) = answers w in
      let test' : predicate a ≡ ok false = test ∙ ap ok (last (omega arith)) in
      (a, after_round w, rounds-once n stop_time w a false (omega arith) called test', good)
  rounds-return Good most wanted_from answers passes one zero (suc j) stop_time w fuel time wanted =
      let bad : ⊥ = omega arith in elim bad [ ]
  rounds-return Good most wanted_from answers passes one (suc n) (suc j) stop_time w fuel time
        wanted =
      let (a, again, called, test, good, last) = answers w in
      elim again
          as (λ b.
            predicate a ≡ ok b
            → (a : R) × (w' : Line) × (rounds net callback predicate tick (suc (suc n)) stop_time w
                ≡ (ok a, w'))
              × Good a) [
                | false ↦ λ test'. (
                  a,
                  after_round w,
                  rounds-once (suc n) stop_time w a false (omega arith) called test',
                  good,
                )
                | true ↦ λ test'.
                    let (b, w', e, good') =
                      rounds-return Good most wanted_from answers passes one n j stop_time
                        (after_round w) (omega arith) (omega (arith, passes w))
                        (omega (arith, one w)) in
                    (
                      b,
                      w',
                      rounds-once (suc n) stop_time w a true (omega arith) called test' ∙ e,
                      good',
                    )
              ]
        test
