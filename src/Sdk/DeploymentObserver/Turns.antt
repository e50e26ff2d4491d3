-- ===== src/Sdk/DeploymentObserver/Turns.antt =====
-- What the turns of the observer's loop notify.
use universal_login_sdk.Prelude.{
  ℕ, suc, ◌+◌, ◌≤◌, ◌≡◌, refl, subst, sym, ◌⊎◌, inl, inr, true, List, [], ◌∷◌, Text, codes, ◌==◌,
  any, leb, length, Result, ok, err, arith, Bool-cases,
}
use universal_login_sdk.Sdk.Errors.{SdkError, concurrent_deployment, unsupported_bytecode}
use universal_login_sdk.Sdk.DeploymentObserver.{
  ObserverRunnerState, stopped, stopping, running, empty_bytecode, Observer, is_running, stop,
  is_contract_exist, on_deployed, check_contract, tick, go_on, loop, start_and_subscribe,
}

Result-split : {E A : Type 0} (r : Result E A) → ((x : E) × (r ≡ err x)) ⊎ ((a : A) × (r ≡ ok a))
Result-split (ok a) = inr (a, refl)
Result-split (err x) = inl (x, refl)

state-cases : (s : ObserverRunnerState) → (s ≡ stopped) ⊎ ((s ≡ stopping) ⊎ (s ≡ running))
state-cases stopped = inl refl
state-cases stopping = inr (inl refl)
state-cases running = inr (inr refl)

-- How many notifications a state may still give.
abbrev weight : ObserverRunnerState → ℕ
weight stopped = 0
weight _ = 1

module _ (keccak256 : Text → Text) (white_list : List Text) where
  -- A tick throws, or it finds no contract, and changes nothing; or it finds a contract whose
  -- bytecode is listed, notifies of it, and stops the observer.
  tick_cases :
      (answer : Result SdkError Text) (s : Observer)
      → let run = tick keccak256 white_list answer s in
        ((x : SdkError) × (run ≡ (err x, s)))
        ⊎ ((run ≡ (ok tt, s))
            ⊎ ((bytecode : Text) × (answer ≡ ok bytecode)
                × (any (λ h. h == keccak256 bytecode) white_list ≡ true)
                × (run ≡ (
                  ok tt,
                  record s { state = stopped; notified = s.future_contract_address ∷ s.notified },
                ))))
  unfolding tick check_contract on_deployed is_contract_exist stop
  tick_cases answer s = elim (Result-split answer) [
    | inl (x, e1) ↦ inl (x, ground arith)
    | inr (bytecode, e1) ↦ elim (Bool-cases (leb 1 (length bytecode))) [
      | inr e2 ↦ inl (empty_bytecode, ground arith)
      | inl e2 ↦ elim (Bool-cases (bytecode == codes "0x")) [
        | inl e3 ↦ inr (inl (ground arith))
        | inr e3 ↦ elim (Bool-cases (any (λ h. h == keccak256 bytecode) white_list)) [
          | inr e4 ↦ inl (unsupported_bytecode, ground arith)
          | inl e4 ↦ inr (inr (bytecode, e1, e4, ground arith))
        ]
      ]
    ]
  ]

  -- The turns of a loop whose timer fires, each with what the node answers then. An error ends it.
  pub turns : List (Result SdkError Text) → Observer → Observer
  turns [] s = s
  turns (answer ∷ answers) s =
      let rest = turns answers (loop keccak256 white_list answer s).1 in
      elim (loop keccak256 white_list answer s).0 [
        | ok _ ↦ rest
        | err x ↦ (loop keccak256 white_list answer s).1
      ]

  loop-weight :
      (answer : Result SdkError Text) (s : Observer)
      → length (loop keccak256 white_list answer s).1.notified
          + weight (loop keccak256 white_list answer s).1.state
        ≤ length s.notified + weight s.state
  unfolding loop go_on
  loop-weight answer s = elim (state-cases s.state) [
    | inl e1 ↦ ground arith
    | inr (inl e1) ↦ elim (tick_cases answer s) [
      | inl (x, e2) ↦ ground arith
      | inr (inl e2) ↦ ground arith
      | inr (inr (bytecode, _, _, e2)) ↦ ground arith
    ]
    | inr (inr e1) ↦ elim (tick_cases answer s) [
      | inl (x, e2) ↦ ground arith
      | inr (inl e2) ↦ ground arith
      | inr (inr (bytecode, _, _, e2)) ↦ ground arith
    ]
  ]

  turns_err :
      (answer : Result SdkError Text) (answers : List (Result SdkError Text)) (s : Observer)
      (x : SdkError)
      → (loop keccak256 white_list answer s).0 ≡ err x
      → turns (answer ∷ answers) s ≡ (loop keccak256 white_list answer s).1
  unfolding turns
  turns_err answer answers s x h = ground (arith, h)

  turns_ok :
      (answer : Result SdkError Text) (answers : List (Result SdkError Text)) (s : Observer)
      (u : Unit {0})
      → (loop keccak256 white_list answer s).0 ≡ ok u
      → turns (answer ∷ answers) s ≡ turns answers (loop keccak256 white_list answer s).1
  unfolding turns
  turns_ok answer answers s u h = ground (arith, h)

  turns-weight :
      (answers : List (Result SdkError Text)) (s : Observer)
      → length (turns answers s).notified + weight (turns answers s).state
        ≤ length s.notified + weight s.state
  unfolding turns
  turns-weight [] s = omega arith
  turns-weight (answer ∷ answers) s =
      let one = loop-weight answer s in
      let rest = turns-weight answers (loop keccak256 white_list answer s).1 in
      elim (Result-split (loop keccak256 white_list answer s).0) [
        | inl (x, e1) ↦ subst Bounded (sym (turns_err answer answers s x e1)) one
        | inr (u, e1) ↦ subst Bounded (sym (turns_ok answer answers s u e1)) (bounded rest one)
      ]
    where
      Bounded : Observer → Type 0
      Bounded t = length t.notified + weight t.state ≤ length s.notified + weight s.state

      bounded : {a b c : ℕ} → a ≤ b → b ≤ c → a ≤ c
      bounded h k = omega arith

  -- Whatever the node answers, and however often the loop's timer fires, the callback of one
  -- subscription is called at most once.
  pub turns-notified :
      (answers : List (Result SdkError Text)) (s : Observer)
      → length (turns answers s).notified ≤ suc (length s.notified)
  turns-notified answers s = elim (state-cases s.state) [
    | inl e1 ↦ let bound = turns-weight answers s in ground (arith, bound)
    | inr (inl e1) ↦ let bound = turns-weight answers s in ground (arith, bound)
    | inr (inr e1) ↦ let bound = turns-weight answers s in ground (arith, bound)
  ]

  -- Once a tick of a running observer throws, its loop is over, but the state stays as it was, so that
  -- every later subscription is refused.
  pub start_and_subscribe-loop :
      (answer later : Result SdkError Text) (address : Text) (x : SdkError) (s : Observer)
      → is_running s.state ≡ true
      → (tick keccak256 white_list answer s).0 ≡ err x
      → (loop keccak256 white_list answer s ≡ (err x, s))
        × (start_and_subscribe keccak256 white_list later address
              (loop keccak256 white_list answer s).1
            ≡ (err concurrent_deployment, s))
  unfolding loop start_and_subscribe
  start_and_subscribe-loop answer later address x s runs fails = elim (tick_cases answer s) [
    | inl (y, e1) ↦ (ground arith, ground arith)
    | inr (inl e1) ↦ absurd (ground arith)
    | inr (inr (bytecode, _, _, e1)) ↦ absurd (ground arith)
  ]
