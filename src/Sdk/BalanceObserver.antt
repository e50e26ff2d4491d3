-- ===== src/Sdk/BalanceObserver.antt =====
-- observers/BalanceObserver.ts: a loop that waits until a future wallet can pay for its deployment.
use universal_login_sdk.Prelude.{
  ℕ, suc, not, Option, none, some, List, [], ◌∷◌, Text, Result, ok, err, Exec, gets, modify, ensure,
  ◌>>=◌, ◌>>◌, if◌then◌else◌,
}
use universal_login_sdk.Sdk.Errors.{SdkError, concurrent_deployment}
use universal_login_sdk.Sdk.DeploymentObserver.{
  ObserverRunnerState, stopped, running, is_running, is_stopping,
}

-- `callback(tokenAddress, contractAddress)`
pub record Ready : Type 0 where
  pub token_address : Text
  pub contract_address : Option Text

-- The observer: its timers are counted, and the calls of its callback are kept, last first.
pub record BalanceObserver : Type 0 where
  pub state : ObserverRunnerState
  pub contract_address : Option Text
  pub notified : List Ready
  pub timers : ℕ

abbrev pub Watching : Type 0 → Type 0
Watching A = Exec SdkError BalanceObserver A

-- the value of a text that is truthy
abbrev pub nonempty : Option Text → Option Text
nonempty (some []) = none
nonempty value = value

unfoldable pub stop : Watching (Unit {0})
stop = modify (λ o. record o { state = stopped })

-- `onBalanceChanged`
unfoldable pub on_balance_changed : Option Text → Text → Watching (Unit {0})
unfolding stop
on_balance_changed contract_address token_address = do
  modify (λ o. record o {
    notified =
        record { token_address = token_address; contract_address = contract_address } ∷ o.notified;
  })
  modify (λ o. record o { contract_address = none })
  stop

-- `checkBalance` from its wait on: the address is read again.
unfoldable pub on_answer : Result SdkError (Option Text) → Watching (Unit {0})
unfolding on_balance_changed
on_answer (err x) o = (err x, o)
on_answer (ok token) o = elim (nonempty token) [
  | none ↦ (ok tt, o)
  | some token_address ↦ on_balance_changed o.contract_address token_address o
]

-- `checkBalance`, by what `findTokenWithRequiredBalance` answers for an address, where nothing else
-- runs during its wait
unfoldable pub check_balance : (Text → Result SdkError (Option Text)) → Watching (Unit {0})
unfolding on_answer
check_balance find_token o = elim (nonempty o.contract_address) [
  | none ↦ (ok tt, o)
  | some address ↦ on_answer (find_token address) o
]

-- `loop` of ObserverRunner
unfoldable pub loop : (Text → Result SdkError (Option Text)) → Watching (Unit {0})
unfolding check_balance
loop find_token o =
    let go_on : Watching (Unit {0}) = modify (λ s.
      if is_stopping s.state
      then record s { state = stopped }
      else record s { timers = suc s.timers }) in
    if is_running o.state then (check_balance find_token >> go_on) o else (ok tt, o)

-- `start` of ObserverRunner, whose loop is not awaited
unfoldable pub start : (Text → Result SdkError (Option Text)) → Watching (Unit {0})
unfolding loop
start find_token o =
    if is_running o.state
    then (ok tt, o)
    else (ok tt, (loop find_token (record o { state = running })).1)

-- `startAndSubscribe`
unfoldable pub start_and_subscribe :
    (Text → Result SdkError (Option Text)) → Text → Watching (Unit {0})
unfolding start
start_and_subscribe find_token contract_address = do
  busy ← gets (λ o. is_running o.state)
  ensure (not busy) concurrent_deployment
  modify (λ o. record o { contract_address = some contract_address })
  start find_token

-- the function that `startAndSubscribe` returns
unfoldable pub unsubscribe : Watching (Unit {0})
unfolding stop
unsubscribe = modify (λ o. record o { contract_address = none }) >> stop
