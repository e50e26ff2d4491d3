-- ===== src/Sdk/DeploymentObserver.antt =====
-- observers/ObserverRunner.ts and observers/DeploymentObserver.ts: a loop that asks every second
-- whether a contract is deployed. The timers that are set are counted; a fired timer is one turn.
pub mod Turns
use universal_login_sdk.Prelude.{
  ℕ, suc, Bool, true, false, not, Option, none, some, List, [], ◌∷◌, Text, codes, ◌==◌, any, leb,
  length, Result, ok, err, Exec, pure, raise, gets, lift, modify, ensure, ◌>>=◌, ◌>>◌,
  if◌then◌else◌,
}
use universal_login_sdk.Sdk.Errors.{SdkError, concurrent_deployment, unsupported_bytecode, error}

pub data ObserverRunnerState : Type 0 where
  stopped stopping running : ObserverRunnerState

-- What `isContractExist` throws on an empty text.
unfoldable pub empty_bytecode : SdkError
empty_bytecode = error (codes "Empty bytecode")

pub record Observer : Type 0 where
  pub state : ObserverRunnerState
  pub future_contract_address : Text
  -- the addresses that the callback was called with, last first
  pub notified : List Text
  pub timers : ℕ

abbrev pub Observing : Type 0 → Type 0
Observing A = Exec SdkError Observer A

abbrev pub is_running : ObserverRunnerState → Bool
is_running stopped = false
is_running _ = true

abbrev pub is_stopping : ObserverRunnerState → Bool
is_stopping stopping = true
is_stopping _ = false

unfoldable pub stop : Observing (Unit {0})
stop = modify (λ s. record s { state = stopped })

-- the first line of `finalizeAndStop`, which then waits until the state is `stop`
unfoldable pub finalize : Observing (Unit {0})
finalize = modify (λ s. record s { state = stopping })

-- `isContractExist` of universal-login-commons
unfoldable pub is_contract_exist : Text → Observing Bool
is_contract_exist bytecode = do
  ensure (leb 1 (length bytecode)) empty_bytecode
  pure (not (bytecode == codes "0x"))

module _ (keccak256 : Text → Text) (white_list : List Text) where
  -- the `if` of `checkContract`
  unfoldable pub on_deployed : Text → Text → Bool → Observing (Unit {0})
  on_deployed address bytecode false = pure tt
  on_deployed address bytecode true = do
    ensure (any (λ h. h == keccak256 bytecode) white_list) unsupported_bytecode
    modify (λ s. record s { notified = address ∷ s.notified })
    stop

  -- `checkContract`, by the node's answer, and a callback that returns
  unfoldable pub check_contract : Result SdkError Text → Text → Observing (Unit {0})
  unfolding on_deployed
  check_contract answer address = do
    bytecode ← lift answer
    exists ← is_contract_exist bytecode
    on_deployed address bytecode exists

  unfoldable pub tick : Result SdkError Text → Observing (Unit {0})
  tick answer s = check_contract answer s.future_contract_address s

  -- the last `if` of `loop`
  unfoldable pub go_on : Observing (Unit {0})
  go_on = modify (λ s.
      if is_stopping s.state
      then record s { state = stopped }
      else record s { timers = suc s.timers })

  -- `loop`, by what the node answers
  unfoldable pub loop : Result SdkError Text → Observing (Unit {0})
  loop answer s = if is_running s.state then (tick answer >> go_on) s else (ok tt, s)

  -- `start`: the loop's errors are not awaited
  unfoldable pub start : Result SdkError Text → Observing (Unit {0})
  start answer s =
      if is_running s.state
      then (ok tt, s)
      else (ok tt, (loop answer (record s { state = running })).1)

  unfoldable pub start_and_subscribe : Result SdkError Text → Text → Observing (Unit {0})
  start_and_subscribe answer address = do
    busy ← gets (λ s. is_running s.state)
    ensure (not busy) concurrent_deployment
    modify (λ s. record s { future_contract_address = address })
    start answer
