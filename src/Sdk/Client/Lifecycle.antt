-- ===== src/Sdk/Client/Lifecycle.antt =====
-- sdk.ts: start, stop and finalizeAndStop of the SDK, over its two observers. An observer's tick, timer
-- or wait may end at any time.
pub mod Stranded
use universal_login_sdk.Prelude.{
  ℕ, suc, ◌+◌, ◌<◌, ◌≡◌, refl, Bool, true, false, List, [], ◌∷◌, ltb, Option, none, some, Result,
  ok, err, Result-cases, inl, inr, if◌then◌else◌, arith,
}
use universal_login_sdk.Sdk.Errors.{SdkError}
use universal_login_sdk.Sdk.DeploymentObserver.{ObserverRunnerState, stopped, stopping, running}
use universal_login_sdk.Sdk.Runner
use universal_login_sdk.Sdk.Runner.{Runner, Event, new_runner}
use universal_login_sdk.Sdk.Runner.Stopping.{IsStuck}

-- The two observers, and the block from which events are asked for.
pub record Observers : Type 0 where
  pub relayer : Runner
  pub blockchain : Runner
  pub last_block : Option ℕ

abbrev pub new_observers : Observers
new_observers = record { relayer = new_runner; blockchain = new_runner; last_block = none }

-- `start` of BlockchainObserver, by the node's answer; where the node fails, it throws.
unfoldable pub start_blockchain : Result SdkError ℕ → Observers → Observers
start_blockchain (ok n) s = record s { last_block = some n; blockchain = Runner.start s.blockchain }
start_blockchain (err x) s = s

-- `start` of the SDK
unfoldable pub start : Result SdkError ℕ → Observers → Observers
unfolding start_blockchain
start answer s = start_blockchain answer (record s { relayer = Runner.start s.relayer })

-- `stop` of the SDK
unfoldable pub stop : Observers → Observers
stop s = record s { relayer = Runner.stop s.relayer; blockchain = Runner.stop s.blockchain }

-- `finalizeAndStop` of the SDK, up to its wait for the relayer's observer
unfoldable pub finalize_and_stop : Observers → Observers
finalize_and_stop s = record s { relayer = Runner.finalize_and_stop s.relayer }

-- `finalizeAndStop` of the SDK, from the return of the relayer's observer on
unfoldable pub after_relayer : Observers → Observers
after_relayer s = record s { blockchain = Runner.finalize_and_stop s.blockchain }

pub data Happening : Type 0 where
  start_called : Result SdkError ℕ → Happening
  stop_called finalize_called : Happening
  in_relayer in_blockchain : Event → Happening

unfoldable pub happen : Happening → Observers → Observers
unfolding start stop finalize_and_stop after_relayer
happen (start_called answer) s = start answer s
happen stop_called s = stop s
happen finalize_called s = finalize_and_stop s
happen (in_relayer e) s =
    let s' : Observers = record s { relayer = Runner.step e s.relayer } in
    if ltb s.relayer.returned s'.relayer.returned then after_relayer s' else s'
happen (in_blockchain e) s = record s { blockchain = Runner.step e s.blockchain }

unfoldable pub happen_all : List Happening → Observers → Observers
unfolding happen
happen_all [] s = s
happen_all (h ∷ hs) s = happen_all hs (happen h s)
