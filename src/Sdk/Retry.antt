-- ===== src/Sdk/Retry.antt =====
-- utils/retry.ts: a call is repeated until its result is wanted, or the time is over.
pub mod Asked
pub mod Rounds
use universal_login_sdk.Prelude.{
  ℕ, zero, suc, ◌+◌, Bool, true, false, ltb, Result, ok, err, Exec, pure, raise, gets, lift, modify,
  ensure, ◌>>=◌, ◌>>◌,
}
use universal_login_sdk.Sdk.Errors.{SdkError, timeout_error}
use universal_login_sdk.Sdk.RelayerApi.{Net, Line, Api}

-- `sleep` of universal-login-commons/lib/core/utils/wait.ts
unfoldable pub sleep : Net → ℕ → Api (Unit {0})
sleep net ms = modify (λ w. record w { now = w.now + ms + net.lateness w.requests })

module _ {R : Type 0} (net : Net) (callback : Api R) (predicate : R → Result SdkError Bool)
    (tick : ℕ) where
  -- The loop, for at most so many rounds.
  unfoldable pub rounds : ℕ → ℕ → Api R
  unfolding sleep
  rounds zero stop_time = raise timeout_error
  rounds (suc n) stop_time = do
    now ← gets (λ w. w.now)
    ensure (ltb now stop_time) timeout_error
    result ← callback
    sleep net tick
    again ← lift (predicate result)
    elim again [ true ↦ rounds n stop_time | false ↦ pure result ]

  -- `retry`: each round takes a millisecond at least.
  unfoldable pub retry : ℕ → Api R
  retry timeout w = rounds timeout (w.now + timeout) w
