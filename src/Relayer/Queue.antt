-- ===== src/Relayer/Queue.antt =====
-- core/services/messages/MessageQueueService.ts: the loop that executes queued messages one after
-- the other. A turn is one round of the loop's body, with the test that ends the loop; between the
-- turns of a loop, requests may add messages and change the state.
pub mod Turns
pub mod Draining
use universal_login_sdk.Prelude.{
  ℕ, zero, suc, Bool, true, false, Option, none, some, List, [], ◌∷◌, ◌++◌, Text, codes, Result, ok,
  err, Exec, ◌>>=◌, ◌>>◌, if◌then◌else◌,
}
use universal_login_sdk.Commons.Ethers.{Ethers}
use universal_login_sdk.Commons.Message.{SignedMessage}
use universal_login_sdk.Relayer.Errors.{Exception, message, name}
use universal_login_sdk.Relayer.Database.{Action}
use universal_login_sdk.Relayer.Calls.{Abi}
use universal_login_sdk.Relayer.Execution.{
  Node, World, Task, TransactionResponse, query, execute_and_wait,
}
use universal_login_sdk.Relayer.PendingStore
use universal_login_sdk.Relayer.QueueStore
use universal_login_sdk.Relayer.QueueStore.{MessageEntity, MessageQueueStatus}

pub data QueueState : Type 0 where
  running stopped stopping : QueueState

-- The template text that `execute` stores.
pub error_text : Exception → Text
error_text x = name x ++ (codes ": " ++ message x)

abbrev pub is_stopped : QueueState → Bool
is_stopped running = false
is_stopped stopped = true
is_stopped stopping = false

-- `start`: the new state, and whether a loop is begun
pub start : QueueState → QueueState × Bool
start running = (running, false)
start stopped = (running, true)
start stopping = (running, true)

pub stop : QueueState → QueueState
stop s = stopped

-- the first line of `stopLater`, which then waits until the state is `stopped`
pub stop_later : QueueState → QueueState
stop_later s = stopping

-- The state after a turn that found nothing: the loop ends, or it sleeps for a tick.
unfoldable pub idle : QueueState → QueueState
idle running = running
idle stopped = stopped
idle stopping = stopped

module _ (e : Ethers) where
  unfoldable pub add : SignedMessage → Action Text
  add signed = QueueStore.add e signed

unfoldable pub get_status : Text → Action (Option MessageQueueStatus)
get_status hash = QueueStore.get_status hash

module _ (e : Ethers) (abi : Abi) (node : Node) (white_list : List Text)
    (wallet_address : Text) where
  -- the `try` block of `execute`
  unfoldable pub attempt : SignedMessage → Text → Task (Unit {0})
  attempt signed message_hash = do
    response ← execute_and_wait e abi node white_list wallet_address signed
    query (PendingStore.set_transaction_hash message_hash response.hash)
    query (QueueStore.mark_as_success message_hash response.hash)

  -- `catch (error)`, on how the block ended
  unfoldable pub recover : Text → Result Exception (Unit {0}) → Task (Unit {0})
  recover message_hash (ok u) w = (ok u, w)
  recover message_hash (err x) w = query (QueueStore.mark_as_error message_hash (error_text x)) w

  unfoldable pub execute : SignedMessage → Text → Task (Unit {0})
  execute signed message_hash w =
      let (r, w') = attempt signed message_hash w in recover message_hash r w'

  -- the `if` of `loop`, on what `getNext` answered
  unfoldable pub act : QueueState → Option MessageEntity → Task QueueState
  act s none w = (ok (idle s), w)
  act s (some next) w =
      let (r, w') = execute next.message next.message_hash w in
      (elim r [ ok _ ↦ ok s | err x ↦ err x ], w')

  -- one turn: what it throws ends the loop and goes to `onCritical`
  unfoldable pub turn : QueueState → Task QueueState
  turn s = do next ← query (QueueStore.get_next e); act s next

  -- `loop`, undisturbed, for at most so many turns; `none` where it is not over by then
  unfoldable pub loop : ℕ → QueueState → World → Option (Result Exception (Unit {0}) × World)
  loop zero s w = none
  loop (suc turns) s w =
      let (r, w') = turn s w in
      elim r [
        | err x ↦ some (err x, w')
        | ok s' ↦ let rest = loop turns s' w' in if is_stopped s' then some (ok tt, w') else rest
      ]
