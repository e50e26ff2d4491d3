-- ===== src/Relayer/Handler.antt =====
-- core/services/MessageHandler.ts: what the relayer's HTTP API asks of messages.
pub mod Answers
use universal_login_sdk.Prelude.{
  ℕ, Bool, true, false, Option, none, some, List, Text, Exec, pure, ◌>>=◌, ◌>>◌,
}
use universal_login_sdk.Commons.Ethers.{Ethers}
use universal_login_sdk.Commons.Message.{SignedMessage}
use universal_login_sdk.Relayer.Database.{Action, Chain}
use universal_login_sdk.Relayer.PendingStore.{MessageStatus}
use universal_login_sdk.Relayer.QueueStore.{MessageQueueStatus}
use universal_login_sdk.Relayer.PendingMessages
use universal_login_sdk.Relayer.Queue

-- `{...pendingStatus, ...queueStatus}`: the fields of a queue's status replace those of the same
-- name, also where they are null.
unfoldable pub merge : MessageStatus → Option MessageQueueStatus → MessageStatus
merge status none = status
merge status (some queued) = record status {
  message_hash = some queued.message_hash;
  transaction_hash = queued.transaction_hash;
  error = queued.error;
}

module _ (e : Ethers) (chain : Chain) where
  unfoldable pub handle_message : SignedMessage → Action MessageStatus
  handle_message message = PendingMessages.add e chain message

  -- the part of `getStatus` after the guard
  unfoldable pub status_of : Bool → Text → Action (Option MessageStatus)
  status_of false hash = pure none
  status_of true hash = do
    pending ← PendingMessages.get_status e chain hash
    queued ← Queue.get_status hash
    pure (some (merge pending queued))

  unfoldable pub get_status : Text → Action (Option MessageStatus)
  unfolding status_of
  get_status hash = do present ← PendingMessages.is_present e chain hash; status_of present hash
