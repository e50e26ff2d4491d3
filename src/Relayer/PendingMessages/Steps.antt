-- ===== src/Relayer/PendingMessages/Steps.antt =====
-- The steps of `add` after the signature is collected, one by one.
use universal_login_sdk.Prelude.{
  ℕ, ◌≤◌, ◌≡◌, inl, inr, true, false, none, some, map, Text, arith, length, leb, ok, err, ◌>>=◌,
  ◌>>◌, Option-cases,
}
use universal_login_sdk.Commons.Ethers.{Ethers}
use universal_login_sdk.Commons.Message.{
  SignedMessage, message_hash_of, message_hash_of-signature, is_hashable, is_hashable-signature,
}
use universal_login_sdk.Commons.Signatures.{concatenate_signatures}
use universal_login_sdk.Relayer.Errors.{Exception, thrown}
use universal_login_sdk.Relayer.Database.{
  MessageRow, QueueRow, Database, Action, Chain, key_violation,
}
use universal_login_sdk.Relayer.PendingStore
use universal_login_sdk.Relayer.PendingStore.{
  CollectedSignatureKeyPair, MessageStatus, has_hash, get_message, pairs_of, to_pair,
}
use universal_login_sdk.Relayer.QueueStore
use universal_login_sdk.Relayer.QueueStore.{get_row, unhashable}
use universal_login_sdk.Relayer.PendingMessages.{
  create_pending_message, is_present, get_status, is_enough_signatures, finish, register, add,
  get_message_with_signatures, ensure_correct_execution, on_ready_to_execute,
  add_signature_to_pending_message, truthy,
}
use universal_login_sdk.Relayer.PendingMessages.Outcome.{
  with_queued, holds, registered, sorted_signatures, status_at, hash_of,
}

module _ (e : Ethers) (chain : Chain) where
  -- The steps of `add` after the signature is collected.
  unfoldable pub proceed : SignedMessage → Action MessageStatus
  proceed message = do
    let hash = message_hash_of e message
    status ← get_status e chain hash
    enough ← is_enough_signatures e chain hash
    finish e chain enough hash message status

  unfoldable pub collect : SignedMessage → Action MessageStatus
  collect message =
      add_signature_to_pending_message e chain (message_hash_of e message) message
      >> proceed message

  pub add-collect :
      (message : SignedMessage) (db : Database)
      → is_hashable e message ≡ true
      → add e chain message db ≡ collect message (registered e chain message db)
  unfolding add collect proceed registered holds is_present PendingStore.is_present register
      PendingStore.add create_pending_message
  add-collect message db hashable =
      elim (Option-cases (get_message (message_hash_of e message) db)) [
        | inl absent ↦ ground arith
        | inr (row, found) ↦ ground arith
      ]

  -- Where the hash is not calculated, the call throws before anything is written.
  pub add-unhashable :
      (message : SignedMessage) (db : Database)
      → is_hashable e message ≡ false
      → add e chain message db ≡ (err unhashable, db)
  unfolding add
  add-unhashable message db malformed = ground arith

  pub get_status_err :
      (hash : Text) (db : Database) (row : MessageRow) (x : Exception)
      → get_message hash db ≡ some row
      → chain.required_signatures row.wallet_address ≡ err x
      → PendingStore.get_status chain hash db ≡ (err x, db)
  unfolding PendingStore.get_status PendingStore.get PendingStore.get_collected_signature_key_pairs
  get_status_err hash db row x found fails = ground arith

  pub get_status_ok :
      (hash : Text) (db : Database) (row : MessageRow) (n : ℕ)
      → get_message hash db ≡ some row
      → chain.required_signatures row.wallet_address ≡ ok n
      → PendingStore.get_status chain hash db ≡ (ok (status_at e chain hash db row n), db)
  unfolding PendingStore.get_status PendingStore.get PendingStore.get_collected_signature_key_pairs
  get_status_ok hash db row n found answers = ground arith

  module _ (message : SignedMessage) (db : Database) (row : MessageRow) (n : ℕ)
      (found : get_message (hash_of e chain message) db ≡ some row)
      (answers : chain.required_signatures row.wallet_address ≡ ok n) where
    pub proceed-finish :
        proceed message db
        ≡ finish e chain
            (leb n (length (map to_pair (pairs_of (hash_of e chain message) db))))
            (hash_of e chain message)
            message
            (status_at e chain (hash_of e chain message) db row n)
            db
    unfolding proceed get_status is_enough_signatures
    proceed-finish = ground (arith, get_status_ok (hash_of e chain message) db row n found answers)

    pub finish_unjoined :
        (t : Text)
        → concatenate_signatures (sorted_signatures e chain (hash_of e chain message) db) ≡ err t
        → finish e chain true
            (hash_of e chain message)
            message
            (status_at e chain (hash_of e chain message) db row n)
            db
          ≡ (err (thrown t), db)
    unfolding finish on_ready_to_execute get_message_with_signatures
        PendingStore.get_collected_signature_key_pairs sorted_signatures
    finish_unjoined t bad = ground arith

    pub ready :
        (t : Text)
        → is_hashable e message ≡ true
        → truthy row.transaction_hash ≡ false
        → n ≤ length (map to_pair (pairs_of (hash_of e chain message) db))
        → concatenate_signatures (sorted_signatures e chain (hash_of e chain message) db) ≡ ok t
        → on_ready_to_execute e chain (hash_of e chain message) message db
          ≡ QueueStore.add e (record message { signature = t }) db
    unfolding on_ready_to_execute get_message_with_signatures
        PendingStore.get_collected_signature_key_pairs ensure_correct_execution is_enough_signatures
        sorted_signatures
    ready t hashable fresh enough joined =
        ground (arith, get_status_ok (hash_of e chain message) db row n found answers)

  pub queue_add_present :
      (message : SignedMessage) (t : Text) (db : Database) (row : QueueRow)
      → is_hashable e message ≡ true
      → get_row (hash_of e chain message) db ≡ some row
      → QueueStore.add e (record message { signature = t }) db ≡ (err key_violation, db)
  unfolding QueueStore.add
  queue_add_present message t db row hashable h =
      ground (arith, message_hash_of-signature e message t, is_hashable-signature e message t)

  pub queue_add_absent :
      (message : SignedMessage) (t : Text) (db : Database)
      → is_hashable e message ≡ true
      → get_row (hash_of e chain message) db ≡ none
      → QueueStore.add e (record message { signature = t }) db ≡ (
        ok (hash_of e chain message),
        with_queued db (hash_of e chain message) (record message { signature = t }),
      )
  unfolding QueueStore.add
  queue_add_absent message t db hashable h =
      ground (arith, message_hash_of-signature e message t, is_hashable-signature e message t)
