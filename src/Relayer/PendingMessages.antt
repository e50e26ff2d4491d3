-- ===== src/Relayer/PendingMessages.antt =====
-- core/services/messages/PendingMessages.ts: signatures are collected until there are as many as
-- the wallet contract requires, and then the message is queued.
pub mod Collecting
pub mod Outcome
pub mod Steps
pub mod Ending
pub mod Invariant
pub mod Repeats
use universal_login_sdk.Prelude.{
  ℕ, Bool, true, false, not, Option, none, some, List, [], map, Text, codes, eqb, leb, length,
  Result, ok, err, Exec, pure, gets, lift, modify, or_raise, ensure, ◌>>=◌, ◌>>◌,
}
use universal_login_sdk.Commons.Ethers.{Ethers}
use universal_login_sdk.Commons.Message.{SignedMessage, calculate_message_hash}
use universal_login_sdk.Commons.Signatures.{concatenate_signatures}
use universal_login_sdk.Relayer.Errors.{
  Exception, invalid_signature, invalid_transaction, duplicated_signature, duplicated_execution,
  not_enough_signatures, thrown,
}
use universal_login_sdk.Relayer.Database.{Database, Action, Chain}
use universal_login_sdk.Relayer.PendingStore
use universal_login_sdk.Relayer.PendingStore.{
  PendingMessage, MessageStatus, CollectedSignatureKeyPair, get_key_from_hash_and_signature,
}
use universal_login_sdk.Relayer.QueueStore
use universal_login_sdk.Relayer.QueueStore.{unhashable}
use universal_login_sdk.Relayer.KeyOrder.{sort_signature_key_pairs_by_key}

-- `!!text` for a string or null
abbrev pub truthy : Option Text → Bool
truthy none = false
truthy (some []) = false
truthy (some _) = true

-- A string that `concatenateSignatures` throws.
abbrev pub or_thrown : Result Text Text → Result Exception Text
or_thrown (ok t) = ok t
or_thrown (err t) = err (thrown t)

-- `createPendingMessage` of core/utils/utils.ts
unfoldable pub create_pending_message : Text → PendingMessage
create_pending_message wallet_address = record {
  collected_signature_key_pairs = [];
  transaction_hash = none;
  wallet_address = wallet_address;
}

module _ (e : Ethers) (chain : Chain) where
  unfoldable pub is_present : Text → Action Bool
  is_present hash = PendingStore.is_present hash

  unfoldable pub get_status : Text → Action MessageStatus
  get_status hash = PendingStore.get_status chain hash

  -- `ensureCorrectKeyPurpose`; the invalid key has purpose 0
  unfoldable pub ensure_correct_key_purpose : SignedMessage → Text → Action (Unit {0})
  ensure_correct_key_purpose message wallet_address = do
    hash ← or_raise (calculate_message_hash e message) unhashable
    key ← get_key_from_hash_and_signature e hash message.signature
    key_purpose ← lift (chain.get_key_purpose wallet_address key)
    ensure (not (eqb key_purpose 0)) (invalid_signature (codes "Invalid key purpose"))

  unfoldable pub add_signature_to_pending_message : Text → SignedMessage → Action (Unit {0})
  add_signature_to_pending_message hash message = do
    pending ← PendingStore.get hash
    ensure (not (truthy pending.transaction_hash)) duplicated_execution
    contained ← PendingStore.contain_signature hash message.signature
    ensure (not contained) duplicated_signature
    ensure_correct_key_purpose message pending.wallet_address
    PendingStore.add_signature e hash message.signature

  unfoldable pub is_enough_signatures : Text → Action Bool
  is_enough_signatures hash = do
    status ← PendingStore.get_status chain hash
    pure (leb status.required status.total_collected)

  unfoldable pub get_message_with_signatures : SignedMessage → Text → Action SignedMessage
  get_message_with_signatures message hash = do
    pairs ← PendingStore.get_collected_signature_key_pairs hash
    let sorted = sort_signature_key_pairs_by_key e pairs
    signature ← lift (
        or_thrown
          (concatenate_signatures (map (λ (p : CollectedSignatureKeyPair). p.signature) sorted)))
    pure (record message { signature = signature })

  unfoldable pub ensure_correct_execution : Text → Action (Unit {0})
  ensure_correct_execution hash = do
    status ← PendingStore.get_status chain hash
    ensure (not (truthy status.transaction_hash)) duplicated_execution
    enough ← is_enough_signatures hash
    ensure enough (not_enough_signatures status.required status.total_collected)

  -- `onReadyToExecute`; `messageQueue.add` is the queue store's `add`
  unfoldable pub on_ready_to_execute : Text → SignedMessage → Action Text
  on_ready_to_execute hash message = do
    final ← get_message_with_signatures message hash
    ensure_correct_execution hash
    QueueStore.add e final

  -- the last `if` of `add`
  unfoldable pub finish : Bool → Text → SignedMessage → MessageStatus → Action MessageStatus
  finish false hash message status = pure status
  finish true hash message status = do
    queued ← on_ready_to_execute hash message
    pure (record status { message_hash = some queued })

  -- the first `if` of `add`
  unfoldable pub register : Bool → Text → SignedMessage → Action (Unit {0})
  register true hash message = pure tt
  register false hash message = PendingStore.add hash (create_pending_message message.from)

  unfoldable pub add : SignedMessage → Action MessageStatus
  unfolding finish register
  add message = do
    hash ← or_raise (calculate_message_hash e message) unhashable
    present ← is_present hash
    register present hash message
    add_signature_to_pending_message hash message
    status ← get_status hash
    enough ← is_enough_signatures hash
    finish enough hash message status

  -- `confirmExecution`: "0x" and 64 digits
  unfoldable pub confirm_execution : Text → Text → Action (Unit {0})
  confirm_execution hash transaction_hash = do
    ensure (eqb (length transaction_hash) 66) (invalid_transaction transaction_hash)
    PendingStore.set_transaction_hash hash transaction_hash

  unfoldable pub get : Text → Action PendingMessage
  get hash = PendingStore.get hash

  unfoldable pub remove : Text → Action PendingMessage
  remove hash = PendingStore.remove hash
