-- ===== src/Tests/Messages.antt =====
-- Two owners sign one message.
use universal_login_sdk.Commons.Signatures.{concatenate_signatures, remove_prefix}
use universal_login_sdk.Relayer.KeyOrder.{sort_signature_key_pairs_by_key}
use universal_login_sdk.Prelude.{
  starts_with, ◌==◌, to_decimal, drop, ◌≡◌, refl, ◌⊎◌, Option, none, some, ◌++◌, Text, codes, ok,
  err, arith, false, true,
}
use universal_login_sdk.Commons.Message.{
  stringify_signed_message_fields, is_hashable, message_hash_of,
}
use universal_login_sdk.Relayer.Errors.{duplicated_execution, duplicated_signature}
use universal_login_sdk.Relayer.Database.{MessageRow, Database}
use universal_login_sdk.Relayer.PendingStore.{
  get_key_from_hash_and_signature, has_signature, get_message, pairs_of, MessageStatus,
}
use universal_login_sdk.Relayer.QueueStore.{get_row, unhashable}
use universal_login_sdk.Relayer.PendingMessages.{
  add, truthy, register, finish, is_present, add_signature_to_pending_message,
  ensure_correct_key_purpose, is_enough_signatures, on_ready_to_execute,
  get_message_with_signatures, ensure_correct_execution,
}
use universal_login_sdk.Relayer.PendingMessages
use universal_login_sdk.Relayer.QueueStore
use universal_login_sdk.Relayer.PendingStore
use universal_login_sdk.Relayer.PendingMessages.Outcome.{
  Outcome, registered, with_message, with_queued, hash_of, collected, status_at,
}
use universal_login_sdk.Relayer.PendingMessages.Ending.{add-Outcome}
use universal_login_sdk.Relayer.PendingMessages.Invariant.{IsConsistent, add-IsConsistent}
use universal_login_sdk.Relayer.PendingMessages.Repeats.{add_repeated}
use universal_login_sdk.Relayer.Handler.{handle_message, get_status}
use universal_login_sdk.Relayer.Handler.Answers.{get_status-handle_message}
use universal_login_sdk.Tests.Samples.{
  ethers, chain, message_a, message_b, signature_a, signature_b, empty,
}

abbrev hash : Text
hash = hash_of ethers chain message_a

abbrev wallet_row : MessageRow
wallet_row = record {
  message_hash = hash;
  transaction_hash = none;
  wallet_address = codes "wallet";
  created_at = 5;
}

-- The tables after the first owner's call.
abbrev half : Database
half = collected ethers chain message_a (with_message empty hash (codes "wallet")) (codes "0xb")

empty-IsConsistent : IsConsistent ethers chain empty
empty-IsConsistent = record {
  distinct_messages = tt;
  distinct_signatures = tt;
  distinct_queue = tt;
  genuine = tt;
}

add-Outcome_example :
    ((is_hashable ethers message_a ≡ false)
      × (add ethers chain message_a empty ≡ (err unhashable, empty)))
    ⊎ ((is_hashable ethers message_a ≡ true)
        × Outcome ethers chain message_a
            (registered ethers chain message_a empty)
            (add ethers chain message_a empty))
add-Outcome_example = add-Outcome ethers chain message_a empty

add-IsConsistent_example : IsConsistent ethers chain (add ethers chain message_a empty).1
add-IsConsistent_example = add-IsConsistent ethers chain message_a empty empty-IsConsistent

-- The tables, the joined signatures and the answer once both owners have signed.
abbrev full : Database
full = collected ethers chain message_b half (codes "0xa")

abbrev joined : Text
joined = signature_b ++ drop 2 signature_a

unqueued : get_row (hash_of ethers chain message_b) half ≡ none
unfolding get_row
unqueued = refl

abbrev answer : MessageStatus
answer = record (status_at ethers chain (hash_of ethers chain message_b) full wallet_row 2) {
  message_hash = some (hash_of ethers chain message_b);
}

abbrev done : Database
done = with_queued full (hash_of ethers chain message_b) (record message_b { signature = joined })

handled : handle_message ethers chain message_b half ≡ (ok answer, done)
unfolding handle_message add register finish is_present PendingStore.is_present is_hashable
    message_hash_of get_message ◌==◌ to_decimal add_signature_to_pending_message PendingStore.get
    PendingStore.contain_signature has_signature ensure_correct_key_purpose
    get_key_from_hash_and_signature PendingStore.add_signature PendingStore.get_status pairs_of
    PendingMessages.get_status is_enough_signatures on_ready_to_execute get_message_with_signatures
    PendingStore.get_collected_signature_key_pairs sort_signature_key_pairs_by_key
    concatenate_signatures remove_prefix starts_with ensure_correct_execution QueueStore.add get_row
    stringify_signed_message_fields
handled = refl

get_status-handle_message_example :
    (t : Option Text) × (truthy t ≡ false)
    × (get_status ethers chain (hash_of ethers chain message_b) done
        ≡ (ok (some (record answer { transaction_hash = t })), done))
get_status-handle_message_example =
    get_status-handle_message ethers chain message_b half done answer handled unqueued

half-IsConsistent : IsConsistent ethers chain half
unfolding message_hash_of ◌==◌ to_decimal get_message has_signature
half-IsConsistent = record {
  distinct_messages = ground arith;
  distinct_signatures = ground arith;
  distinct_queue = tt;
  genuine = (
    record {
      row = wallet_row;
      purpose = 1;
      found = refl;
      recovered = refl;
      authorised = refl;
      valid_purpose = ground arith;
    },
    tt,
  );
}

add_repeated_example :
    (add ethers chain message_a half ≡ (err duplicated_signature, half))
    ⊎ (add ethers chain message_a half ≡ (err duplicated_execution, half))
unfolding message_hash_of ◌==◌ to_decimal has_signature is_hashable
add_repeated_example = add_repeated ethers chain message_a half half-IsConsistent refl refl
