-- ===== src/Relayer/PendingMessages/Outcome.antt =====
-- The ways in which a call of `add` can end, in terms of the tables that it leaves.
use mathlib.Core.List.{Perm}
use universal_login_sdk.Prelude.{
  ℕ, ◌≤◌, ◌<◌, ◌≡◌, ◌⊎◌, inl, inr, Bool, true, not, none, some, List, [], ◌∷◌, ◌++◌, map, Text,
  arith, length, is_some, is_empty, ◌||◌, Result, ok, err, Bool-cases, Option-cases, if◌then◌else◌,
}
use universal_login_sdk.Commons.Ethers.{Ethers}
use universal_login_sdk.Commons.Message.{
  SignedMessage, stringify_signed_message_fields, message_hash_of,
}
use universal_login_sdk.Commons.Signatures.{concatenate_signatures}
use universal_login_sdk.Relayer.Errors.{Exception, thrown}
use universal_login_sdk.Relayer.Database.{MessageRow, Database, Chain, key_violation}
use universal_login_sdk.Relayer.PendingStore.{
  CollectedSignatureKeyPair, MessageStatus, get_message, pairs_of, to_pair,
}
use universal_login_sdk.Relayer.QueueStore.{get_row}
use universal_login_sdk.Relayer.KeyOrder.{sort_signature_key_pairs_by_key, IsSortedByKey}
use universal_login_sdk.Relayer.PendingMessages.Collecting.{with_signature, IsAccepted}

-- The tables after a message is registered.
abbrev pub with_message : Database → Text → Text → Database
with_message db hash wallet_address = record db {
  messages =
      db.messages
      ++ record {
        message_hash = hash;
        transaction_hash = none;
        wallet_address = wallet_address;
        created_at = db.now;
      }
        ∷ [];
}

-- The tables after a message is queued.
abbrev pub with_queued : Database → Text → SignedMessage → Database
with_queued db hash message = record db {
  final_messages =
      db.final_messages
      ++ record {
        message_hash = hash;
        message = stringify_signed_message_fields message;
        transaction_hash = none;
        error = none;
        created_at = db.now;
      }
        ∷ [];
}

unfoldable pub holds : Text → Database → Bool
holds hash db = is_some (get_message hash db) || not (is_empty (pairs_of hash db))

module _ (e : Ethers) (chain : Chain) where
  -- The tables when `add` begins to check the signature: with a row for the message.
  unfoldable pub registered : SignedMessage → Database → Database
  registered message db =
      let hash = message_hash_of e message in
      if holds hash db then db else with_message db hash message.from

  pub registered_cases :
      (message : SignedMessage) (db : Database)
      → (registered message db ≡ db)
        ⊎ ((get_message (message_hash_of e message) db ≡ none)
            × (registered message db ≡ with_message db (message_hash_of e message) message.from))
  unfolding registered holds
  registered_cases message db = elim (Option-cases (get_message (message_hash_of e message) db)) [
    | inr (row, found) ↦ inl (ground arith)
    | inl absent ↦ elim (Bool-cases (is_empty (pairs_of (message_hash_of e message) db))) [
      | inl none_held ↦ inr (absent, ground arith)
      | inr held ↦ inl (ground arith)
    ]
  ]

  -- The signatures that stand under a hash, as the code sorts them.
  unfoldable pub sorted_signatures : Text → Database → List Text
  sorted_signatures hash db =
      map (λ (p : CollectedSignatureKeyPair). p.signature)
        (sort_signature_key_pairs_by_key e (map to_pair (pairs_of hash db)))

  -- All pairs under a hash, by ascending address of their signers.
  pub record KeyOrdered (hash : Text) (db : Database) : Type 0 where
    pub pairs : List CollectedSignatureKeyPair
    pub all_of : Perm pairs (map to_pair (pairs_of hash db))
    pub ascending : IsSortedByKey e pairs

  abbrev pub signatures_of : {hash : Text} {db : Database} → KeyOrdered hash db → List Text
  signatures_of o = map (λ (p : CollectedSignatureKeyPair). p.signature) o.pairs

  -- The answer of `getStatus`, by the rows that it reads.
  abbrev pub status_at : Text → Database → MessageRow → ℕ → MessageStatus
  status_at hash db row required = record {
    message_hash = none;
    error = none;
    collected_signatures =
        map (λ (p : CollectedSignatureKeyPair). p.signature) (map to_pair (pairs_of hash db));
    total_collected = length (map to_pair (pairs_of hash db));
    required = required;
    transaction_hash = row.transaction_hash;
  }

  abbrev pub hash_of : SignedMessage → Text
  hash_of message = message_hash_of e message

  -- The tables with the call's signature collected.
  abbrev pub collected : SignedMessage → Database → Text → Database
  collected message db key = with_signature db (hash_of message) message.signature key

  -- How a call of `add` ends, where `db` is its state with a row for the message.
  pub data Outcome (message : SignedMessage) (db : Database)
      (result : Result Exception MessageStatus × Database) : Type 0 where
    -- a check failed, and nothing is collected
    rejected : (x : Exception) → result ≡ (err x, db) → Outcome message db result
    -- the signature is collected, and the contract does not tell how many are required
    unanswered :
        (x : Exception) (key : Text) (accepted : IsAccepted e chain message db key)
        → chain.required_signatures accepted.row.wallet_address ≡ err x
        → result ≡ (err x, collected message db key)
        → Outcome message db result
    -- the signature is collected, and more are required
    waiting :
        (required : ℕ) (key : Text) (accepted : IsAccepted e chain message db key)
        → chain.required_signatures accepted.row.wallet_address ≡ ok required
        → length (pairs_of (hash_of message) (collected message db key)) < required
        → result ≡ (
          ok (status_at (hash_of message) (collected message db key) accepted.row required),
          collected message db key,
        )
        → Outcome message db result
    -- enough are collected, and one of them cannot be joined to the others
    unjoined :
        (required : ℕ) (key t : Text) (accepted : IsAccepted e chain message db key)
        → chain.required_signatures accepted.row.wallet_address ≡ ok required
        → required ≤ length (pairs_of (hash_of message) (collected message db key))
        → (order : KeyOrdered (hash_of message) (collected message db key))
        → concatenate_signatures (signatures_of order) ≡ err t
        → result ≡ (err (thrown t), collected message db key)
        → Outcome message db result
    -- enough are collected, and the message is in the queue already
    already_queued :
        (required : ℕ) (key joined : Text) (accepted : IsAccepted e chain message db key)
        → chain.required_signatures accepted.row.wallet_address ≡ ok required
        → required ≤ length (pairs_of (hash_of message) (collected message db key))
        → (order : KeyOrdered (hash_of message) (collected message db key))
        → concatenate_signatures (signatures_of order) ≡ ok joined
        → is_some (get_row (hash_of message) (collected message db key)) ≡ true
        → result ≡ (err key_violation, collected message db key)
        → Outcome message db result
    -- enough are collected, and the message is queued with all of them
    queued :
        (required : ℕ) (key joined : Text) (accepted : IsAccepted e chain message db key)
        → chain.required_signatures accepted.row.wallet_address ≡ ok required
        → required ≤ length (pairs_of (hash_of message) (collected message db key))
        → (order : KeyOrdered (hash_of message) (collected message db key))
        → concatenate_signatures (signatures_of order) ≡ ok joined
        → get_row (hash_of message) (collected message db key) ≡ none
        → result ≡ (
          ok
              (record (status_at
                (hash_of message)
                (collected message db key)
                accepted.row
                required) { message_hash = some (hash_of message) }),
          with_queued
              (collected message db key)
              (hash_of message)
              (record message { signature = joined }),
        )
        → Outcome message db result
