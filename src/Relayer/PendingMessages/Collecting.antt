-- ===== src/Relayer/PendingMessages/Collecting.antt =====
-- What one call of `add` does to the tables, step by step.
use universal_login_sdk.Prelude.{
  Result-cases, ℕ, ◌≡◌, ◌≢◌, ◌⊎◌, inl, inr, true, false, some, [], ◌∷◌, ◌++◌, Text, arith, eqb, ok,
  err, Bool-cases, Option-cases, codes,
}
use universal_login_sdk.Commons.Ethers.{Ethers}
use universal_login_sdk.Commons.Message.{SignedMessage, message_hash_of, is_hashable}
use universal_login_sdk.Relayer.Errors.{
  Exception, duplicated_execution, duplicated_signature, invalid_message, invalid_signature,
}
use universal_login_sdk.Relayer.Database.{MessageRow, Database, Chain}
use universal_login_sdk.Relayer.PendingStore
use universal_login_sdk.Relayer.PendingStore.{
  has_hash, has_signature, get_message, bad_signature, get_key_from_hash_and_signature,
}
use universal_login_sdk.Relayer.PendingMessages.{
  truthy, ensure_correct_key_purpose, add_signature_to_pending_message,
}

-- The tables after a signature is collected.
abbrev pub with_signature : Database → Text → Text → Text → Database
with_signature db hash signature key = record db {
  signature_key_pairs =
      db.signature_key_pairs
      ++ record { message_hash = hash; signature = signature; key = key } ∷ [];
}

module _ (e : Ethers) (chain : Chain) where
  -- What has been checked when a signature is collected.
  pub record IsAccepted (message : SignedMessage) (db : Database) (key : Text) : Type 0 where
    pub row : MessageRow
    pub purpose : ℕ
    pub hashable : is_hashable e message ≡ true
    pub found : get_message (message_hash_of e message) db ≡ some row
    pub not_executed : truthy row.transaction_hash ≡ false
    pub new :
        has_signature (message_hash_of e message) message.signature db.signature_key_pairs ≡ false
    pub recovered :
        e.verify_message (e.arrayify (message_hash_of e message)) message.signature ≡ some key
    pub authorised : chain.get_key_purpose row.wallet_address key ≡ ok purpose
    pub valid_purpose : purpose ≢ 0

  -- A signature is collected after every check, or the call throws and changes nothing.
  pub add_signature_cases :
      (message : SignedMessage) (db : Database)
      → is_hashable e message ≡ true
      → let hash = message_hash_of e message in
        let run = add_signature_to_pending_message e chain hash message db in
        ((x : Exception) × (run ≡ (err x, db)))
        ⊎ ((key : Text) × IsAccepted message db key
            × (run ≡ (ok tt, with_signature db hash message.signature key)))
  unfolding add_signature_to_pending_message PendingStore.get PendingStore.contain_signature
      ensure_correct_key_purpose get_key_from_hash_and_signature PendingStore.add_signature
  add_signature_cases message db hashable = elim (Option-cases (get_message hash db)) [
    | inl e1 ↦ inl (invalid_message hash, ground arith)
    | inr (row, e1) ↦ elim (Bool-cases (truthy row.transaction_hash)) [
      | inl e2 ↦ inl (duplicated_execution, ground arith)
      | inr e2 ↦ elim (Bool-cases (has_signature hash message.signature db.signature_key_pairs)) [
        | inl e3 ↦ inl (duplicated_signature, ground arith)
        | inr e3 ↦ elim (Option-cases (e.verify_message (e.arrayify hash) message.signature)) [
          | inl e4 ↦ inl (bad_signature, ground arith)
          | inr (key, e4) ↦ elim (Result-cases (chain.get_key_purpose row.wallet_address key)) [
            | inl (x, e5) ↦ inl (x, ground arith)
            | inr (purpose, e5) ↦ elim (Bool-cases (eqb purpose 0)) [
              | inl e6 ↦ inl (invalid_signature (codes "Invalid key purpose"), ground arith)
              | inr e6 ↦ inr (
                key,
                record {
                  hashable = hashable;
                  row = row;
                  purpose = purpose;
                  found = e1;
                  not_executed = e2;
                  new = e3;
                  recovered = e4;
                  authorised = e5;
                  valid_purpose = ground arith;
                },
                ground arith,
              )
            ]
          ]
        ]
      ]
    ]
  ]
    where
      hash : Text
      hash = message_hash_of e message

  -- The checks decide: where all hold, the signature is collected.
  pub add_signature_accepted :
      (message : SignedMessage) (db : Database) (key : Text)
      → IsAccepted message db key
      → add_signature_to_pending_message e chain (message_hash_of e message) message db
        ≡ (ok tt, with_signature db (message_hash_of e message) message.signature key)
  unfolding add_signature_to_pending_message PendingStore.get PendingStore.contain_signature
      ensure_correct_key_purpose get_key_from_hash_and_signature PendingStore.add_signature
  add_signature_accepted message db key a = ground arith
