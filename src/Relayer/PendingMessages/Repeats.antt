-- ===== src/Relayer/PendingMessages/Repeats.antt =====
-- Signatures that come again, and calls that come after the execution.
use universal_login_sdk.Prelude.{
  ◌≡◌, ◌⊎◌, inl, inr, true, some, List, [], ◌∷◌, Text, arith, find?, All, err, ◌==◌, ==_iff,
  Bool-cases,
}
use universal_login_sdk.Commons.Ethers.{Ethers}
use universal_login_sdk.Commons.Message.{SignedMessage, is_hashable}
use universal_login_sdk.Relayer.Errors.{duplicated_signature, duplicated_execution}
use universal_login_sdk.Relayer.Database.{MessageRow, SignatureRow, Database, Chain}
use universal_login_sdk.Relayer.PendingStore
use universal_login_sdk.Relayer.PendingStore.{
  has_hash, pair_has_hash, has_signature, get_message, pairs_of, to_pair,
}
use universal_login_sdk.Relayer.PendingMessages.{add, add_signature_to_pending_message, truthy}
use universal_login_sdk.Relayer.PendingMessages.Outcome.{registered, holds, hash_of}
use universal_login_sdk.Relayer.PendingMessages.Steps.{add-collect, collect}
use universal_login_sdk.Relayer.PendingMessages.Invariant.{IsGenuine, IsConsistent}

module _ (e : Ethers) (chain : Chain) where
  has_signature-found :
      (hash signature : Text) (messages : List MessageRow) (rows : List SignatureRow)
      → All (IsGenuine e chain messages) rows
      → has_signature hash signature rows ≡ true
      → (row : MessageRow) × (find? (has_hash hash) messages ≡ some row)
  unfolding has_signature
  has_signature-found hash signature messages [] g h = cc
  has_signature-found hash signature messages (r ∷ rows) (g, gs) h =
      elim (Bool-cases (r.message_hash == hash)) [
        | inl here ↦ (g.row, subst_hash ((==_iff r.message_hash hash).0 here))
        | inr elsewhere ↦ has_signature-found hash signature messages rows gs (ground arith)
      ]
    where
      subst_hash : r.message_hash ≡ hash → find? (has_hash hash) messages ≡ some g.row
      subst_hash same = rw (← same) g.found

  registered_found :
      (message : SignedMessage) (db : Database) (row : MessageRow)
      → get_message (hash_of e chain message) db ≡ some row
      → registered e chain message db ≡ db
  unfolding registered holds
  registered_found message db row found = ground arith

  -- Once a message that has a hash has a transaction hash, every further call for it is refused and
  -- changes nothing.
  pub add_executed :
      (message : SignedMessage) (db : Database) (row : MessageRow)
      → is_hashable e message ≡ true
      → get_message (hash_of e chain message) db ≡ some row
      → truthy row.transaction_hash ≡ true
      → add e chain message db ≡ (err duplicated_execution, db)
  unfolding collect add_signature_to_pending_message PendingStore.get
  add_executed message db row hashable found executed =
      rw (add-collect e chain message db hashable, registered_found message db row found)
        (ground arith)

  -- Where the hash can be calculated, a signature that is collected already is refused, and the call
  -- changes nothing.
  pub add_repeated :
      (message : SignedMessage) (db : Database)
      → IsConsistent e chain db
      → is_hashable e message ≡ true
      → has_signature (hash_of e chain message) message.signature db.signature_key_pairs ≡ true
      → ((add e chain message db ≡ (err duplicated_signature, db))
          ⊎ (add e chain message db ≡ (err duplicated_execution, db)))
  unfolding collect add_signature_to_pending_message PendingStore.get PendingStore.contain_signature
      get_message
  add_repeated message db c hashable held =
      let (row, found) =
        has_signature-found (hash_of e chain message) message.signature db.messages
          db.signature_key_pairs c.genuine held in
      rw (add-collect e chain message db hashable, registered_found message db row found)
        (elim (Bool-cases (truthy row.transaction_hash)) [
          | inl executed ↦ inr (ground arith)
          | inr pending ↦ inl (ground arith)
        ])
