-- ===== src/Relayer/Handler/Answers.antt =====
-- What the API answers about a message, before and after it came.
use universal_login_sdk.Prelude.{
  ℕ, ◌≡◌, refl, subst, inl, inr, false, Option, none, some, Text, ==_refl, arith, ok,
}
use universal_login_sdk.Commons.Ethers.{Ethers}
use universal_login_sdk.Commons.Message.{SignedMessage, stringify_signed_message_fields}
use universal_login_sdk.Relayer.Database.{Database, MessageRow, Chain}
use universal_login_sdk.Relayer.PendingStore
use universal_login_sdk.Relayer.PendingStore.{MessageStatus, get_message, pairs_of}
use universal_login_sdk.Relayer.PendingStore.Rows.{find?-append}
use universal_login_sdk.Relayer.QueueStore
use universal_login_sdk.Relayer.QueueStore.{get_row, row_has_hash}
use universal_login_sdk.Relayer.PendingMessages
use universal_login_sdk.Relayer.PendingMessages.{truthy}
use universal_login_sdk.Relayer.PendingMessages.Outcome.{
  Outcome, rejected, unanswered, waiting, unjoined, already_queued, queued, hash_of, holds,
  registered, registered_cases, status_at, with_queued, collected,
}
use universal_login_sdk.Relayer.PendingMessages.Ending.{add-Outcome}
use universal_login_sdk.Relayer.Queue
use universal_login_sdk.Relayer.Handler.{merge, handle_message, status_of, get_status}

module _ (e : Ethers) (chain : Chain) where
  -- The answer, by the rows that it reads.
  get_status_lem :
      (hash : Text) (db : Database) (row : MessageRow) (n : ℕ)
      → get_message hash db ≡ some row
      → chain.required_signatures row.wallet_address ≡ ok n
      → get_status e chain hash db ≡ (
        ok (
            some (
              merge
                (status_at e chain hash db row n)
                (QueueStore.status_of_row (get_row hash db)))),
        db,
      )
  unfolding get_status status_of PendingMessages.is_present PendingStore.is_present
      PendingMessages.get_status PendingStore.get_status PendingStore.get
      PendingStore.get_collected_signature_key_pairs Queue.get_status QueueStore.get_status
  get_status_lem hash db row n found answers = ground arith

  -- A message that never came has no status.
  pub get_status-unknown :
      (hash : Text) (db : Database)
      → holds hash db ≡ false
      → get_status e chain hash db ≡ (ok none, db)
  unfolding get_status status_of PendingMessages.is_present PendingStore.is_present holds
  get_status-unknown hash db absent = ground arith

  queued_row :
      (message : SignedMessage) (db : Database) (final : SignedMessage)
      → get_row (hash_of e chain message) db ≡ none
      → get_row (hash_of e chain message) (with_queued db (hash_of e chain message) final)
        ≡ some (record {
          message_hash = hash_of e chain message;
          message = stringify_signed_message_fields final;
          transaction_hash = none;
          error = none;
          created_at = db.now;
        })
  unfolding get_row
  queued_row message db final new = ground (
    arith,
    ==_refl (hash_of e chain message),
    find?-append (row_has_hash (hash_of e chain message)) db.final_messages (record {
      message_hash = hash_of e chain message;
      message = stringify_signed_message_fields final;
      transaction_hash = none;
      error = none;
      created_at = db.now;
    }),
  )

  registered_row :
      (message : SignedMessage) (db : Database)
      → get_row (hash_of e chain message) db ≡ none
      → get_row (hash_of e chain message) (registered e chain message db) ≡ none
  unfolding get_row
  registered_row message db new = elim (registered_cases e chain message db) [
    | inl same ↦ ground arith
    | inr (absent, same) ↦ ground arith
  ]

  -- What follows for the status from each way in which a call may end.
  Outcome-status :
      (message : SignedMessage) (db : Database) (status : MessageStatus) (db' : Database)
      → Outcome e chain message db (ok status, db')
      → get_row (hash_of e chain message) db ≡ none
      → (t : Option Text) × (truthy t ≡ false)
        × (get_status e chain (hash_of e chain message) db'
            ≡ (ok (some (record status { transaction_hash = t })), db'))
  unfolding merge get_row get_message pairs_of
  Outcome-status message db status db' o new = elim o [
    | rejected x ends ↦ absurd (ground arith)
    | unanswered x key accepted answers ends ↦ absurd (ground arith)
    | waiting n key accepted answers few ends ↦ (
      accepted.row.transaction_hash,
      accepted.not_executed,
      ground (
        arith,
        get_status_lem (hash_of e chain message) (collected e chain message db key) accepted.row n
            accepted.found answers,
      ),
    )
    | unjoined n key t accepted answers enough order bad ends ↦ absurd (ground arith)
    | already_queued n key joined accepted answers enough order joins present ends ↦
        absurd (ground arith)
    | queued n key joined accepted answers enough order joins absent ends ↦
        let after =
          with_queued (collected e chain message db key) (hash_of e chain message)
            (record message { signature = joined }) in
        (
          none,
          refl,
          ground (
            arith,
            get_status_lem (hash_of e chain message) after accepted.row n accepted.found answers,
            queued_row message db (record message { signature = joined }) new,
          ),
        )
  ]

  -- A message that was handled is answered about at once with the status that its sender got, but for
  -- the transaction hash, of which there is none yet.
  pub get_status-handle_message :
      (message : SignedMessage) (db db' : Database) (status : MessageStatus)
      → handle_message e chain message db ≡ (ok status, db')
      → get_row (hash_of e chain message) db ≡ none
      → (t : Option Text) × (truthy t ≡ false)
        × (get_status e chain (hash_of e chain message) db'
            ≡ (ok (some (record status { transaction_hash = t })), db'))
  unfolding handle_message
  get_status-handle_message message db db' status handled new =
      elim (add-Outcome e chain message db) [
        | inl (_, stops) ↦ absurd (ground arith)
        | inr (_, outcome) ↦
            Outcome-status message (registered e chain message db) status db'
              (subst (Outcome e chain message (registered e chain message db)) handled outcome)
              (registered_row message db new)
      ]
