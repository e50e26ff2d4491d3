-- ===== src/Relayer/QueueStore/Delivery.antt =====
-- What is queued is delivered.
use universal_login_sdk.Prelude.{
  Bool, ℕ, ◌≡◌, refl, inl, inr, true, none, some, List, [], ◌∷◌, ◌++◌, arith, ok, Bool-cases,
  filter,
}
use universal_login_sdk.Commons.Ethers.{Ethers, ReadsDecimals}
use universal_login_sdk.Commons.Message.{
  SignedMessage, is_hashable, message_hash_of, stringify_signed_message_fields,
  bignumberify-stringify,
}
use universal_login_sdk.Relayer.Database.{Database, QueueRow}
use universal_login_sdk.Relayer.QueueStore.{
  is_waiting, first_waiting, get_row, add, get_next, read_entity,
}

-- The row of a message that was just queued.
abbrev pub row_of : Ethers → SignedMessage → ℕ → QueueRow
row_of e message now = record {
  message_hash = message_hash_of e message;
  message = stringify_signed_message_fields message;
  transaction_hash = none;
  error = none;
  created_at = now;
}

first_waiting-append :
    (ties : QueueRow → QueueRow → Bool) (rows : List QueueRow) (r : QueueRow)
    → is_waiting r ≡ true
    → filter is_waiting rows ≡ []
    → first_waiting ties (rows ++ r ∷ []) ≡ some r
unfolding first_waiting
first_waiting-append ties [] r waits idle = ground arith
first_waiting-append ties (q ∷ rows) r waits idle = elim (Bool-cases (is_waiting q)) [
  | inl e1 ↦ absurd (ground arith)
  | inr e1 ↦ ground (arith, first_waiting-append ties rows r waits)
]

module _ (e : Ethers) where
  add_lem :
      (message : SignedMessage) (db : Database)
      → is_hashable e message ≡ true
      → get_row (message_hash_of e message) db ≡ none
      → add e message db ≡ (
        ok (message_hash_of e message),
        record db { final_messages = db.final_messages ++ row_of e message db.now ∷ [] },
      )
  unfolding add
  add_lem message db hashable new = ground arith

  -- A message that has a hash and is queued where this is new and no other message waits is what getNext answers
  -- next, with the amounts and the signature that it had.
  pub get_next-add :
      (message : SignedMessage) (db : Database)
      → ReadsDecimals e
      → is_hashable e message ≡ true
      → get_row (message_hash_of e message) db ≡ none
      → filter is_waiting db.final_messages ≡ []
      → (get_next e ((add e message db).1)).0
        ≡ ok (
            some (record {
              message_hash = message_hash_of e message;
              transaction_hash = none;
              error = none;
              message = message;
            }))
  unfolding get_next read_entity
  get_next-add message db reads hashable new idle = rw (
    add_lem message db hashable new,
    first_waiting-append db.ties db.final_messages (row_of e message db.now) refl idle,
    bignumberify-stringify e message reads,
  )
