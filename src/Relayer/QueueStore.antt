-- ===== src/Relayer/QueueStore.antt =====
-- integration/sql/services/MessageQueueSQLStore.ts: the queue of messages to execute.
pub mod Order
pub mod Delivery
use universal_login_sdk.Prelude.{
  ℕ, Bool, not, ◌&&◌, Option, none, some, List, [], ◌∷◌, ◌++◌, map, Text, codes, ◌==◌, leb, ltb,
  eqb, find?, is_some, Result, ok, err, Exec, pure, gets, or_raise, modify, ensure, ◌>>=◌, ◌>>◌,
  if◌then◌else◌,
}
use universal_login_sdk.Commons.Ethers.{Ethers}
use universal_login_sdk.Commons.Message.{
  SignedMessage, StringMessage, stringify_signed_message_fields, bignumberify_signed_message_fields,
  calculate_message_hash,
}
use universal_login_sdk.Relayer.Errors.{Exception, other}
use universal_login_sdk.Relayer.Database.{QueueRow, Database, Action, key_violation}

-- core/models/messages/MessageEntity.ts
pub record MessageEntity : Type 0 where
  pub message_hash : Text
  pub transaction_hash : Option Text
  pub error : Option Text
  pub message : SignedMessage

-- The columns that `getStatus` selects, of which the type `MessageQueueStatus` declares two.
pub record MessageQueueStatus : Type 0 where
  pub message_hash : Text
  pub transaction_hash : Option Text
  pub error : Option Text

abbrev pub row_has_hash : Text → QueueRow → Bool
row_has_hash hash r = r.message_hash == hash

unfoldable pub get_row : Text → Database → Option QueueRow
get_row hash db = find? (row_has_hash hash) db.final_messages

-- What ethers throws on malformed fields.
unfoldable pub unhashable : Exception
unhashable = other (codes "Error") (codes "invalid argument")

-- `add`: the primary key refuses a second row for a hash.
unfoldable pub add : Ethers → SignedMessage → Action Text
add e message = do
  hash ← or_raise (calculate_message_hash e message) unhashable
  present ← gets (λ db. is_some (get_row hash db))
  ensure (not present) key_violation
  modify (λ db. record db {
    final_messages =
        db.final_messages
        ++ record {
          message_hash = hash;
          message = stringify_signed_message_fields message;
          transaction_hash = none;
          error = none;
          created_at = db.now;
        }
          ∷ [];
  })
  pure hash

-- The conditions of `getNext`: neither executed nor failed.
abbrev pub is_waiting : QueueRow → Bool
is_waiting r = not (is_some r.transaction_hash) && not (is_some r.error)

-- `orderBy('created_at', 'asc')`, which leaves rows of one time to the database
unfoldable pub precedes : (QueueRow → QueueRow → Bool) → QueueRow → QueueRow → Bool
precedes ties r q =
    if eqb r.created_at q.created_at then ties r q else ltb r.created_at q.created_at

abbrev pub older : (QueueRow → QueueRow → Bool) → QueueRow → Option QueueRow → QueueRow
older ties r none = r
older ties r (some q) = if precedes ties r q then r else q

-- `orderBy('created_at', 'asc').first()` on the waiting rows
unfoldable pub first_waiting : (QueueRow → QueueRow → Bool) → List QueueRow → Option QueueRow
unfolding precedes
first_waiting ties [] = none
first_waiting ties (r ∷ rs) =
    let rest = first_waiting ties rs in if is_waiting r then some (older ties r rest) else rest

-- What `bigNumberify` throws on a text that is no number.
unfoldable pub bad_number : Exception
bad_number = other (codes "Error") (codes "invalid number value")

-- the `if (next)` of `getNext`
unfoldable pub read_entity : Ethers → Option QueueRow → Action (Option MessageEntity)
read_entity e none = pure none
read_entity e (some r) = do
  message ← or_raise (bignumberify_signed_message_fields e r.message) bad_number
  pure (
      some (record {
        message_hash = r.message_hash;
        transaction_hash = r.transaction_hash;
        error = r.error;
        message = message;
      }))

unfoldable pub get_next : Ethers → Action (Option MessageEntity)
unfolding read_entity
get_next e = do next ← gets (λ db. first_waiting db.ties db.final_messages); read_entity e next

abbrev pub update : Text → (QueueRow → QueueRow) → List QueueRow → List QueueRow
update hash f = map (λ r. if row_has_hash hash r then f r else r)

unfoldable pub mark_as_success : Text → Text → Action (Unit {0})
mark_as_success hash transaction_hash = modify (λ db. record db {
  final_messages =
      update hash (λ r. record r { transaction_hash = some transaction_hash }) db.final_messages;
})

unfoldable pub mark_as_error : Text → Text → Action (Unit {0})
mark_as_error hash error = modify (λ db. record db {
  final_messages = update hash (λ r. record r { error = some error }) db.final_messages;
})

unfoldable pub get : Text → Action (Option QueueRow)
get hash = gets (get_row hash)

abbrev pub to_status : QueueRow → MessageQueueStatus
to_status r = record {
  message_hash = r.message_hash;
  transaction_hash = r.transaction_hash;
  error = r.error;
}

abbrev pub status_of_row : Option QueueRow → Option MessageQueueStatus
status_of_row none = none
status_of_row (some r) = some (to_status r)

unfoldable pub get_status : Text → Action (Option MessageQueueStatus)
get_status hash = gets (λ db. status_of_row (get_row hash db))
