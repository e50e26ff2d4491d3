-- ===== src/Relayer/PendingStore.antt =====
-- integration/sql/services/PendingMessagesSQLStore.ts with the models PendingMessage and
-- MessageStatus.
pub mod Rows
use universal_login_sdk.Prelude.{
  ℕ, Bool, not, ◌||◌, ◌&&◌, Option, none, some, List, [], ◌∷◌, ◌++◌, map, Text, codes, ◌==◌, filter,
  find?, any, length, is_some, is_empty, Result, ok, err, Exec, pure, raise, gets, lift, or_raise,
  modify, ensure, ◌>>=◌, ◌>>◌, if◌then◌else◌,
}
use universal_login_sdk.Commons.Ethers.{Ethers}
use universal_login_sdk.Relayer.Errors.{Exception, invalid_message, other}
use universal_login_sdk.Relayer.Database.{
  MessageRow, SignatureRow, Database, Action, Chain, key_violation,
}

pub record CollectedSignatureKeyPair : Type 0 where
  pub key : Text
  pub signature : Text

pub record PendingMessage : Type 0 where
  pub collected_signature_key_pairs : List CollectedSignatureKeyPair
  pub transaction_hash : Option Text
  pub wallet_address : Text

pub record MessageStatus : Type 0 where
  pub message_hash : Option Text
  pub error : Option Text
  pub collected_signatures : List Text
  pub total_collected : ℕ
  pub required : ℕ
  pub transaction_hash : Option Text

abbrev pub has_hash : Text → MessageRow → Bool
has_hash hash r = r.message_hash == hash

abbrev pub pair_has_hash : Text → SignatureRow → Bool
pair_has_hash hash r = r.message_hash == hash

abbrev pub to_pair : SignatureRow → CollectedSignatureKeyPair
to_pair r = record { key = r.key; signature = r.signature }

-- `where('messageHash', messageHash).first()` on `messages`
unfoldable pub get_message : Text → Database → Option MessageRow
get_message hash db = find? (has_hash hash) db.messages

unfoldable pub pairs_of : Text → Database → List SignatureRow
pairs_of hash db = filter (pair_has_hash hash) db.signature_key_pairs

-- `add`: the primary key refuses a second row for a hash.
unfoldable pub add : Text → PendingMessage → Action (Unit {0})
add hash pending = do
  present ← gets (λ db. is_some (get_message hash db))
  ensure (not present) key_violation
  modify (λ db. record db {
    messages =
        db.messages
        ++ record {
          message_hash = hash;
          transaction_hash = pending.transaction_hash;
          wallet_address = pending.wallet_address;
          created_at = db.now;
        }
          ∷ [];
  })

unfoldable pub get_collected_signature_key_pairs : Text → Action (List CollectedSignatureKeyPair)
get_collected_signature_key_pairs hash = gets (λ db. map to_pair (pairs_of hash db))

unfoldable pub get : Text → Action PendingMessage
unfolding get_collected_signature_key_pairs
get hash = do
  found ← gets (get_message hash)
  row ← or_raise found (invalid_message hash)
  pairs ← get_collected_signature_key_pairs hash
  pure (record {
    collected_signature_key_pairs = pairs;
    transaction_hash = row.transaction_hash;
    wallet_address = row.wallet_address;
  })

unfoldable pub is_present : Text → Action Bool
is_present hash = do
  found ← gets (get_message hash)
  pairs ← gets (pairs_of hash)
  pure (is_some found || not (is_empty pairs))

-- `remove`: the signatures go first, since they refer to the message.
unfoldable pub remove : Text → Action PendingMessage
unfolding get
remove hash = do
  pending ← get hash
  modify (λ db. record db {
    signature_key_pairs = filter (λ r. not (pair_has_hash hash r)) db.signature_key_pairs;
  })
  modify (λ db. record db { messages = filter (λ r. not (has_hash hash r)) db.messages })
  pure pending

-- `getStatus`
unfoldable pub get_status : Chain → Text → Action MessageStatus
unfolding get
get_status chain hash = do
  message ← get hash
  required ← lift (chain.required_signatures message.wallet_address)
  pure (record {
    message_hash = none;
    error = none;
    collected_signatures =
        map (λ (p : CollectedSignatureKeyPair). p.signature) message.collected_signature_key_pairs;
    total_collected = length message.collected_signature_key_pairs;
    required = required;
    transaction_hash = message.transaction_hash;
  })

-- `utils.verifyMessage` throws on text that is no signature.
unfoldable pub bad_signature : Exception
bad_signature = other (codes "Error") (codes "invalid signature")

-- `getKeyFromHashAndSignature` of core/utils/utils.ts
unfoldable pub get_key_from_hash_and_signature : Ethers → Text → Text → Action Text
get_key_from_hash_and_signature e hash signature =
    or_raise (e.verify_message (e.arrayify hash) signature) bad_signature

-- `addSignature`: the foreign key refuses a pair whose message has no row.
unfoldable pub add_signature : Ethers → Text → Text → Action (Unit {0})
unfolding get_key_from_hash_and_signature
add_signature e hash signature = do
  key ← get_key_from_hash_and_signature e hash signature
  present ← gets (λ db. is_some (get_message hash db))
  ensure present key_violation
  modify (λ db. record db {
    signature_key_pairs =
        db.signature_key_pairs
        ++ record { message_hash = hash; signature = signature; key = key } ∷ [];
  })

abbrev pub with_transaction_hash : Text → Text → MessageRow → MessageRow
with_transaction_hash hash transaction_hash r =
    if has_hash hash r then record r { transaction_hash = some transaction_hash } else r

unfoldable pub set_transaction_hash : Text → Text → Action (Unit {0})
set_transaction_hash hash transaction_hash =
    modify
      (λ db. record db { messages = map (with_transaction_hash hash transaction_hash) db.messages })

-- Whether a row holds the signature under the hash.
unfoldable pub has_signature : Text → Text → List SignatureRow → Bool
has_signature hash signature rows =
    is_some (find? (λ (r : SignatureRow). pair_has_hash hash r && r.signature == signature) rows)

unfoldable pub contain_signature : Text → Text → Action Bool
contain_signature hash signature = gets (λ db. has_signature hash signature db.signature_key_pairs)
