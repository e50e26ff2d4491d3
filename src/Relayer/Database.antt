-- ===== src/Relayer/Database.antt =====
-- The tables of integration/sql/migrations, in the order in which rows were inserted, and the
-- calls that read the blockchain. Queries to the database are taken not to fail but for a
-- violated key constraint.
use universal_login_sdk.Prelude.{Bool, ℕ, Option, List, Text, codes, Exec, Result}
use universal_login_sdk.Commons.Message.{StringMessage}
use universal_login_sdk.Relayer.Errors.{Exception, other}

-- `messages`, with primary key `messageHash`
pub record MessageRow : Type 0 where
  pub message_hash : Text
  pub transaction_hash : Option Text
  pub wallet_address : Text
  pub created_at : ℕ

-- `signature_key_pairs`, with a foreign key `messageHash` into `messages`
pub record SignatureRow : Type 0 where
  pub message_hash : Text
  pub signature : Text
  pub key : Text

-- `finalMessages`, with primary key `messageHash`
pub record QueueRow : Type 0 where
  pub message_hash : Text
  pub message : StringMessage
  pub transaction_hash : Option Text
  pub error : Option Text
  pub created_at : ℕ

pub record DeviceInfo : Type 0 where
  pub ip_address : Text
  pub name : Text
  pub city : Text
  pub os : Text
  pub browser : Text
  pub time : Text

-- `authorisations`, with a serial `id`
pub record AuthorisationRow : Type 0 where
  pub id : ℕ
  pub wallet_contract_address : Text
  pub key : Text
  pub device_info : DeviceInfo

-- `now` is what `fn.now()` answers, and `next_id` the next serial number.
pub record Database : Type 0 where
  pub messages : List MessageRow
  pub signature_key_pairs : List SignatureRow
  pub final_messages : List QueueRow
  pub authorisations : List AuthorisationRow
  pub now : ℕ
  pub next_id : ℕ
  -- whether the database lists one row of the queue before another that was created at the same time
  pub ties : QueueRow → QueueRow → Bool

abbrev pub Action : Type 0 → Type 0
Action A = Exec Exception Database A

-- What the database throws where a key constraint is violated.
pub key_violation : Exception
key_violation = other (codes "error") (codes "violates a key constraint")

-- The blockchain as one request sees it: wallet contracts, token contracts and accounts. A call
-- may fail in the node or in the contract.
pub record Chain : Type 0 where
  pub required_signatures : Text → Result Exception ℕ
  pub get_key_purpose : Text → Text → Result Exception ℕ
  pub get_code : Text → Result Exception Text
  pub get_balance : Text → Result Exception ℕ
  pub balance_of : Text → Text → Result Exception ℕ
