-- ===== src/Commons/Message.antt =====
-- core/models/message.ts, core/utils/messages/changingMessageFields.ts and the hash of
-- calculateMessageSignature.ts. The message is the one that the relayer's router lets through:
-- amounts are big numbers, nonce and data are strings.
use universal_login_sdk.Prelude.{
  ℕ, ◌≡◌, refl, Option, none, some, List, [], ◌∷◌, Text, codes, to_decimal, Bool, ◌&&◌,
  if◌then◌else◌,
}
use universal_login_sdk.Commons.Ethers.{Ethers, SolValue, text, number, ReadsDecimals}

pub record SignedMessage : Type 0 where
  pub gas_token : Text
  pub operation_type : ℕ
  pub to : Text
  pub from : Text
  pub nonce : Text
  pub gas_limit : ℕ
  pub gas_price : ℕ
  pub data_field : Text
  pub value : ℕ
  pub signature : Text

-- The message with its amounts as strings, which is what is stored and sent.
pub record StringMessage : Type 0 where
  pub gas_token : Text
  pub operation_type : ℕ
  pub to : Text
  pub from : Text
  pub nonce : Text
  pub gas_limit : Text
  pub gas_price : Text
  pub data_field : Text
  pub value : Text
  pub signature : Text

-- `stringifySignedMessageFields`: a big number is an object, so `&&` passes it on, also if it is 0.
unfoldable pub stringify_signed_message_fields : SignedMessage → StringMessage
stringify_signed_message_fields m = record {
  gas_token = m.gas_token;
  operation_type = m.operation_type;
  to = m.to;
  from = m.from;
  nonce = m.nonce;
  gas_limit = to_decimal m.gas_limit;
  gas_price = to_decimal m.gas_price;
  data_field = m.data_field;
  value = to_decimal m.value;
  signature = m.signature;
}

infixl 5 ◌>>=◌
abbrev ◌>>=◌ {ℓ κ} : {A : Type ℓ} {B : Type κ} → Option A → (A → Option B) → Option B
none >>= f = none
some a >>= f = f a

module _ (e : Ethers) where
  -- `bignumberifySignedMessageFields`, which reads the three amounts in this order
  unfoldable pub bignumberify_signed_message_fields : StringMessage → Option SignedMessage
  bignumberify_signed_message_fields m = do
    value ← e.big_numberify m.value
    gas_limit ← e.big_numberify m.gas_limit
    gas_price ← e.big_numberify m.gas_price
    some (record {
      gas_token = m.gas_token;
      operation_type = m.operation_type;
      to = m.to;
      from = m.from;
      nonce = m.nonce;
      gas_limit = gas_limit;
      gas_price = gas_price;
      data_field = m.data_field;
      value = value;
      signature = m.signature;
    })

  -- what `calculateMessageHash` hashes, by the hash of the data
  abbrev packed_types : List Text
  packed_types =
      codes "address"
      ∷ codes "address"
      ∷ codes "uint256"
      ∷ codes "bytes32"
      ∷ codes "uint256"
      ∷ codes "uint"
      ∷ codes "address"
      ∷ codes "uint"
      ∷ codes "uint"
      ∷ []

  abbrev data_hash : SignedMessage → Text
  data_hash m = e.solidity_keccak256 (codes "bytes" ∷ []) (text m.data_field ∷ [])

  abbrev packed_values : SignedMessage → List SolValue
  packed_values m =
      text m.from
      ∷ text m.to
      ∷ number m.value
      ∷ text (data_hash m)
      ∷ text m.nonce
      ∷ number m.gas_price
      ∷ text m.gas_token
      ∷ number m.gas_limit
      ∷ number m.operation_type
      ∷ []

  -- whether `calculateMessageHash` returns: both of its calls of `solidityKeccak256` do
  unfoldable pub is_hashable : SignedMessage → Bool
  is_hashable m =
      e.is_packable (codes "bytes" ∷ []) (text m.data_field ∷ [])
      && e.is_packable packed_types (packed_values m)

  -- what it returns then
  unfoldable pub message_hash_of : SignedMessage → Text
  message_hash_of m = e.solidity_keccak256 packed_types (packed_values m)

  -- `calculateMessageHash`, which throws what ethers throws on malformed fields
  abbrev pub calculate_message_hash : SignedMessage → Option Text
  calculate_message_hash m = if is_hashable m then some (message_hash_of m) else none

  -- The amounts survive being written and read back.
  pub bignumberify-stringify :
      (m : SignedMessage)
      → ReadsDecimals e
      → bignumberify_signed_message_fields (stringify_signed_message_fields m) ≡ some m
  unfolding bignumberify_signed_message_fields stringify_signed_message_fields
  bignumberify-stringify m reads = rw (reads m.value, reads m.gas_limit, reads m.gas_price)

  -- The hash does not cover the signature, so all signers of a message share it.
  pub message_hash_of-signature :
      (m : SignedMessage) (s : Text)
      → message_hash_of (record m { signature = s }) ≡ message_hash_of m
  unfolding message_hash_of
  message_hash_of-signature m s = refl

  -- Nor do the checks of its fields cover the signature.
  pub is_hashable-signature :
      (m : SignedMessage) (s : Text) → is_hashable (record m { signature = s }) ≡ is_hashable m
  unfolding is_hashable
  is_hashable-signature m s = refl
