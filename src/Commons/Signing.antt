-- ===== src/Commons/Signing.antt =====
-- The signing half of core/utils/messages/calculateMessageSignature.ts, with signMessage.ts,
-- calculateSignature.ts and core/models/message.ts: a message is completed and signed. A nonce is
-- kept as its text, which a number and a string print alike.
pub mod Verified
use universal_login_sdk.Prelude.{
  ℕ, Bool, ◌&&◌, if◌then◌else◌, Option, none, some, List, [], ◌∷◌, ◌++◌, Text, codes, repeat,
}
use universal_login_sdk.Commons.Ethers.{Ethers, text}
use universal_login_sdk.Commons.Message.{SignedMessage, message_hash_of, is_hashable}

-- `Message`: a property that is absent is `none`.
pub record PartialMessage : Type 0 where
  pub gas_token : Option Text
  pub operation_type : Option ℕ
  pub to : Option Text
  pub from : Option Text
  pub nonce : Option Text
  pub gas_limit : Option ℕ
  pub gas_price : Option ℕ
  pub data_field : Option Text
  pub value : Option ℕ

abbrev pub or_else : {A : Type 0} → Option A → Option A → Option A
or_else none b = b
or_else (some a) b = some a

abbrev pub or_default : {A : Type 0} → Option A → A → A
or_default none b = b
or_default (some a) b = a

-- `{...base, ...override}`
abbrev pub spread : PartialMessage → PartialMessage → PartialMessage
spread base override = record {
  gas_token = or_else override.gas_token base.gas_token;
  operation_type = or_else override.operation_type base.operation_type;
  to = or_else override.to base.to;
  from = or_else override.from base.from;
  nonce = or_else override.nonce base.nonce;
  gas_limit = or_else override.gas_limit base.gas_limit;
  gas_price = or_else override.gas_price base.gas_price;
  data_field = or_else override.data_field base.data_field;
  value = or_else override.value base.value;
}

-- `emptyMessage`, with `formatBytes32String('0')` written out
pub empty_message : PartialMessage
empty_message = record {
  gas_token = some (codes "0x" ++ repeat 40 b'0');
  operation_type = some 0;
  to = some [];
  from = none;
  nonce = some (codes "0");
  gas_limit = some 1000000;
  gas_price = some 1000000000;
  data_field = some (codes "0x30" ++ repeat 62 b'0');
  value = some 0;
}

-- The message that a partial one stands for, without its signature: hashing throws where there is no
-- sender, and all other properties of `emptyMessage` are there.
abbrev pub unsigned : PartialMessage → Text → SignedMessage
unsigned m from = record {
  gas_token = or_default m.gas_token [];
  operation_type = or_default m.operation_type 0;
  to = or_default m.to [];
  from = from;
  nonce = or_default m.nonce [];
  gas_limit = or_default m.gas_limit 0;
  gas_price = or_default m.gas_price 0;
  data_field = or_default m.data_field [];
  value = or_default m.value 0;
  signature = [];
}

module _ (e : Ethers) where
  -- whether `calculateMessageSignature` returns: the key is one, and the message has a hash
  abbrev pub is_signable : Text → SignedMessage → Bool
  is_signable private_key msg = e.is_private_key private_key && is_hashable e msg

  -- what `calculateMessageSignature` returns then
  unfoldable pub signature_of : Text → SignedMessage → Text
  signature_of private_key msg = e.sign_message private_key (e.arrayify (message_hash_of e msg))

  -- `calculateMessageSignature`
  abbrev pub calculate_message_signature : Text → SignedMessage → Option Text
  calculate_message_signature private_key msg =
      if is_signable private_key msg then some (signature_of private_key msg) else none

  abbrev pub signed : Text → SignedMessage → SignedMessage
  signed private_key m = record m { signature = signature_of private_key m }

  -- the end of `createSignedMessage`, for a message with a sender
  abbrev pub sign_whole : Text → SignedMessage → Option SignedMessage
  sign_whole private_key m = elim (calculate_message_signature private_key m) [
    | none ↦ none
    | some signature ↦ some (record m { signature = signature })
  ]

  -- `createSignedMessage`, which throws what ethers throws
  unfoldable pub create_signed_message : PartialMessage → Text → Option SignedMessage
  create_signed_message override private_key = elim override.from [
    | none ↦ none
    | some from ↦ sign_whole private_key (unsigned (spread empty_message override) from)
  ]

  -- `calculateInitializeWithENSHash`
  unfoldable pub calculate_initialize_with_ens_hash : Text → Text → Text → Text → Text
  calculate_initialize_with_ens_hash ens_name hash_label node gas_price =
      e.solidity_keccak256 (codes "bytes32" ∷ codes "string" ∷ codes "bytes32" ∷ codes "uint" ∷ [])
        (text hash_label ∷ text ens_name ∷ text node ∷ text gas_price ∷ [])

  -- `calculateInitializeWithENSSignature`
  unfoldable pub calculate_initialize_with_ens_signature : Text → Text → Text → Text → Text → Text
  calculate_initialize_with_ens_signature ens_name hash_label node gas_price private_key =
      e.sign_message private_key
        (e.arrayify (calculate_initialize_with_ens_hash ens_name hash_label node gas_price))
