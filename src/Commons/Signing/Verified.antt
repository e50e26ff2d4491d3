-- ===== src/Commons/Signing/Verified.antt =====
-- What is signed is verified.
use universal_login_sdk.Prelude.{◌≡◌, true, some, Text, arith}
use universal_login_sdk.Commons.Ethers.{Ethers, RecoversSigner}
use universal_login_sdk.Commons.Message.{
  SignedMessage, message_hash_of, message_hash_of-signature, is_hashable,
}
use universal_login_sdk.Commons.Signing.{
  PartialMessage, spread, empty_message, unsigned, signed, signature_of, create_signed_message,
}

module _ (e : Ethers) where
  -- The signature of a message that is signed recovers to the address of the key, by the hash that the
  -- message has with its signature.
  pub signed-verify :
      (private_key : Text) (u : SignedMessage)
      → RecoversSigner e
      → e.is_private_key private_key ≡ true
      → e.verify_message
          (e.arrayify (message_hash_of e (signed e private_key u)))
          (signed e private_key u).signature
        ≡ some (e.wallet_address private_key)
  unfolding signature_of
  signed-verify private_key u recovers key =
      rw (message_hash_of-signature e u (signature_of e private_key u))
        (recovers private_key (e.arrayify (message_hash_of e u)) key)

  -- A message with a sender is made, where its key is one and its fields can be hashed.
  pub create_signed_message_lem :
      (override : PartialMessage) (private_key from : Text)
      → override.from ≡ some from
      → e.is_private_key private_key ≡ true
      → is_hashable e (unsigned (spread empty_message override) from) ≡ true
      → create_signed_message e override private_key
        ≡ some (signed e private_key (unsigned (spread empty_message override) from))
  unfolding create_signed_message
  create_signed_message_lem override private_key from e1 key hashable = ground arith
