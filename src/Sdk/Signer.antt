-- ===== src/Sdk/Signer.antt =====
-- SdkSigner.ts: an ethers signer whose transactions are messages of a wallet.
use universal_login_sdk.Prelude.{
  ℕ, Option, none, some, Text, codes, Result, lift, ensure, ◌>>=◌, ◌>>◌,
}
use universal_login_sdk.Commons.Ethers.{Ethers}
use universal_login_sdk.Commons.Json.{Json}
use universal_login_sdk.Commons.Signing.{PartialMessage}
use universal_login_sdk.Sdk.Errors.{SdkError, transaction_hash_not_found}
use universal_login_sdk.Sdk.RelayerApi.{Net}
use universal_login_sdk.Sdk.Values.{truthy, read}
use universal_login_sdk.Sdk.Client.{Provider, Using, execute}

-- `providers.TransactionRequest`, as far as it is read; a property that is undefined is `none`.
pub record TransactionRequest : Type 0 where
  pub to : Option Text
  pub data_field : Option Text
  pub gas_limit : Option ℕ
  pub gas_price : Option ℕ
  pub value : Option ℕ

-- the message of `sendTransaction`
unfoldable pub message_for : Text → TransactionRequest → PartialMessage
message_for contract_address transaction = record {
  gas_token = none;
  operation_type = none;
  to = transaction.to;
  from = some contract_address;
  nonce = none;
  gas_limit = transaction.gas_limit;
  gas_price = transaction.gas_price;
  data_field = transaction.data_field;
  value = transaction.value;
}

module _ (e : Ethers) (net : Net) (base_url : Text) (provider : Provider)
    (default_payment_options : PartialMessage) where
  -- `getAddress` and `signMessage`
  unfoldable pub get_address : Text → Text
  get_address private_key = e.wallet_address private_key

  unfoldable pub sign_message : Text → Text → Text
  sign_message private_key message = e.sign_message private_key message

  -- `sendTransaction`; the transaction is looked up by its hash.
  unfoldable pub send_transaction :
      {T : Type 0} → (Option Json → Result SdkError T) → Text → Text → TransactionRequest → Using T
  send_transaction get_transaction contract_address private_key transaction = do
    status ←
        execute e net base_url provider default_payment_options
          (message_for contract_address transaction) private_key
    transaction_hash ← lift (read (codes "transactionHash") status)
    ensure (truthy transaction_hash) transaction_hash_not_found
    lift (get_transaction transaction_hash)
