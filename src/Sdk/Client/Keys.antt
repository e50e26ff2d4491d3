-- ===== src/Sdk/Client/Keys.antt =====
-- sdk.ts: the calls that change a wallet's keys and the number of signatures it needs; each is a
-- message of the wallet to itself.
use universal_login_sdk.Prelude.{ℕ, Option, some, List, Text, length, repeat, Result, lift, ◌>>=◌}
use universal_login_sdk.Commons.Ethers.{Ethers}
use universal_login_sdk.Commons.Json.{Json}
use universal_login_sdk.Commons.Signing.{PartialMessage}
use universal_login_sdk.Sdk.Errors.{SdkError}
use universal_login_sdk.Sdk.RelayerApi.{Net}
use universal_login_sdk.Sdk.Client.{Provider, Using, execute}

-- `new utils.Interface(WalletContract.interface).functions`: the call data of the wallet contract's
-- functions, or what `encode` throws
pub record WalletFunctions : Type 0 where
  pub add_key : Text → ℕ → Result SdkError Text
  pub add_keys : List Text → List ℕ → Result SdkError Text
  pub remove_key : Text → ℕ → Result SdkError Text
  pub set_required_signatures : ℕ → Result SdkError Text

abbrev pub management_key : ℕ
management_key = 1

abbrev pub operation_call : ℕ
operation_call = 0

-- `{...transactionDetails, to, from: to, data}`
abbrev pub to_itself : PartialMessage → Text → Text → PartialMessage
to_itself details to call_data = record details {
  to = some to;
  from = some to;
  data_field = some call_data;
}

-- the same with `value: 0` and `operationType: OPERATION_CALL`
abbrev pub call_to_itself : PartialMessage → Text → Text → PartialMessage
call_to_itself details to call_data = record (to_itself details to call_data) {
  value = some 0;
  operation_type = some operation_call;
}

module _ (e : Ethers) (net : Net) (base_url : Text) (provider : Provider)
    (default_payment_options : PartialMessage) (functions : WalletFunctions) where
  -- `addKey`; the purpose is an argument with the default `MANAGEMENT_KEY`
  unfoldable pub add_key : Text → Text → Text → PartialMessage → ℕ → Using (Option Json)
  add_key to public_key private_key details key_purpose = do
    call_data ← lift (functions.add_key public_key key_purpose)
    execute e net base_url provider default_payment_options (to_itself details to call_data)
        private_key

  -- `addKeys`
  unfoldable pub add_keys : Text → List Text → Text → PartialMessage → ℕ → Using (Option Json)
  add_keys to public_keys private_key details key_purpose = do
    call_data ← lift (functions.add_keys public_keys (repeat (length public_keys) key_purpose))
    execute e net base_url provider default_payment_options (to_itself details to call_data)
        private_key

  -- `removeKey`
  unfoldable pub remove_key : Text → Text → Text → PartialMessage → Using (Option Json)
  remove_key to address private_key details = do
    call_data ← lift (functions.remove_key address management_key)
    execute e net base_url provider default_payment_options (call_to_itself details to call_data)
        private_key

  -- `setRequiredSignatures`
  unfoldable pub set_required_signatures : Text → ℕ → Text → PartialMessage → Using (Option Json)
  set_required_signatures to required_signatures private_key details = do
    call_data ← lift (functions.set_required_signatures required_signatures)
    execute e net base_url provider default_payment_options (call_to_itself details to call_data)
        private_key
