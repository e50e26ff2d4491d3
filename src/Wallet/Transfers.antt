-- ===== src/Wallet/Transfers.antt =====
-- integration/ethereum/TransferService.ts and core/services/Notifications.ts of the wallet
-- application: what the held wallet asks of the SDK.
pub mod Posted
use universal_login_sdk.Prelude.{
  ℕ, Bool, true, false, Option, none, some, List, [], ◌∷◌, Text, codes, ◌==◌, Result, ok, err, Exec,
  pure, raise, lift, ensure, is_some, ◌>>=◌, ◌>>◌, if◌then◌else◌,
}
use universal_login_sdk.Commons.Ethers.{Ethers}
use universal_login_sdk.Commons.Json.{Json}
use universal_login_sdk.Commons.Signing.{PartialMessage}
use universal_login_sdk.Wallet.{
  WalletError, user_wallet_not_found, error, sdk, AnyWallet, contract_address_of, private_key_of,
}
use universal_login_sdk.Wallet.Tokens.{TokenDetails, get_token_address, ether_native_token}
use universal_login_sdk.Sdk.Errors.{SdkError}
use universal_login_sdk.Sdk.RelayerApi.{Net}
use universal_login_sdk.Sdk.Client.{Client, Provider, Using, unsignable, nonce_of, execute}
use universal_login_sdk.Sdk.Client.Keys.{WalletFunctions, management_key, operation_call, add_key}
use universal_login_sdk.Sdk.Client.Names.{deny_request}

pub record TransferDetails : Type 0 where
  pub to : Text
  pub amount : Text
  pub currency : Text

-- What ethers makes of texts: `parseEther`, and the call data of a token's `transfer`.
pub record Encoding : Type 0 where
  pub parse_ether : Text → Result SdkError ℕ
  pub transfer : Text → ℕ → Result SdkError Text

-- A call of the application, on the SDK's state.
abbrev pub App : Type 0 → Type 0
App A = Exec WalletError Client A

unfoldable pub by_sdk : {A : Type 0} → Using A → App A
by_sdk call c = let (r, c') = call c in elim r [ ok a ↦ (ok a, c') | err x ↦ (err (sdk x), c') ]

-- `transactionDetails`
unfoldable pub transaction_details : PartialMessage
transaction_details = record {
  gas_token = some ether_native_token.address;
  operation_type = some operation_call;
  to = none;
  from = none;
  nonce = none;
  gas_limit = some 1000000;
  gas_price = some 1000000000;
  data_field = none;
  value = none;
}

-- the message of `transferTokens`
unfoldable pub token_message : AnyWallet → (token_address call_data : Text) → PartialMessage
token_message wallet token_address call_data = record {
  gas_token = some token_address;
  operation_type = none;
  to = some token_address;
  from = some (contract_address_of wallet);
  nonce = none;
  gas_limit = none;
  gas_price = none;
  data_field = some call_data;
  value = some 0;
}

-- the message of `transferEther`
unfoldable pub ether_message : AnyWallet → Text → ℕ → PartialMessage
ether_message wallet to value = record {
  gas_token = some ether_native_token.address;
  operation_type = none;
  to = some to;
  from = some (contract_address_of wallet);
  nonce = none;
  gas_limit = none;
  gas_price = none;
  data_field = some (codes "0x0");
  value = some value;
}

module _ (encoding : Encoding) (tokens : List TokenDetails) where
  -- `encodeTransfer`
  unfoldable pub encode_transfer : Text → Text → Result SdkError Text
  encode_transfer to amount = elim (encoding.parse_ether amount) [
    | err x ↦ err x
    | ok value ↦ encoding.transfer to value
  ]

  module _ (e : Ethers) (net : Net) (base_url : Text) (provider : Provider)
      (options : PartialMessage) where
    -- `transferTokens`: where the symbol is unknown, hashing the message throws, as its `to` is
    -- undefined.
    unfoldable pub transfer_tokens : AnyWallet → TransferDetails → App (Option Json)
    unfolding encode_transfer
    transfer_tokens wallet details = do
      call_data ← by_sdk (lift (encode_transfer details.to details.amount))
      elim (get_token_address details.currency tokens) [
        | some token_address ↦ by_sdk (
            execute e net base_url provider options (token_message wallet token_address call_data)
              (private_key_of wallet))
        | none ↦ by_sdk (
            nonce_of e net base_url provider options (token_message wallet [] call_data)
              (private_key_of wallet)
            >> raise unsignable)
      ]

    -- `transferEther`
    unfoldable pub transfer_ether : AnyWallet → TransferDetails → App (Option Json)
    transfer_ether wallet details = do
      value ← by_sdk (lift (encoding.parse_ether details.amount))
      by_sdk (
          execute e net base_url provider options (ether_message wallet details.to value)
            (private_key_of wallet))

    -- the `if` of `transfer`
    unfoldable pub transfer_from : AnyWallet → TransferDetails → App (Option Json)
    unfolding transfer_tokens transfer_ether
    transfer_from wallet details =
        if details.currency == ether_native_token.symbol
        then transfer_ether wallet details
        else transfer_tokens wallet details

    -- `transfer`, by the wallet that is held
    unfoldable pub transfer : Option AnyWallet → TransferDetails → App (Option Json)
    unfolding transfer_from
    transfer none details = raise user_wallet_not_found
    transfer (some wallet) details = transfer_from wallet details

module _ (e : Ethers) (net : Net) (base_url : Text) (provider : Provider) (options : PartialMessage)
    (functions : WalletFunctions) where
  -- what reading a property of an undefined wallet throws
  unfoldable pub no_wallet : WalletError
  no_wallet = error (codes "Cannot read property 'contractAddress' of undefined")

  -- `confirm`
  unfoldable pub confirm : Option AnyWallet → Text → App (Unit {0})
  confirm none public_key = raise (error (codes "Cannot destructure 'undefined'"))
  confirm (some wallet) public_key = do
    by_sdk (
        add_key e net base_url provider options functions (contract_address_of wallet) public_key
          (private_key_of wallet) transaction_details management_key)
    pure tt

  -- `reject`
  unfoldable pub reject : Option AnyWallet → Text → App (Unit {0})
  unfolding no_wallet
  reject none public_key = raise no_wallet
  reject (some wallet) public_key = do
    by_sdk (deny_request net base_url provider (contract_address_of wallet) public_key)
    pure tt
