-- ===== src/Wallet.antt =====
-- The wallet application, universal-login-wallet/src: integration/storage/WalletService.ts,
-- core/presenters/WalletPresenter.ts and core/entities/UserWallet.ts.
pub mod Sessions
pub mod Errors
pub mod Tokens
pub mod Transfers
use universal_login_sdk.Prelude.{
  Bool, true, false, Option, none, some, List, [], ◌∷◌, Text, codes, Result, ok, err, Exec, pure,
  gets, lift, raise, modify, ensure, ◌>>=◌, ◌>>◌, is_some,
}
use universal_login_sdk.Sdk.Errors.{SdkError}

pub record UserWallet : Type 0 where
  pub name : Text
  pub contract_address : Text
  pub private_key : Text

-- The SDK's `FutureWallet`, without its two functions.
pub record FutureWallet : Type 0 where
  pub contract_address : Text
  pub private_key : Text

pub data AnyWallet : Type 0 where
  future : FutureWallet → AnyWallet
  user : UserWallet → AnyWallet

-- 'None', 'Future' and 'Deployed'
pub data WalletState : Type 0 where
  state_none state_future state_deployed : WalletState

-- What is thrown: the application's errors, another `Error` by its text, and what the SDK throws.
pub data WalletError : Type 0 where
  user_wallet_not_found wallet_overriden future_wallet_not_set : WalletError
  error : Text → WalletError
  sdk : SdkError → WalletError

pub record WalletService : Type 0 where
  pub user_wallet : Option AnyWallet
  pub state : WalletState

abbrev pub Session : Type 0 → Type 0
Session A = Exec WalletError WalletService A

abbrev pub new_service : WalletService
new_service = record { user_wallet = none; state = WalletState.state_none }

abbrev pub is_none : WalletState → Bool
is_none WalletState.state_none = true
is_none _ = false

abbrev pub is_future : WalletState → Bool
is_future WalletState.state_future = true
is_future _ = false

abbrev pub is_deployed : WalletState → Bool
is_deployed WalletState.state_deployed = true
is_deployed _ = false

abbrev pub contract_address_of : AnyWallet → Text
contract_address_of (AnyWallet.future w) = w.contract_address
contract_address_of (AnyWallet.user w) = w.contract_address

abbrev pub private_key_of : AnyWallet → Text
private_key_of (AnyWallet.future w) = w.private_key
private_key_of (AnyWallet.user w) = w.private_key

-- The property access on `this.userWallet!`, which throws where it is undefined.
abbrev pub defined : Option AnyWallet → Session AnyWallet
defined none = raise (error (codes "Cannot destructure 'undefined'"))
defined (some w) = pure w

unfoldable pub wallet_deployed : Session Bool
wallet_deployed = gets (λ s. is_deployed s.state)

unfoldable pub is_authorized : Session Bool
is_authorized = wallet_deployed

unfoldable pub set_future_wallet : FutureWallet → Session (Unit {0})
set_future_wallet user_wallet = do
  vacant ← gets (λ s. is_none s.state)
  ensure vacant wallet_overriden
  modify (λ s. record s { state = WalletState.state_future })
  modify (λ s. record s { user_wallet = some (AnyWallet.future user_wallet) })

-- `createFutureWallet`, by the SDK's answer
unfoldable pub create_future_wallet : Result WalletError FutureWallet → Session FutureWallet
unfolding set_future_wallet
create_future_wallet answer = do
  future_wallet ← lift answer
  set_future_wallet future_wallet
  pure future_wallet

unfoldable pub set_deployed : Text → Session (Unit {0})
set_deployed name = do
  expected ← gets (λ s. is_future s.state)
  ensure expected future_wallet_not_set
  held ← gets (λ s. s.user_wallet)
  wallet ← defined held
  modify (λ s. record s { state = WalletState.state_deployed })
  modify (λ s. record s {
    user_wallet = some (
        AnyWallet.user (record {
          name = name;
          contract_address = contract_address_of wallet;
          private_key = private_key_of wallet;
        }));
  })

unfoldable pub connect : UserWallet → Session (Unit {0})
connect user_wallet = do
  vacant ← gets (λ s. is_none s.state)
  ensure vacant wallet_overriden
  modify (λ s. record s { state = WalletState.state_deployed })
  modify (λ s. record s { user_wallet = some (AnyWallet.user user_wallet) })

unfoldable pub disconnect : Session (Unit {0})
disconnect =
    modify (λ s. record s { state = WalletState.state_none })
    >> modify (λ s. record s { user_wallet = none })

-- The name of a wallet; a future wallet has no such property.
abbrev name_of : AnyWallet → Option Text
name_of (AnyWallet.future w) = none
name_of (AnyWallet.user w) = some w.name

-- `getName` of the presenter
unfoldable pub get_name : Session (Option Text)
get_name = do
  held ← gets (λ s. s.user_wallet)
  ensure (is_some held) (error (codes "UserWallet not found"))
  ready ← gets (λ s. is_deployed s.state)
  ensure ready (error (codes "UserWallet is not deployed yet"))
  wallet ← defined held
  pure (name_of wallet)

-- `getContractAddress` of the presenter
unfoldable pub get_contract_address : Session Text
get_contract_address = do
  held ← gets (λ s. s.user_wallet)
  ensure (is_some held) (error (codes "UserWallet not found"))
  wallet ← defined held
  pure (contract_address_of wallet)
