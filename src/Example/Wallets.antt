-- ===== src/Example/Wallets.antt =====
-- WalletService.js of the example application: the wallet it holds and stores, and the subscriptions
-- by which it learns that its key was added to a wallet.
pub mod Connecting
use universal_login_sdk.Prelude.{
  ℕ, suc, ◌+◌, ◌≡◌, refl, Bool, true, false, not, Option, none, some, List, [], ◌∷◌, ◌++◌, Text,
  codes, eqb, filter, any, is_some, Result, ok, err, Exec, pure, gets, lift, modify, ◌>>=◌, ◌>>◌,
  if◌then◌else◌, arith, filter-append, any-append,
}

-- `walletContract`, whose properties may be undefined
pub record WalletContract : Type 0 where
  pub name : Option Text
  pub private_key : Option Text
  pub address : Option Text

-- What is emitted: a view with its greet mode, and the two steps of a creation.
pub data Emitted : Type 0 where
  main_screen : Emitted
  greeting : Option Text → Emitted
  creating : Text → Emitted
  created : WalletContract → Emitted

-- A subscription to KeyAdded that the SDK holds: its number, its filter, and the greet mode that its
-- callback passes on.
pub record Subscription : Type 0 where
  pub handle : ℕ
  pub contract_address : Option Text
  pub key : Text
  pub greet_mode : Option Text

pub record WalletService : Type 0 where
  pub wallet_contract : WalletContract
  pub device_address : Text
  pub private_key : Option Text
  pub subscription : Option ℕ
  -- what the storage holds
  pub stored : Option WalletContract
  pub emitted : List Emitted
  -- the subscriptions of the SDK, and the number of the next one
  pub subscriptions : List Subscription
  pub next_handle : ℕ

abbrev pub Session : Type 0 → Type 0
Session A = Exec Text WalletService A

abbrev pub new_service : WalletService
new_service = record {
  wallet_contract = record { name = none; private_key = none; address = none };
  device_address = [];
  private_key = none;
  subscription = none;
  stored = none;
  emitted = [];
  subscriptions = [];
  next_handle = 0;
}

abbrev pub emit : Emitted → WalletService → WalletService
emit e s = record s { emitted = s.emitted ++ e ∷ [] }

unfoldable pub store_wallet : WalletContract → WalletService → WalletService
store_wallet w s = record s { stored = some w }

unfoldable pub load_wallet : Session Bool
load_wallet s = elim s.stored [
  | some w ↦ (ok true, emit main_screen (record s { wallet_contract = w }))
  | none ↦ (ok false, s)
]

-- `this.subscription = this.sdk.subscribe('KeyAdded', …)`
unfoldable pub subscribe : Text → Option Text → WalletService → WalletService
subscribe key greet_mode s = record s {
  subscription = some s.next_handle;
  subscriptions =
      s.subscriptions
      ++ record {
        handle = s.next_handle;
        contract_address = s.wallet_contract.address;
        key = key;
        greet_mode = greet_mode;
      }
        ∷ [];
  next_handle = suc s.next_handle;
}

-- `remove` of a subscription
unfoldable pub remove : ℕ → List Subscription → List Subscription
remove h subscriptions = filter (λ t. not (eqb t.handle h)) subscriptions

unfoldable pub cancel_subscription : WalletService → WalletService
unfolding remove
cancel_subscription s = elim s.subscription [
  | none ↦ s
  | some h ↦ record s { subscriptions = remove h s.subscriptions; subscription = none }
]

unfoldable pub on_key_added : Option Text → WalletService → WalletService
unfolding cancel_subscription store_wallet
on_key_added greet_mode s =
    let s1 = cancel_subscription s in
    let wallet : WalletContract = record {
      name = s1.wallet_contract.name;
      private_key = s1.private_key;
      address = s1.wallet_contract.address;
    } in
    store_wallet wallet (emit (greeting greet_mode) (record s1 { wallet_contract = wallet }))

unfoldable pub disconnect : WalletService → WalletService
disconnect s = record s { stored = none }

-- The address of a private key, by ethers.
module _ (address_of : Text → Text) where
  -- `connect`, by the private key that the SDK answers
  unfoldable pub connect : Result Text Text → Session (Unit {0})
  unfolding subscribe
  connect answer = do
    private_key ← lift answer
    modify (λ s. record s { private_key = some private_key })
    modify (subscribe (address_of private_key) (some (codes "addKey")))

  -- `recover`, by the private key that is made
  unfoldable pub recover : Text → Session (Unit {0})
  unfolding subscribe
  recover private_key = do
    modify (λ s. record s { private_key = some private_key })
    modify (λ s. record s { device_address = address_of private_key })
    modify (subscribe (address_of private_key) none)

-- `createWallet`, by what the SDK answers
unfoldable pub create_wallet : Text → Result Text (Text × Text) → Session (Unit {0})
unfolding store_wallet
create_wallet name answer = do
  modify (emit (creating name))
  created_wallet ← lift answer
  let wallet : WalletContract = record {
    name = some name;
    private_key = some created_wallet.0;
    address = some created_wallet.1;
  }
  modify (λ s. record s { wallet_contract = wallet })
  modify (emit (created wallet))
  modify (store_wallet wallet)

-- `getWalletContractAddress`, by what the SDK answers; `none` is `undefined`.
unfoldable pub get_wallet_contract_address :
    Text → Result Text (Option Text) → Session (Option Bool)
get_wallet_contract_address name answer = do
  found ← lift answer
  elim found [
    | none ↦ pure none
    | some address ↦ (do
      modify (λ s. record s {
        wallet_contract = record { name = some name; private_key = none; address = some address };
      })
      pure (some true))
  ]

-- The SDK's event for a subscription of that number, if it is still there.
unfoldable pub key_added : Subscription → WalletService → WalletService
unfolding on_key_added
key_added t s =
    if any (λ u. eqb u.handle t.handle) s.subscriptions then on_key_added t.greet_mode s else s
