-- ===== src/Wallet/Tokens.antt =====
-- integration/ethereum/TokenService.ts, EtherBalanceService.ts and utils/getTokenDetails.ts, and
-- core/services/BalanceService.ts of the wallet application: tokens and the balance that is shown.
use universal_login_sdk.Prelude.{
  ℕ, zero, suc, Bool, true, false, Option, none, some, List, [], ◌∷◌, ◌++◌, Text, codes, ◌==◌, eqb,
  map, repeat, Result, ok, err, Exec, pure, gets, lift, modify, ◌>>=◌, ◌>>◌, if◌then◌else◌,
}
use universal_login_sdk.Wallet.{WalletError, Session, contract_address_of, defined, wallet_deployed}

pub record TokenDetails : Type 0 where
  pub name : Text
  pub symbol : Text
  pub address : Text

-- `ETHER_NATIVE_TOKEN`
abbrev pub ether_native_token : TokenDetails
ether_native_token = record {
  name = codes "ether";
  symbol = codes "ETH";
  address = codes "0x" ++ repeat 40 b'0';
}

-- The token contracts and the balances that the node answers.
pub record TokenNode : Type 0 where
  pub symbol : Text → Result WalletError Text
  pub name : Text → Result WalletError Text
  pub get_balance : ℕ → Text → Result WalletError ℕ

-- The field `tokensDetails` as it is made.
abbrev pub no_tokens : List TokenDetails
no_tokens = record { name = []; symbol = []; address = [] } ∷ []

-- `tokensDetails[count] = details`, where `count` is at most the length
unfoldable pub set_details : ℕ → TokenDetails → List TokenDetails → List TokenDetails
set_details n details [] = details ∷ []
set_details zero details (t ∷ ts) = details ∷ ts
set_details (suc n) details (t ∷ ts) = t ∷ set_details n details ts

-- `find`, and the address of what it finds
unfoldable pub get_token_address : Text → List TokenDetails → Option Text
get_token_address symbol [] = none
get_token_address symbol (t ∷ ts) =
    let rest = get_token_address symbol ts in if t.symbol == symbol then some t.address else rest

module _ (node : TokenNode) where
  -- `getTokenDetails`
  unfoldable pub get_token_details : Text → Result WalletError TokenDetails
  get_token_details address = elim (node.symbol address) [
    | err x ↦ err x
    | ok symbol ↦ elim (node.name address) [
      | err x ↦ err x
      | ok name ↦ ok (record { name = name; symbol = symbol; address = address })
    ]
  ]

  -- the `if` of `start`
  unfoldable pub details_of : Text → Result WalletError TokenDetails
  details_of address =
      if address == ether_native_token.address
      then ok ether_native_token
      else get_token_details address

  -- the loop of `start`, from an index
  unfoldable pub start_from : ℕ → List Text → Exec WalletError (List TokenDetails) (Unit {0})
  start_from count [] = pure tt
  start_from count (address ∷ addresses) = do
    details ← lift (details_of address)
    modify (λ tokens. set_details count details tokens)
    start_from (suc count) addresses

  -- `getBalance` of EtherBalanceService, at a point of time
  unfoldable pub get_balance : ℕ → Session ℕ
  unfolding wallet_deployed
  get_balance time = do
    deployed ← wallet_deployed
    elim deployed [
      | false ↦ pure 0
      | true ↦ do
        held ← gets (λ s. s.user_wallet)
        wallet ← defined held
        lift (node.get_balance time (contract_address_of wallet))
    ]

-- `BalanceService`: callbacks by their numbers, and the calls that were made, first first.
pub record Balances : Type 0 where
  pub is_running : Bool
  pub listeners : List ℕ
  pub last_balance : ℕ
  pub calls : List (ℕ × ℕ)

-- A turn of `loop`, by the balance that is answered, up to its sleep
unfoldable pub turn : Result WalletError ℕ → Exec WalletError Balances (Unit {0})
turn answer s = elim s.is_running [
  | false ↦ (ok tt, s)
  | true ↦ elim answer [
    | err x ↦ (err x, s)
    | ok balance ↦ (
      ok tt,
      if eqb balance s.last_balance then s else record s {
        last_balance = balance;
        calls = s.calls ++ map (λ l. (l, balance)) s.listeners;
      },
    )
  ]
]

-- `start`, up to the first sleep of its loop
unfoldable pub start : Result WalletError ℕ → Exec WalletError Balances (Unit {0})
unfolding turn
start answer s = turn answer (record s { is_running = true })

unfoldable pub stop : Balances → Balances
stop s = record s { is_running = false }

-- `subscribe`, which calls the callback at once
unfoldable pub subscribe : ℕ → Balances → Balances
subscribe callback s = record s {
  listeners = s.listeners ++ callback ∷ [];
  calls = s.calls ++ (callback, s.last_balance) ∷ [];
}
