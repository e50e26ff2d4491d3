-- ===== src/Relayer/Creating.antt =====
-- integration/ethereum/WalletService.ts: a wallet is created by a transaction of the relayer's own,
-- without the checks that a deployment makes.
use universal_login_sdk.Prelude.{
  ℕ, Option, none, some, List, [], ◌∷◌, Text, Result, Exec, pure, raise, lift, modify, ◌>>=◌, ◌>>◌,
}
use universal_login_sdk.Commons.Ethers.{Ethers}
use universal_login_sdk.Relayer.Errors.{Exception, invalid_ens_domain}
use universal_login_sdk.Relayer.Database.{Chain}
use universal_login_sdk.Relayer.Deployment.{Ens, Config, Factory, DomainsInfo, args_for}

-- `TransactionOverrides`: a property may be absent, or there and undefined.
pub record TransactionOverrides : Type 0 where
  pub gas_limit : Option (Option ℕ)
  pub gas_price : Option (Option ℕ)

pub record DeployTransaction : Type 0 where
  pub gas_limit : Option ℕ
  pub gas_price : Option ℕ
  pub data_field : Text

-- The wallet that sends, and what ethers encodes: the data of `initializeWithENS`, and the data that
-- deploys a proxy with its arguments.
pub record Deployer : Type 0 where
  pub encode_initialize_with_ens : List Text → Result Exception Text
  pub deploy_data : List Text → Result Exception Text
  pub send_transaction : List DeployTransaction → DeployTransaction → Result Exception Text

-- The transactions that were sent and the events `created`, last first.
pub record Creations : Type 0 where
  pub sent : List DeployTransaction
  pub created : List Text

abbrev pub Creating : Type 0 → Type 0
Creating A = Exec Exception Creations A

abbrev pub overridden : Option (Option ℕ) → ℕ → Option ℕ
overridden none by_default = some by_default
overridden (some value) by_default = value

-- `{...defaultDeployOptions, ...overrideOptions, ...getDeployTransaction(…)}`
unfoldable pub deploy_transaction : TransactionOverrides → Text → DeployTransaction
deploy_transaction overrides call_data = record {
  gas_limit = overridden overrides.gas_limit 3500000;
  gas_price = overridden overrides.gas_price 9000000000;
  data_field = call_data;
}

module _ (e : Ethers) (ens : Ens) (chain : Chain) (config : Config) (factory : Factory)
    (deployer : Deployer) (wallet_master_address : Text) where
  -- the body of the `if` of `create`
  unfoldable pub create_with : Text → TransactionOverrides → List Text → Creating Text
  create_with key overrides ens_args = do
    init_data ← lift (deployer.encode_initialize_with_ens (key ∷ ens_args))
    call_data ← lift (deployer.deploy_data (wallet_master_address ∷ init_data ∷ []))
    let transaction : DeployTransaction = deploy_transaction overrides call_data
    hash ← (λ s. (deployer.send_transaction s.sent transaction, s))
    modify (λ s. record s { sent = transaction ∷ s.sent })
    modify (λ s. record s { created = hash ∷ s.created })
    pure hash

  -- `create`; `argsFor` touches nothing
  unfoldable pub create : DomainsInfo → Text → Text → TransactionOverrides → Creating Text
  unfolding create_with
  create infos key ens_name overrides = do
    ens_args ← lift (args_for e ens chain config factory infos ens_name []).0
    elim ens_args [
      | none ↦ raise (invalid_ens_domain ens_name)
      | some args ↦ create_with key overrides args
    ]
