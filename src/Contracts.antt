-- ===== src/Contracts.antt =====
-- universal-login-contracts/lib: encode.ts, ProxyUtils.ts, FutureDeployment.ts and deployFactory.ts,
-- the initialization and the future address of wallets.
pub mod Agreement
use universal_login_sdk.Prelude.{Option, none, some, List, [], ◌∷◌, ◌++◌, Text, codes, Result, err}
use universal_login_sdk.Commons.Ethers.{Ethers}
use universal_login_sdk.Commons.Signing.{calculate_initialize_with_ens_signature}
use universal_login_sdk.Sdk.Client.Names.{KeyPair}
use universal_login_sdk.Sdk.FutureWallets.{compute_contract_address}

infixl 5 ◌>>=◌
abbrev ◌>>=◌ : {A B : Type 0} → Option A → (A → Option B) → Option B
none >>= f = none
some a >>= f = f a

-- A contract that was built: its bytecode without the prefix, and the coding of the constructor's call
-- by its interface, which throws on bad arguments.
pub record ContractJson : Type 0 where
  pub bytecode : Text
  pub encode_deploy : Text → List Text → Option Text

-- What is taken from the built contracts: the codings of three initializations, and the proxy.
pub record Built : Type 0 where
  pub initialize : List Text → Option Text
  pub initialize_with_ens : List Text → Option Text
  pub initialize_with_refund : List Text → Option Text
  pub proxy : ContractJson

pub record EnsDomainData : Type 0 where
  pub ens_address : Text
  pub registrar_address : Text
  pub resolver_address : Text

pub record FutureDeployment : Type 0 where
  pub initialize_data : Text
  pub future_address : Text

-- The array of seven arguments that `setupInitializeWithENSArgs` returns.
pub record EnsArgs : Type 0 where
  pub public_key : Text
  pub hash_label : Text
  pub ens_name : Text
  pub node : Text
  pub ens_address : Text
  pub registrar_address : Text
  pub resolver_address : Text

abbrev pub listed : EnsArgs → List Text
listed a =
    a.public_key ∷ a.hash_label ∷ a.ens_name ∷ a.node ∷ a.ens_address ∷ a.registrar_address
    ∷ a.resolver_address ∷ []

-- `getDeployData`
unfoldable pub get_deploy_data : ContractJson → List Text → Option Text
get_deploy_data contract args = contract.encode_deploy (codes "0x" ++ contract.bytecode) args

-- `ContractFactory.deploy` of the factory, by what the node answers for the constructor's argument: the
-- address; what is thrown before is `thrown`.
unfoldable pub deploy_factory : Built → (Text → Result Text Text) → Text → Text → Result Text Text
unfolding get_deploy_data
deploy_factory built deploy thrown wallet_master_address =
    elim (get_deploy_data built.proxy (wallet_master_address ∷ codes "0x0" ∷ [])) [
      | none ↦ err thrown
      | some init_code ↦ deploy init_code
    ]

-- `namehash` throws on a malformed name.
module _ (e : Ethers) (namehash : Text → Option Text) where
  -- `setupInitializeWithENSArgs`, by the name and the domain it is called with
  unfoldable pub setup_initialize_with_ens_args :
      KeyPair → EnsDomainData → Text → Text → Option EnsArgs
  setup_initialize_with_ens_args keys data_of name domain =
      let ens_name : Text = name ++ b'.' ∷ domain in
      elim (namehash ens_name) [
        | none ↦ none
        | some node ↦ some (record {
          public_key = keys.public_key;
          hash_label = e.keccak256 (e.to_utf8_bytes name);
          ens_name = ens_name;
          node = node;
          ens_address = data_of.ens_address;
          registrar_address = data_of.registrar_address;
          resolver_address = data_of.resolver_address;
        })
      ]

  -- `setupInitializeWithENSAndRefundArgs`
  unfoldable pub setup_initialize_with_ens_and_refund_args :
      KeyPair → EnsDomainData → Text → Text → Text → Text → Option (List Text)
  unfolding setup_initialize_with_ens_args
  setup_initialize_with_ens_and_refund_args keys data_of name domain relayer_address gas_price =
      elim (setup_initialize_with_ens_args keys data_of name domain) [
        | none ↦ none
        | some args ↦ some (
            listed args
            ++ (relayer_address
                ∷ gas_price
                ∷ calculate_initialize_with_ens_signature e args.ens_name args.hash_label args.node
                    gas_price keys.private_key
                ∷ []))
      ]

  module _ (built : Built) where
    -- `createProxyDeployWithENSArgs`; the master's address and the call
    unfoldable pub create_proxy_deploy_with_ens_args :
        KeyPair → EnsDomainData → Text → Text → Option (Text × Text)
    unfolding setup_initialize_with_ens_args
    create_proxy_deploy_with_ens_args keys data_of wallet_master_address name = do
      args ← setup_initialize_with_ens_args keys data_of name (codes "mylogin.eth")
      init_data ← built.initialize_with_ens (listed args)
      some (wallet_master_address, init_data)

    -- `createProxyDeployWithRefundArgs`
    unfoldable pub create_proxy_deploy_with_refund_args :
        KeyPair → EnsDomainData → Text → Text → Text → Text → Option (Text × Text)
    unfolding setup_initialize_with_ens_and_refund_args
    create_proxy_deploy_with_refund_args keys data_of master relayer_address gas_price name = do
      args ←
          setup_initialize_with_ens_and_refund_args keys data_of name (codes "mylogin.eth")
            relayer_address gas_price
      init_data ← built.initialize_with_refund args
      some (master, init_data)

    -- `getFutureAddress`
    unfoldable pub get_future_address : Text → Text → Text → Option Text
    unfolding get_deploy_data
    get_future_address wallet_master_address factory_address public_key = do
      init_data ← get_deploy_data built.proxy (wallet_master_address ∷ codes "0x0" ∷ [])
      some (compute_contract_address e factory_address public_key init_data)

    -- `createFutureDeploymentWithENS`
    unfoldable pub create_future_deployment_with_ens :
        KeyPair → Text → EnsDomainData → Text → Option FutureDeployment
    unfolding create_proxy_deploy_with_ens_args get_future_address
    create_future_deployment_with_ens keys wallet_master_address data_of factory_address = do
      args ← create_proxy_deploy_with_ens_args keys data_of wallet_master_address (codes "name")
      address ← get_future_address wallet_master_address factory_address keys.public_key
      some (record { initialize_data = args.1; future_address = address })

    -- `createFutureDeployment`
    unfoldable pub create_future_deployment : Text → Text → Text → Option FutureDeployment
    unfolding get_future_address
    create_future_deployment public_key wallet_master_address factory_address = do
      initialize_data ← built.initialize (public_key ∷ [])
      address ← get_future_address wallet_master_address factory_address public_key
      some (record { initialize_data = initialize_data; future_address = address })

    -- `createFutureDeploymentWithRefund`
    unfoldable pub create_future_deployment_with_refund :
        KeyPair → Text → EnsDomainData → Text → Text → Text → Option FutureDeployment
    unfolding create_proxy_deploy_with_refund_args get_future_address
    create_future_deployment_with_refund keys master data_of factory_address relayer_address
          gas_price =
        do
          args ←
              create_proxy_deploy_with_refund_args keys data_of master relayer_address gas_price
                (codes "name")
          address ← get_future_address master factory_address keys.public_key
          some (record { initialize_data = args.1; future_address = address })
