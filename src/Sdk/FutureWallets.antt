-- ===== src/Sdk/FutureWallets.antt =====
-- services/FutureWalletFactory.ts and utils/counterfactual.ts, with calculateDeploySignature and
-- computeContractAddress of universal-login-commons: a wallet whose contract is deployed later.
use universal_login_sdk.Prelude.{
  Option, none, some, List, [], ◌∷◌, ◌++◌, Text, codes, drop, Result, ok, err, pure, lift, ◌>>=◌,
  ◌>>◌,
}
use universal_login_sdk.Commons.Ethers.{Ethers, text}
use universal_login_sdk.Commons.Signing.{calculate_initialize_with_ens_signature}
use universal_login_sdk.Relayer.Deployment.{parse_domain}
use universal_login_sdk.Sdk.Errors.{SdkError}
use universal_login_sdk.Sdk.RelayerApi.{Net, Line, Api}
use universal_login_sdk.Sdk.RelayerApi
use universal_login_sdk.Sdk.DeploymentObserver.{Observer, stopped}
use universal_login_sdk.Sdk.DeploymentObserver
use universal_login_sdk.Sdk.BalanceObserver.{BalanceObserver}
use universal_login_sdk.Sdk.BalanceObserver
use universal_login_sdk.Sdk.Client.Names.{KeyPair, invalid_name}

-- What a future wallet's two functions know besides its private key and address.
pub record FutureWallet : Type 0 where
  pub private_key : Text
  pub contract_address : Text
  pub public_key : Text

-- The observers that are made for one call.
unfoldable pub new_balance_observer : BalanceObserver
new_balance_observer = record {
  state = stopped;
  contract_address = none;
  notified = [];
  timers = 0;
}

unfoldable pub new_deployment_observer : Observer
new_deployment_observer = record {
  state = stopped;
  future_contract_address = [];
  notified = [];
  timers = 0;
}

module _ (e : Ethers) where
  -- `computeContractAddress`
  unfoldable pub compute_contract_address : Text → Text → Text → Text
  compute_contract_address factory_address public_key init_code =
      let final_salt = e.solidity_keccak256 (codes "address" ∷ []) (text public_key ∷ []) in
      let init_code_hash = e.solidity_keccak256 (codes "bytes" ∷ []) (text init_code ∷ []) in
      let hashed_data =
        e.solidity_keccak256
          (codes "bytes1" ∷ codes "address" ∷ codes "bytes32" ∷ codes "bytes32" ∷ [])
          (text (codes "0xff")
            ∷ text factory_address
            ∷ text final_salt
            ∷ text init_code_hash
            ∷ []) in
      codes "0x" ++ drop 26 hashed_data

  -- `createFutureWallet`, by the key pair that is made and what the factory's `initCode` answers
  unfoldable pub create_future_wallet :
      KeyPair → Text → Result SdkError Text → Result SdkError FutureWallet
  unfolding compute_contract_address
  create_future_wallet keys factory_address init_code = elim init_code [
    | err x ↦ err x
    | ok code ↦ ok (record {
      private_key = keys.private_key;
      contract_address = compute_contract_address factory_address keys.public_key code;
      public_key = keys.public_key;
    })
  ]

  -- `calculateDeploySignature`
  unfoldable pub calculate_deploy_signature :
      (Text → Option Text) → Text → Text → Text → Result SdkError Text
  calculate_deploy_signature namehash ens_name gas_price private_key =
      let (label, domain) = parse_domain ens_name in
      let hash_label : Text = e.keccak256 (e.to_utf8_bytes label) in
      elim (namehash ens_name) [
        | none ↦ err invalid_name
        | some node ↦ ok (
            calculate_initialize_with_ens_signature e ens_name hash_label node gas_price
              private_key)
      ]

  module _ (net : Net) (base_url : Text) (white_list : List Text) where
    -- `waitForBalance`, up to its wait, by what `findTokenWithRequiredBalance` answers
    unfoldable pub wait_for_balance :
        FutureWallet
        → (Text → Result SdkError (Option Text))
        → Result SdkError (Unit {0}) × BalanceObserver
    wait_for_balance wallet find_token =
        BalanceObserver.start_and_subscribe find_token wallet.contract_address new_balance_observer

    -- `deploy`, up to its wait, by what the node answers for the contract's code
    unfoldable pub deploy :
        FutureWallet
        → (Text → Option Text)
        → Text
        → Text
        → Result SdkError Text
        → Api (Result SdkError (Unit {0}) × Observer)
    unfolding calculate_deploy_signature
    deploy wallet namehash ens_name gas_price code = do
      signature ← lift (calculate_deploy_signature namehash ens_name gas_price wallet.private_key)
      RelayerApi.deploy net base_url wallet.public_key ens_name gas_price signature
      pure (
          DeploymentObserver.start_and_subscribe e.keccak256 white_list code wallet.contract_address
            new_deployment_observer)
