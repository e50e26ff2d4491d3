-- ===== src/Sdk/Client/Names.antt =====
-- sdk.ts: the relayer's configuration, the wallet contract of a name, and requests of devices to be
-- added to a wallet; with resolveName of universal-login-commons.
use universal_login_sdk.Prelude.{
  ℕ, List, Bool, true, false, Option, none, some, [], ◌++◌, Text, codes, ◌==◌, repeat, is_some,
  to_lower_case, Result, ok, err, pure, gets, lift, or_raise, modify, ensure, ◌>>=◌, ◌>>◌,
  if◌then◌else◌,
}
use universal_login_sdk.Commons.Json.{Json}
use universal_login_sdk.Sdk.Errors.{SdkError, error, thrown, missing_configuration}
use universal_login_sdk.Sdk.RelayerApi.{Net}
use universal_login_sdk.Sdk.RelayerApi
use universal_login_sdk.Sdk.Values.{truthy, read, rest_of}
use universal_login_sdk.Sdk.Observers.{Filter, Emitter}
use universal_login_sdk.Sdk.Observers
use universal_login_sdk.Sdk.Client.{Provider, Using, ask}

-- `createKeyPair`, as an argument of the calls that make one
pub record KeyPair : Type 0 where
  pub public_key : Text
  pub private_key : Text

-- what `namehash` throws
unfoldable pub invalid_name : SdkError
invalid_name = error (codes "invalid ENS name")

-- `value || other`
abbrev pub or_else_made : {A : Type 0} → Option A → A → A
or_else_made none made = made
or_else_made (some a) made = a

-- the value of a string or `false` that is truthy
abbrev pub nonempty : Option Text → Option Text
nonempty (some []) = none
nonempty value = value

-- The emitters of the two observers that `subscribe` may take.
pub record Subscriptions : Type 0 where
  pub relayer : List Emitter
  pub blockchain : List Emitter

unfoldable pub subscribe : Text → Filter → ℕ → Subscriptions → Result SdkError Subscriptions
subscribe event_type f callback s =
    let watched : Subscriptions = record s {
      blockchain = Observers.subscribe event_type f callback s.blockchain;
    } in
    if event_type == codes "AuthorisationsChanged"
    then ok (record s { relayer = Observers.subscribe event_type f callback s.relayer })
    else if event_type == codes "KeyAdded"
    then ok watched
    else if event_type == codes "KeyRemoved"
    then ok watched
    else err (thrown (codes "Unknown event type: " ++ event_type))

-- `getBalanceObserver`
unfoldable pub get_balance_observer : Using (Unit {0})
get_balance_observer = do
  config ← gets (λ c. c.config)
  ensure (truthy config) missing_configuration
  tokens ← lift (read (codes "supportedTokens") config)
  modify (λ c. record c { balance_observer = some (or_else_made c.balance_observer tokens) })

-- `getDeploymentObserver`
unfoldable pub get_deployment_observer : Using (Unit {0})
get_deployment_observer = do
  config ← gets (λ c. c.config)
  ensure (truthy config) missing_configuration
  white_list ← lift (read (codes "contractWhiteList") config)
  modify
      (λ c. record c { deployment_observer = some (or_else_made c.deployment_observer white_list) })

-- `getFutureWalletFactory`
unfoldable pub get_future_wallet_factory : Using (Unit {0})
get_future_wallet_factory = do
  config ← gets (λ c. c.config)
  ensure (truthy config) (error (codes "Relayer configuration not yet loaded"))
  loaded ← or_raise config (error [])
  modify (λ c. record c {
    future_wallet_factory =
        some (or_else_made c.future_wallet_factory (rest_of (codes "chainSpec") loaded));
  })

module _ (net : Net) (base_url : Text) (provider : Provider) where
  -- the second operand of `this.config ||`
  unfoldable pub load_config : Using (Option Json)
  load_config = do
    answer ← ask (RelayerApi.get_config net base_url)
    config ← lift (read (codes "config") (some answer))
    modify (λ c. record c { config = config })
    pure config

  -- `getRelayerConfig`
  unfoldable pub get_relayer_config : Using (Option Json)
  unfolding load_config
  get_relayer_config = do
    config ← gets (λ c. c.config)
    elim (truthy config) [ true ↦ pure config | false ↦ load_config ]

  -- the `if` of `resolveName` of universal-login-commons
  unfoldable pub address_at : Text → Text → Using (Option Text)
  address_at resolver node = if resolver == codes "0x" ++ repeat 40 b'0' then pure none else (do
    requests ← gets (λ c. c.line.requests)
    address ← lift (provider.addr requests resolver node)
    pure (some address))

  -- `resolveName` of universal-login-commons, where `none` is `false`
  unfoldable pub resolve_at : Option Json → Text → Using (Option Text)
  unfolding address_at
  resolve_at ens_address ens_name = do
    node ← or_raise (provider.namehash ens_name) invalid_name
    requests ← gets (λ c. c.line.requests)
    resolver ← lift (provider.resolver requests ens_address node)
    address_at resolver node

  -- `resolveName` of the class
  unfoldable pub resolve_name : Text → Using (Option Text)
  unfolding get_relayer_config resolve_at
  resolve_name ens_name = do
    get_relayer_config
    config ← gets (λ c. c.config)
    chain_spec ← lift (read (codes "chainSpec") config)
    ens_address ← lift (read (codes "ensAddress") chain_spec)
    resolve_at ens_address ens_name

  -- the `if` of `getWalletContractAddress`
  unfoldable pub with_code : Option Text → Using (Option Text)
  with_code none = pure none
  with_code (some address) = do
    requests ← gets (λ c. c.line.requests)
    code ← lift (provider.get_code requests address)
    pure (if is_some (nonempty (some code)) then some address else none)

  -- `getWalletContractAddress`
  unfoldable pub get_wallet_contract_address : Text → Using (Option Text)
  unfolding resolve_name with_code
  get_wallet_contract_address ens_name = do
    address ← resolve_name ens_name
    with_code (nonempty address)

  -- `walletContractExist`
  unfoldable pub wallet_contract_exist : Text → Using Bool
  unfolding get_wallet_contract_address
  wallet_contract_exist ens_name = do
    address ← get_wallet_contract_address ens_name
    pure (is_some address)

  -- `create`: the private key and the address of the contract
  unfoldable pub create : KeyPair → Text → Using (Text × Text)
  create keys ens_name = do
    result ← ask (RelayerApi.create_wallet net base_url keys.public_key ens_name)
    transaction ← lift (read (codes "transaction") (some result))
    hash ← lift (read (codes "hash") transaction)
    address ← lift (provider.wait_for_transaction hash)
    pure (keys.private_key, address)

  -- `connect`
  unfoldable pub connect : KeyPair → Text → Using Text
  connect keys wallet_contract_address = do
    ask (RelayerApi.connect net base_url wallet_contract_address (to_lower_case keys.public_key))
    pure keys.private_key

  -- `denyRequest`
  unfoldable pub deny_request : Text → Text → Using Text
  deny_request wallet_contract_address key = do
    ask (RelayerApi.deny_connection net base_url wallet_contract_address key)
    pure key

  -- `fetchPendingAuthorisations`, with that of observers/RelayerObserver.ts
  unfoldable pub fetch_pending_authorisations : Text → Using (Option Json)
  fetch_pending_authorisations wallet_contract_address = do
    answer ← ask (RelayerApi.get_pending_authorisations net base_url wallet_contract_address)
    lift (read (codes "response") (some answer))
