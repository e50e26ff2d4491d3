-- ===== src/Relayer/Http/Routes.antt =====
-- http/routes/wallet.ts, authorisation.ts and config.ts, with http/utils/getDeviceInfo.ts and the two
-- middlewares: what a request does, from its body to its answer. An array of bytes is taken as the
-- text that ethers reads alike, by a parameter. A body that is answered is kept as its value.
use universal_login_sdk.Prelude.{
  ℕ, Option, none, some, List, [], ◌∷◌, Text, codes, Result, ok, err, Exec, pure, ◌>>=◌, ◌>>◌,
}
use universal_login_sdk.Commons.Ethers.{Ethers}
use universal_login_sdk.Commons.Message.{SignedMessage}
use universal_login_sdk.Relayer.Errors.{Exception, sanitize_error}
use universal_login_sdk.Relayer.Errors.Status.{
  Content, get_code_for_exception, get_content_for_exception,
}
use universal_login_sdk.Relayer.Database.{Action, Chain, DeviceInfo, AuthorisationRow}
use universal_login_sdk.Relayer.PendingStore.{MessageStatus}
use universal_login_sdk.Relayer.Authorisation.{
  add_request, get_pending_authorisations, remove_request,
}
use universal_login_sdk.Relayer.Deployment.{SupportedToken}
use universal_login_sdk.Relayer.Deployment
use universal_login_sdk.Relayer.Creating
use universal_login_sdk.Relayer.Handler
use universal_login_sdk.Relayer.Http.{Issue}

-- `responseOf(body, status)`, whose status is 200 where none is given
pub record Reply (A : Type 0) : Type 0 where
  pub status : ℕ
  pub body : A

-- What is read of a request besides its parameters and body.
pub record Client : Type 0 where
  pub forwarded_for : Option Text
  pub ip : Text
  -- `platform`, `os` and `browser`
  pub useragent : Option (Text × (Text × Text))

-- `header || ip`
abbrev pub address_of : Option Text → Text → Text
address_of none ip = ip
address_of (some []) ip = ip
address_of (some (c ∷ t)) ip = c ∷ t

abbrev pub agent_of : Option (Text × (Text × Text)) → Text × (Text × Text)
agent_of none = ([], ([], []))
agent_of (some agent) = agent

abbrev pub city_of : Option Text → Text
city_of none = codes "unknown"
city_of (some city) = city

-- `getDeviceInfo`: `city` looks an address up, and `time` is what the clock shows.
unfoldable pub get_device_info : (Text → Option Text) → Text → Client → DeviceInfo
get_device_info city time client =
    let ip_address : Text = address_of client.forwarded_for client.ip in
    let agent : Text × (Text × Text) = agent_of client.useragent in
    record {
      ip_address = ip_address;
      name = agent.0;
      city = city_of (city ip_address);
      os = agent.1.0;
      browser = agent.1.1;
      time = time;
    }

pub record ChainSpec : Type 0 where
  pub ens_address : Text
  pub chain_id : ℕ
  pub name : Text

pub record ContractWhiteList : Type 0 where
  pub master : List Text
  pub proxy : List Text

pub record PublicRelayerConfig : Type 0 where
  pub supported_tokens : List SupportedToken
  pub factory_address : Text
  pub chain_spec : ChainSpec
  pub contract_white_list : ContractWhiteList

pub record RelayerConfig : Type 0 where
  pub json_rpc_url : Option Text
  pub port : Option Text
  pub private_key : Text
  pub chain_spec : ChainSpec
  pub ens_registrars : List Text
  pub wallet_master_address : Text
  pub contract_white_list : ContractWhiteList
  pub factory_address : Text
  pub supported_tokens : List SupportedToken

-- `getPublicConfig`
unfoldable pub get_public_config : RelayerConfig → PublicRelayerConfig
get_public_config config = record {
  supported_tokens = config.supported_tokens;
  factory_address = config.factory_address;
  chain_spec = config.chain_spec;
  contract_white_list = config.contract_white_list;
}

-- `network`, the answer to `GET /config`
unfoldable pub network : PublicRelayerConfig → Reply PublicRelayerConfig
network config = record { status = 200; body = config }

-- What the client gets: the answer, or that of the error handler, to which `asyncHandler` and
-- `asyncMiddleware` pass what is thrown.
pub data Served (A : Type 0) : Type 0 where
  replied : Reply A → Served A
  failed : (status : ℕ) → Content → Served A

unfoldable pub served : {A : Type 0} → Result Exception (Reply A) → Served A
served (ok reply) = replied reply
served (err x) = failed (get_code_for_exception x) (get_content_for_exception x)

-- `sanitize`, as far as one schema; the issues are thrown together, by their text.
unfoldable pub sanitize :
    {A B : Type 0} {S : Type 0}
    → (List Issue → Text)
    → Result (List Issue) A
    → (A → Exec Exception S B)
    → Exec Exception S B
sanitize describe (ok a) handler s = handler a s
sanitize describe (err issues) handler s = (err (sanitize_error (describe issues)), s)

module _ (e : Ethers) (chain : Chain) where
  -- `execution`
  unfoldable pub execution : SignedMessage → Action (Reply MessageStatus)
  execution message = do
    status ← Handler.handle_message e chain message
    pure (record { status = 201; body = status })

  -- `getStatus`
  unfoldable pub get_status : Text → Action (Reply (Option MessageStatus))
  get_status message_hash = do
    status ← Handler.get_status e chain message_hash
    pure (record { status = 200; body = status })

-- `request`
unfoldable pub request : (wallet_contract_address key : Text) → DeviceInfo → Action (Reply ℕ)
request wallet_contract_address key device_info = do
  result ← add_request (record {
    wallet_contract_address = wallet_contract_address;
    key = key;
    device_info = device_info;
  })
  pure (record { status = 201; body = result })

-- `getPending`
unfoldable pub get_pending : Text → Action (Reply (List AuthorisationRow))
get_pending wallet_contract_address = do
  result ← get_pending_authorisations wallet_contract_address
  pure (record { status = 200; body = result })

-- `denyRequest`
unfoldable pub deny_request : (wallet_contract_address key : Text) → Action (Reply (Unit {0}))
deny_request wallet_contract_address key = do
  remove_request wallet_contract_address key
  pure (record { status = 204; body = tt })

module _ (e : Ethers) (ens : Deployment.Ens) (chain : Chain) (config : Deployment.Config)
    (factory : Deployment.Factory) where
  -- `deploy`
  unfoldable pub deploy :
      Deployment.DomainsInfo
      → (public_key ens_name gas_price signature : Text)
      → Deployment.Deploying (Reply Deployment.Creation)
  deploy infos public_key ens_name gas_price signature = do
    transaction ←
        Deployment.deploy e ens chain config factory infos public_key ens_name gas_price signature
    pure (record { status = 201; body = transaction })

module _ (e : Ethers) (ens : Deployment.Ens) (chain : Chain) (config : Deployment.Config)
    (factory : Deployment.Factory) (deployer : Creating.Deployer)
    (wallet_master_address : Text) where
  -- `create`
  unfoldable pub create :
      Deployment.DomainsInfo
      → (management_key ens_name : Text) → Creating.TransactionOverrides
      → Creating.Creating (Reply Text)
  create infos management_key ens_name overrides = do
    transaction ←
        Creating.create e ens chain config factory deployer wallet_master_address infos
          management_key ens_name overrides
    pure (record { status = 201; body = transaction })
