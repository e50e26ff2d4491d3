-- ===== src/Relayer/Deployment.antt =====
-- integration/ethereum/WalletService.ts and ensService.ts, with parseDomain, resolveName,
-- findTokenWithRequiredBalance and computeContractAddress of universal-login-commons: a wallet is
-- created for a key and a name.
pub mod Checks
use universal_login_sdk.Prelude.{
  ℕ, Bool, true, false, not, Option, none, some, List, [], ◌∷◌, ◌++◌, Text, codes, ◌==◌, leb, eqb,
  drop, is_some, Result, ok, err, Exec, pure, raise, gets, lift, or_raise, modify, ensure, ◌>>=◌,
  ◌>>◌, if◌then◌else◌,
}
use universal_login_sdk.Commons.Ethers.{Ethers, text}
use universal_login_sdk.Relayer.Errors.{
  Exception, ens_name_taken, invalid_ens_domain, not_enough_balance, other,
}
use universal_login_sdk.Relayer.Database.{Chain}
use universal_login_sdk.Relayer.Execution.{ether_address}

-- `parseDomain` on one line of text: the part before the first dot, and the part after it.
unfoldable pub parse_domain : Text → Text × Option Text
parse_domain [] = ([], none)
parse_domain (c ∷ t) =
    let (label, domain) = parse_domain t in if eqb c b'.' then ([], some t) else (c ∷ label, domain)

pub record SupportedToken : Type 0 where
  pub address : Text
  pub minimal_amount : ℕ

pub record DomainInfo : Type 0 where
  pub resolver_address : Text
  pub registrar_address : Text

-- The contracts of ENS. `namehash` throws on a malformed name.
pub record Ens : Type 0 where
  pub namehash : Text → Option Text
  pub resolver : Text → Result Exception Text
  pub owner : Text → Result Exception Text
  pub addr : Text → Text → Result Exception Text

-- What a deployment sends: the arguments of the factory's `createContract`.
pub record Creation : Type 0 where
  pub key : Text
  pub initialize : List Text
  pub gas_price : Text

pub record Config : Type 0 where
  pub ens_address : Text
  pub factory_address : Text
  pub relayer_address : Text
  pub supported_tokens : List SupportedToken

abbrev pub DomainsInfo : Type 0
DomainsInfo = List (Text × DomainInfo)

-- The factory contract: its `initCode`, and whether the node takes a creation, with a gas price that
-- is a number.
pub record Factory : Type 0 where
  pub init_code : Result Exception Text
  pub create_contract : Creation → Result Exception (Unit {0})

-- The transactions that were sent, last first.
abbrev pub Deploying : Type 0 → Type 0
Deploying A = Exec Exception (List Creation) A

unfoldable pub bad_name : Exception
bad_name = other (codes "Error") (codes "invalid ENS name")

-- `findRegistrar`
unfoldable pub find_registrar : DomainsInfo → Text → Option DomainInfo
find_registrar [] domain = none
find_registrar ((d, info) ∷ rest) domain =
    let found = find_registrar rest domain in if d == domain then some info else found

-- A missing domain is printed as `undefined`, and looked up by that.
abbrev pub printed : Option Text → Text
printed none = codes "undefined"
printed (some domain) = domain

-- `!!text` for a string, or for `false` and `undefined`
abbrev pub is_truthy : Option Text → Bool
is_truthy none = false
is_truthy (some []) = false
is_truthy (some (c ∷ t)) = true

module _ (e : Ethers) (ens : Ens) (chain : Chain) (config : Config) (factory : Factory) where
  -- The loop of `start`.
  unfoldable pub start : List Text → Result Exception DomainsInfo
  start [] = ok []
  start (domain ∷ domains) = elim (ens.namehash domain) [
    | none ↦ err bad_name
    | some node ↦ elim (ens.resolver node) [
      | err x ↦ err x
      | ok resolver ↦ elim (ens.owner node) [
        | err x ↦ err x
        | ok owner ↦ elim (start domains) [
          | err x ↦ err x
          | ok rest ↦
              ok
                ((domain, record { resolver_address = resolver; registrar_address = owner }) ∷ rest)
        ]
      ]
    ]
  ]

  -- the end of `argsFor`, on what `findRegistrar` answered
  abbrev pub args_with : Text → Text → Text → Option DomainInfo → Option (List Text)
  args_with label ens_name node none = none
  args_with label ens_name node (some info) = some (
      e.keccak256 (e.to_utf8_bytes label)
      ∷ ens_name
      ∷ node
      ∷ config.ens_address
      ∷ info.registrar_address
      ∷ info.resolver_address
      ∷ [])

  unfoldable pub args_for : DomainsInfo → Text → Deploying (Option (List Text))
  args_for infos ens_name = do
    let (label, domain) = parse_domain ens_name
    node ← or_raise (ens.namehash (label ++ b'.' ∷ printed domain)) bad_name
    pure (args_with label ens_name node (find_registrar infos (printed domain)))

  -- `resolveName`, where `none` is `false`
  abbrev addr_at : Text → Text → Deploying (Option Text)
  addr_at resolver node = do address ← lift (ens.addr resolver node); pure (some address)

  unfoldable pub resolve_name : Text → Deploying (Option Text)
  resolve_name ens_name = do
    node ← or_raise (ens.namehash ens_name) bad_name
    resolver ← lift (ens.resolver node)
    (if resolver == ether_address then pure none else addr_at resolver node)

  -- `getBalance` of integration/ethereum/balance.ts
  unfoldable pub get_balance : Text → Text → Result Exception ℕ
  get_balance contract_address token_address =
      if token_address == ether_address
      then chain.get_balance contract_address
      else chain.balance_of token_address contract_address

  -- `findTokenWithRequiredBalance`
  unfoldable pub find_token_with_required_balance :
      List SupportedToken → Text → Result Exception (Option Text)
  find_token_with_required_balance [] contract_address = ok none
  find_token_with_required_balance (t ∷ ts) contract_address =
      let rest = find_token_with_required_balance ts contract_address in
      elim (get_balance contract_address t.address) [
        | err x ↦ err x
        | ok balance ↦ if leb t.minimal_amount balance then ok (some t.address) else rest
      ]

  -- `computeContractAddress`
  unfoldable pub compute_contract_address : Text → Text → Text
  compute_contract_address public_key init_code =
      let final_salt = e.solidity_keccak256 (codes "address" ∷ []) (text public_key ∷ []) in
      let init_code_hash = e.solidity_keccak256 (codes "bytes" ∷ []) (text init_code ∷ []) in
      let hashed_data =
        e.solidity_keccak256
          (codes "bytes1" ∷ codes "address" ∷ codes "bytes32" ∷ codes "bytes32" ∷ [])
          (text (codes "0xff")
            ∷ text config.factory_address
            ∷ text final_salt
            ∷ text init_code_hash
            ∷ []) in
      codes "0x" ++ drop 26 hashed_data

  abbrev pub creation_of : Text → List Text → Text → Text → Creation
  creation_of key ens_args gas_price signature = record {
    key = key;
    initialize = key ∷ (ens_args ++ (config.relayer_address ∷ gas_price ∷ signature ∷ []));
    gas_price = gas_price;
  }

  -- `deploy`
  unfoldable pub deploy : DomainsInfo → Text → Text → Text → Text → Deploying Creation
  deploy infos key ens_name gas_price signature = do
    taken ← resolve_name ens_name
    ensure (not (is_truthy taken)) (ens_name_taken ens_name)
    found ← args_for infos ens_name
    ens_args ← or_raise found (invalid_ens_domain ens_name)
    init_code ← lift factory.init_code
    token ← lift (
        find_token_with_required_balance config.supported_tokens
          (compute_contract_address key init_code))
    ensure (is_truthy token) not_enough_balance
    lift (factory.create_contract (creation_of key ens_args gas_price signature))
    modify (λ sent. creation_of key ens_args gas_price signature ∷ sent)
    pure (creation_of key ens_args gas_price signature)
