-- ===== src/Ops.antt =====
-- universal-login-ops/src: ENS/ENSRegistrarBase.ts, ENS/DomainRegistrar.ts and utils/save.ts, which
-- register a domain for a relayer and save its addresses.
pub mod Domains
pub mod Names
pub mod Serving
use universal_login_sdk.Prelude.{
  Bool, true, false, Option, none, some, List, [], ◌∷◌, ◌++◌, Text, codes, ◌==◌, drop,
  to_lower_case, Result, ok, err, Exec, pure, raise, gets, lift, or_raise, modify, ◌>>=◌, ◌>>◌,
  if◌then◌else◌,
}
use universal_login_sdk.Commons.Ethers.{Ethers}

-- The calls of contracts by which the registrars change the chain.
pub data Call : Type 0 where
  register : Text → Text → Text → Call
  set_owner : Text → Text → Call
  set_resolver : Text → Text → Call
  set_addr : Text → Text → Text → Call
  set_name : Text → Text → Call

-- The chain, in a state `S`: what ENS and the resolvers answer, the hash of a call that the node takes,
-- the end of the wait for a transaction, and the address of a registrar that is deployed for a node
-- and waited for.
pub record Network (S : Type 0) : Type 0 where
  pub namehash : Text → Option Text
  pub owner : S → Text → Result Text Text
  pub resolver : S → Text → Result Text Text
  pub addr : S → Text → Text → Result Text Text
  pub name : S → Text → Text → Result Text Text
  pub send : Call → S → Result Text (Text × S)
  pub wait_to_be_mined : Text → S → Result Text S
  pub deploy_registrar : Text → Text → S → Result Text (Text × S)

pub record OpsConfig : Type 0 where
  pub ens_address : Text
  pub public_resolver_address : Text
  -- the address of the private key
  pub deployer : Text

-- A registrar: the addresses it holds, empty until they are set, what it keeps to save, what it wrote
-- to the log and to files, and the chain.
pub record Registrar (S : Type 0) : Type 0 where
  pub registrar_address : Text
  pub resolver_address : Text
  pub variables : List (Text × Text)
  pub log : List Text
  pub files : List (Text × Text)
  pub world : S

-- `variables[key] = value`
unfoldable pub set_variable : Text → Text → List (Text × Text) → List (Text × Text)
set_variable key value [] = (key, value) ∷ []
set_variable key value ((k, v) ∷ rest) =
    let rest' = set_variable key value rest in
    if k == key then (key, value) ∷ rest else (k, v) ∷ rest'

-- the text that `saveVariables` writes
unfoldable pub saved : List (Text × Text) → Text
saved [] = []
saved ((key, value) ∷ []) = codes "  " ++ (key ++ (codes "='" ++ (value ++ codes "'")))
saved ((key, value) ∷ more) =
    codes "  " ++ (key ++ (codes "='" ++ (value ++ (codes "'" ++ b'\n' ∷ saved more))))

abbrev pub Registering : Type 0 → Type 0 → Type 0
Registering S A = Exec Text (Registrar S) A

module _ {S : Type 0} where
  abbrev pub write : Text → Registrar S → Registrar S
  write line r = record r { log = r.log ++ line ∷ [] }

  abbrev pub remember : Text → Text → Registrar S → Registrar S
  remember key value r = record r { variables = set_variable key value r.variables }

  module _ (e : Ethers) (net : Network S) (config : OpsConfig) where
    -- a question to the chain
    abbrev pub read : (S → Result Text Text) → Registering S Text
    read question r = (question r.world, r)

    abbrev pub node_of : Text → Registering S Text
    node_of name = or_raise (net.namehash name) (codes "invalid ENS name")

    -- a call of a contract, and `waitToBeMined` for its transaction
    unfoldable pub transact : Call → Registering S (Unit {0})
    transact call r = elim (net.send call r.world) [
      | err x ↦ (err x, r)
      | ok (hash, sent) ↦ elim (net.wait_to_be_mined hash sent) [
        | err x ↦ (err x, record r { world = sent })
        | ok mined ↦ (ok tt, record r { world = mined })
      ]
    ]

    -- `registerInRegistrar`
    unfoldable pub register_in_registrar : Text → Text → Text → Text → Registering S (Unit {0})
    unfolding transact
    register_in_registrar label label_hash node tld = do
      tld_node ← node_of tld
      tld_registrar_address ← read (λ s. net.owner s tld_node)
      modify
          (write (codes "Registrar address for " ++ (tld ++ (codes ": " ++ tld_registrar_address))))
      transact (register tld_registrar_address label_hash config.deployer)
      owner ← read (λ s. net.owner s node)
      modify (
          write
            (codes "Registered " ++ (label ++ b'.' ∷ (tld ++ (codes " with owner: " ++ owner)))))

    -- `setAsResolverPublicResolver`
    unfoldable pub set_as_resolver_public_resolver : Text → Text → Text → Registering S (Unit {0})
    unfolding transact
    set_as_resolver_public_resolver label node tld = do
      transact (set_resolver node config.public_resolver_address)
      resolver ← read (λ s. net.resolver s node)
      modify (
          write (
            codes "Resolver for "
            ++ (label
                ++ b'.' ∷ (tld ++ (codes " set to " ++ (resolver ++ codes " (public resolver)"))))))
      modify (remember (codes "PUBLIC_RESOLVER_ADDRESS") config.public_resolver_address)

    -- `deployNewRegistrar`
    unfoldable pub deploy_new_registrar : Text → Registering S Text
    deploy_new_registrar node r = elim (net.deploy_registrar config.ens_address node r.world) [
      | err x ↦ (err x, r)
      | ok (address, s) ↦ (
        ok address,
        remember (codes "REGISTRAR_ADDRESS") address (
            write (codes "New registrar deployed: " ++ address)
              (record r { registrar_address = address; world = s })),
      )
    ]

    -- `setRegistrarAsOwner`
    unfoldable pub set_registrar_as_owner : Text → Text → Text → Registering S (Unit {0})
    unfolding transact
    set_registrar_as_owner label node tld = do
      registrar_address ← gets (λ r. r.registrar_address)
      transact (set_owner node registrar_address)
      owner ← read (λ s. net.owner s node)
      modify (
          write
            (label ++ b'.' ∷ (tld ++ (codes " owner set to: " ++ (owner ++ codes " (registrar)")))))

    -- `start` of DomainRegistrar, once the domain's node is known
    unfoldable pub register_at : Text → Text → Text → Registering S (Unit {0})
    unfolding register_in_registrar set_as_resolver_public_resolver deploy_new_registrar
        set_registrar_as_owner
    register_at label tld node = do
      modify (remember (codes "DOMAIN") (label ++ b'.' ∷ tld))
      modify (write (codes "Registering " ++ (label ++ b'.' ∷ (tld ++ codes "..."))))
      register_in_registrar label (e.keccak256 (e.to_utf8_bytes label)) node tld
      set_as_resolver_public_resolver label node tld
      deploy_new_registrar node
      set_registrar_as_owner label node tld

    -- `start` of DomainRegistrar
    unfoldable pub start_domain : Text → Text → Registering S (Unit {0})
    unfolding register_at
    start_domain label tld = do node ← node_of (label ++ b'.' ∷ tld); register_at label tld node

    -- `registerAndSave`; an error of the file system is only logged.
    unfoldable pub register_and_save : Text → Text → Registering S (Unit {0})
    unfolding start_domain saved
    register_and_save label tld = do
      start_domain label tld
      let filename : Text = codes "./" ++ (label ++ b'.' ∷ (tld ++ codes "_info"))
      modify (λ r. record r { files = (filename, saved r.variables) ∷ r.files })
      modify (write (filename ++ codes " file updated."))
