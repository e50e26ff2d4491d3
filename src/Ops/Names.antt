-- ===== src/Ops/Names.antt =====
-- ENSNameRegistrar.ts: a name is registered under a domain, for the address that registers it.
pub mod Steps
pub mod Taken
use universal_login_sdk.Prelude.{
  Bool, true, false, Option, none, some, List, [], ◌∷◌, ◌++◌, Text, codes, ◌==◌, drop,
  to_lower_case, Result, ok, err, pure, raise, gets, lift, or_raise, modify, ◌>>=◌, ◌>>◌,
}
use universal_login_sdk.Commons.Ethers.{Ethers}
use universal_login_sdk.Ops.{
  Call, register, set_resolver, set_addr, set_name, Network, OpsConfig, Registrar, Registering,
  write, remember, read, node_of, transact,
}

-- the name whose node is the deployer's reverse node
abbrev pub reverse_name_of : OpsConfig → Text
reverse_name_of config = to_lower_case (drop 2 config.deployer ++ codes ".addr.reverse")

module _ {S : Type 0} (e : Ethers) (net : Network S) (config : OpsConfig) where
  -- `prepareNameRegistration` of ENSRegistrarBase
  unfoldable pub prepare_name_registration : Text → Registering S (Unit {0})
  prepare_name_registration domain = do
    node ← node_of e net config domain
    registrar ← read e net config (λ s. net.owner s node)
    modify (λ r. record r { registrar_address = registrar })
    resolver ← read e net config (λ s. net.resolver s node)
    modify (λ r. record r { resolver_address = resolver })

  -- `registerName`
  unfoldable pub register_name : Text → Text → Text → Text → Registering S (Unit {0})
  unfolding transact
  register_name label_hash label domain node = do
    registrar ← gets (λ r. r.registrar_address)
    transact e net config (register registrar label_hash config.deployer)
    owner ← read e net config (λ s. net.owner s node)
    modify (
        write
          (codes "Registered " ++ (label ++ b'.' ∷ (domain ++ (codes " with owner: " ++ owner)))))

  -- `setResolver`
  unfoldable pub set_resolver_of : Text → Text → Text → Registering S (Unit {0})
  unfolding transact
  set_resolver_of node label domain = do
    address ← gets (λ r. r.resolver_address)
    transact e net config (set_resolver node address)
    resolver ← read e net config (λ s. net.resolver s node)
    modify (
        write
          (codes "Resolver for " ++ (label ++ b'.' ∷ (domain ++ (codes " set to: " ++ resolver)))))
    modify (remember (codes "PUBLIC_RESOLVER_ADDRESS") address)

  -- `setAddress`
  unfoldable pub set_address : Text → Text → Text → Registering S (Unit {0})
  unfolding transact
  set_address node label domain = do
    resolver ← gets (λ r. r.resolver_address)
    transact e net config (set_addr resolver node config.deployer)
    address ← read e net config (λ s. net.addr s resolver node)
    modify (write (codes "Address for " ++ (label ++ b'.' ∷ (domain ++ (codes " is " ++ address)))))

  -- `setReverseName`
  unfoldable pub set_reverse_name : Text → Text → Registering S (Unit {0})
  unfolding transact
  set_reverse_name label domain = do
    node ← node_of e net config (codes "addr.reverse")
    reverse_registrar ← read e net config (λ s. net.owner s node)
    transact e net config (set_name reverse_registrar (label ++ b'.' ∷ domain))

  -- `checkReverseName`
  unfoldable pub check_reverse_name : Text → Text → Registering S (Unit {0})
  check_reverse_name reverse_node address = do
    reverse_address ← read e net config (λ s. net.resolver s reverse_node)
    modify (write (codes "Reverse resolver for " ++ (address ++ (codes " is " ++ reverse_address))))
    name ← read e net config (λ s. net.name s reverse_address reverse_node)
    modify (write (codes "ENS name for " ++ (config.deployer ++ (codes " is " ++ name))))

  -- the end of `start`: the reverse name is set and checked
  unfoldable pub set_reverse : Text → Text → Text → Registering S (Unit {0})
  unfolding set_reverse_name check_reverse_name
  set_reverse label domain reverse_node = do
    set_reverse_name label domain
    check_reverse_name reverse_node config.deployer

  -- `start`, from `setResolver` on
  unfoldable pub point_name : Text → Text → Text → Text → Registering S (Unit {0})
  unfolding set_resolver_of set_address set_reverse
  point_name label domain node reverse_node = do
    set_resolver_of node label domain
    set_address node label domain
    set_reverse label domain reverse_node

  -- `start`, once the nodes are known
  unfoldable pub name_at : Text → Text → Text → Text → Registering S (Unit {0})
  unfolding register_name point_name
  name_at label domain node reverse_node = do
    modify (remember (codes "ENS_NAME") (label ++ b'.' ∷ domain))
    modify (write (codes "Registgering " ++ (label ++ b'.' ∷ (domain ++ codes "..."))))
    register_name (e.keccak256 (e.to_utf8_bytes label)) label domain node
    point_name label domain node reverse_node

  -- `start`
  unfoldable pub start_name : Text → Text → Registering S (Unit {0})
  unfolding prepare_name_registration name_at
  start_name label domain = do
    prepare_name_registration domain
    node ← node_of e net config (label ++ b'.' ∷ domain)
    reverse_node ← node_of e net config (reverse_name_of config)
    name_at label domain node reverse_node
