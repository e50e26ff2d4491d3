-- ===== src/Ops/Names/Steps.antt =====
-- What each call of ENSNameRegistrar leaves on the chain, if it returns.
use universal_login_sdk.Prelude.{
  ◌≡◌, ◌≢◌, inl, inr, some, ◌∷◌, ◌++◌, Text, codes, arith, ok, Result-cases, Option-cases,
}
use universal_login_sdk.Commons.Ethers.{Ethers}
use universal_login_sdk.Ops.{set_resolver, set_addr, set_name, Network, OpsConfig, Registrar}
use universal_login_sdk.Ops.Domains.{IsEns, transact_cases}
use universal_login_sdk.Ops.Names.{
  set_resolver_of, set_address, set_reverse_name, check_reverse_name, reverse_name_of,
}

-- What resolvers do with calls that are mined: an address of a node is what it was set to, and names
-- and addresses change no resolver but that of the caller's reverse node, nor names an address.
pub record IsResolving {S : Type 0} (net : Network S) (config : OpsConfig) : Type 0 where
  pub addr-set_addr :
      (at node a hash : Text) (s sent mined : S)
      → net.send (set_addr at node a) s ≡ ok (hash, sent)
      → net.wait_to_be_mined hash sent ≡ ok mined
      → net.addr mined at node ≡ ok a
  pub resolver-set_addr :
      (at node a hash other : Text) (s sent mined : S)
      → net.send (set_addr at node a) s ≡ ok (hash, sent)
      → net.wait_to_be_mined hash sent ≡ ok mined
      → net.resolver mined other ≡ net.resolver s other
  pub addr-set_name :
      (registrar name hash at node : Text) (s sent mined : S)
      → net.send (set_name registrar name) s ≡ ok (hash, sent)
      → net.wait_to_be_mined hash sent ≡ ok mined
      → net.addr mined at node ≡ net.addr s at node
  pub resolver-set_name :
      (registrar name hash node : Text) (s sent mined : S)
      → net.namehash (reverse_name_of config) ≢ some node
      → net.send (set_name registrar name) s ≡ ok (hash, sent)
      → net.wait_to_be_mined hash sent ≡ ok mined
      → net.resolver mined node ≡ net.resolver s node

module _ {S : Type 0} (e : Ethers) (net : Network S) (config : OpsConfig) where
  pub set_resolver_of-ok :
      IsEns net
      → (node label domain : Text) (r r' : Registrar S)
      → set_resolver_of e net config node label domain r ≡ (ok tt, r')
      → (net.resolver r'.world node ≡ ok r'.resolver_address)
  unfolding set_resolver_of
  set_resolver_of-ok law node label domain r r' p =
      elim (transact_cases e net config (set_resolver node r.resolver_address) r) [
        | inl (x, r1, e1) ↦ ground arith
        | inr (hash, sent, mined, e1, e2, e3) ↦ elim (Result-cases (net.resolver mined node)) [
          | inl (x, e4) ↦ ground arith
          | inr (resolver, e4) ↦
              let set =
                law.resolver-set_resolver node r.resolver_address hash r.world sent mined e1 e2 in
              ground arith
        ]
      ]

  pub set_address-ok :
      IsResolving net config
      → (node label domain : Text) (r r' : Registrar S)
      → set_address e net config node label domain r ≡ (ok tt, r')
      → (net.addr r'.world r.resolver_address node ≡ ok config.deployer)
        × (net.resolver r'.world node ≡ net.resolver r.world node)
        × (r'.resolver_address ≡ r.resolver_address)
  unfolding set_address
  set_address-ok law node label domain r r' p =
      elim (transact_cases e net config (set_addr r.resolver_address node config.deployer) r) [
        | inl (x, r1, e1) ↦ ground arith
        | inr (hash, sent, mined, e1, e2, e3) ↦
            let set =
              law.addr-set_addr r.resolver_address node config.deployer hash r.world sent mined e1
                e2 in
            let kept =
              law.resolver-set_addr r.resolver_address node config.deployer hash node r.world sent
                mined e1 e2 in
            (ground arith, ground arith, ground arith)
      ]

  pub set_reverse_name-ok :
      IsResolving net config
      → (label domain node : Text) (r r' : Registrar S)
      → net.namehash (reverse_name_of config) ≢ some node
      → set_reverse_name e net config label domain r ≡ (ok tt, r')
      → (net.addr r'.world r.resolver_address node ≡ net.addr r.world r.resolver_address node)
        × (net.resolver r'.world node ≡ net.resolver r.world node)
        × (r'.resolver_address ≡ r.resolver_address)
  unfolding set_reverse_name
  set_reverse_name-ok law label domain node r r' apart p =
      elim (Option-cases (net.namehash (codes "addr.reverse"))) [
        | inl e1 ↦ ground arith
        | inr (n, e1) ↦ elim (Result-cases (net.owner r.world n)) [
          | inl (x, e2) ↦ ground arith
          | inr (owner, e2) ↦
              elim (transact_cases e net config (set_name owner (label ++ b'.' ∷ domain)) r) [
                | inl (x, r1, e3) ↦ ground arith
                | inr (hash, sent, mined, e3, e4, e5) ↦
                    let kept =
                      law.addr-set_name owner (label ++ b'.' ∷ domain) hash r.resolver_address node
                        r.world sent mined e3 e4 in
                    let same =
                      law.resolver-set_name owner (label ++ b'.' ∷ domain) hash node r.world sent
                        mined apart e3 e4 in
                    (ground arith, ground arith, ground arith)
              ]
        ]
      ]

  pub check_reverse_name-ok :
      (reverse_node address : Text) (r r' : Registrar S)
      → check_reverse_name e net config reverse_node address r ≡ (ok tt, r')
      → (r'.world ≡ r.world) × (r'.resolver_address ≡ r.resolver_address)
  unfolding check_reverse_name
  check_reverse_name-ok reverse_node address r r' p =
      elim (Result-cases (net.resolver r.world reverse_node)) [
        | inl (x, e1) ↦ ground arith
        | inr (resolver, e1) ↦ elim (Result-cases (net.name r.world resolver reverse_node)) [
          | inl (x, e2) ↦ ground arith
          | inr (name, e2) ↦ (ground arith, ground arith)
        ]
      ]
