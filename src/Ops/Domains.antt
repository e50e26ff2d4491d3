-- ===== src/Ops/Domains.antt =====
-- What DomainRegistrar leaves on the chain and in its variables, and what the relayer then finds.
use universal_login_sdk.Prelude.{
  ◌≡◌, inl, inr, ◌++◌, Text, codes, arith, ok, err, ◌⊎◌, Result-cases, Option-cases,
}
use universal_login_sdk.Commons.Ethers.{Ethers}
use universal_login_sdk.Ops.{
  Call, register, set_owner, set_resolver, Network, OpsConfig, Registrar, set_variable, write,
  transact, register_in_registrar, set_as_resolver_public_resolver, deploy_new_registrar,
  set_registrar_as_owner,
}

-- What ENS does with calls that are mined: an owner and a resolver of a node are what they were last
-- set to, whichever of the two is set later, and the deployment of a registrar changes no resolver.
pub record IsEns {S : Type 0} (net : Network S) : Type 0 where
  pub owner-set_owner :
      (node a hash : Text) (s sent mined : S)
      → net.send (set_owner node a) s ≡ ok (hash, sent)
      → net.wait_to_be_mined hash sent ≡ ok mined
      → net.owner mined node ≡ ok a
  pub resolver-set_owner :
      (node a hash : Text) (s sent mined : S)
      → net.send (set_owner node a) s ≡ ok (hash, sent)
      → net.wait_to_be_mined hash sent ≡ ok mined
      → net.resolver mined node ≡ net.resolver s node
  pub resolver-set_resolver :
      (node a hash : Text) (s sent mined : S)
      → net.send (set_resolver node a) s ≡ ok (hash, sent)
      → net.wait_to_be_mined hash sent ≡ ok mined
      → net.resolver mined node ≡ ok a
  pub resolver-deploy_registrar :
      (ens node other address : Text) (s deployed : S)
      → net.deploy_registrar ens node s ≡ ok (address, deployed)
      → net.resolver deployed other ≡ net.resolver s other

module _ {S : Type 0} (e : Ethers) (net : Network S) (config : OpsConfig) where
  -- How a call of a contract ends.
  pub transact_cases :
      (call : Call) (r : Registrar S)
      → ((x : Text) × (r' : Registrar S) × (transact e net config call r ≡ (err x, r')))
        ⊎ ((hash : Text) × (sent : S) × (mined : S) × (net.send call r.world ≡ ok (hash, sent))
            × (net.wait_to_be_mined hash sent ≡ ok mined)
            × (transact e net config call r ≡ (ok tt, record r { world = mined })))
  unfolding transact
  transact_cases call r = elim (Result-cases (net.send call r.world)) [
    | inl (x, q) ↦ inl (x, r, ground arith)
    | inr ((hash, sent), q) ↦ elim (Result-cases (net.wait_to_be_mined hash sent)) [
      | inl (x, w) ↦ inl (x, record r { world = sent }, ground arith)
      | inr (mined, w) ↦ inr (hash, sent, mined, q, w, ground arith)
    ]
  ]

  pub register_in_registrar-variables :
      (label label_hash node tld : Text) (r r' : Registrar S)
      → register_in_registrar e net config label label_hash node tld r ≡ (ok tt, r')
      → r'.variables ≡ r.variables
  unfolding register_in_registrar
  register_in_registrar-variables label label_hash node tld r r' p =
      elim (Option-cases (net.namehash tld)) [
        | inl e1 ↦ ground arith
        | inr (tld_node, e1) ↦ elim (Result-cases (net.owner r.world tld_node)) [
          | inl (x, e2) ↦ ground arith
          | inr (address, e2) ↦
              elim (transact_cases (register address label_hash config.deployer)
                (write (codes "Registrar address for " ++ (tld ++ (codes ": " ++ address))) r)) [
                  | inl (x, r1, e3) ↦ ground arith
                  | inr (hash, sent, mined, e3, e4, e5) ↦
                      elim (Result-cases (net.owner mined node)) [
                        | inl (x, e6) ↦ ground arith
                        | inr (owner, e6) ↦ ground arith
                      ]
                ]
        ]
      ]

  pub set_as_resolver-ok :
      IsEns net
      → (label node tld : Text) (r r' : Registrar S)
      → set_as_resolver_public_resolver e net config label node tld r ≡ (ok tt, r')
      → (net.resolver r'.world node ≡ ok config.public_resolver_address)
        × (r'.variables
            ≡ set_variable
                (codes "PUBLIC_RESOLVER_ADDRESS")
                config.public_resolver_address
                r.variables)
  unfolding set_as_resolver_public_resolver
  set_as_resolver-ok law label node tld r r' p =
      elim (transact_cases (set_resolver node config.public_resolver_address) r) [
        | inl (x, r1, e1) ↦ ground arith
        | inr (hash, sent, mined, e1, e2, e3) ↦ elim (Result-cases (net.resolver mined node)) [
          | inl (x, e4) ↦ ground arith
          | inr (resolver, e4) ↦
              let set =
                law.resolver-set_resolver node config.public_resolver_address hash r.world sent
                  mined e1 e2 in
              (ground arith, ground arith)
        ]
      ]

  pub deploy_new_registrar-ok :
      IsEns net
      → (node address : Text) (r r' : Registrar S)
      → deploy_new_registrar e net config node r ≡ (ok address, r')
      → (r'.registrar_address ≡ address)
        × (net.resolver r'.world node ≡ net.resolver r.world node)
        × (r'.variables ≡ set_variable (codes "REGISTRAR_ADDRESS") address r.variables)
  unfolding deploy_new_registrar
  deploy_new_registrar-ok law node address r r' p =
      elim (Result-cases (net.deploy_registrar config.ens_address node r.world)) [
        | inl (x, e1) ↦ ground arith
        | inr ((made, s), e1) ↦
            let kept =
              law.resolver-deploy_registrar config.ens_address node node made r.world s e1 in
            (ground arith, ground arith, ground arith)
      ]

  pub set_registrar_as_owner-ok :
      IsEns net
      → (label node tld : Text) (r r' : Registrar S)
      → set_registrar_as_owner e net config label node tld r ≡ (ok tt, r')
      → (net.owner r'.world node ≡ ok r.registrar_address)
        × (net.resolver r'.world node ≡ net.resolver r.world node)
        × (r'.variables ≡ r.variables)
        × (r'.registrar_address ≡ r.registrar_address)
  unfolding set_registrar_as_owner
  set_registrar_as_owner-ok law label node tld r r' p =
      elim (transact_cases (set_owner node r.registrar_address) r) [
        | inl (x, r1, e1) ↦ ground arith
        | inr (hash, sent, mined, e1, e2, e3) ↦
            let set = law.owner-set_owner node r.registrar_address hash r.world sent mined e1 e2 in
            let kept =
              law.resolver-set_owner node r.registrar_address hash r.world sent mined e1 e2 in
            (ground arith, ground arith, ground arith, ground arith)
      ]
