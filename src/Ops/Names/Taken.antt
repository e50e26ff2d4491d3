-- ===== src/Ops/Names/Taken.antt =====
-- What ENSNameRegistrar leaves on the chain, and that the relayer then refuses the name.
use universal_login_sdk.Prelude.{
  ◌≡◌, ◌≢◌, sym, ◌∙◌, inl, inr, true, false, some, List, ◌∷◌, ◌++◌, Text, codes, ◌==◌, arith, ok,
  err, Option-cases,
}
use universal_login_sdk.Commons.Ethers.{Ethers}
use universal_login_sdk.Ops.{Network, OpsConfig, Registrar, write, remember}
use universal_login_sdk.Relayer.Errors.{ens_name_taken}
use universal_login_sdk.Relayer.Database.{Chain}
use universal_login_sdk.Relayer.Execution.{ether_address}
use universal_login_sdk.Relayer.Deployment.{
  Ens, Config, Factory, DomainsInfo, Creation, deploy, resolve_name, is_truthy,
}
use universal_login_sdk.Ops.Domains.{IsEns}
use universal_login_sdk.Ops.Serving.{Run-cases}
use universal_login_sdk.Ops.Names.{
  prepare_name_registration, register_name, set_resolver_of, set_address, set_reverse_name,
  set_reverse, point_name, name_at, start_name, reverse_name_of,
}
use universal_login_sdk.Ops.Names.Steps.{
  IsResolving, set_resolver_of-ok, set_address-ok, set_reverse_name-ok, check_reverse_name-ok,
}

module _ {S : Type 0} (e : Ethers) (net : Network S) (config : OpsConfig) where
  -- What a name is on the chain once it is registered.
  pub record IsNamed (name : Text) (r : Registrar S) : Type 0 where
    pub node : Text
    pub named : net.namehash name ≡ some node
    pub resolved : net.resolver r.world node ≡ ok r.resolver_address
    pub addressed : net.addr r.world r.resolver_address node ≡ ok config.deployer

  set_reverse-IsNamed :
      IsResolving net config
      → (label domain node name reverse_node : Text) (r r' : Registrar S)
      → net.namehash name ≡ some node
      → net.namehash (reverse_name_of config) ≢ some node
      → net.resolver r.world node ≡ ok r.resolver_address
      → net.addr r.world r.resolver_address node ≡ ok config.deployer
      → set_reverse e net config label domain reverse_node r ≡ (ok tt, r')
      → IsNamed name r'
  unfolding set_reverse
  set_reverse-IsNamed law label domain node name reverse_node r r' named apart resolved addressed
        p =
      elim (Run-cases (set_reverse_name e net config label domain r)) [
        | inl (x, s, e1) ↦ ground arith
        | inr (u1, r1, e1) ↦
            let (a1, s1, k1) =
              set_reverse_name-ok e net config law label domain node r r1 apart e1 in
            let (w2, k2) =
              check_reverse_name-ok e net config reverse_node config.deployer r1 r'
                (ground arith) in
            record { node = node; named = named; resolved = ground arith; addressed = ground arith }
      ]

  point_name-IsNamed :
      IsEns net
      → IsResolving net config
      → (label domain node name reverse_node : Text) (r r' : Registrar S)
      → net.namehash name ≡ some node
      → net.namehash (reverse_name_of config) ≢ some node
      → point_name e net config label domain node reverse_node r ≡ (ok tt, r')
      → IsNamed name r'
  unfolding point_name
  point_name-IsNamed law law' label domain node name reverse_node r r' named apart p =
      elim (Run-cases (set_resolver_of e net config node label domain r)) [
        | inl (x, s, e2) ↦ ground arith
        | inr (u2, r2, e2) ↦ elim (Run-cases (set_address e net config node label domain r2)) [
          | inl (x, s, e3) ↦ ground arith
          | inr (u3, r3, e3) ↦
              let s2 = set_resolver_of-ok e net config law node label domain r r2 e2 in
              let (a3, s3, k3) = set_address-ok e net config law' node label domain r2 r3 e3 in
              set_reverse-IsNamed law' label domain node name reverse_node r3 r' named apart (cc)
                (cc) (ground arith)
        ]
      ]

  name_at-IsNamed :
      IsEns net
      → IsResolving net config
      → (label domain node name reverse_node : Text) (r r' : Registrar S)
      → net.namehash name ≡ some node
      → net.namehash (reverse_name_of config) ≢ some node
      → name_at e net config label domain node reverse_node r ≡ (ok tt, r')
      → IsNamed name r'
  unfolding name_at
  name_at-IsNamed law law' label domain node name reverse_node r r' named apart p =
      elim (Run-cases (
        register_name e net config (e.keccak256 (e.to_utf8_bytes label)) label domain node (
          write (codes "Registgering " ++ (label ++ b'.' ∷ (domain ++ codes "...")))
            (remember (codes "ENS_NAME") (label ++ b'.' ∷ domain) r)))) [
              | inl (x, s, e1) ↦ ground arith
              | inr (u1, r1, e1) ↦
                  point_name-IsNamed law law' label domain node name reverse_node r1 r' named apart
                    (ground arith)
            ]

  -- If ENSNameRegistrar.start returns, the name has the domain's resolver and the deployer's address.
  pub start_name-IsNamed :
      IsEns net
      → IsResolving net config
      → (label domain : Text) (r r' : Registrar S)
      → net.namehash (reverse_name_of config) ≢ net.namehash (label ++ b'.' ∷ domain)
      → start_name e net config label domain r ≡ (ok tt, r')
      → IsNamed (label ++ b'.' ∷ domain) r'
  unfolding start_name
  start_name-IsNamed law law' label domain r r' apart p =
      elim (Run-cases (prepare_name_registration e net config domain r)) [
        | inl (x, s, e1) ↦ ground arith
        | inr (u1, r1, e1) ↦ elim (Option-cases (net.namehash (label ++ b'.' ∷ domain))) [
          | inl e2 ↦ ground arith
          | inr (node, e2) ↦ elim (Option-cases (net.namehash (reverse_name_of config))) [
            | inl e3 ↦ ground arith
            | inr (reverse_node, e3) ↦
                name_at-IsNamed law law' label domain node (label ++ b'.' ∷ domain) reverse_node r1
                  r' e2 (λ q. apart (q ∙ sym e2)) (ground arith)
          ]
        ]
      ]

  -- If ENSNameRegistrar.start returns for a name, then a relayer that is answered from that ENS refuses
  -- to deploy a wallet for this name, as one that is taken, and sends nothing.
  pub deploy-start_name :
      IsEns net
      → IsResolving net config
      → (label domain : Text) (r r' : Registrar S)
      → net.namehash (reverse_name_of config) ≢ net.namehash (label ++ b'.' ∷ domain)
      → start_name e net config label domain r ≡ (ok tt, r')
      → (r'.resolver_address == ether_address) ≡ false
      → is_truthy (some config.deployer) ≡ true
      → (ens : Ens) (chain : Chain) (relayer : Config) (factory : Factory)
      → ((t : Text) → ens.namehash t ≡ net.namehash t)
      → ((node a : Text) → net.resolver r'.world node ≡ ok a → ens.resolver node ≡ ok a)
      → ((at node a : Text) → net.addr r'.world at node ≡ ok a → ens.addr at node ≡ ok a)
      → (infos : DomainsInfo) (key gas_price signature : Text) (sent : List Creation)
      → deploy e ens chain relayer factory infos key
          (label ++ b'.' ∷ domain)
          gas_price
          signature
          sent
        ≡ (err (ens_name_taken (label ++ b'.' ∷ domain)), sent)
  unfolding deploy resolve_name
  deploy-start_name law law' label domain r r' apart p there given ens chain relayer factory names
        resolvers addresses infos key gas_price signature sent =
      let k = start_name-IsNamed law law' label domain r r' apart p in
      let e1 = names (label ++ b'.' ∷ domain) ∙ k.named in
      let e2 = resolvers k.node r'.resolver_address k.resolved in
      let e3 = addresses r'.resolver_address k.node config.deployer k.addressed in ground arith
