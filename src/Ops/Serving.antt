-- ===== src/Ops/Serving.antt =====
-- A domain that DomainRegistrar registered, as the relayer then serves it.
use universal_login_sdk.Prelude.{
  ◌≡◌, refl, ◌∙◌, ◌⊎◌, inl, inr, some, List, [], ◌∷◌, ◌++◌, Text, codes, ◌==◌, arith, Result, ok,
  err, ◌>>◌, Option-cases,
}
use universal_login_sdk.Commons.Ethers.{Ethers}
use universal_login_sdk.Relayer.Database.{Chain}
use universal_login_sdk.Relayer.Deployment.{Ens, Config, Factory, DomainInfo, DomainsInfo}
use universal_login_sdk.Relayer.Deployment
use universal_login_sdk.Ops.{
  Network, OpsConfig, Registrar, set_variable, write, remember, register_in_registrar,
  set_as_resolver_public_resolver, deploy_new_registrar, set_registrar_as_owner, register_at,
  start_domain,
}
use universal_login_sdk.Ops.Domains.{
  IsEns, register_in_registrar-variables, set_as_resolver-ok, deploy_new_registrar-ok,
  set_registrar_as_owner-ok,
}

-- How a call ends, and where.
pub Run-cases :
    {E S A : Type 0} (run : Result E A × S)
    → ((x : E) × (s : S) × (run ≡ (err x, s))) ⊎ ((a : A) × (s : S) × (run ≡ (ok a, s)))
Run-cases (ok a, s) = inr (a, s, refl)
Run-cases (err x, s) = inl (x, s, refl)

-- What is saved of a domain.
abbrev pub saved_of : Text → OpsConfig → Text → List (Text × Text)
saved_of domain config registrar =
    (codes "DOMAIN", domain)
    ∷ (codes "PUBLIC_RESOLVER_ADDRESS", config.public_resolver_address)
    ∷ (codes "REGISTRAR_ADDRESS", registrar)
    ∷ []

module _ {S : Type 0} (e : Ethers) (net : Network S) (config : OpsConfig) where
  -- What a registered domain is on the chain.
  pub record IsRegistered (domain : Text) (r : Registrar S) : Type 0 where
    pub node : Text
    pub named : net.namehash domain ≡ some node
    pub owned : net.owner r.world node ≡ ok r.registrar_address
    pub resolved : net.resolver r.world node ≡ ok config.public_resolver_address

  set_variables :
      (domain address : Text)
      → set_variable (codes "REGISTRAR_ADDRESS") address (
          set_variable
            (codes "PUBLIC_RESOLVER_ADDRESS")
            config.public_resolver_address
            (set_variable (codes "DOMAIN") domain []))
        ≡ saved_of domain config address
  unfolding set_variable ◌==◌
  set_variables domain address = refl

  -- The state in which the steps of `start` begin.
  abbrev entered : Text → Text → Registrar S → Registrar S
  entered label tld r =
      write (codes "Registering " ++ (label ++ b'.' ∷ (tld ++ codes "...")))
        (remember (codes "DOMAIN") (label ++ b'.' ∷ tld) r)

  -- What follows the registration in the registrar of the top level.
  record HasRegistered (label tld node : Text) (r1 r' : Registrar S) : Type 0 where
    address : Text
    r2 : Registrar S
    r3 : Registrar S
    resolves : set_as_resolver_public_resolver e net config label node tld r1 ≡ (ok tt, r2)
    deploys : deploy_new_registrar e net config node r2 ≡ (ok address, r3)
    hands_over : set_registrar_as_owner e net config label node tld r3 ≡ (ok tt, r')

  abbrev after_registering : Text → Text → Text → Registrar S → Result Text (Unit {0}) × Registrar S
  after_registering label tld node =
      set_as_resolver_public_resolver e net config label node tld
      >> deploy_new_registrar e net config node
      >> set_registrar_as_owner e net config label node tld

  has_registered :
      (label tld node : Text) (r1 r' : Registrar S)
      → after_registering label tld node r1 ≡ (ok tt, r')
      → HasRegistered label tld node r1 r'
  has_registered label tld node r1 r' p =
      elim (Run-cases (set_as_resolver_public_resolver e net config label node tld r1)) [
        | inl (x, s, e2) ↦ ground arith
        | inr (u2, r2, e2) ↦ elim (Run-cases (deploy_new_registrar e net config node r2)) [
          | inl (x, s, e3) ↦ ground arith
          | inr (address, r3, e3) ↦ record {
            address = address;
            r2 = r2;
            r3 = r3;
            resolves = e2;
            deploys = e3;
            hands_over = ground arith;
          }
        ]
      ]

  -- How `start` came to its end.
  at_steps :
      (label tld node : Text) (r r' : Registrar S)
      → register_at e net config label tld node r ≡ (ok tt, r')
      → (r1 : Registrar S) × (register_in_registrar e net config label
            (e.keccak256 (e.to_utf8_bytes label))
            node
            tld
            (entered label tld r)
          ≡ (ok tt, r1))
        × HasRegistered label tld node r1 r'
  unfolding register_at
  at_steps label tld node r r' p =
      elim (Run-cases (
        register_in_registrar e net config label (e.keccak256 (e.to_utf8_bytes label)) node tld
          (entered label tld r))) [
            | inl (x, s, e1) ↦ ground arith
            | inr (u1, r1, e1) ↦ (r1, e1, has_registered label tld node r1 r' (ground arith))
          ]

  start_steps :
      (label tld : Text) (r r' : Registrar S)
      → start_domain e net config label tld r ≡ (ok tt, r')
      → (node : Text) × (net.namehash (label ++ b'.' ∷ tld) ≡ some node)
        × (register_at e net config label tld node r ≡ (ok tt, r'))
  unfolding start_domain
  start_steps label tld r r' p = elim (Option-cases (net.namehash (label ++ b'.' ∷ tld))) [
    | inl e0 ↦ ground arith
    | inr (node, e0) ↦ (node, e0, ground arith)
  ]

  -- If DomainRegistrar.start returns, on an ENS that keeps what it is told, the domain's owner is the
  -- new registrar, its resolver is the public one, and the variables are its name and both addresses.
  pub start_domain-IsRegistered :
      IsEns net
      → (label tld : Text) (r r' : Registrar S) → r.variables ≡ []
      → start_domain e net config label tld r ≡ (ok tt, r')
      → IsRegistered (label ++ b'.' ∷ tld) r'
        × (r'.variables ≡ saved_of (label ++ b'.' ∷ tld) config r'.registrar_address)
  start_domain-IsRegistered law label tld r r' empty p =
      let (node, e0, q) = start_steps label tld r r' p in
      let (r1, e1, t) = at_steps label tld node r r' q in
      let v1 =
        register_in_registrar-variables e net config label (e.keccak256 (e.to_utf8_bytes label))
          node tld _ r1 e1 in
      let (s2, v2) = set_as_resolver-ok e net config law label node tld r1 t.r2 t.resolves in
      let (a3, s3, v3) =
        deploy_new_registrar-ok e net config law node t.address t.r2 t.r3 t.deploys in
      let (o4, s4, v4, a4) =
        set_registrar_as_owner-ok e net config law label node tld t.r3 r' t.hands_over in
      (
        record { node = node; named = e0; owned = cc; resolved = cc },
        ground (arith, set_variables (label ++ b'.' ∷ tld) t.address),
      )

  -- If DomainRegistrar.start returns for a domain, on an ENS that keeps what it is told, then a relayer
  -- that is started for this domain, and is answered from that ENS, serves names under it with the
  -- new registrar and the public resolver.
  pub start-start_domain :
      IsEns net
      → (label tld : Text) (r r' : Registrar S) → r.variables ≡ []
      → start_domain e net config label tld r ≡ (ok tt, r')
      → (ens : Ens) (chain : Chain) (relayer : Config) (factory : Factory)
      → ((t : Text) → ens.namehash t ≡ net.namehash t)
      → ((node a : Text) → net.owner r'.world node ≡ ok a → ens.owner node ≡ ok a)
      → ((node a : Text) → net.resolver r'.world node ≡ ok a → ens.resolver node ≡ ok a)
      → Deployment.start e ens chain relayer factory ((label ++ b'.' ∷ tld) ∷ [])
        ≡ ok (
            (
              label ++ b'.' ∷ tld,
              record {
                resolver_address = config.public_resolver_address;
                registrar_address = r'.registrar_address;
              },
            )
            ∷ [])
  unfolding Deployment.start
  start-start_domain law label tld r r' empty p ens chain relayer factory names owners resolvers =
      let (k, saves) = start_domain-IsRegistered law label tld r r' empty p in
      let e1 = names (label ++ b'.' ∷ tld) ∙ k.named in
      let e2 = owners k.node r'.registrar_address k.owned in
      let e3 = resolvers k.node config.public_resolver_address k.resolved in ground arith
