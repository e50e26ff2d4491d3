-- ===== src/Contracts/Agreement.antt =====
-- The library, the relayer and the SDK on the initialization of one wallet.
use universal_login_sdk.Prelude.{
  ◌≡◌, inl, inr, true, not, some, List, ◌∷◌, ◌++◌, Text, eqb, all, arith, ok, Option-cases,
}
use universal_login_sdk.Commons.Ethers.{Ethers}
use universal_login_sdk.Relayer.Database.{Chain}
use universal_login_sdk.Relayer.Deployment.{
  DomainInfo, DomainsInfo, Ens, Creation, Config, Factory, find_registrar, args_with, args_for,
  deploy,
}
use universal_login_sdk.Relayer.Deployment.Checks.{deploy_cases, parse_domain-append}
use universal_login_sdk.Sdk.Client.Names.{KeyPair}
use universal_login_sdk.Sdk.FutureWallets.{calculate_deploy_signature}
use universal_login_sdk.Contracts.{
  EnsDomainData, setup_initialize_with_ens_args, setup_initialize_with_ens_and_refund_args,
}

-- What `data_of` says of a domain of the relayer.
abbrev pub data_of : Config → DomainInfo → EnsDomainData
data_of config info = record {
  ens_address = config.ens_address;
  registrar_address = info.registrar_address;
  resolver_address = info.resolver_address;
}

module _ (e : Ethers) (ens : Ens) (chain : Chain) (config : Config) (factory : Factory) where
  -- The arguments that the relayer finds for a name under a domain that it serves.
  args_for-setup :
      (infos : DomainsInfo) (keys : KeyPair) (label domain : Text) (info : DomainInfo)
      (ens_args : List Text) (sent sent' : List Creation)
      → all (λ c. not (eqb c b'.')) label ≡ true
      → find_registrar infos domain ≡ some info
      → args_for e ens chain config factory infos (label ++ b'.' ∷ domain) sent
        ≡ (ok (some ens_args), sent')
      → (node : Text) × (ens.namehash (label ++ b'.' ∷ domain) ≡ some node)
        × (args_with e ens chain config factory label (label ++ b'.' ∷ domain) node (some info)
            ≡ some ens_args)
  unfolding args_for
  args_for-setup infos keys label domain info ens_args sent sent' plain served p =
      elim (Option-cases (ens.namehash (label ++ b'.' ∷ domain))) [
        | inl e1 ↦ ground (arith, parse_domain-append label domain plain)
        | inr (node, e1) ↦ (node, e1, ground (arith, parse_domain-append label domain plain))
      ]

  -- Where the relayer deploys a wallet for a name without a dot, under a domain that it serves, and the
  -- request has the signature that the SDK computes, the wallet is initialized with the arguments that
  -- setupInitializeWithENSAndRefundArgs gives for the same name, keys and gas price.
  pub deploy-setup :
      (infos : DomainsInfo) (keys : KeyPair) (label domain gas_price signature : Text)
      (info : DomainInfo) (creation : Creation) (sent sent' : List Creation)
      → all (λ c. not (eqb c b'.')) label ≡ true
      → find_registrar infos domain ≡ some info
      → calculate_deploy_signature e ens.namehash
          (label ++ b'.' ∷ domain)
          gas_price
          keys.private_key
        ≡ ok signature
      → deploy e ens chain config factory infos keys.public_key
          (label ++ b'.' ∷ domain)
          gas_price
          signature
          sent
        ≡ (ok creation, sent')
      → setup_initialize_with_ens_and_refund_args e ens.namehash keys
          (data_of config info)
          label
          domain
          config.relayer_address
          gas_price
        ≡ some creation.initialize
  unfolding setup_initialize_with_ens_and_refund_args setup_initialize_with_ens_args
      calculate_deploy_signature
  deploy-setup infos keys label domain gas_price signature info creation sent sent' plain served
        signs p =
      elim (deploy_cases e ens chain config factory infos keys.public_key (label ++ b'.' ∷ domain)
        gas_price signature sent) [
          | inl (x, q) ↦ ground arith
          | inr (ens_args, deployable, q) ↦
              let (node, e1, e2) =
                args_for-setup infos keys label domain info ens_args sent sent plain served
                  deployable.served in
              ground (arith, parse_domain-append label domain plain)
        ]
