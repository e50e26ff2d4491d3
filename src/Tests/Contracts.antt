-- ===== src/Tests/Contracts.antt =====
-- The wallet of a name under the relayer's domain, as it is prepared and deployed.
use universal_login_sdk.Prelude.{◌≡◌, ◌==◌, refl, some, [], ◌∷◌, Text, codes, ok}
use universal_login_sdk.Relayer.Deployment.{
  Creation, creation_of, deploy, resolve_name, args_for, find_token_with_required_balance,
  get_balance, parse_domain, find_registrar,
}
use universal_login_sdk.Sdk.Client.Names.{KeyPair}
use universal_login_sdk.Sdk.FutureWallets.{calculate_deploy_signature}
use universal_login_sdk.Commons.Signing.{
  calculate_initialize_with_ens_signature, calculate_initialize_with_ens_hash,
}
use universal_login_sdk.Relayer.Execution.{ether_address}
use universal_login_sdk.Contracts.{setup_initialize_with_ens_and_refund_args}
use universal_login_sdk.Contracts.Agreement.{data_of, deploy-setup}
use universal_login_sdk.Tests.Samples.{ethers, chain}
use universal_login_sdk.Tests.Deploying.{ens, config, factory, infos}

abbrev keys : KeyPair
keys = record { public_key = codes "0xk"; private_key = codes "0xp" }

abbrev signature : Text
signature = codes "0xpalicealice.mylogin.ethalice.mylogin.eth1"

abbrev creation : Creation
creation =
    creation_of ethers ens chain config factory keys.public_key
      (codes "alice"
        ∷ codes "alice.mylogin.eth"
        ∷ codes "alice.mylogin.eth"
        ∷ codes "0x5"
        ∷ codes "0x4"
        ∷ codes "0x3"
        ∷ [])
      (codes "1") signature

signs :
    calculate_deploy_signature ethers ens.namehash
      (codes "alice.mylogin.eth")
      (codes "1")
      keys.private_key
    ≡ ok signature
unfolding calculate_deploy_signature parse_domain calculate_initialize_with_ens_signature
    calculate_initialize_with_ens_hash
signs = refl

deploys :
    deploy ethers ens chain config factory infos keys.public_key
      (codes "alice.mylogin.eth")
      (codes "1")
      signature
      []
    ≡ (ok creation, creation ∷ [])
unfolding deploy resolve_name args_for find_token_with_required_balance get_balance parse_domain
    find_registrar ◌==◌ ether_address
deploys = refl

deploy-setup_example :
    setup_initialize_with_ens_and_refund_args ethers ens.namehash keys
      (data_of config (record { resolver_address = codes "0x3"; registrar_address = codes "0x4" }))
      (codes "alice")
      (codes "mylogin.eth")
      config.relayer_address
      (codes "1")
    ≡ some creation.initialize
unfolding find_registrar ◌==◌
deploy-setup_example =
    deploy-setup ethers ens chain config factory infos keys (codes "alice") (codes "mylogin.eth")
      (codes "1") signature
      (record { resolver_address = codes "0x3"; registrar_address = codes "0x4" }) creation []
      (creation ∷ []) refl refl signs deploys
