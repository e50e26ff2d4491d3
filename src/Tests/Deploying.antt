-- ===== src/Tests/Deploying.antt =====
-- A wallet for a name under the relayer's domain.
use universal_login_sdk.Prelude.{◌≡◌, ◌⊎◌, some, List, [], ◌∷◌, Text, codes, ok, err}
use universal_login_sdk.Relayer.Errors.{Exception}
use universal_login_sdk.Relayer.Deployment.{
  SupportedToken, Ens, Config, Factory, DomainsInfo, deploy, creation_of,
}
use universal_login_sdk.Relayer.Execution.{ether_address}
use universal_login_sdk.Relayer.Deployment.Checks.{IsDeployable, deploy_cases}
use universal_login_sdk.Tests.Samples.{ethers, chain}

abbrev pub ens : Ens
ens = record {
  namehash = λ name. some name;
  resolver = λ node. ok ether_address;
  owner = λ node. ok (codes "0x7");
  addr = λ resolver node. ok (codes "0x8");
}

abbrev tokens : List SupportedToken
tokens =
    record { address = codes "dai"; minimal_amount = 5000 }
    ∷ record { address = codes "mkr"; minimal_amount = 10 }
    ∷ []

abbrev pub config : Config
config = record {
  ens_address = codes "0x5";
  factory_address = codes "0x6";
  relayer_address = codes "0x9";
  supported_tokens = tokens;
}

abbrev pub factory : Factory
factory = record { init_code = ok (codes "0x60"); create_contract = λ creation. ok tt }

abbrev pub infos : DomainsInfo
infos =
    (
      codes "mylogin.eth",
      record { resolver_address = codes "0x3"; registrar_address = codes "0x4" },
    )
    ∷ []

abbrev name : Text
name = codes "alice.mylogin.eth"

deploy_cases_example :
    let run =
      deploy ethers ens chain config factory infos
        (codes "0xk")
        name
        (codes "1")
        (codes "0xs")
        [] in
    ((x : Exception) × (run ≡ (err x, [])))
    ⊎ ((ens_args : List Text) × IsDeployable ethers ens chain config factory infos
          (codes "0xk")
          name
          ens_args
          []
        × (run ≡ (
          ok (
              creation_of ethers ens chain config factory
                (codes "0xk")
                ens_args
                (codes "1")
                (codes "0xs")),
          creation_of ethers ens chain config factory
                (codes "0xk")
                ens_args
                (codes "1")
                (codes "0xs")
              ∷ [],
        )))
deploy_cases_example =
    deploy_cases ethers ens chain config factory infos (codes "0xk") name (codes "1") (codes "0xs")
      []
