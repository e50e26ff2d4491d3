-- ===== src/Relayer/Http/Schemas.antt =====
-- The routers of http/routes/wallet.ts and authorisation.ts: which body each route lets through, and
-- what it is handed to. A parameter of a path is a text always, which `asString` lets through.
use universal_login_sdk.Prelude.{ℕ, Option, none, some, List, Text, codes}
use universal_login_sdk.Commons.Json.{Json, Items}
use universal_login_sdk.Commons.Ethers.{Ethers}
use universal_login_sdk.Commons.Message.{SignedMessage}
use universal_login_sdk.Relayer.Database.{Action, Chain}
use universal_login_sdk.Relayer.PendingStore.{MessageStatus}
use universal_login_sdk.Relayer.Deployment
use universal_login_sdk.Relayer.Creating
use universal_login_sdk.Relayer.Http.{
  Issue, Sanitizer, Schema, no_more, property, Arrayish, text, items, as_big_numberish, as_arrayish,
}
use universal_login_sdk.Relayer.Http.Routes.{
  Reply, Client, get_device_info, sanitize, execution, request, deny_request, deploy, create,
}

abbrev pub Done : Type 0
Done = Unit {0}

-- The properties of a message, as `asObject` answers them.
abbrev pub MessageParts : Type 0
MessageParts = Text × (ℕ × (Text × (Text × (Text × (ℕ × (ℕ × (Arrayish × (ℕ × (Text × Done)))))))))

abbrev pub OverrideOptions : Type 0
OverrideOptions = Option ℕ × (Option ℕ × Done)

-- an array of bytes by the text that ethers reads alike
abbrev pub text_of : (Items → Text) → Arrayish → Text
text_of hex_of (text t) = t
text_of hex_of (items values) = hex_of values

unfoldable pub message_of : (Items → Text) → MessageParts → SignedMessage
message_of hex_of
      (
        gas_token,
        (
          operation_type,
          (to, (from, (nonce, (gas_limit, (gas_price, (bytes, (value, (signature, _)))))))),
        ),
      ) =
    record {
      gas_token = gas_token;
      operation_type = operation_type;
      to = to;
      from = from;
      nonce = nonce;
      gas_limit = gas_limit;
      gas_price = gas_price;
      data_field = text_of hex_of bytes;
      value = value;
      signature = signature;
    }

module _ (as_string : Sanitizer Text) (as_number : Sanitizer ℕ)
    (as_optional : (A : Type 0) → Sanitizer A → Sanitizer (Option A))
    (as_object : (A : Type 0) → Schema A → Sanitizer A) (describe : List Issue → Text) (e : Ethers)
    (big_numberify_number : ℕ → Option ℕ) where
  -- the schema of `POST /wallet/execution`
  unfoldable pub message_schema : Schema MessageParts
  message_schema = property (codes "gasToken") as_string (
      property (codes "operationType") as_number (
        property (codes "to") as_string (
          property (codes "from") as_string (
            property (codes "nonce") as_string (
              property (codes "gasLimit") (as_big_numberish e big_numberify_number) (
                property (codes "gasPrice") (as_big_numberish e big_numberify_number) (
                  property (codes "data") as_arrayish (
                    property (codes "value") (as_big_numberish e big_numberify_number)
                      (property (codes "signature") as_string no_more)))))))))

  -- `POST /wallet/execution`
  unfoldable pub post_execution : Chain → (Items → Text) → Json → Action (Reply MessageStatus)
  post_execution chain hex_of body =
      sanitize describe (as_object MessageParts message_schema (some body) (codes "body"))
        (λ parts. execution e chain (message_of hex_of parts))

  -- `asOverrideOptions`
  unfoldable pub as_override_options : Sanitizer OverrideOptions
  as_override_options = as_object OverrideOptions (
      property (codes "gasLimit") (as_optional ℕ (as_big_numberish e big_numberify_number)) (
        property (codes "gasPrice") (as_optional ℕ (as_big_numberish e big_numberify_number))
          no_more))

  -- the schema of `POST /wallet`
  unfoldable pub creation_schema : Schema (Text × (Text × (Option OverrideOptions × Done)))
  creation_schema = property (codes "managementKey") as_string (
      property (codes "ensName") as_string (
        property (codes "overrideOptions") (as_optional OverrideOptions as_override_options)
          no_more))

  -- `POST /wallet`; what is left of options that are undefined is restless' own.
  unfoldable pub post_wallet :
      (OverrideOptions → Creating.TransactionOverrides)
      → Deployment.Ens
      → Chain
      → Deployment.Config
      → Deployment.Factory
      → Creating.Deployer
      → Text
      → Deployment.DomainsInfo
      → Json
      → Creating.Creating (Reply Text)
  post_wallet overrides_of ens chain config factory deployer wallet_master_address infos body =
      sanitize describe
        (as_object (Text × (Text × (Option OverrideOptions × Done))) creation_schema (some body)
          (codes "body"))
        (λ parts.
          create e ens chain config factory deployer wallet_master_address infos parts.0 parts.1.0
            (elim parts.1.1.0 [
              | none ↦ record { gas_limit = none; gas_price = none }
              | some options ↦ overrides_of options
            ]))

  -- the schema of `POST /wallet/deploy`
  unfoldable pub deployment_schema : Schema (Text × (Text × (Text × (Text × Done))))
  deployment_schema = property (codes "publicKey") as_string (
      property (codes "ensName") as_string
        (property (codes "gasPrice") as_string (property (codes "signature") as_string no_more)))

  -- `POST /wallet/deploy`
  unfoldable pub post_deploy :
      Deployment.Ens
      → Chain
      → Deployment.Config
      → Deployment.Factory
      → Deployment.DomainsInfo
      → Json
      → Deployment.Deploying (Reply Deployment.Creation)
  post_deploy ens chain config factory infos body =
      sanitize describe
        (as_object (Text × (Text × (Text × (Text × Done)))) deployment_schema (some body)
          (codes "body"))
        (λ parts.
          deploy e ens chain config factory infos parts.0 parts.1.0 parts.1.1.0 parts.1.1.1.0)

  -- the schema of `POST /authorisation`
  unfoldable pub request_schema : Schema (Text × (Text × Done))
  request_schema =
      property (codes "walletContractAddress") as_string (property (codes "key") as_string no_more)

  -- `POST /authorisation`
  unfoldable pub post_request : (Text → Option Text) → Text → Client → Json → Action (Reply ℕ)
  post_request city time client body =
      sanitize describe (as_object (Text × (Text × Done)) request_schema (some body) (codes "body"))
        (λ parts. request parts.0 parts.1.0 (get_device_info city time client))

  -- the schema of `POST /authorisation/:walletContractAddress`
  unfoldable pub denial_schema : Schema (Text × Done)
  denial_schema = property (codes "key") as_string no_more

  -- `POST /authorisation/:walletContractAddress`
  unfoldable pub post_denial : Text → Json → Action (Reply Done)
  post_denial wallet_contract_address body =
      sanitize describe (as_object (Text × Done) denial_schema (some body) (codes "body"))
        (λ parts. deny_request wallet_contract_address parts.0)
