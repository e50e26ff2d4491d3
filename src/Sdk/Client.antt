-- ===== src/Sdk/Client.antt =====
-- sdk.ts: the class `UniversalLoginSDK`, with config.ts; a message is completed, signed, sent to the
-- relayer and waited for. An amount that a caller gives is a number below 10^21, or a big number
-- above 0; a nonce that is the number 0 counts as absent, and is `none`.
pub mod Keys
pub mod Names
pub mod Waiting
pub mod Posting
pub mod Sending
pub mod Lifecycle
use universal_login_sdk.Prelude.{
  ℕ, zero, suc, Bool, true, false, not, Option, none, some, List, [], ◌∷◌, ◌++◌, Text, codes,
  to_decimal, Result, ok, err, Exec, pure, gets, lift, or_raise, modify, ensure, ◌>>=◌, ◌>>◌,
}
use universal_login_sdk.Commons.Ethers.{Ethers}
use universal_login_sdk.Commons.Message.{SignedMessage, calculate_message_hash}
use universal_login_sdk.Commons.Signing.{PartialMessage, spread, create_signed_message}
use universal_login_sdk.Commons.Json.{Json, number, string, object, Fields, no_fields, field}
use universal_login_sdk.Sdk.Errors.{SdkError, error}
use universal_login_sdk.Sdk.RelayerApi.{HttpRequest, Net, Line, Api, error_of}
use universal_login_sdk.Sdk.RelayerApi
use universal_login_sdk.Sdk.Retry.{retry}
use universal_login_sdk.Sdk.Values.{truthy, read, print_of, assign}

-- `MESSAGE_DEFAULTS`
unfoldable pub message_defaults : PartialMessage
message_defaults = record {
  gas_token = none;
  operation_type = some 0;
  to = none;
  from = none;
  nonce = none;
  gas_limit = some 1000000;
  gas_price = some 1000000000;
  data_field = some (codes "0x0");
  value = some 0;
}

-- The blockchain's provider, which may answer otherwise after more requests to the relayer.
pub record Provider : Type 0 where
  -- `lastNonce` of the wallet contract, by its address and the private key
  pub last_nonce : List HttpRequest → Option Text → Text → Result SdkError ℕ
  pub get_code : List HttpRequest → Text → Result SdkError Text
  -- ENS: `namehash`, which throws on a malformed name, the resolver of a node at the address of
  -- ENS, and the address that the resolver has for the node
  pub namehash : Text → Option Text
  pub resolver : List HttpRequest → Option Json → Text → Result SdkError Text
  pub addr : List HttpRequest → Text → Text → Result SdkError Text
  -- the contract address in the receipt of a transaction
  pub wait_for_transaction : Option Json → Result SdkError Text

-- The fields of the class that change. An observer and the factory are what they are made from.
pub record Client : Type 0 where
  pub line : Line
  pub config : Option Json
  pub balance_observer : Option (Option Json)
  pub deployment_observer : Option (Option Json)
  pub future_wallet_factory : Option Json

abbrev pub Using : Type 0 → Type 0
Using A = Exec SdkError Client A

-- A call of the relayer's API.
abbrev pub ask : {A : Type 0} → Api A → Using A
ask call c = let (r, line) = call c.line in (r, record c { line = line })

-- `amount && amount.toString()`, as JSON
unfoldable pub amount : ℕ → Json
amount zero = number 0
amount (suc n) = string (to_decimal (suc n))

abbrev pub message_fields : SignedMessage → Fields
message_fields m = field (codes "gasToken") (string m.gas_token) (
    field (codes "operationType") (number m.operation_type) (
      field (codes "to") (string m.to) (
        field (codes "from") (string m.from) (
          field (codes "nonce") (string m.nonce) (
            field (codes "gasLimit") (amount m.gas_limit) (
              field (codes "gasPrice") (amount m.gas_price) (
                field (codes "data") (string m.data_field) (
                  field (codes "value") (amount m.value)
                    (field (codes "signature") (string m.signature) no_fields)))))))))

-- `JSON.stringify(stringifySignedMessageFields(message))`
abbrev pub message_json : SignedMessage → Json
message_json m = object (message_fields m)

-- `message.nonce ||`
unfoldable pub given : Option Text → Option Text
given (some []) = none
given nonce = nonce

-- ethers' error for a key that is none, and for fields that it takes no hash of, by its start
unfoldable pub unsignable : SdkError
unsignable = error (codes "invalid argument")

-- `isExecuted`
unfoldable pub is_executed : Json → Result SdkError Bool
is_executed status = elim (read (codes "transactionHash") (some status)) [
  | err x ↦ err x
  | ok hash ↦ elim (truthy hash) [
    | true ↦ ok true
    | false ↦ elim (read (codes "error") (some status)) [
      | err x ↦ err x
      | ok failure ↦ ok (truthy failure)
    ]
  ]
]

-- `isNotExecuted`
unfoldable pub is_not_executed : Json → Result SdkError Bool
is_not_executed status = elim (is_executed status) [ err x ↦ err x | ok b ↦ ok (not b) ]

module _ (net : Net) (base_url : Text) where
  -- `waitForStatus`, with the defaults of `retry`
  unfoldable pub wait_for_status : Text → Api Json
  wait_for_status message_hash = do
    status ← retry net (RelayerApi.get_status net base_url message_hash) is_not_executed 1000 5000
    failure ← lift (read (codes "error") (some status))
    ensure (not (truthy failure)) (error_of failure)
    pure status

module _ (e : Ethers) (net : Net) (base_url : Text) (provider : Provider)
    (default_payment_options : PartialMessage) where
  -- `getNonce`
  unfoldable pub get_nonce : Option Text → Text → Using ℕ
  get_nonce wallet_contract_address private_key = do
    requests ← gets (λ c. c.line.requests)
    lift (provider.last_nonce requests wallet_contract_address private_key)

  -- the nonce of `execute`: `parseInt` reads what the big number prints
  unfoldable pub nonce_of : PartialMessage → Text → Using Text
  unfolding given
  nonce_of message private_key = elim (given message.nonce) [
    | some nonce ↦ pure nonce
    | none ↦ do n ← get_nonce message.from private_key; pure (to_decimal n)
  ]

  -- `unsignedMessage` of `execute`
  abbrev pub completed : PartialMessage → Text → PartialMessage
  completed message nonce = record (spread default_payment_options message) { nonce = some nonce }

  -- the `if` of `execute`, and what it returns
  unfoldable pub settled : Option Json → Option Json → Using (Option Json)
  settled none status = pure status
  settled (some hash) none = pure none
  settled (some hash) (some status) = elim (truthy (some hash)) [
    | false ↦ pure (some status)
    | true ↦ do
      final ← ask (wait_for_status net base_url (print_of (some hash)))
      failure ← lift (read (codes "error") (some final))
      ensure (not (truthy failure)) (error_of failure)
      transaction_hash ← lift (read (codes "transactionHash") (some final))
      pure (some (assign (codes "transactionHash") transaction_hash status))
  ]

  -- `execute`
  unfoldable pub execute : PartialMessage → Text → Using (Option Json)
  unfolding nonce_of settled
  execute message private_key = do
    nonce ← nonce_of message private_key
    signed_message ←
        or_raise (create_signed_message e (completed message nonce) private_key) unsignable
    result ← ask (RelayerApi.execute net base_url (message_json signed_message))
    status ← lift (read (codes "status") (some result))
    hash ← lift (read (codes "messageHash") status)
    settled hash status

  -- `getMessageStatus`
  unfoldable pub get_message_status : SignedMessage → Using Json
  get_message_status message = do
    hash ← or_raise (calculate_message_hash e message) unsignable
    ask (RelayerApi.get_status net base_url hash)
