-- ===== src/Sdk/RelayerApi.antt =====
-- RelayerApi.ts and utils/http.ts: requests to the relayer. `fetch` is a parameter: what it answers
-- may depend on the requests that were made before, and it takes time.
use universal_login_sdk.Prelude.{
  ℕ, ◌+◌, Bool, true, false, Option, none, some, List, [], ◌∷◌, ◌++◌, Text, codes, to_decimal,
  Result, ok, err, Exec, if◌then◌else◌,
}
use universal_login_sdk.Commons.Json.{
  Json, null, boolean, number, string, array, object, Items, no_items, item, no_fields, field,
  property,
}
use universal_login_sdk.Sdk.Errors.{SdkError, error, rejected}

pub data HttpMethod : Type 0 where
  get post put delete : HttpMethod

-- What is given to `fetch`; the headers are the same in every request.
pub record HttpRequest : Type 0 where
  pub method : HttpMethod
  pub url : Text
  pub body : Option Json

pub record Response : Type 0 where
  pub is_ok : Bool
  pub text : Text

-- The network: what `fetch` answers and how long it takes, by the requests before, how much later
-- than set a timer fires, and `JSON.parse`.
pub record Net : Type 0 where
  pub fetch : List HttpRequest → HttpRequest → Result SdkError Response
  pub duration : List HttpRequest → ℕ
  pub lateness : List HttpRequest → ℕ
  pub parse : Text → Option Json

-- The time in milliseconds, and the requests that were made, last first.
pub record Line : Type 0 where
  pub now : ℕ
  pub requests : List HttpRequest

abbrev pub Api : Type 0 → Type 0
Api A = Exec SdkError Line A

-- `getJsonOrText`
unfoldable pub get_json_or_text : Option Json → Text → Json
get_json_or_text none text = string text
get_json_or_text (some value) text = value

-- `String(value)`, as far as an array of values
unfoldable mutual
  pub print : Json → Text
  print null = codes "null"
  print (boolean true) = codes "true"
  print (boolean false) = codes "false"
  print (number n) = to_decimal n
  print (string t) = t
  print (array items) = print_items items
  print (object _) = codes "[object Object]"

  pub print_items : Items → Text
  print_items no_items = []
  print_items (item null rest) = print_rest rest
  print_items (item value rest) = print value ++ print_rest rest

  pub print_rest : Items → Text
  print_rest no_items = []
  print_rest (item null rest) = b',' ∷ print_rest rest
  print_rest (item value rest) = b',' ∷ (print value ++ print_rest rest)

-- The text of `new Error(value)`.
abbrev pub error_of : Option Json → SdkError
error_of none = error []
error_of (some value) = error (print value)

-- The handlers of `catch`: `throw new Error(e !== undefined && e.error)`
unfoldable pub wrapped : SdkError → SdkError
unfolding print
wrapped (rejected null) = error (codes "Cannot read property 'error' of null")
wrapped (rejected value) = error_of (property (codes "error") value)
wrapped _ = error []

unfoldable pub catch_wrapped : {A : Type 0} → Api A → Api A
unfolding wrapped
catch_wrapped call w =
    let (r, w') = call w in elim r [ ok a ↦ (ok a, w') | err x ↦ (err (wrapped x), w') ]

-- The bodies of the requests about keys and of deployments.
abbrev pub key_of_wallet : Text → Text → Json
key_of_wallet wallet_contract_address key = object (
    field (codes "walletContractAddress") (string wallet_contract_address)
      (field (codes "key") (string key) no_fields))

abbrev pub deployment_of : Text → Text → Text → Text → Json
deployment_of public_key ens_name gas_price signature = object (
    field (codes "publicKey") (string public_key) (
      field (codes "ensName") (string ens_name) (
        field (codes "gasPrice") (string gas_price)
          (field (codes "signature") (string signature) no_fields))))

module _ (net : Net) (base_url : Text) where
  -- `handleApiResponse`
  unfoldable pub handle_api_response : Response → Result SdkError Json
  handle_api_response res =
      let value = get_json_or_text (net.parse res.text) res.text in
      if res.is_ok then ok value else err (rejected value)

  abbrev pub answered : Result SdkError Response → Result SdkError Json
  answered (ok res) = handle_api_response res
  answered (err x) = err x

  -- `http(baseUrl)(method, url, body)`
  unfoldable pub http : HttpMethod → Text → Option Json → Api Json
  unfolding handle_api_response
  http method url body w =
      let request : HttpRequest = record { method = method; url = base_url ++ url; body = body } in
      (
        answered (net.fetch w.requests request),
        record { now = w.now + net.duration w.requests; requests = request ∷ w.requests },
      )

  unfoldable pub create_wallet : Text → Text → Api Json
  create_wallet management_key ens_name = catch_wrapped (
      http post (codes "/wallet") (
        some (
          object (
            field (codes "managementKey") (string management_key)
              (field (codes "ensName") (string ens_name) no_fields)))))

  unfoldable pub get_config : Api Json
  get_config = http get (codes "/config") none

  unfoldable pub execute : Json → Api Json
  execute message = catch_wrapped (http post (codes "/wallet/execution") (some message))

  unfoldable pub get_status : Text → Api Json
  get_status message_hash = http get (codes "/wallet/execution/" ++ message_hash) none

  unfoldable pub connect : Text → Text → Api Json
  connect wallet_contract_address key =
      http post (codes "/authorisation") (some (key_of_wallet wallet_contract_address key))

  unfoldable pub deny_connection : Text → Text → Api Json
  deny_connection wallet_contract_address key =
      http post (codes "/authorisation/" ++ wallet_contract_address)
        (some (key_of_wallet wallet_contract_address key))

  unfoldable pub get_pending_authorisations : Text → Api Json
  get_pending_authorisations wallet_contract_address =
      http get (codes "/authorisation/" ++ wallet_contract_address) none

  unfoldable pub deploy : Text → Text → Text → Text → Api Json
  deploy public_key ens_name gas_price signature =
      http post (codes "/wallet/deploy")
        (some (deployment_of public_key ens_name gas_price signature))
