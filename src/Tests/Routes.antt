-- ===== src/Tests/Routes.antt =====
-- The theorems on the relayer's routes, with input checks as the package restless makes them.
use universal_login_sdk.Prelude.{
  ℕ, ◌≡◌, refl, Option, none, some, List, [], ◌∷◌, ◌++◌, Text, codes, Result, ok, err,
  to_lower_case,
}
use universal_login_sdk.Commons.Json.{number, string, object, Fields, get_field}
use universal_login_sdk.Relayer.Http.{Issue, Sanitizer, Schema, no_more, property}
use universal_login_sdk.Relayer.Database.{Database}
use universal_login_sdk.Relayer.Authorisation.Requests.{pending}
use universal_login_sdk.Relayer.Http.Routes.{Client, get_device_info, get_pending, execution}
use universal_login_sdk.Relayer.Http.Devices.{
  row_of, after_connect, after_deny, after_deny-after_connect,
}
use universal_login_sdk.Relayer.Http.Schemas.{post_execution}
use universal_login_sdk.Relayer.Http.Accepted.{Accepts, post_execution-message_json}
use universal_login_sdk.Sdk.Client.{message_json}
use universal_login_sdk.Tests.Samples.{ethers, ethers-ReadsDecimals, chain, message_a, empty}

-- Input checks as the package restless makes them.
abbrev as_string : Sanitizer Text
as_string (some (string t)) path = ok t
as_string value path = err (record { path = path; expected = codes "string" } ∷ [])

abbrev as_number : Sanitizer ℕ
as_number (some (number n)) path = ok n
as_number value path = err (record { path = path; expected = codes "number" } ∷ [])

abbrev as_optional : (A : Type 0) → Sanitizer A → Sanitizer (Option A)
as_optional A sanitizer none path = ok none
as_optional A sanitizer (some value) path = elim (sanitizer (some value) path) [
  | ok a ↦ ok (some a)
  | err issues ↦ err issues
]

unfoldable properties : (A : Type 0) → Schema A → Fields → Text → Result (List Issue) A
properties _ no_more body path = ok tt
properties _ (property name sanitizer rest) body path =
    elim (sanitizer (get_field name body) (path ++ b'.' ∷ name)) [
      | err issues ↦ err issues
      | ok a ↦ elim (properties _ rest body path) [ err issues ↦ err issues | ok b ↦ ok (a, b) ]
    ]

abbrev as_object : (A : Type 0) → Schema A → Sanitizer A
as_object A schema (some (object body)) path = properties A schema body path
as_object A schema value path = err (record { path = path; expected = codes "object" } ∷ [])

properties_accept :
    (A : Type 0) (schema : Schema A) (body : Fields) (path : Text) (a : A)
    → Accepts schema body a
    → properties A schema body path ≡ ok a
unfolding properties
properties_accept _ no_more body path a accepted = refl
properties_accept _ (property name sanitizer rest) body path (a, b) (first, others) =
    rw (first (path ++ b'.' ∷ name), properties_accept _ rest body path b others)

abbrev describe : List Issue → Text
describe issues = codes "issues"

post_execution-message_json_example :
    post_execution as_string as_number as_optional as_object describe ethers some chain
      (λ values. [])
      (message_json message_a)
    ≡ execution ethers chain message_a
post_execution-message_json_example =
    post_execution-message_json as_string as_number as_optional as_object describe ethers some
      (λ t path. refl) (λ n path. refl) properties_accept ethers-ReadsDecimals refl chain
      (λ values. []) message_a

abbrev client : Client
client = record { forwarded_for = none; ip = codes "::1"; useragent = none }

abbrev city : Text → Option Text
city address = none

-- The database after these posts.
abbrev after_post : Text → Text → Database → Database
after_post =
    after_connect as_string as_number as_optional as_object describe ethers some (λ t path. refl)
      properties_accept city (codes "noon") client

abbrev after_denial : Text → Text → Database → Database
after_denial =
    after_deny as_string as_number as_optional as_object describe ethers some (λ t path. refl)
      properties_accept city (codes "noon") client

after_deny-after_connect_example :
    ((get_pending (codes "0xa") (after_post (codes "0xA") (codes "0xB") empty)).0
      ≡ ok (record {
        status = 200;
        body =
            row_of
              (codes "0xA")
              (to_lower_case (codes "0xB"))
              (get_device_info city (codes "noon") client)
              empty
            ∷ [];
      }))
    × (pending
          (codes "0xc")
          (after_denial (codes "0xA") (codes "0xB") (after_post (codes "0xA") (codes "0xB") empty))
        ≡ pending (codes "0xc") empty)
unfolding to_lower_case
after_deny-after_connect_example =
    after_deny-after_connect as_string as_number as_optional as_object describe ethers some
      (λ t path. refl) properties_accept city (codes "noon") client (codes "0xA") (codes "0xB")
      (codes "0xa") (codes "0xc") empty refl refl
