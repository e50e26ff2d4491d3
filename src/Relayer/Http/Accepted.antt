-- ===== src/Relayer/Http/Accepted.antt =====
-- The bodies that the SDK posts, as the relayer's routes take them.
use universal_login_sdk.Prelude.{
  ℕ, zero, suc, ◌≡◌, refl, Option, some, List, Text, codes, ◌==◌, ok, ap,
}
use universal_login_sdk.Commons.Json.{number, string, object, Items, Fields, get_field}
use universal_login_sdk.Commons.Ethers.{Ethers, ReadsDecimals}
use universal_login_sdk.Commons.Message.{SignedMessage}
use universal_login_sdk.Relayer.Database.{Chain}
use universal_login_sdk.Relayer.Http.{
  Issue, Sanitizer, Schema, no_more, property, text, as_big_numberish, as_arrayish,
}
use universal_login_sdk.Relayer.Http.Routes.{sanitize, execution}
use universal_login_sdk.Relayer.Http.Schemas.{
  MessageParts, message_of, message_schema, post_execution,
}
use universal_login_sdk.Sdk.Client.{amount, message_fields, message_json}

-- `asString` lets texts through, and `asNumber` numbers.
abbrev pub AcceptsStrings : Sanitizer Text → Type 0
AcceptsStrings as_string = (t path : Text) → as_string (some (string t)) path ≡ ok t

abbrev pub AcceptsNumbers : Sanitizer ℕ → Type 0
AcceptsNumbers as_number = (n : ℕ) (path : Text) → as_number (some (number n)) path ≡ ok n

-- Each property of a schema is let through.
abbrev pub Accepts : {A : Type 0} → Schema A → Fields → A → Type 0
Accepts no_more _ _ = Unit {0}
Accepts (property name sanitizer rest) body (a, b) =
    ((path : Text) → sanitizer (get_field name body) path ≡ ok a) × Accepts rest body b

-- `asObject` lets an object through if each of its properties is.
abbrev pub AcceptsObjects : ((A : Type 0) → Schema A → Sanitizer A) → Type 1
AcceptsObjects as_object =
    (A : Type 0) (schema : Schema A) (body : Fields) (path : Text) (a : A)
    → Accepts schema body a
    → as_object A schema (some (object body)) path ≡ ok a

as_big_numberish-amount :
    (e : Ethers) (big_numberify_number : ℕ → Option ℕ) (n : ℕ) (path : Text)
    → ReadsDecimals e
    → big_numberify_number 0 ≡ some 0
    → as_big_numberish e big_numberify_number (some (amount n)) path ≡ ok n
unfolding as_big_numberish amount
as_big_numberish-amount e big_numberify_number zero path reads zeros = rw zeros
as_big_numberish-amount e big_numberify_number (suc n) path reads zeros = rw (reads (suc n))

module _ (as_string : Sanitizer Text) (as_number : Sanitizer ℕ)
    (as_optional : (A : Type 0) → Sanitizer A → Sanitizer (Option A))
    (as_object : (A : Type 0) → Schema A → Sanitizer A) (describe : List Issue → Text) (e : Ethers)
    (big_numberify_number : ℕ → Option ℕ) where
  abbrev parts_of : SignedMessage → MessageParts
  parts_of m = (
    m.gas_token,
    (
      m.operation_type,
      (
        m.to,
        (
          m.from,
          (
            m.nonce,
            (m.gas_limit, (m.gas_price, (text m.data_field, (m.value, (m.signature, tt))))),
          ),
        ),
      ),
    ),
  )

  message_schema-Accepts :
      AcceptsStrings as_string
      → AcceptsNumbers as_number
      → ReadsDecimals e
      → big_numberify_number 0 ≡ some 0
      → (m : SignedMessage)
      → Accepts
          (message_schema as_string as_number as_optional as_object describe e big_numberify_number)
          (message_fields m)
          (parts_of m)
  unfolding message_schema get_field as_arrayish ◌==◌
  message_schema-Accepts strings numbers reads zeros m = (
    strings m.gas_token,
    (
      numbers m.operation_type,
      (
        strings m.to,
        (
          strings m.from,
          (
            strings m.nonce,
            (
              (λ path. as_big_numberish-amount e big_numberify_number m.gas_limit path reads zeros),
              (
                (λ path.
                    as_big_numberish-amount e big_numberify_number m.gas_price path reads zeros),
                (
                  (λ path. refl),
                  (
                    (λ path.
                        as_big_numberish-amount e big_numberify_number m.value path reads zeros),
                    (strings m.signature, tt),
                  ),
                ),
              ),
            ),
          ),
        ),
      ),
    ),
  )

  -- A signed message, as the SDK posts it, passes the input checks of the relayer's route with every
  -- field as it was, and is executed as that message: amounts that are sent as texts are read as the
  -- numbers they were.
  pub post_execution-message_json :
      AcceptsStrings as_string
      → AcceptsNumbers as_number
      → AcceptsObjects as_object
      → ReadsDecimals e
      → big_numberify_number 0 ≡ some 0
      → (chain : Chain) (hex_of : Items → Text) (m : SignedMessage)
      → post_execution as_string as_number as_optional as_object describe e big_numberify_number
          chain hex_of
          (message_json m)
        ≡ execution e chain m
  unfolding post_execution sanitize message_of
  post_execution-message_json strings numbers objects reads zeros chain hex_of m =
      ap
        (λ parts.
          sanitize describe parts (λ (p : MessageParts). execution e chain (message_of hex_of p)))
        (objects MessageParts
          (message_schema as_string as_number as_optional as_object describe e big_numberify_number)
          (message_fields m) (codes "body") (parts_of m)
          (message_schema-Accepts strings numbers reads zeros m))
