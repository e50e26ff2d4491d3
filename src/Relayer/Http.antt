-- ===== src/Relayer/Http.antt =====
-- http/utils/sanitizers.ts, and the schemas of http/routes: what is let through of a request. The
-- package restless is a parameter: `asString`, `asNumber`, `asOptional` and `asObject`.
pub mod Routes
pub mod Schemas
pub mod Accepted
pub mod Devices
use universal_login_sdk.Prelude.{ℕ, Option, none, some, List, [], ◌∷◌, Text, codes, Result, ok, err}
use universal_login_sdk.Commons.Json.{Json, null, boolean, number, string, array, object, Items}
use universal_login_sdk.Commons.Ethers.{Ethers}

-- What a sanitizer has against a value.
pub record Issue : Type 0 where
  pub path : Text
  pub expected : Text

-- `Sanitizer<A>`: a value, or `undefined`, and its path
abbrev pub Sanitizer : Type 0 → Type 0
Sanitizer A = Option Json → Text → Result (List Issue) A

-- The argument of `asObject`: names of properties with their sanitizers. An object is the tuple of
-- its properties, in this order.
pub data Schema : Type 0 → Type 1 where
  no_more : Schema (Unit {0})
  property : {A B : Type 0} → Text → Sanitizer A → Schema B → Schema (A × B)

-- `string | number[]`
pub data Arrayish : Type 0 where
  text : Text → Arrayish
  items : Items → Arrayish

unfoldable pub not_big_number : Text → List Issue
not_big_number path = record { path = path; expected = codes "bigNumber" } ∷ []

abbrev pub right_or : {A : Type 0} → Option A → List Issue → Result (List Issue) A
right_or none issues = err issues
right_or (some a) issues = ok a

-- `asBigNumberish`; `bigNumberify` of a number is a parameter, as it is of a text
unfoldable pub as_big_numberish : Ethers → (ℕ → Option ℕ) → Sanitizer ℕ
as_big_numberish e big_numberify_number (some (string t)) path =
    right_or (e.big_numberify t) (not_big_number path)
as_big_numberish e big_numberify_number (some (number n)) path =
    right_or (big_numberify_number n) (not_big_number path)
as_big_numberish e big_numberify_number value path = err (not_big_number path)

-- `asArrayish`
unfoldable pub as_arrayish : Sanitizer Arrayish
as_arrayish (some (string t)) path = ok (text t)
as_arrayish (some (array values)) path = ok (items values)
as_arrayish value path = err (record { path = path; expected = codes "arrayish" } ∷ [])
