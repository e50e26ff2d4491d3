-- ===== src/Sdk/Values.antt =====
-- What sdk.ts does with the values of answers: properties are read, tested and assigned.
use universal_login_sdk.Prelude.{
  zero, suc, Bool, true, false, Option, none, some, [], ◌∷◌, ◌++◌, Text, codes, ◌==◌, Result, ok,
  err, if◌then◌else◌,
}
use universal_login_sdk.Commons.Json.{
  Json, null, boolean, number, string, array, object, Fields, no_fields, field, property,
}
use universal_login_sdk.Sdk.Errors.{SdkError, error}
use universal_login_sdk.Sdk.RelayerApi.{print}

-- `!!value`, where `none` is `undefined`
abbrev pub truthy : Option Json → Bool
truthy none = false
truthy (some null) = false
truthy (some (boolean b)) = b
truthy (some (number zero)) = false
truthy (some (number (suc n))) = true
truthy (some (string [])) = false
truthy (some (string (c ∷ t))) = true
truthy (some (array items)) = true
truthy (some (object members)) = true

unfoldable pub unreadable : Text → Text → SdkError
unreadable name kind = error (codes "Cannot read property '" ++ (name ++ (codes "' of " ++ kind)))

-- `value.name`
unfoldable pub read : Text → Option Json → Result SdkError (Option Json)
read name none = err (unreadable name (codes "undefined"))
read name (some null) = err (unreadable name (codes "null"))
read name (some value) = ok (property name value)

-- `${value}`
unfoldable pub print_of : Option Json → Text
print_of none = codes "undefined"
print_of (some value) = print value

-- The fields but those of a name.
unfoldable pub remove_field : Text → Fields → Fields
remove_field name no_fields = no_fields
remove_field name (field other value rest) =
    let rest' = remove_field name rest in if other == name then rest' else field other value rest'

-- `value.name = assigned`; a field that is undefined is left out.
unfoldable pub assign : Text → Option Json → Json → Json
assign name none (object members) = object (remove_field name members)
assign name (some assigned) (object members) =
    object (field name assigned (remove_field name members))
assign name assigned value = value

-- `const {name, ...rest} = value`, of an object
unfoldable pub rest_of : Text → Json → Json
rest_of name (object members) = object (remove_field name members)
rest_of name value = object no_fields
