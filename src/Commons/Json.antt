-- ===== src/Commons/Json.antt =====
-- JSON values, as the bodies of requests and answers carry them. Numbers are those that the program
-- sends: whole and not negative. `JSON.parse` reads back what `JSON.stringify` wrote, so a body is
-- kept as its value.
use universal_login_sdk.Prelude.{ℕ, Bool, Option, none, some, Text, ◌==◌, if◌then◌else◌}

mutual
  pub data Json : Type 0 where
    null : Json
    boolean : Bool → Json
    number : ℕ → Json
    string : Text → Json
    array : Items → Json
    object : Fields → Json

  pub data Items : Type 0 where
    no_items : Items
    item : Json → Items → Items

  pub data Fields : Type 0 where
    no_fields : Fields
    field : Text → Json → Fields → Fields

-- A field of an object; `none` is `undefined`.
unfoldable pub get_field : Text → Fields → Option Json
get_field name no_fields = none
get_field name (field other value rest) =
    let found = get_field name rest in if other == name then some value else found

-- `value[name]` on any value but null and undefined
abbrev pub property : Text → Json → Option Json
property name (object fields) = get_field name fields
property name _ = none

abbrev pub as_text : Json → Option Text
as_text (string t) = some t
as_text _ = none
