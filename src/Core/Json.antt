-- ===== src/Core/Json.antt =====
-- `serde_json::Value`. Lists and maps of values are data types of their own. A number is an
-- integer: no field that the program reads or writes holds a fraction.
use simkube.Common.{String, Bool, true, false, Option, none, some, ◌==◌, string_eq, if◌then◌else◌}
use simkube.Common.Int.{ℤ}

mutual
  pub data Value : Type 0 where
    null : Value
    boolean : Bool → Value
    number : ℤ → Value
    string : String → Value
    array : Values → Value
    object : Fields → Value

  pub data Values : Type 0 where
    nil : Values
    cons : Value → Values → Values

  pub data Fields : Type 0 where
    end : Fields
    field : String → Value → Fields → Fields

abbrev pub is_null : Value → Bool
is_null null = true
is_null _ = false

unfoldable pub get_field : Fields → String → Option Value
get_field end key = none
get_field (field k v fs) key = if k == key then some v else get_field fs key

-- `value.get("key")`: a field of an object, and nothing of any other value.
unfoldable pub get : Value → String → Option Value
unfolding get_field
get (object fs) key = get_field fs key
get _ key = none
