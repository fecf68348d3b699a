-- ===== src/Domain/Json.antt =====
-- `serde_json::Value`, as far as the control plane builds and reads it. A number is its literal.
use stackhour.Prelude.{String, Bool, Option, none, some, str_eq, if◌then◌else◌}

mutual
  pub data Value : Type 0 where
    null : Value
    bool : Bool → Value
    num : String → Value
    str : String → Value
    arr : Elements → Value
    obj : Members → Value

  pub data Elements : Type 0 where
    no_elements : Elements
    element : Value → Elements → Elements

  pub data Members : Type 0 where
    no_members : Members
    member : String → Value → Members → Members

abbrev pub or_null : Option String → Value
or_null none = null
or_null (some s) = str s

unfoldable pub get_field : String → Members → Option Value
get_field k no_members = none
get_field k (member j v fs) = if str_eq j k then some v else get_field k fs

-- `Value::get` with a text key
abbrev pub get : Value → String → Option Value
get (obj fs) k = get_field k fs
get _ k = none

abbrev pub as_bool : Value → Option Bool
as_bool (bool b) = some b
as_bool _ = none
