-- ===== src/Store/Json.antt =====
-- serde_json::Value: the payloads of events and the details of audit rows.
use openab_control_plane.Prelude.{ℤ, Bool, List, [], ◌∷◌, Option, some, none}
use openab_control_plane.Text.{Text}

mutual
  pub data Value : Type 0 where
    null : Value
    flag : Bool → Value
    number : ℤ → Value
    string : Text → Value
    array : Items → Value
    object : Fields → Value

  pub data Items : Type 0 where
    no_items : Items
    item : Value → Items → Items

  pub data Fields : Type 0 where
    no_fields : Fields
    field : Text → Value → Fields → Fields

-- What `json!` makes of an option, and of a list of texts.
abbrev pub string_or_null : Option Text → Value
string_or_null none = null
string_or_null (some t) = string t

abbrev pub number_or_null : Option ℤ → Value
number_or_null none = null
number_or_null (some n) = number n

abbrev pub strings : List Text → Items
strings [] = no_items
strings (t ∷ ts) = item (string t) (strings ts)
