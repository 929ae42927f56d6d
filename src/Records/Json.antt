-- ===== src/Records/Json.antt =====
-- The values of `serde_json` that payloads hold. A number is kept as the text that it prints.
use oh_my_document.Prelude.{Bool, Text, Option, none, some}
use oh_my_document.Prelude.Maps.{Map}

mutual
  pub data Value : Type 0 where
    null : Value
    boolean : Bool → Value
    number : Text → Value
    string : Text → Value
    array : Items → Value
    object : Fields → Value

  pub data Items : Type 0 where
    nil : Items
    cons : Value → Items → Items

  pub data Fields : Type 0 where
    done : Fields
    field : Text → Value → Fields → Fields

abbrev pub Payload : Type 0
Payload = Map Value

-- `as_str`.
unfoldable pub as_str : Value → Option Text
as_str (string s) = some s
as_str _ = none
