-- ===== src/Core/Json.antt =====
-- `serde_json::Value`, as far as the code looks into it. A number is the text that it prints.
use tellm.Base.{Text, Bool}

mutual
  pub data Value : Type 0 where
    null : Value
    bool : Bool → Value
    number : Text → Value
    string : Text → Value
    array : Values → Value
    object : Fields → Value

  pub data Values : Type 0 where
    nil : Values
    cons : Value → Values → Values

  pub data Fields : Type 0 where
    end : Fields
    field : Text → Value → Fields → Fields
