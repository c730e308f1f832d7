-- ===== src/Types/Json.antt =====
-- serde_json's `Value` by its documented constructors, which the program matches on. A number is
-- kept by its text; the text and the parser of a value are parameters where they are used.
use tuenel.Prelude.{String, Bool}

mutual
  pub data Value : Type 0 where
    null : Value
    bool : Bool → Value
    number : String → Value
    string : String → Value
    array : Items → Value
    object : Fields → Value

  pub data Items : Type 0 where
    nil : Items
    cons : Value → Items → Items

  pub data Fields : Type 0 where
    end : Fields
    field : String → Value → Fields → Fields
