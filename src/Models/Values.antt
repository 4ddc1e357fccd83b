-- ===== src/Models/Values.antt =====
-- The dynamic values that the program passes around: JSON payloads, with the uuids and timestamps
-- that a database row adds to them. Floats are left out.
use platform_forge.Prelude.{ℕ, Bool, String}

mutual
  pub data Value : Type 0 where
    null : Value
    bool : Bool → Value
    nat : ℕ → Value
    neg : ℕ → Value
    text : String → Value
    uuid : ℕ → Value
    datetime : ℕ → Value
    array : Items → Value
    dict : Fields → Value

  pub data Items : Type 0 where
    nil : Items
    item : Value → Items → Items

  pub data Fields : Type 0 where
    end : Fields
    field : String → Value → Fields → Fields

-- What `int` reads in a text or a value: a ValueError, or a number of either sign.
pub data Parsed : Type 0 where
  value_error : Parsed
  minus : ℕ → Parsed
  plus : ℕ → Parsed
