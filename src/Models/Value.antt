-- ===== src/Models/Value.antt =====
-- Values of Go's `interface{}` as the program stores them: what encoding/json decodes to, with
-- integer-valued float64 numbers. A map is its list of entries, an ObjectID its hex text, and a
-- time.Time a number of nanoseconds since year 1 (0 is the zero Time).
use engine_api_workflow.Common.{ℕ, ◌-◌, ◌/◌, ℤ, String, Bool}

mutual
  pub data Value : Type 0 where
    null : Value
    boolean : Bool → Value
    number : ℤ → Value
    text : String → Value
    array : Items → Value
    object : Fields → Value

  pub data Items : Type 0 where
    nil : Items
    cons : Value → Items → Items

  pub data Fields : Type 0 where
    end : Fields
    field : String → Value → Fields → Fields

abbrev pub second : ℕ
second = 1000000000

abbrev pub minute : ℕ
minute = 60000000000

abbrev pub hour : ℕ
hour = 3600000000000

-- `Time.Unix()`, exact from 1970 on.
abbrev pub unix : ℕ → ℕ
unix t = t / 1000000000 - 62135596800
