-- ===== src/Model/Values.antt =====
-- Values of third-party types that the structs of model.rs hold: instants, floats and JSON.
use fqdn_forge.Base.{ℕ, String, Bool}

-- An instant of `DateTime<Utc>`, as a count of its smallest unit.
abbrev pub DateTime : Type 0
DateTime = ℕ

-- An `f64`, as its bit pattern.
abbrev pub F64 : Type 0
F64 = ℕ

-- `serde_json::Value`. A number is its printed form, and an object lists its fields in key order.
mutual
  pub data JsonValue : Type 0 where
    null : JsonValue
    boolean : Bool → JsonValue
    number : String → JsonValue
    string : String → JsonValue
    array : JsonItems → JsonValue
    object : JsonFields → JsonValue

  pub data JsonItems : Type 0 where
    nil : JsonItems
    cons : JsonValue → JsonItems → JsonItems

  pub data JsonFields : Type 0 where
    end : JsonFields
    field : String → JsonValue → JsonFields → JsonFields
