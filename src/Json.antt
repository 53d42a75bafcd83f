-- ===== src/Json.antt =====
-- What the code uses of serde_json values, whose type is a parameter.
use Prim.Native.String.{String}
use aifluxon.Prelude.{ℕ, Bool, Option, List, Result}

pub record Json (V : Type 0) : Type 0 where
  -- The constructors behind `json!`.
  pub null : V
  pub bool : Bool → V
  pub string : String → V
  pub object : List (String × V) → V
  -- Map::insert on the map of an object.
  pub insert : String → V → V → V
  -- Value::is_null and Value::is_object.
  pub is_null : V → Bool
  pub is_object : V → Bool
  -- Value::get, Value::as_str, Value::as_u64, and the length behind Value::as_array.
  pub get : String → V → Option V
  pub as_str : V → Option String
  pub as_u64 : V → Option ℕ
  pub array_length : V → Option ℕ
  -- Display, serde_json::to_string, and serde_json::from_str.
  pub to_text : V → String
  pub to_string : V → Result String String
  pub from_str : String → Option V
