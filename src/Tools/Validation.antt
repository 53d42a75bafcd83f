-- ===== src/Tools/Validation.antt =====
-- validation.rs and the preparation of an invocation in executor.rs. The JSON schema validator is a
-- parameter.
use Prim.Native.Char.{code}
use aifluxon.Json.{Json}
use aifluxon.Core.Message.{ToolInvocationId}
use aifluxon.Core.Operation.{ToolEffect}
use aifluxon.Core.Tool.{
  ToolDescriptor, ToolValidationError, invalid_json, oversized_argument, schema_violation,
  PreparedToolCall, max_tool_argument_bytes, message, path,
}
use aifluxon.Prelude.Strings.{trim, byte_length, is_empty_string}
use aifluxon.Ledger.{ToolExecutionError, validation}
use aifluxon.Prelude.{
  ltb, ◌==◌, if◌then◌else◌, Result, ok_or, map_err, ℕ, true, false, not, Option, none, some, List,
  [], ◌∷◌, String, ◌<>◌, ok, err, ◌>>◌, ◌>>=◌,
}
use aifluxon.Core.Tool

-- What the code reads of the validator's error kinds.
pub data SchemaErrorKind (V : Type 0) : Type 0 where
  required : V → SchemaErrorKind V
  type_of enumeration additional_properties unevaluated_properties : SchemaErrorKind V
  min_length max_length minimum exclusive_minimum maximum exclusive_maximum : SchemaErrorKind V
  min_items max_items pattern_of format_of other : SchemaErrorKind V

pub record SchemaError (V : Type 0) : Type 0 where
  pub instance_path : String
  pub kind : SchemaErrorKind V
  pub text : String

-- jsonschema::validator_for and iter_errors.
abbrev pub SchemaValidator : Type 0 → Type 0
SchemaValidator V = V → Option (V → List (SchemaError V))

pub record ToolInvocation (V : Type 0) : Type 0 where
  pub id : ToolInvocationId
  pub name : String
  pub arguments : V
  pub effect : ToolEffect

-- str::replace of one character.
unfoldable pub replace : ℕ → String → String → String
replace mark by String.[] = ""
replace mark by (String.◌∷◌ c s) =
    let rest = replace mark by s in if code c == mark then by <> rest else String.◌∷◌ c rest

-- replace('~', "~0").replace('/', "~1").
unfoldable pub escape_json_pointer_segment : String → String
unfolding replace
escape_json_pointer_segment segment = replace 47 "~1" (replace 126 "~0" segment)

module _ {V : Type 0} where
  unfoldable pub kind_name : SchemaErrorKind V → String
  kind_name (required property) = "required"
  kind_name type_of = "type"
  kind_name enumeration = "enum"
  kind_name additional_properties = "additional_properties"
  kind_name unevaluated_properties = "additional_properties"
  kind_name min_length = "min_length"
  kind_name max_length = "max_length"
  kind_name minimum = "minimum"
  kind_name exclusive_minimum = "minimum"
  kind_name maximum = "maximum"
  kind_name exclusive_maximum = "maximum"
  kind_name min_items = "min_items"
  kind_name max_items = "max_items"
  kind_name pattern_of = "pattern"
  kind_name format_of = "format"
  kind_name other = "schema"

  unfoldable pub invocation_from_prepared : ToolInvocationId → PreparedToolCall V → ToolInvocation V
  invocation_from_prepared id prepared = record {
    id = id;
    name = prepared.name;
    arguments = prepared.arguments;
    effect = prepared.effect;
  }

module _ {V : Type 0} (json : Json V) where
  -- The path of the error, with the missing property behind it.
  unfoldable pub error_path : SchemaErrorKind V → String → String
  unfolding escape_json_pointer_segment
  error_path (required property) path = elim (json.as_str property) [
    | some name ↦ path <> ("/" <> escape_json_pointer_segment name)
    | none ↦ path
  ]
  error_path _ path = path

  unfoldable pub violation : SchemaError V → ToolValidationError
  unfolding kind_name error_path
  violation e = schema_violation (kind_name e.kind) (error_path e.kind e.instance_path) e.text

  -- json!({}) for blank text.
  unfoldable pub parse_tool_arguments : String → Result ToolValidationError V
  unfolding trim byte_length
  parse_tool_arguments raw =
      if ltb max_tool_argument_bytes (byte_length raw)
      then err oversized_argument
      else if is_empty_string (trim raw)
      then ok (json.object [])
      else ok_or (json.from_str (trim raw)) invalid_json

  -- The schema with any further property allowed, and with a type.
  unfoldable pub relaxed : V → V
  relaxed schema =
      let open_schema = json.insert "additionalProperties" (json.bool true) schema in
      if json.is_object schema
      then (elim (json.get "type" open_schema) [
        | some _ ↦ open_schema
        | none ↦ json.insert "type" (json.string "object") open_schema
      ])
      else schema

  first_error : List (SchemaError V) → Result ToolValidationError (Unit {0})
  unfolding violation
  first_error [] = ok tt
  first_error (e ∷ es) = err (violation e)

  unfoldable pub validate_tool_arguments :
      SchemaValidator V → V → V → Result ToolValidationError (Unit {0})
  unfolding relaxed first_error
  validate_tool_arguments validator_for schema arguments =
      if not (json.is_object arguments)
      then err (schema_violation "type" "" "Tool arguments must be a JSON object.")
      else (elim (validator_for (relaxed schema)) [
        | some errors ↦ first_error (errors arguments)
        | none ↦ ok tt
      ])

  unfoldable pub prepare_tool_call :
      SchemaValidator V
      → ToolDescriptor V
      → String
      → Result ToolValidationError (PreparedToolCall V)
  unfolding parse_tool_arguments validate_tool_arguments
  prepare_tool_call validator_for descriptor raw = do
    arguments ← parse_tool_arguments raw
    validate_tool_arguments validator_for descriptor.input_schema arguments
    ok (record { name = descriptor.name; arguments = arguments; effect = descriptor.effect })

  unfoldable pub prepare_invocation :
      SchemaValidator V
      → ToolInvocationId
      → ToolDescriptor V
      → String
      → Result (ToolExecutionError ToolValidationError) (ToolInvocation V)
  unfolding prepare_tool_call invocation_from_prepared
  prepare_invocation validator_for id descriptor raw = do
    prepared ← map_err validation (prepare_tool_call validator_for descriptor raw)
    ok (invocation_from_prepared id prepared)

  unfoldable pub validation_error_value : ToolValidationError → V
  unfolding Tool.message Tool.kind Tool.path
  validation_error_value e = json.object (
      ("ok", json.bool false)
      ∷ ("error", json.string (Tool.message e))
      ∷ ("errorCode", json.string "TOOL_ARGUMENT_VALIDATION_FAILED")
      ∷ (
        "validation",
        json.object (
            ("kind", json.string (Tool.kind e))
            ∷ ("path", elim (Tool.path e) [ some p ↦ json.string p | none ↦ json.null ])
            ∷ ("pathFormat", json.string "json_pointer")
            ∷ ("retryable", json.bool true)
            ∷ []),
      )
      ∷ [])
