-- ===== src/Core/Tool.antt =====
-- crates/aifluxon-core/src/tool.rs and authority.rs: tool descriptors, the errors of their arguments,
-- and the authority of a run. Capabilities are compared only for equality and are numbers.
use Prim.Native.String.{String}
use aifluxon.Prelude.IdSet.{contains}
use aifluxon.Core.Operation.{ToolEffect}
use aifluxon.Prelude.{ℕ, ◌*◌, Bool, true, false, Option, none, some, List, ◌<>◌}

abbrev pub max_tool_argument_bytes : ℕ
max_tool_argument_bytes = 256 * 1024

pub record ToolDescriptor (V : Type 0) : Type 0 where
  pub name : String
  pub description : String
  pub input_schema : V
  pub effect : ToolEffect
  pub required_capabilities : List ℕ
  pub parallel_safe : Bool

pub data ToolValidationError : Type 0 where
  invalid_json oversized_argument unknown_tool : ToolValidationError
  missing_required_field wrong_field_type unknown_enum : String → ToolValidationError
  schema_violation : String → String → String → ToolValidationError
  schema_invalid : String → ToolValidationError

unfoldable pub message : ToolValidationError → String
message invalid_json = "Tool arguments must be valid JSON."
message oversized_argument = "Tool arguments exceed the 262144-byte limit."
message unknown_tool = "Unknown tool."
message (missing_required_field field) =
    "Tool arguments are missing required field `" <> (field <> "`.")
message (wrong_field_type field) = "Tool argument `" <> (field <> "` has the wrong type.")
message (unknown_enum field) = "Tool argument `" <> (field <> "` is not an allowed enum value.")
message (schema_violation kind path text) = text
message (schema_invalid text) = text

unfoldable pub kind : ToolValidationError → String
kind invalid_json = "invalid_json"
kind oversized_argument = "argument_too_large"
kind unknown_tool = "unknown_tool"
kind (missing_required_field field) = "required"
kind (wrong_field_type field) = "type"
kind (unknown_enum field) = "enum"
kind (schema_violation name path text) = name
kind (schema_invalid text) = "schema"

unfoldable pub path : ToolValidationError → Option String
path (missing_required_field field) = some field
path (wrong_field_type field) = some field
path (unknown_enum field) = some field
path (schema_violation name place text) = some place
path _ = none

unfoldable pub is_argument_validation : ToolValidationError → Bool
is_argument_validation unknown_tool = false
is_argument_validation _ = true

pub record PreparedToolCall (V : Type 0) : Type 0 where
  pub name : String
  pub arguments : V
  pub effect : ToolEffect

pub data AgentFilesystemScope : Type 0 where
  workspace isolated scoped_selection trusted : AgentFilesystemScope

pub data PermissionMode : Type 0 where
  default managed trusted : PermissionMode

pub record ExecutionAuthority : Type 0 where
  pub permission_mode : PermissionMode
  pub filesystem_scope : AgentFilesystemScope
  pub capabilities : List ℕ

unfoldable pub grants : ExecutionAuthority → ℕ → Bool
unfolding contains
grants authority capability = contains capability authority.capabilities
