-- ===== src/Core/Message.antt =====
-- crates/aifluxon-core/src/message.rs, artifact.rs and ids.rs: messages and identifiers.
use Prim.Native.String.{String}
use aifluxon.Prelude.{ℕ, Option, List}

abbrev pub RunId : Type 0
RunId = ℕ

abbrev pub SessionId : Type 0
SessionId = ℕ

abbrev pub OperationId : Type 0
OperationId = ℕ

abbrev pub ToolInvocationId : Type 0
ToolInvocationId = ℕ

pub data MessageRole : Type 0 where
  system user assistant tool : MessageRole

pub record ImageContent : Type 0 where
  pub artifact : String
  pub mime_type : String

pub data ContentPart : Type 0 where
  text : String → ContentPart
  image : ImageContent → ContentPart

pub record ToolCall (V : Type 0) : Type 0 where
  pub id : ToolInvocationId
  pub name : String
  pub arguments : V
  pub provider_call_id : Option String

pub record Message (V : Type 0) : Type 0 where
  pub role : MessageRole
  pub content : List ContentPart
  pub tool_calls : List (ToolCall V)
  pub tool_call_id : Option ToolInvocationId
  pub provider_state : Option V
