-- ===== src/Core/Provider.antt =====
-- crates/aifluxon-core/src/provider.rs: a turn of a model and the request for it.
use Prim.Native.String.{String}
use aifluxon.Core.Message.{RunId, Message, ToolCall}
use aifluxon.Core.Tool.{ToolDescriptor}
use aifluxon.Prelude.{ℕ, Bool, true, false, Option, none, some, List}

pub data ContinuationReason : Type 0 where
  incomplete provider_requested summary_only : ContinuationReason

unfoldable pub default_limit : ContinuationReason → ℕ
default_limit ContinuationReason.incomplete = 2
default_limit ContinuationReason.summary_only = 1
default_limit ContinuationReason.provider_requested = 4

pub data ProviderTerminal : Type 0 where
  stop tool_calls cancelled error : ProviderTerminal
  continue_for : ContinuationReason → ProviderTerminal

unfoldable pub continuation_reason : ProviderTerminal → Option ContinuationReason
continuation_reason (continue_for reason) = some reason
continuation_reason _ = none

-- terminal == ProviderTerminal::ToolCalls.
unfoldable pub is_tool_calls : ProviderTerminal → Bool
is_tool_calls tool_calls = true
is_tool_calls _ = false

pub record ModelTurn (V : Type 0) : Type 0 where
  pub text : String
  pub reasoning : String
  pub tool_calls : List (ToolCall V)
  pub usage : Option V
  pub terminal : ProviderTerminal
  pub opaque : V

pub record ProviderFeatureRequest : Type 0 where
  pub web_search : Bool
  pub image_generation : Bool
  pub reasoning_effort : Option String
  pub thinking_mode : Option String
  pub thinking_budget : Option String
  pub prompt_cache_key : Option String
  pub explicit_cache : Bool

pub record ModelTurnRequest (V : Type 0) : Type 0 where
  pub model : String
  pub messages : List (Message V)
  pub tools : List (ToolDescriptor V)
  pub session_key : String
  pub run_id : RunId
  pub opaque_state : Option V
  pub features : ProviderFeatureRequest
