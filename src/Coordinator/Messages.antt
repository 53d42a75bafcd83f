-- ===== src/Coordinator/Messages.antt =====
-- The messages that the loop adds: the helpers at the end of coordinator.rs, and apply_continuation
-- of continuation.rs.
use aifluxon.Json.{Json}
use aifluxon.Core.Message.{ContentPart, Message, ToolCall, text, assistant, tool, system}
use aifluxon.Core.Provider.{
  ContinuationReason, incomplete, summary_only, provider_requested, ModelTurn, ModelTurnRequest,
}
use aifluxon.Ledger.{ToolResult, from_value}
use aifluxon.Prelude.Strings.{trim, is_empty_string}
use aifluxon.Prelude.{
  ltb, if◌then◌else◌, Bool, false, not, ◌||◌, Option, none, some, List, [], ◌∷◌, ◌++◌, String, ◌<>◌,
}
use aifluxon.Core.Tool.{message}

pub record RunExecutionResult (V : Type 0) : Type 0 where
  pub turn : ModelTurn V
  pub messages : List (Message V)

-- The text as content, unless it is empty.
unfoldable pub text_content : String → List ContentPart
text_content s = if is_empty_string s then [] else text s ∷ []

-- A content without parts counts as none.
unfoldable pub given_content : Option (List ContentPart) → String → List ContentPart
given_content none shown = text shown ∷ []
given_content (some []) shown = text shown ∷ []
given_content (some (part ∷ parts)) shown = part ∷ parts

module _ {V : Type 0} where
  unfoldable pub push : Message V → ModelTurnRequest V → ModelTurnRequest V
  push message request = record request { messages = request.messages ++ message ∷ [] }

module _ {V : Type 0} (json : Json V) where
  unfoldable pub assistant_message : ModelTurn V → Message V
  unfolding text_content
  assistant_message turn = record {
    role = assistant;
    content = text_content turn.text;
    tool_calls = turn.tool_calls;
    tool_call_id = none;
    provider_state = if json.is_null turn.opaque then none else some turn.opaque;
  }

  -- json!({ "call_id": id }) for an id that is not blank.
  unfoldable pub call_state : Option String → Option V
  unfolding trim
  call_state none = none
  call_state (some id) =
      if is_empty_string (trim id)
      then none
      else some (json.object (("call_id", json.string (trim id)) ∷ []))

  unfoldable pub tool_message : ToolCall V → ToolResult V → Message V
  unfolding given_content call_state
  tool_message c result = record {
    role = tool;
    content = given_content result.content (json.to_text result.value);
    tool_calls = [];
    tool_call_id = some c.id;
    provider_state = call_state c.provider_call_id;
  }

  -- json!({ "ok": false, "error": reason }).
  unfoldable pub refusal : String → ToolResult V
  unfolding from_value
  refusal reason =
      from_value (json.object (("ok", json.bool false) ∷ ("error", json.string reason) ∷ []))

  unfoldable pub complete_without_tools : List (Message V) → ModelTurn V → RunExecutionResult V
  unfolding assistant_message
  complete_without_tools messages turn = record {
    turn = turn;
    messages =
        if not (is_empty_string turn.text)
          || (not (is_empty_string turn.reasoning) || not (json.is_null turn.opaque))
        then messages ++ assistant_message turn ∷ []
        else messages;
  }

  -- The member as a string, or the empty string.
  text_member : String → V → String
  text_member name value = elim (json.get name value) [
    | none ↦ ""
    | some member ↦ elim (json.as_str member) [ none ↦ "" | some s ↦ s ]
  ]

  unfoldable pub continuation_prompt_text : ContinuationReason → ModelTurn V → String
  unfolding text_member trim
  continuation_prompt_text incomplete turn =
      "The previous assistant message promised or prepared to inspect, search, read, run, verify, or edit, but it did not include a tool call. Continue the same user request now by calling the necessary tool or tools. Do not restate intent and do not give a final answer until the required tool work is actually complete."
  continuation_prompt_text summary_only turn =
      "The previous response contained only an internal summary, not a user-facing answer. Treat the following summary as hidden context and continue the same user request by giving a concise final answer. Do not include internal recap sections in the user-visible answer.\n\nHidden summary:\n"
      <> trim (text_member "hidden_context" turn.opaque)
  continuation_prompt_text provider_requested turn =
      "Continue the same turn; the previous response was not terminal."

  unfoldable pub continuation_prompt : ContinuationReason → ModelTurn V → Message V
  unfolding continuation_prompt_text
  continuation_prompt reason turn = record {
    role = system;
    content = text (continuation_prompt_text reason turn) ∷ [];
    tool_calls = [];
    tool_call_id = none;
    provider_state = none;
  }

  has_items : Option V → Bool
  has_items none = false
  has_items (some items) = elim (json.array_length items) [ none ↦ false | some n ↦ ltb 0 n ]

  unfoldable pub has_replay_items : ModelTurn V → Bool
  unfolding has_items
  has_replay_items turn = elim (json.get "response_items" turn.opaque) [
    | some items ↦ has_items (some items)
    | none ↦ has_items (json.get "responses_replay_items" turn.opaque)
  ]

  -- The messages that a continuation adds.
  unfoldable pub continuation_messages : ContinuationReason → ModelTurn V → List (Message V)
  unfolding assistant_message continuation_prompt has_replay_items trim
  continuation_messages incomplete turn =
      assistant_message turn ∷ continuation_prompt incomplete turn ∷ []
  continuation_messages summary_only turn = continuation_prompt summary_only turn ∷ []
  continuation_messages provider_requested turn =
      if not (is_empty_string (trim turn.text)) || has_replay_items turn
      then assistant_message turn ∷ []
      else continuation_prompt provider_requested turn ∷ []

  unfoldable pub apply_continuation :
      ModelTurnRequest V → ModelTurn V → ContinuationReason → ModelTurnRequest V
  unfolding continuation_messages
  apply_continuation request turn reason = record request {
    opaque_state = some turn.opaque;
    messages = request.messages ++ continuation_messages reason turn;
  }
