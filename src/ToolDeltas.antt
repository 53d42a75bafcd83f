-- ===== src/ToolDeltas.antt =====
-- crates/aifluxon-providers/src/tool_deltas.rs: tool calls out of the deltas of a stream. Two
-- functions of other files are parameters: `merge` is merge_extra_content and `stable` is
-- ToolInvocationId::from_stable_key.
pub mod Assembly
use Prim.Native.String.{String}
use text.Mathlib.Text.{◌==◌}
use aifluxon.Json.{Json}
use aifluxon.Core.Message.{ToolCall, ToolInvocationId}
use aifluxon.Prelude.Strings.{is_blank, is_empty_string}
use aifluxon.Prelude.{
  ℕ, zero, suc, ltb, if◌then◌else◌, is_some, Bool, true, false, not, ◌&&◌, ◌||◌, Option, none, some,
  List, [], ◌∷◌, map, length, ◌<>◌, Result, ok, err,
}
use aifluxon.Prelude.Map.{insert}

pub record PendingToolCall (V : Type 0) : Type 0 where
  pub observed : Bool
  pub id : String
  pub name : String
  pub arguments : String
  pub extra_content : Option V

pub record ToolCallAssembler (V : Type 0) : Type 0 where
  pub calls : List (PendingToolCall V)
  pub metadata_snapshots : Bool
  pub gemini_contract : Bool

-- HashSet::contains on the identifiers that `validate` met.
unfoldable pub is_seen : String → List String → Bool
is_seen id [] = false
is_seen id (other ∷ others) = let rest = is_seen id others in other == id || rest

-- The text that replaces the old one in a snapshot and follows it otherwise.
abbrev pub put : Bool → String → String → String
put whole old new = if whole then new else old <> new

abbrev pub invalid_tool_call : String
invalid_tool_call =
    "PROVIDER_INVALID_TOOL_CALL: Incomplete tool identity or JSON arguments; no tools were dispatched."

module _ {V : Type 0} where
  abbrev pub blank_call : PendingToolCall V
  blank_call = record { observed = false; id = ""; name = ""; arguments = ""; extra_content = none }

  abbrev pub new : ToolCallAssembler V
  new = record { calls = []; metadata_snapshots = false; gemini_contract = false }

  unfoldable pub use_gemini_contract : ToolCallAssembler V → ToolCallAssembler V
  use_gemini_contract a = record a { gemini_contract = true; metadata_snapshots = true }

  unfoldable pub use_metadata_snapshots : ToolCallAssembler V → ToolCallAssembler V
  use_metadata_snapshots a = record a { metadata_snapshots = true }

  -- The calls, with blank ones pushed until there are this many.
  unfoldable pub padded : ℕ → List (PendingToolCall V) → List (PendingToolCall V)
  padded zero calls = calls
  padded (suc n) [] = blank_call ∷ padded n []
  padded (suc n) (call ∷ calls) = call ∷ padded n calls

  -- A change of the call at an index.
  unfoldable pub change_at :
      ℕ
      → (PendingToolCall V → PendingToolCall V)
      → List (PendingToolCall V)
      → List (PendingToolCall V)
  change_at n f [] = []
  change_at zero f (call ∷ calls) = f call ∷ calls
  change_at (suc n) f (call ∷ calls) = call ∷ change_at n f calls

  -- Iterator::position of an identifier, unwrap_or the number of calls.
  unfoldable pub position : String → List (PendingToolCall V) → ℕ
  position id [] = zero
  position id (call ∷ calls) =
      let rest = position id calls in if call.id == id then zero else suc rest

  module _ (json : Json V) where
    -- get(name).and_then(Value::as_str).
    unfoldable pub text_at : String → V → Option String
    text_at name v = elim (json.get name v) [ none ↦ none | some found ↦ json.as_str found ]

    -- get("index").and_then(Value::as_u64).
    unfoldable pub index_at : V → Option ℕ
    index_at v = elim (json.get "index" v) [ none ↦ none | some found ↦ json.as_u64 found ]

    unfoldable pub streamed_tool_call_index : V → ℕ → ℕ → ℕ
    unfolding index_at
    streamed_tool_call_index delta fallback count = elim (index_at delta) [
      | some index ↦ index
      | none ↦ if ltb fallback count then fallback else count
    ]

    -- The index of the call that a delta of Gemini without an index belongs to.
    unfoldable pub native_index : V → ℕ → List (PendingToolCall V) → ℕ
    unfolding text_at position streamed_tool_call_index
    native_index delta fallback calls = elim (text_at "id" delta) [
      | none ↦ streamed_tool_call_index delta fallback (length calls)
      | some id ↦
          if is_empty_string id
          then streamed_tool_call_index delta fallback (length calls)
          else position id calls
    ]

    unfoldable pub delta_index : V → ℕ → ToolCallAssembler V → ℕ
    unfolding native_index streamed_tool_call_index index_at
    delta_index delta fallback a =
        if a.gemini_contract && not (is_some (index_at delta))
        then native_index delta fallback a.calls
        else streamed_tool_call_index delta fallback (length a.calls)

    -- The fields of a call after a delta: the identifier, the name and the arguments.
    unfoldable pub id_after : V → Bool → String → String
    unfolding text_at
    id_after delta whole old = elim (text_at "id" delta) [ none ↦ old | some id ↦ put whole old id ]

    unfoldable pub function_text : String → V → Bool → String → String
    unfolding text_at
    function_text field delta whole old = elim (json.get "function" delta) [
      | none ↦ old
      | some function ↦ elim (text_at field function) [
        | none ↦ old
        | some text ↦ put whole old text
      ]
    ]

    unfoldable pub flat_name : V → Bool → String → String
    unfolding text_at
    flat_name delta snapshot old = elim (text_at "name" delta) [
      | none ↦ old
      | some name ↦ if snapshot then name else if is_empty_string old then old <> name else old
    ]

    unfoldable pub flat_arguments : V → Bool → String → String
    unfolding text_at
    flat_arguments delta snapshot old = elim (text_at "arguments" delta) [
      | none ↦ old
      | some arguments ↦
          if snapshot
          then arguments
          else if is_some (json.get "function" delta)
          then old
          else old <> arguments
    ]

    -- The metadata of a call after a delta.
    unfoldable pub extra_after : (V → V → V) → V → Option V → Option V
    extra_after merge delta old = elim (json.get "extra_content" delta) [
      | none ↦ old
      | some extra ↦
          if json.is_object extra
          then some (merge (elim old [ none ↦ json.object [] | some present ↦ present ]) extra)
          else old
    ]

    -- The call after a delta. `whole` says that the identity comes as snapshots.
    unfoldable pub after_delta :
        (V → V → V) → V → Bool → Bool → PendingToolCall V → PendingToolCall V
    unfolding id_after function_text flat_name flat_arguments extra_after
    after_delta merge delta snapshot whole call = record {
      observed = true;
      id = id_after delta whole call.id;
      name = flat_name delta snapshot (function_text "name" delta whole call.name);
      arguments =
          flat_arguments delta snapshot (function_text "arguments" delta snapshot call.arguments);
      extra_content = extra_after merge delta call.extra_content;
    }

    unfoldable pub apply_chat_delta :
        (V → V → V) → V → ℕ → Bool → ToolCallAssembler V → ToolCallAssembler V
    unfolding delta_index after_delta padded change_at
    apply_chat_delta merge delta fallback snapshot a =
        let index = delta_index delta fallback a in
        record a {
          calls =
              change_at index (after_delta merge delta snapshot (snapshot || a.metadata_snapshots))
                (padded (suc index) a.calls);
        }

    -- serde_json::from_str(...).is_ok_and(is_object).
    unfoldable pub is_object_text : String → Bool
    is_object_text text = elim (json.from_str text) [
      | none ↦ false
      | some arguments ↦ json.is_object arguments
    ]

    -- The loop of `validate`, with the identifiers that it met.
    unfoldable pub are_valid : List String → List (PendingToolCall V) → Bool
    unfolding is_blank is_seen is_object_text
    are_valid ids [] = true
    are_valid ids (call ∷ calls) =
        let unobserved = are_valid ids calls in
        let rest = are_valid (call.id ∷ ids) calls in
        if call.observed
        then not (is_blank call.id || (is_blank call.name || is_seen call.id ids))
          && (is_object_text call.arguments && rest)
        else unobserved

    unfoldable pub validate : ToolCallAssembler V → Result {0, 0} String Unit
    unfolding are_valid
    validate a = if are_valid [] a.calls then ok tt else err invalid_tool_call

    unfoldable pub with_extra_content : V → List (PendingToolCall V) → V
    with_extra_content metadata [] = metadata
    with_extra_content metadata (call ∷ calls) =
        with_extra_content
          (if is_empty_string call.id then metadata else elim call.extra_content [
            | none ↦ metadata
            | some extra ↦ json.insert call.id extra metadata
          ])
          calls

    unfoldable pub extra_content_by_call_id : ToolCallAssembler V → V
    unfolding with_extra_content
    extra_content_by_call_id a = with_extra_content (json.object []) a.calls

    unfoldable pub finished : (String → ToolInvocationId) → PendingToolCall V → ToolCall V
    unfolding is_blank
    finished stable call = record {
      id = stable (if is_blank call.id then call.name <> (":" <> call.arguments) else call.id);
      name = call.name;
      arguments = elim (json.from_str call.arguments) [
        | some arguments ↦ arguments
        | none ↦ json.string call.arguments
      ];
      provider_call_id = if is_blank call.id then none else some call.id;
    }

    unfoldable pub finish : (String → ToolInvocationId) → ToolCallAssembler V → List (ToolCall V)
    unfolding finished
    finish stable a = map (finished stable) a.calls
