-- ===== src/Examples/Messages.antt =====
-- A conversation with one tool call, pruned.
use aifluxon.Context.{
  Json, prune_preserving_tool_pairs, element, is_tool_result, is_assistant_tool_call, is_system,
  split_from, split_context_layers, walk_back, skip_results, prune_rest, prune_behind, slice,
  kept_from,
}
use aifluxon.Prelude.{◌≡◌, refl, true, false, some, List, [], ◌∷◌}

data Kind : Type 0 where
  from_system from_user asking answer : Kind

abbrev kinds : Json Kind
kinds = record {
  role = λ m. elim m [
    | from_system ↦ "system"
    | from_user ↦ "user"
    | asking ↦ "assistant"
    | answer ↦ "tool"
  ];
  has_tool_call_id = λ m. elim m [ answer ↦ true | _ ↦ false ];
  tool_call_count = λ m. elim m [ asking ↦ 1 | _ ↦ 0 ];
}

abbrev talk_of_five : List Kind
talk_of_five = from_system ∷ from_user ∷ asking ∷ answer ∷ from_user ∷ []

-- The call stays with its result.
prune_keeps_pair :
    prune_preserving_tool_pairs kinds talk_of_five 3
    ≡ some (from_system ∷ asking ∷ answer ∷ from_user ∷ [])
unfolding prune_preserving_tool_pairs prune_behind split_context_layers is_system is_tool_result
    is_assistant_tool_call prune_rest split_from walk_back skip_results element slice kept_from
prune_keeps_pair = refl
