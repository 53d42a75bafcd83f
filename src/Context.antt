-- ===== src/Context.antt =====
-- crates/aifluxon-runtime/src/context.rs: the layers of a conversation and its pruning. Messages are
-- serde_json values; what the code reads of one is a parameter.
pub mod Walk
pub mod Cutting
pub mod Prune
use Prim.Native.String.{String}
use mathlib.Core.Option
use text.Mathlib.Text.{◌==◌}
use aifluxon.Prelude.{
  ℕ, zero, suc, ltb, leb, if◌then◌else◌, length, ◌-◌, Bool, true, false, ◌&&◌, ◌||◌, Option, none,
  some, List, [], ◌∷◌, ◌++◌, map,
}
use aifluxon.Runs.Table.{start}

-- What is read of a message.
pub record Json (V : Type 0) : Type 0 where
  -- get("role").and_then(as_str).unwrap_or_default().
  pub role : V → String
  -- get("tool_call_id").is_some().
  pub has_tool_call_id : V → Bool
  -- The length of the array under "tool_calls", 0 without one.
  pub tool_call_count : V → ℕ

pub record ContextLayers (V : Type 0) : Type 0 where
  pub stable_prefix : List V
  pub conversation : List V
  pub dynamic : List V

-- rest[start], which panics out of range.
unfoldable pub element : {V : Type 0} → ℕ → List V → Option V
element n [] = none
element zero (m ∷ ms) = some m
element (suc n) (m ∷ ms) = element n ms

-- rest[start..], which panics where start is above the length.
unfoldable pub slice : {V : Type 0} → ℕ → List V → Option (List V)
slice zero ms = some ms
slice (suc n) [] = none
slice (suc n) (m ∷ ms) = slice n ms

-- max_messages.saturating_sub(prefix_len).max(1).
abbrev keep_rest : ℕ → ℕ → ℕ
keep_rest max_messages prefix_len =
    if ltb (max_messages - prefix_len) 1 then 1 else max_messages - prefix_len

module _ {V : Type 0} (json : Json V) where
  unfoldable pub is_tool_result : V → Bool
  is_tool_result message = json.role message == "tool" || json.has_tool_call_id message

  unfoldable pub is_assistant_tool_call : V → Bool
  is_assistant_tool_call message =
      json.role message == "assistant" && ltb 0 (json.tool_call_count message)

  unfoldable pub is_system : V → Bool
  is_system message = json.role message == "system"

  -- One round of the loop behind the stable prefix.
  unfoldable pub add_layer : V → ContextLayers V → ContextLayers V
  unfolding is_tool_result
  add_layer message l =
      if is_tool_result message
      then record l { dynamic = l.dynamic ++ message ∷ [] }
      else record l { conversation = l.conversation ++ message ∷ [] }

  -- The loop, with `in_prefix`.
  unfoldable pub split_from : Bool → List V → ContextLayers V → ContextLayers V
  unfolding add_layer
  split_from in_prefix [] l = l
  split_from in_prefix (message ∷ messages) l = elim (in_prefix && is_system message) [
    | true ↦
        split_from in_prefix messages (record l { stable_prefix = l.stable_prefix ++ message ∷ [] })
    | false ↦ split_from false messages (add_layer message l)
  ]

  unfoldable pub split_context_layers : List V → ContextLayers V
  unfolding split_from
  split_context_layers messages =
      split_from true messages (record { stable_prefix = []; conversation = []; dynamic = [] })

  -- The first `while` loop. `none` is a panic.
  unfoldable pub walk_back : List V → ℕ → Option ℕ
  unfolding element
  walk_back rest zero = some zero
  walk_back rest (suc n) =
      let again = walk_back rest n in
      elim (element (suc n) rest) [
        | none ↦ none
        | some message ↦ elim (is_tool_result message) [
          | false ↦ some (suc n)
          | true ↦ elim (element n rest) [
            | none ↦ none
            | some before ↦ if is_assistant_tool_call before then some n else again
          ]
        ]
      ]

  -- The second `if` with its loop, on rest[start..].
  unfoldable pub skip_results : List V → List V
  skip_results [] = []
  skip_results (m ∷ ms) = let later = skip_results ms in if is_tool_result m then later else m ∷ ms

  -- `kept` behind the loops, with rest[start..].
  unfoldable pub kept_from : List V → List V → Option ℕ → Option (List V)
  unfolding skip_results slice
  kept_from prefix rest none = none
  kept_from prefix rest (some start) =
      Option.map (λ window. prefix ++ skip_results window) (slice start rest)

  -- The part behind both early returns.
  unfoldable pub prune_rest : List V → List V → ℕ → Option (List V)
  unfolding walk_back kept_from
  prune_rest prefix rest max_messages =
      kept_from prefix rest (walk_back rest (length rest - keep_rest max_messages (length prefix)))

  -- The part behind the first early return, with `rest`.
  unfoldable pub prune_behind : List V → List V → ℕ → Option (List V) → Option (List V)
  unfolding prune_rest
  prune_behind messages prefix max_messages none = none
  prune_behind messages prefix max_messages (some rest) =
      if leb (length rest) (max_messages - length prefix)
      then some messages
      else prune_rest prefix rest max_messages

  -- `none` is a panic.
  unfoldable pub prune_preserving_tool_pairs : List V → ℕ → Option (List V)
  prune_preserving_tool_pairs messages max_messages =
      if leb (length messages) max_messages
      then some messages
      else prune_behind messages (split_context_layers messages).stable_prefix max_messages
          (slice (length (split_context_layers messages).stable_prefix) messages)
