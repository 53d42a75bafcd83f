-- ===== src/Tools/Registry.antt =====
-- registry.rs. A poisoned mutex is entered all the same.
use Prim.Native.String.{compare}
use text.Mathlib.Text.{◌==◌, is_le}
use aifluxon.Json.{Json}
use aifluxon.Core.Message.{ToolInvocationId}
use aifluxon.Core.Tool.{ToolDescriptor, ToolValidationError, unknown_tool}
use aifluxon.Tools.Validation.{ToolInvocation, SchemaValidator, prepare_invocation}
use aifluxon.Ledger.{ToolExecutionError, validation}
use aifluxon.Prelude.{
  if◌then◌else◌, is_some, Result, ok_or, guard, ℕ, Bool, not, Option, none, some, List, [], ◌∷◌,
  map, String, ok, ◌>>◌, ◌>>=◌,
}

pub record RegisteredTool (V : Type 0) : Type 0 where
  pub descriptor : ToolDescriptor V
  pub executor : ℕ

pub data ToolRegistryError : Type 0 where
  duplicate_tool_name : String → ToolRegistryError

pub record ToolRegistry (V : Type 0) : Type 0 where
  pub tools : List (String × RegisteredTool V)

-- left.name.cmp(&right.name).
abbrev pub name_leb : String → String → Bool
name_leb s t = is_le (compare s t)

module _ {V : Type 0} where
  unfoldable pub find : String → List (String × RegisteredTool V) → Option (RegisteredTool V)
  find name [] = none
  find name ((there, tool) ∷ more) =
      let rest = find name more in if there == name then some tool else rest

  unfoldable pub register :
      ToolDescriptor V → ℕ → ToolRegistry V → Result ToolRegistryError (ToolRegistry V)
  unfolding find
  register descriptor executor r = do
    guard (not (is_some (find descriptor.name r.tools))) (duplicate_tool_name descriptor.name)
    ok (record {
      tools = (descriptor.name, record { descriptor = descriptor; executor = executor }) ∷ r.tools;
    })

  unfoldable pub resolve : String → ToolRegistry V → Option (RegisteredTool V)
  unfolding find
  resolve name r = find name r.tools

  unfoldable pub contains : String → ToolRegistry V → Bool
  unfolding find
  contains name r = is_some (find name r.tools)

  insert_descriptor : ToolDescriptor V → List (ToolDescriptor V) → List (ToolDescriptor V)
  insert_descriptor d [] = d ∷ []
  insert_descriptor d (e ∷ es) =
      let rest = insert_descriptor d es in if name_leb d.name e.name then d ∷ e ∷ es else e ∷ rest

  sort_descriptors : List (ToolDescriptor V) → List (ToolDescriptor V)
  unfolding insert_descriptor
  sort_descriptors [] = []
  sort_descriptors (d ∷ ds) = insert_descriptor d (sort_descriptors ds)

  unfoldable pub descriptors : ToolRegistry V → List (ToolDescriptor V)
  unfolding sort_descriptors
  descriptors r = sort_descriptors (map (λ (name, tool). tool.descriptor) r.tools)

  unfoldable pub prepare :
      Json V
      → SchemaValidator V
      → ToolInvocationId
      → String
      → String
      → ToolRegistry V
      → Result (ToolExecutionError ToolValidationError) (ToolInvocation V × ℕ)
  unfolding resolve prepare_invocation
  prepare json validator_for id name raw r = do
    tool ← ok_or (resolve name r) (validation unknown_tool)
    invocation ← prepare_invocation json validator_for id tool.descriptor raw
    ok (invocation, tool.executor)
