-- ===== src/Ledger.antt =====
-- crates/aifluxon-runtime/src/tools/executor.rs: tool results and the at-most-once ledger.
-- `poisoned` is the state of the ledger's mutex. An executor is its outcome, and the ledger tells
-- whether it called it.
pub mod Once
use aifluxon.Core.Message.{ToolInvocationId, ContentPart}
use aifluxon.Prelude.{
  if◌then◌else◌, length, Result, ℕ, Bool, true, false, Option, none, some, List, [], ok, err,
}
use aifluxon.Prelude.Map.{Map, lookup, insert}
use Prim.Native.String.{String}

pub record ToolResult (V : Type 0) : Type 0 where
  pub value : V
  pub content : Option (List ContentPart)

pub data ToolExecutionError (E : Type 0) : Type 0 where
  validation : E → ToolExecutionError E
  rejected_duplicate : ToolExecutionError E
  failed : String → ToolExecutionError E

pub record ToolLedger (V : Type 0) : Type 0 where
  pub completed : Map (ToolResult V)
  pub poisoned : Bool

-- What a call of `execute_once` did: its answer, the ledger, and whether the executor ran.
pub record Executed (E V : Type 0) : Type 0 where
  pub answer : Result (ToolExecutionError E) (ToolResult V)
  pub ledger : ToolLedger V
  pub ran : Bool

module _ {V : Type 0} where
  unfoldable pub from_value : V → ToolResult V
  from_value v = record { value = v; content = none }

  unfoldable pub with_content : V → List ContentPart → ToolResult V
  with_content v content = record { value = v; content = some content }

  unfoldable pub empty : ToolLedger V
  empty = record { completed = []; poisoned = false }

  unfoldable pub get : ToolInvocationId → ToolLedger V → Option (ToolResult V)
  get id l = if l.poisoned then none else lookup id l.completed

  unfoldable pub put : ToolInvocationId → ToolResult V → ToolLedger V → ToolLedger V
  put id result l = if l.poisoned then l else record l { completed = insert id result l.completed }

  unfoldable pub execution_count : ToolLedger V → ℕ
  execution_count l = if l.poisoned then 0 else length l.completed

module _ {E V : Type 0} where
  claim :
      ToolInvocationId
      → Result (ToolExecutionError E) (ToolResult V)
      → ToolLedger V
      → Option (ToolResult V)
      → Executed E V
  claim id outcome l (some cached) = record { answer = ok cached; ledger = l; ran = false }
  claim id (err e) l none = record { answer = err e; ledger = l; ran = true }
  claim id (ok result) l none = record {
    answer = ok result;
    ledger = record l { completed = insert id result l.completed };
    ran = true;
  }

  unfoldable pub execute_once :
      ToolInvocationId → Result (ToolExecutionError E) (ToolResult V) → ToolLedger V → Executed E V
  unfolding claim
  execute_once id outcome l =
      if l.poisoned
      then record { answer = err (failed "Tool ledger is unavailable."); ledger = l; ran = false }
      else claim id outcome l (lookup id l.completed)
