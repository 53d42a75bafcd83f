-- ===== src/Core/Operation.antt =====
-- crates/aifluxon-core/src/operation.rs and the effects of tool.rs. Times are numbers.
use Prim.Native.String.{String}
use aifluxon.Prelude.{ℕ, Bool, true, false, Option}
use aifluxon.Core.Message.{RunId, OperationId, ToolInvocationId}

pub data ToolEffect : Type 0 where
  pure_read fs_read fs_write process_spawn process_control network settings_write : ToolEffect
  external_side_effect unknown : ToolEffect

pub data OperationMode : Type 0 where
  blocking_approval deferred_commit : OperationMode

pub record PendingOperation (V : Type 0) : Type 0 where
  pub id : OperationId
  pub run_id : RunId
  pub invocation_id : Option ToolInvocationId
  pub effect : ToolEffect
  pub mode : OperationMode
  pub summary : String
  pub payload : V
  pub deadline : Option ℕ

pub record PendingOperationDraft (V : Type 0) : Type 0 where
  pub invocation_id : Option ToolInvocationId
  pub effect : ToolEffect
  pub mode : OperationMode
  pub summary : String
  pub payload : V
  pub deadline : Option ℕ

pub data OperationDecision (V : Type 0) : Type 0 where
  approve : Option V → OperationDecision V
  reject : Option String → OperationDecision V

pub data OperationState : Type 0 where
  pending approved rejected committing committed cancelled expired : OperationState
  failed : String → OperationState

pub record OperationSnapshot (V : Type 0) : Type 0 where
  pub operation : PendingOperation V
  pub state : OperationState

module _ {V : Type 0} where
  unfoldable pub bind : PendingOperationDraft V → OperationId → RunId → PendingOperation V
  bind draft id run_id = record {
    id = id;
    run_id = run_id;
    invocation_id = draft.invocation_id;
    effect = draft.effect;
    mode = draft.mode;
    summary = draft.summary;
    payload = draft.payload;
    deadline = draft.deadline;
  }

  -- matches!(decision, Approve { .. }).
  unfoldable pub is_approve : OperationDecision V → Bool
  is_approve (approve _) = true
  is_approve (reject _) = false

-- OperationState::is_terminal.
unfoldable pub is_terminal : OperationState → Bool
is_terminal rejected = true
is_terminal committed = true
is_terminal (failed _) = true
is_terminal cancelled = true
is_terminal expired = true
is_terminal _ = false

-- The derived comparisons with one state or mode.
unfoldable pub is_pending : OperationState → Bool
is_pending pending = true
is_pending _ = false

unfoldable pub is_approved : OperationState → Bool
is_approved approved = true
is_approved _ = false

unfoldable pub is_committing : OperationState → Bool
is_committing committing = true
is_committing _ = false

unfoldable pub is_blocking : OperationMode → Bool
is_blocking blocking_approval = true
is_blocking deferred_commit = false
