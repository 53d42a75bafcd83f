-- ===== src/Core/Run.antt =====
-- crates/aifluxon-core/src/run.rs and event.rs: runs, their limits and their events.
use Prim.Native.String.{String}
use aifluxon.Prelude.{ℕ, ◌-◌, ◌^◌, Bool, true, false, ◌&&◌, Option, none, some, List, ◌==◌}
use aifluxon.Core.Message.{RunId, SessionId, ToolInvocationId, Message}
use aifluxon.Core.Operation.{PendingOperation}

abbrev pub u32_max : ℕ
u32_max = 2 ^ 32 - 1

abbrev pub u64_max : ℕ
u64_max = 2 ^ 64 - 1

pub record RunContext : Type 0 where
  pub run_id : RunId
  pub session_id : Option SessionId
  pub parent_run_id : Option RunId

pub record RunLimits : Type 0 where
  pub max_model_rounds : ℕ
  pub max_tool_invocations : ℕ

unfoldable pub unlimited : RunLimits
unlimited = record { max_model_rounds = u32_max; max_tool_invocations = u32_max }

unfoldable pub is_unlimited : RunLimits → Bool
is_unlimited l = l.max_model_rounds == u32_max && l.max_tool_invocations == u32_max

pub data RunState : Type 0 where
  running awaiting_operation completed failed cancelled : RunState

pub data RunEvent (V : Type 0) : Type 0 where
  run_started : RunContext → RunEvent V
  state_changed : RunState → RunEvent V
  model_delta : String → RunEvent V
  reasoning_delta : String → RunEvent V
  tool_started : ToolInvocationId → String → V → RunEvent V
  tool_finished : ToolInvocationId → String → V → RunEvent V
  operation_requested : PendingOperation V → RunEvent V
  usage_updated : V → RunEvent V
  artifact_produced : String → RunEvent V
  completed : List (Message V) → RunEvent V
  failed : String → RunEvent V
  cancelled : RunEvent V

pub record RunEventEnvelope (V : Type 0) : Type 0 where
  pub sequence : ℕ
  pub run_id : RunId
  pub event : RunEvent V

module _ {V : Type 0} where
  -- RunEvent::terminal_state.
  unfoldable pub terminal_state : RunEvent V → Option RunState
  terminal_state (RunEvent.completed _) = some RunState.completed
  terminal_state (RunEvent.failed _) = some RunState.failed
  terminal_state RunEvent.cancelled = some RunState.cancelled
  terminal_state _ = none

  -- matches!(event, RunStarted { .. }).
  unfoldable pub is_run_started : RunEvent V → Bool
  is_run_started (run_started _) = true
  is_run_started _ = false
