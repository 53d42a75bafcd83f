-- ===== src/Coordinator/Execution.antt =====
-- AgentCoordinator::execute_registered_tool, with the host's decision on an operation.
use aifluxon.Operations
use aifluxon.Tools.Registry
use aifluxon.Core.Operation
use aifluxon.Coordinator.Process.{
  Fault, table_failed, operation_failed, budget_exceeded, tool_failed, policy as policy_failed,
  arguments, tool_disappeared, run_cancelled, executes, now, new_id, decides, Process, effect, pure,
  fail, or_fail, call, read, ignore, ◌>>=◌, ◌>>◌, decision,
}
use aifluxon.Coordinator.Messages.{tool_message, refusal}
use aifluxon.Core.Message.{RunId, OperationId, Message, ToolCall}
use aifluxon.Core.Operation.{
  OperationMode, blocking_approval, deferred_commit, PendingOperation, PendingOperationDraft,
  OperationDecision, approve, reject, bind,
}
use aifluxon.Core.Run.{
  RunState, RunEvent, running, awaiting_operation, operation_requested, tool_started, tool_finished,
}
use aifluxon.Core.Tool.{ExecutionAuthority, ToolValidationError, is_argument_validation, message}
use aifluxon.Json.{Json}
use aifluxon.Ledger.{
  ToolResult, ToolExecutionError, from_value, validation, rejected_duplicate, failed,
}
use aifluxon.Operations.Command.{registers, finishes_approval, finishes_commit}
use aifluxon.Runs.History.{sets_state, emits, spends_tool, records_tool, operates}
use aifluxon.Runs.Spending.{consume_tool_invocation, cached_tool_execution, record_tool_execution}
use aifluxon.Runs.Table.{set_state, emit}
use aifluxon.Tools.Policy.{
  ResolvedResourceFacts, ToolPolicy, ToolDecision, allow, deny, require_approval,
}
use aifluxon.Tools.Registry.{ToolRegistry, RegisteredTool, prepare}
use aifluxon.Tools.Validation.{SchemaValidator, ToolInvocation, validation_error_value}
use aifluxon.Prelude.{ℕ, Option, none, some, String, Result, ok, err, map_ok, if◌then◌else◌, ok_or}
use aifluxon.Operations.{register, resolve, finish_blocking_approval, finish_commit}
use aifluxon.Core.Tool

-- The text of the two errors of an execution.
unfoldable pub error_text : Fault → String
unfolding Tool.message
error_text (tool_failed (validation e)) = Tool.message e
error_text (tool_failed rejected_duplicate) =
    "Duplicate tool invocation was rejected because the original side effect already ran."
error_text (tool_failed (failed message)) = message
error_text _ = "Run was cancelled."

-- What the processes of one run share.
pub record Session (V : Type 0) : Type 0 where
  pub run_id : RunId
  pub tools : ToolRegistry V
  pub validator : SchemaValidator V
  pub policy : ToolPolicy V
  pub authority : ExecutionAuthority

-- The operation that was approved for the call.
abbrev pub Approved : Type 0
Approved = Option (OperationId × OperationMode)

module _ {V : Type 0} where
  unfoldable pub emit_event : RunId → RunEvent V → Process V ℕ
  unfolding call
  emit_event id event = call table_failed (emits id event) (λ t. (emit id event t).0)

  unfoldable pub move_to : RunId → RunState → Process V ℕ
  unfolding call
  move_to id state = call table_failed (sets_state id state) (λ t. (set_state id state t).0)

  unfoldable pub finish_host_operation :
      RunId → OperationId → OperationMode → Result String (Unit {0}) → Process V (Unit {0})
  unfolding call
  finish_host_operation id op blocking_approval result =
      call operation_failed (operates (finishes_approval id op result))
        λ t. map_ok (λ _. tt) (Operations.finish_blocking_approval id op result t.operations)
  finish_host_operation id op deferred_commit result =
      call operation_failed (operates (finishes_commit id op result))
        λ t. map_ok (λ _. tt) (Operations.finish_commit id op result t.operations)

  unfoldable pub settle : RunId → Approved → Result String (Unit {0}) → Process V (Unit {0})
  unfolding finish_host_operation
  settle id none result = pure tt
  settle id (some (op, mode)) result = finish_host_operation id op mode result

  unfoldable pub spend_tool : RunId → Process V (Unit {0})
  unfolding call
  spend_tool id =
      effect now
        λ at. call budget_exceeded (spends_tool at id) (λ t. (consume_tool_invocation at id t).0)

  -- The three calls before the wait.
  unfoldable pub request_operation : RunId → PendingOperation V → Process V (Unit {0})
  unfolding call move_to emit_event
  request_operation id op = effect now λ at. do
    call operation_failed (operates (registers at op))
        λ t. map_ok (λ _. tt) (Operations.register at op t.operations)
    move_to id awaiting_operation
    emit_event id (operation_requested op)
    pure tt

module _ {V : Type 0} (json : Json V) (s : Session V) where
  unfoldable pub finish_argument_validation :
      ToolCall V → ToolValidationError → Process V (Message V)
  unfolding emit_event validation_error_value from_value tool_message
  finish_argument_validation c error = do
    let result = from_value (validation_error_value json error)
    emit_event s.run_id (tool_started c.id c.name c.arguments)
    emit_event s.run_id (tool_finished c.id c.name result.value)
    pure (tool_message json c result)

  -- The results of the select around the executor.
  unfoldable pub finish_execution :
      ToolCall V
      → Approved
      → Option (Result (ToolExecutionError ToolValidationError) (ToolResult V))
      → Process V (Message V)
  unfolding settle ignore error_text call emit_event tool_message
  finish_execution c approved none = do
    ignore (settle s.run_id approved (err (error_text run_cancelled)))
    fail run_cancelled
  finish_execution c approved (some (err e)) = do
    ignore (settle s.run_id approved (err (error_text (tool_failed e))))
    fail (tool_failed e)
  finish_execution c approved (some (ok result)) = do
    settle s.run_id approved (ok tt)
    call table_failed (records_tool s.run_id c.id result)
        λ t. (record_tool_execution s.run_id c.id result t).0
    emit_event s.run_id (tool_finished c.id c.name result.value)
    pure (tool_message json c result)

  unfoldable pub run_executor : ToolCall V → ToolInvocation V → ℕ → Approved → Process V (Message V)
  unfolding emit_event finish_execution
  run_executor c invocation executor approved = do
    emit_event s.run_id (tool_started c.id c.name c.arguments)
    effect (executes s.run_id executor invocation) (finish_execution c approved)

  unfoldable pub after_decision :
      ToolCall V
      → ToolInvocation V
      → ℕ
      → OperationId
      → OperationMode
      → OperationDecision V
      → Process V (Message V)
  unfolding move_to run_executor tool_message refusal
  after_decision c invocation executor op mode (approve payload) = do
    move_to s.run_id running
    run_executor c invocation executor (some (op, mode))
  after_decision c invocation executor op mode (reject reason) = do
    move_to s.run_id running
    pure (
        tool_message json c
          (refusal json (elim reason [ none ↦ "Operation rejected." | some text ↦ text ])))

  unfoldable pub ask_host :
      ToolCall V → ToolInvocation V → ℕ → PendingOperationDraft V → Process V (Message V)
  unfolding Operation.bind request_operation after_decision
  ask_host c invocation executor draft = effect new_id λ op. do
    request_operation s.run_id (Operation.bind draft op s.run_id)
    decision ← effect (decides s.run_id draft.mode op) (or_fail operation_failed)
    after_decision c invocation executor op draft.mode decision

  unfoldable pub follow : ToolCall V → ToolInvocation V → ℕ → ToolDecision V → Process V (Message V)
  unfolding run_executor ask_host tool_message refusal
  follow c invocation executor allow = run_executor c invocation executor none
  follow c invocation executor (deny reason) = pure (tool_message json c (refusal json reason))
  follow c invocation executor (require_approval draft) = ask_host c invocation executor draft

  -- The input of the policy.
  unfoldable pub judge :
      ToolCall V
      → ToolInvocation V
      → ℕ
      → RegisteredTool V
      → ResolvedResourceFacts
      → Process V (Message V)
  unfolding follow
  judge c invocation executor registered facts = follow c invocation executor (
      s.policy.evaluate (record {
        descriptor = registered.descriptor;
        invocation = invocation;
        facts = facts;
        authority = s.authority;
      }))

  unfoldable pub resolve_facts :
      ToolCall V → ToolInvocation V → ℕ → RegisteredTool V → Process V (Message V)
  unfolding judge
  resolve_facts c invocation executor registered =
      or_fail policy_failed (s.policy.resolve_facts registered.descriptor invocation s.authority)
      >>= judge c invocation executor registered

  unfoldable pub decide : ToolCall V → ToolInvocation V → ℕ → Process V (Message V)
  unfolding Registry.resolve resolve_facts
  decide c invocation executor =
      or_fail (λ (x : Fault). x) (ok_or (Registry.resolve c.name s.tools) tool_disappeared)
      >>= resolve_facts c invocation executor

  -- The match on `prepare_invocation`.
  unfoldable pub with_prepared :
      ToolCall V
      → Result (ToolExecutionError ToolValidationError) (ToolInvocation V × ℕ)
      → Process V (Message V)
  unfolding decide is_argument_validation finish_argument_validation
  with_prepared c (ok (invocation, executor)) = decide c invocation executor
  with_prepared c (err (validation e)) =
      if is_argument_validation e
      then finish_argument_validation c e
      else fail (tool_failed (validation e))
  with_prepared c (err e) = fail (tool_failed e)

  unfoldable pub unless_cached : ToolCall V → Option (ToolResult V) → Process V (Message V)
  unfolding tool_message with_prepared Registry.prepare
  unless_cached c (some result) = pure (tool_message json c result)
  unless_cached c none = or_fail arguments (json.to_string c.arguments) >>= λ raw.
      with_prepared c (Registry.prepare json s.validator c.id c.name raw s.tools)

  unfoldable pub execute_registered_tool : ToolCall V → Process V (Message V)
  unfolding spend_tool read unless_cached
  execute_registered_tool c = do
    spend_tool s.run_id
    cached ← read table_failed (cached_tool_execution s.run_id c.id)
    unless_cached c cached
