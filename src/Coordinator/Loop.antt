-- ===== src/Coordinator/Loop.antt =====
-- AgentCoordinator's two loops. The fuel counts the rounds that may still begin; a loop without fuel
-- ends with `none`.
use aifluxon.Tools.Registry
use mathlib.Core.Option
use aifluxon.Coordinator.Process.{
  Fault, table_failed, budget_exceeded, provider, unregistered, run_cancelled, continuation_limit,
  Process, effect, asks, reads, now, pure, fail, or_fail, call, read, is_cancelled, join_all,
  collect, ◌>>=◌, ◌>>◌, issues,
}
use aifluxon.Coordinator.Execution.{Session, spend_tool, execute_registered_tool}
use aifluxon.Coordinator.Messages.{
  RunExecutionResult, assistant_message, tool_message, complete_without_tools, apply_continuation,
}
use aifluxon.Continuation.{ContinuationCounts, for_limits, try_begin, reset_incomplete}
use aifluxon.Core.Message.{RunId, ToolInvocationId, Message, ToolCall}
use aifluxon.Core.Provider.{ModelTurn, ModelTurnRequest, continuation_reason, is_tool_calls}
use aifluxon.Core.Run.{RunLimits}
use aifluxon.Json.{Json}
use aifluxon.Ledger.{from_value}
use aifluxon.Runs.Errors.{table_message}
use aifluxon.Runs.History.{spends_round, executes}
use aifluxon.Runs.Record.{RunTableError}
use aifluxon.Runs.Spending.{consume_model_round, execute_tool_once}
use aifluxon.Runs.Table.{RunTable, get_record}
use aifluxon.Tools.Policy.{can_run_tool_calls_in_parallel}
use aifluxon.Tools.Registry.{RegisteredTool}
use aifluxon.Prelude.{
  if◌then◌else◌, ℕ, zero, suc, Bool, true, false, not, ◌||◌, Option, none, some, List, [], ◌∷◌,
  ◌++◌, map, Result, ok, err, String, map_ok,
}
use aifluxon.Core.Tool.{message}
use aifluxon.Operations.{cancellable}
use aifluxon.Operations.Lifecycle.{next}
use aifluxon.Operations.Snapshots.{of_run}
use aifluxon.Continuation

-- What a round leaves to do.
pub data Next (V : Type 0) : Type 0 where
  ends : RunExecutionResult V → Next V
  goes_on : ContinuationCounts → ModelTurnRequest V → Next V

module _ {V : Type 0} where
  -- RunTable::limits.
  unfoldable pub limits : RunId → RunTable V → Result RunTableError RunLimits
  unfolding get_record
  limits id t = map_ok (λ r. r.limits) (get_record id t)

  -- RunTable::cancellation_token, without the token: its flag is `is_cancelled`.
  unfoldable pub cancellation_token : RunId → RunTable V → Result RunTableError (Unit {0})
  unfolding get_record
  cancellation_token id t = map_ok (λ r. tt) (get_record id t)

  unfoldable pub start_counts : RunId → Process V ContinuationCounts
  unfolding read limits Continuation.for_limits
  start_counts id = do of_run ← read table_failed (limits id); pure (Continuation.for_limits of_run)

  unfoldable pub spend_round : RunId → Process V (Unit {0})
  unfolding call
  spend_round id =
      effect now
        λ at. call budget_exceeded (spends_round at id) (λ t. (consume_model_round at id t).0)

  is_empty_list : List (ToolCall V) → Bool
  is_empty_list [] = true
  is_empty_list (c ∷ cs) = false

  -- turn.tool_calls.is_empty() || turn.terminal != ProviderTerminal::ToolCalls.
  unfoldable pub is_answer : ModelTurn V → Bool
  unfolding is_empty_list is_tool_calls
  is_answer turn = is_empty_list turn.tool_calls || not (is_tool_calls turn.terminal)

  -- The first branch of a select is the cancellation of the run.
  unfoldable pub received : Option (Result String (ModelTurn V)) → Process V (ModelTurn V)
  received none = fail run_cancelled
  received (some x) = or_fail provider x

  unfoldable pub check_cancelled : RunId → Process V (Unit {0})
  unfolding is_cancelled
  check_cancelled id = effect reads (λ t. if is_cancelled id t then fail run_cancelled else pure tt)

  unfoldable pub add_messages : List (Message V) → ModelTurnRequest V → ModelTurnRequest V
  add_messages messages request = record request { messages = request.messages ++ messages }

  -- The end of a round, and the rounds of a loop, each behind `before`.
  unfoldable pub resume :
      (ContinuationCounts → ModelTurnRequest V → Process V (Option (RunExecutionResult V)))
      → Next V
      → Process V (Option (RunExecutionResult V))
  resume more (ends result) = pure (some result)
  resume more (goes_on counts request) = more counts request

  unfoldable pub rounds :
      ℕ
      → Process V (Unit {0})
      → (ContinuationCounts → ModelTurnRequest V → Process V (Next V))
      → ContinuationCounts
      → ModelTurnRequest V
      → Process V (Option (RunExecutionResult V))
  unfolding resume
  rounds zero before body counts request = pure none
  rounds (suc fuel) before body counts request = do
    before
    next ← body counts request
    resume (rounds fuel before body) next

module _ {V : Type 0} (json : Json V) where
  -- The part of a round behind the model's turn; `tools` answers the tool calls.
  unfoldable pub after_turn :
      (ModelTurn V → Process V (List (Message V)))
      → ContinuationCounts
      → ModelTurnRequest V
      → ModelTurn V
      → Process V (Next V)
  unfolding continuation_reason Continuation.try_begin Continuation.reset_incomplete
      apply_continuation is_answer assistant_message complete_without_tools add_messages
  after_turn tools counts request turn = elim (continuation_reason turn.terminal) [
    | some reason ↦
        if (Continuation.try_begin reason counts).0
        then pure (
            goes_on (Continuation.try_begin reason counts).1
              (apply_continuation json request turn reason))
        else fail continuation_limit
    | none ↦
        if is_answer turn
        then pure (ends (complete_without_tools json request.messages turn))
        else (tools turn >>= λ results. pure (
            goes_on (Continuation.reset_incomplete counts) (
              add_messages (assistant_message json turn ∷ results)
                (record request { opaque_state = some turn.opaque }))))
  ]

  -- A round of a loop.
  unfoldable pub round :
      RunId
      → Option RunId
      → (ModelTurn V → Process V (List (Message V)))
      → ContinuationCounts
      → ModelTurnRequest V
      → Process V (Next V)
  unfolding spend_round received after_turn
  round id cancellable tools counts request = do
    spend_round id
    turn ← effect (asks cancellable request) received
    after_turn tools counts request turn

  -- The value, or the error as a value.
  unfoldable pub value_of : Result RunTableError V → V
  unfolding table_message
  value_of (ok v) = v
  value_of (err e) =
      json.object (("ok", json.bool false) ∷ ("error", json.string (table_message e)) ∷ [])

  -- The calls of `execute`, one after the other. `stable` is from_stable_key on the hyphenated id.
  unfoldable pub run_calls :
      RunId
      → (ToolInvocationId → ToolInvocationId)
      → (ToolCall V → V)
      → List (ToolCall V)
      → Process V (List (Message V))
  unfolding spend_tool value_of tool_message from_value
  run_calls id stable execute [] = pure []
  run_calls id stable execute (c ∷ cs) = do
    spend_tool id
    value ←
        effect (issues (executes id (stable c.id) (execute c)))
          (λ t. pure (value_of (execute_tool_once id (stable c.id) (execute c) t).0))
    rest ← run_calls id stable execute cs
    pure (tool_message json c (from_value value) ∷ rest)

  unfoldable pub run_model_tool_loop :
      ℕ
      → RunId
      → (ToolInvocationId → ToolInvocationId)
      → (ToolCall V → V)
      → ModelTurnRequest V
      → Process V (Option (ModelTurn V))
  unfolding start_counts rounds round run_calls
  run_model_tool_loop fuel id stable execute request = do
    counts ← start_counts id
    result ←
        rounds fuel (pure tt) (round id none (λ turn. run_calls id stable execute turn.tool_calls))
          counts request
    pure (Option.map (λ r. r.turn) result)

module _ {V : Type 0} (json : Json V) (s : Session V) where
  unfoldable pub resolve_all : List (ToolCall V) → Result Fault (List (RegisteredTool V))
  unfolding Registry.resolve
  resolve_all [] = ok []
  resolve_all (c ∷ cs) = elim (Registry.resolve c.name s.tools) [
    | none ↦ err (unregistered c.name)
    | some tool ↦ map_ok (λ rest. tool ∷ rest) (resolve_all cs)
  ]

  unfoldable pub run_sequentially : List (ToolCall V) → Process V (List (Message V))
  unfolding execute_registered_tool
  run_sequentially [] = pure []
  run_sequentially (c ∷ cs) = do
    message ← execute_registered_tool json s c
    rest ← run_sequentially cs
    pure (message ∷ rest)

  unfoldable pub run_in_parallel : List (ToolCall V) → Process V (List (Message V))
  unfolding join_all execute_registered_tool collect
  run_in_parallel cs = do
    results ← join_all (map (execute_registered_tool json s) cs)
    or_fail (λ (x : Fault). x) (collect results)

  unfoldable pub run_resolved :
      List (ToolCall V) → List (RegisteredTool V) → Process V (List (Message V))
  unfolding can_run_tool_calls_in_parallel run_sequentially run_in_parallel
  run_resolved calls resolved =
      if can_run_tool_calls_in_parallel (map (λ tool. tool.descriptor) resolved)
      then run_in_parallel calls
      else run_sequentially calls

  unfoldable pub run_registered_calls : ModelTurn V → Process V (List (Message V))
  unfolding resolve_all run_resolved
  run_registered_calls turn = do
    resolved ← or_fail (λ (x : Fault). x) (resolve_all turn.tool_calls)
    run_resolved turn.tool_calls resolved

  unfoldable pub run_registered_model_tool_loop :
      ℕ → ModelTurnRequest V → Process V (Option (RunExecutionResult V))
  unfolding read cancellation_token start_counts check_cancelled rounds round run_registered_calls
  run_registered_model_tool_loop fuel request = do
    read table_failed (cancellation_token s.run_id)
    counts ← start_counts s.run_id
    rounds fuel (check_cancelled s.run_id)
        (round json s.run_id (some s.run_id) run_registered_calls) counts request
