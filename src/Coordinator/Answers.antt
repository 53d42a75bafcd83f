-- ===== src/Coordinator/Answers.antt =====
-- Every tool call is answered by one message, in the order of the calls.
use aifluxon.Coordinator.Returns.{
  Answers, Results, beside-Results, collect-Answers, Returns, Returns->>=, Returns-then,
  Returns-done, IsAnswer,
}
use aifluxon.Tools.Policy.{
  ToolDecision, allow, deny, require_approval, can_run_tool_calls_in_parallel,
}
use aifluxon.Ledger.{ToolResult, ToolExecutionError, validation, rejected_duplicate, failed}
use aifluxon.Tools.Validation.{ToolInvocation}
use aifluxon.Core.Provider.{ModelTurn}
use aifluxon.Core.Operation.{OperationMode, OperationDecision, approve, reject}
use aifluxon.Coordinator.Loop.{
  run_resolved, resolve_all, run_sequentially, run_in_parallel, run_registered_calls,
}
use aifluxon.Core.Tool.{ToolValidationError, is_argument_validation}
use aifluxon.Coordinator.Execution.{
  resolve_facts, judge, Approved, Session, execute_registered_tool, spend_tool, unless_cached,
  with_prepared, decide, follow, ask_host, after_decision, run_executor, finish_execution,
  finish_argument_validation, settle, emit_event, move_to, request_operation,
}
use aifluxon.Json.{Json}
use aifluxon.Core.Run.{tool_finished}
use aifluxon.Runs.Spending.{cached_tool_execution, record_tool_execution}
use aifluxon.Tools.Registry.{RegisteredTool, prepare}
use aifluxon.Coordinator.Process.{
  tool_disappeared, table_failed, pure, Fault, Event, done, play, collect, or_fail,
  operation_failed, ignore, join_all, ◌>>◌,
}
use aifluxon.Core.Message.{Message, ToolCall, OperationId}
use aifluxon.Runs.Table.{RunTable}
use aifluxon.Prelude.{
  ◌≡◌, inl, inr, Option, none, some, List, [], ◌∷◌, Result, ok, err, Bool-cases, ℕ, refl, map,
  ok_or,
}
use aifluxon.Coordinator.Messages.{tool_message}
use aifluxon.Tools.Registry

module _ {V : Type 0} (json : Json V) (s : Session V) where
  finish_argument_validation-IsAnswer :
      (c : ToolCall V) (e : ToolValidationError)
      → Returns (IsAnswer c) (finish_argument_validation json s c e)
  unfolding finish_argument_validation tool_message
  finish_argument_validation-IsAnswer c e =
      Returns-then (IsAnswer c) (emit_event s.run_id _) _
        λ _. Returns-then (IsAnswer c) (emit_event s.run_id _) _ λ _. (refl, refl)

  finish_execution-IsAnswer :
      (c : ToolCall V) (a : Approved)
      (x : Option (Result (ToolExecutionError ToolValidationError) (ToolResult V)))
      → Returns (IsAnswer c) (finish_execution json s c a x)
  unfolding finish_execution tool_message
  finish_execution-IsAnswer c a none =
      Returns-then (IsAnswer c) (ignore (settle s.run_id a _)) _ λ _. tt
  finish_execution-IsAnswer c a (some (err e)) =
      Returns-then (IsAnswer c) (ignore (settle s.run_id a _)) _ λ _. tt
  finish_execution-IsAnswer c a (some (ok result)) =
      Returns-then (IsAnswer c) (settle s.run_id a (ok tt)) _ λ _ t.
        Returns-then (IsAnswer c)
          (or_fail table_failed (record_tool_execution s.run_id c.id result t).0)
          (λ _.
            emit_event s.run_id (tool_finished c.id c.name result.value)
            >> pure (tool_message json c result))
          λ _.
            Returns-then (IsAnswer c) (emit_event s.run_id (tool_finished c.id c.name result.value))
              (λ _. pure (tool_message json c result)) λ _. (refl, refl)

  run_executor-IsAnswer :
      (c : ToolCall V) (i : ToolInvocation V) (n : ℕ) (a : Approved)
      → Returns (IsAnswer c) (run_executor json s c i n a)
  unfolding run_executor
  run_executor-IsAnswer c i n a =
      Returns-then (IsAnswer c) (emit_event s.run_id _) _ λ _ x. finish_execution-IsAnswer c a x

  after_decision-IsAnswer :
      (c : ToolCall V) (i : ToolInvocation V) (n : ℕ) (op : OperationId) (mode : OperationMode)
      (d : OperationDecision V)
      → Returns (IsAnswer c) (after_decision json s c i n op mode d)
  unfolding after_decision tool_message
  after_decision-IsAnswer c i n op mode (approve payload) =
      Returns-then (IsAnswer c) (move_to s.run_id _) _
        λ _. run_executor-IsAnswer c i n (some (op, mode))
  after_decision-IsAnswer c i n op mode (reject reason) =
      Returns-then (IsAnswer c) (move_to s.run_id _) _ λ _. (refl, refl)

  follow-IsAnswer :
      (c : ToolCall V) (i : ToolInvocation V) (n : ℕ) (d : ToolDecision V)
      → Returns (IsAnswer c) (follow json s c i n d)
  unfolding follow ask_host tool_message
  follow-IsAnswer c i n allow = run_executor-IsAnswer c i n none
  follow-IsAnswer c i n (deny reason) = (refl, refl)
  follow-IsAnswer c i n (require_approval draft) = λ op.
      Returns-then (IsAnswer c) (request_operation s.run_id _) _ λ _ x.
        Returns-then (IsAnswer c) (or_fail operation_failed x) _
          (after_decision-IsAnswer c i n op draft.mode)

  decide-IsAnswer :
      (c : ToolCall V) (i : ToolInvocation V) (n : ℕ) → Returns (IsAnswer c) (decide json s c i n)
  unfolding decide resolve_facts judge
  decide-IsAnswer c i n =
      Returns-then (IsAnswer c)
        (or_fail (λ (x : Fault). x) (ok_or (Registry.resolve c.name s.tools) tool_disappeared))
        (resolve_facts json s c i n)
        λ registered.
          Returns-then (IsAnswer c)
            (or_fail Fault.policy (s.policy.resolve_facts registered.descriptor i s.authority))
            (judge json s c i n registered) λ facts. follow-IsAnswer c i n _

  with_prepared-IsAnswer :
      (c : ToolCall V) (r : Result (ToolExecutionError ToolValidationError) (ToolInvocation V × ℕ))
      → Returns (IsAnswer c) (with_prepared json s c r)
  unfolding with_prepared
  with_prepared-IsAnswer c (ok (i, n)) = decide-IsAnswer c i n
  with_prepared-IsAnswer c (err (validation e)) = elim (Bool-cases (is_argument_validation e)) [
    | inl h ↦ rw (h, with_prepared) (finish_argument_validation-IsAnswer c e)
    | inr h ↦ rw (h, with_prepared) tt
  ]
  with_prepared-IsAnswer c (err rejected_duplicate) = tt
  with_prepared-IsAnswer c (err (failed text)) = tt

  unless_cached-IsAnswer :
      (c : ToolCall V) (cached : Option (ToolResult V))
      → Returns (IsAnswer c) (unless_cached json s c cached)
  unfolding unless_cached tool_message
  unless_cached-IsAnswer c (some result) = (refl, refl)
  unless_cached-IsAnswer c none =
      Returns-then (IsAnswer c) (or_fail Fault.arguments (json.to_string c.arguments))
        (λ raw. with_prepared json s c (Registry.prepare json s.validator c.id c.name raw s.tools))
        λ raw. with_prepared-IsAnswer c _

  execute-IsAnswer : (c : ToolCall V) → Returns (IsAnswer c) (execute_registered_tool json s c)
  unfolding execute_registered_tool
  execute-IsAnswer c = Returns-then (IsAnswer c) (spend_tool s.run_id) _ λ _ t.
      Returns-then (IsAnswer c) (or_fail table_failed (cached_tool_execution s.run_id c.id t))
        (unless_cached json s c) (unless_cached-IsAnswer c)

  run_sequentially-Answers :
      (cs : List (ToolCall V)) → Returns (Answers cs) (run_sequentially json s cs)
  unfolding run_sequentially
  run_sequentially-Answers [] = tt
  run_sequentially-Answers (c ∷ cs) =
      Returns->>= (IsAnswer c) (Answers (c ∷ cs)) (execute_registered_tool json s c) _
        (execute-IsAnswer c)
        λ m h.
          Returns->>= (Answers cs) (Answers (c ∷ cs)) (run_sequentially json s cs) _
            (run_sequentially-Answers cs) λ ms hs. (h, hs)

  join_all-Results :
      (cs : List (ToolCall V))
      → Returns (Results cs) (join_all (map (execute_registered_tool json s) cs))
  unfolding join_all
  join_all-Results [] = tt
  join_all-Results (c ∷ cs) =
      beside-Results c cs (execute_registered_tool json s c)
        (join_all (map (execute_registered_tool json s) cs)) (execute-IsAnswer c)
        (join_all-Results cs)

  run_resolved-Answers :
      (cs : List (ToolCall V)) (resolved : List (RegisteredTool V))
      → Returns (Answers cs) (run_resolved json s cs resolved)
  unfolding run_resolved run_in_parallel
  run_resolved-Answers cs resolved =
      elim (Bool-cases (can_run_tool_calls_in_parallel (map (λ tool. tool.descriptor) resolved))) [
        | inl h ↦
            rw (h, run_resolved)
              (Returns->>= (Results cs) (Answers cs)
                (join_all (map (execute_registered_tool json s) cs))
                (λ rs. or_fail (λ (x : Fault). x) (collect rs)) (join_all-Results cs)
                (collect-Answers cs))
        | inr h ↦ rw (h, run_resolved) (run_sequentially-Answers cs)
      ]

  run_registered_calls-Answers :
      (turn : ModelTurn V) → Returns (Answers turn.tool_calls) (run_registered_calls json s turn)
  unfolding run_registered_calls
  run_registered_calls-Answers turn =
      Returns-then (Answers turn.tool_calls)
        (or_fail (λ (x : Fault). x) (resolve_all json s turn.tool_calls))
        (run_resolved json s turn.tool_calls) (run_resolved-Answers turn.tool_calls)

  -- When the tool calls of a turn are through, in sequence or in parallel and in whatever order the
  -- parallel ones advance, there is one tool message for each call, with the call's id, in the order
  -- of the calls.
  pub calls_answered :
      (turn : ModelTurn V) (events : List (Event V)) (t : RunTable V) (messages : List (Message V))
      → (play events t (run_registered_calls json s turn)).1 ≡ done (ok messages)
      → Answers turn.tool_calls messages
  calls_answered turn events t messages e =
      Returns-done (Answers turn.tool_calls) events t (run_registered_calls json s turn) messages
        (run_registered_calls-Answers turn) e
