-- ===== src/Coordinator/Permission.antt =====
-- No executor runs before the policy allowed the call or the host approved its operation.
use aifluxon.Coordinator.Permits.{
  Unless, Permits, Permits-then, or_fail-Permits, or_fail-then-Permits, play-Permits,
  settle-Permits, ignore-Permits, emit_event-Permits, move_to-Permits, spend_tool-Permits,
  request_operation-Permits, was_approved,
}
use aifluxon.Tools.Registry.{RegisteredTool, prepare}
use aifluxon.Tools.Policy.{ToolDecision, allow, deny, require_approval, ResolvedResourceFacts}
use aifluxon.Runs.Spending.{record_tool_execution, cached_tool_execution}
use aifluxon.Runs.History.{records_tool}
use aifluxon.Coordinator.Messages.{tool_message, refusal}
use aifluxon.Json.{Json}
use aifluxon.Coordinator.Process.{
  decides, executes, Process, Event, effect, Fault, ◌>>=◌, or_fail, call, play, ignore,
  operation_failed, run_cancelled, tool_failed, table_failed, tool_disappeared, fail, pure, read,
  ◌>>◌,
}
use aifluxon.Core.Run.{running, tool_started, tool_finished}
use aifluxon.Core.Operation.{
  PendingOperation, blocking_approval, deferred_commit, approve, reject, OperationDecision,
  PendingOperationDraft, OperationMode, bind,
}
use aifluxon.Core.Tool.{ToolValidationError, is_argument_validation}
use aifluxon.Ledger.{
  ToolResult, ToolExecutionError, validation, rejected_duplicate, failed, from_value,
}
use aifluxon.Operations.{OperationError}
use aifluxon.Runs.Table.{RunTable}
use aifluxon.Tools.Validation.{ToolInvocation, validation_error_value}
use aifluxon.Prelude.{
  true, Option, List, Result, ok, err, ◌≡◌, refl, subst, none, some, ok_or, Bool-cases, inl, inr,
  ◌⊎◌, ℕ, String,
}
use aifluxon.Coordinator.Execution.{
  settle, emit_event, move_to, spend_tool, request_operation, Approved, Session,
  execute_registered_tool, unless_cached, with_prepared, decide, resolve_facts, judge, follow,
  ask_host, after_decision, run_executor, finish_execution, finish_argument_validation, error_text,
}
use aifluxon.Core.Message.{RunId, Message, ToolCall, OperationId}
use aifluxon.Core.Operation
use aifluxon.Tools.Registry

ok_or-eq-ok : {A E : Type 0} (x : Option A) (e : E) {a : A} → ok_or x e ≡ ok a → x ≡ some a
ok_or-eq-ok (some b) e h = cc
ok_or-eq-ok none e h = cc

module _ {V : Type 0} (json : Json V) (s : Session V) where
  -- The call was prepared as this invocation, the facts are those that the policy resolved for the
  -- tool of the call's name, and on these, with the authority of the session, the policy allows it.
  pub record Allowed (c : ToolCall V) (i : ToolInvocation V) : Type 0 where
    pub raw : String
    pub executor : ℕ
    pub registered : RegisteredTool V
    pub facts : ResolvedResourceFacts
    pub printed : json.to_string c.arguments ≡ ok raw
    pub prepared : Registry.prepare json s.validator c.id c.name raw s.tools ≡ ok (i, executor)
    pub found : Registry.resolve c.name s.tools ≡ some registered
    pub stated : s.policy.resolve_facts registered.descriptor i s.authority ≡ ok facts
    pub allowed :
        s.policy.evaluate (record {
          descriptor = registered.descriptor;
          invocation = i;
          facts = facts;
          authority = s.authority;
        })
        ≡ allow

  finish_execution-Permits :
      (P : ToolInvocation V → Type 0) (c : ToolCall V) (a : Approved)
      (x : Option (Result (ToolExecutionError ToolValidationError) (ToolResult V)))
      → Permits P (finish_execution json s c a x)
  unfolding finish_execution
  finish_execution-Permits P c a none =
      Permits-then P (ignore (settle s.run_id a (err (error_text run_cancelled))))
        (λ _. fail run_cancelled)
        (ignore-Permits P (settle s.run_id a (err (error_text run_cancelled)))
          (settle-Permits P s.run_id a _))
        λ _. tt
  finish_execution-Permits P c a (some (err e)) =
      Permits-then P (ignore (settle s.run_id a (err (error_text (tool_failed e)))))
        (λ _. fail (tool_failed e))
        (ignore-Permits P (settle s.run_id a (err (error_text (tool_failed e))))
          (settle-Permits P s.run_id a _))
        λ _. tt
  finish_execution-Permits P c a (some (ok result)) =
      Permits-then P (settle s.run_id a (ok tt))
        (λ _.
          call table_failed (records_tool s.run_id c.id result)
            (λ t. (record_tool_execution s.run_id c.id result t).0)
          >> (emit_event s.run_id (tool_finished c.id c.name result.value)
              >> pure (tool_message json c result)))
        (settle-Permits P s.run_id a (ok tt))
        λ _ t.
          Permits-then P (or_fail table_failed (record_tool_execution s.run_id c.id result t).0)
            (λ _.
              emit_event s.run_id (tool_finished c.id c.name result.value)
              >> pure (tool_message json c result))
            (or_fail-Permits P table_failed _)
            λ _.
              Permits-then P (emit_event s.run_id (tool_finished c.id c.name result.value))
                (λ _. pure (tool_message json c result)) (emit_event-Permits P s.run_id _) λ _. tt

  run_executor-Permits :
      (P : ToolInvocation V → Type 0) (c : ToolCall V) (i : ToolInvocation V) (n : ℕ) (a : Approved)
      → P i
      → Permits P (run_executor json s c i n a)
  unfolding run_executor
  run_executor-Permits P c i n a h =
      Permits-then P (emit_event s.run_id (tool_started c.id c.name c.arguments))
        (λ _. effect (executes s.run_id n i) (finish_execution json s c a))
        (emit_event-Permits P s.run_id _) λ _. (h, finish_execution-Permits P c a)

  waited-Permits :
      (P : ToolInvocation V → Type 0) (c : ToolCall V) (i : ToolInvocation V) (n : ℕ)
      (op : OperationId) (mode : OperationMode) (x : Result OperationError (OperationDecision V))
      → Unless x (Permits P (or_fail operation_failed x >>= after_decision json s c i n op mode))
  unfolding after_decision
  waited-Permits P c i n op mode (ok (approve payload)) = tt
  waited-Permits P c i n op mode (ok (reject reason)) =
      Permits-then P (move_to s.run_id running)
        (λ _. pure (
          tool_message json c
            (refusal json (elim reason [ none ↦ "Operation rejected." | some text ↦ text ]))))
        (move_to-Permits P s.run_id running) λ _. tt
  waited-Permits P c i n op mode (err e) = tt

  ask_host-Permits :
      (P : ToolInvocation V → Type 0) (c : ToolCall V) (i : ToolInvocation V) (n : ℕ)
      (draft : PendingOperationDraft V)
      → Permits P (ask_host json s c i n draft)
  unfolding ask_host after_decision
  ask_host-Permits P c i n draft = λ op.
      Permits-then P (request_operation s.run_id (Operation.bind draft op s.run_id))
        (λ _.
          effect (decides s.run_id draft.mode op) (or_fail operation_failed)
          >>= after_decision json s c i n op draft.mode)
        (request_operation-Permits P s.run_id _) λ _ x. waited-Permits P c i n op draft.mode x

  decision-Permits :
      (P : ToolInvocation V → Type 0) (c : ToolCall V) (i : ToolInvocation V) (n : ℕ)
      (d : ToolDecision V)
      → (d ≡ allow → P i)
      → Permits P (follow json s c i n d)
  unfolding follow
  decision-Permits P c i n allow h = run_executor-Permits P c i n none (h refl)
  decision-Permits P c i n (deny reason) h = tt
  decision-Permits P c i n (require_approval draft) h = ask_host-Permits P c i n draft

  refused-Permits :
      (P : ToolInvocation V → Type 0) (c : ToolCall V) (e : ToolValidationError)
      → Permits P (finish_argument_validation json s c e)
  unfolding finish_argument_validation
  refused-Permits P c e =
      Permits-then P (emit_event s.run_id (tool_started c.id c.name c.arguments))
        (λ _.
          emit_event s.run_id (tool_finished c.id c.name (validation_error_value json e))
          >> pure (tool_message json c (from_value (validation_error_value json e))))
        (emit_event-Permits P s.run_id _)
        λ _.
          Permits-then P
            (emit_event s.run_id (tool_finished c.id c.name (validation_error_value json e)))
            (λ _. pure (tool_message json c (from_value (validation_error_value json e))))
            (emit_event-Permits P s.run_id _) λ _. tt

  judge-Permits :
      (P : ToolInvocation V → Type 0) (c : ToolCall V) (i : ToolInvocation V) (n : ℕ)
      (registered : RegisteredTool V) (facts : ResolvedResourceFacts)
      → (s.policy.evaluate (record {
        descriptor = registered.descriptor;
        invocation = i;
        facts = facts;
        authority = s.authority;
      })
            ≡ allow
          → P i)
      → Permits P (judge json s c i n registered facts)
  unfolding judge
  judge-Permits P c i n registered facts h = decision-Permits P c i n _ h

  decide-Permits :
      (c : ToolCall V) (i : ToolInvocation V) (n : ℕ) (raw : String)
      → json.to_string c.arguments ≡ ok raw
      → Registry.prepare json s.validator c.id c.name raw s.tools ≡ ok (i, n)
      → Permits (Allowed c) (decide json s c i n)
  unfolding decide resolve_facts
  decide-Permits c i n raw printed prepared =
      or_fail-then-Permits (Allowed c) (λ (x : Fault). x)
        (ok_or (Registry.resolve c.name s.tools) tool_disappeared) (resolve_facts json s c i n)
        λ registered found.
          or_fail-then-Permits (Allowed c) Fault.policy
            (s.policy.resolve_facts registered.descriptor i s.authority)
            (judge json s c i n registered)
            λ facts stated. judge-Permits (Allowed c) c i n registered facts λ allowed. record {
              raw = raw;
              executor = n;
              registered = registered;
              facts = facts;
              printed = printed;
              prepared = prepared;
              found = ok_or-eq-ok (Registry.resolve c.name s.tools) tool_disappeared found;
              stated = stated;
              allowed = allowed;
            }

  with_prepared-Permits :
      (c : ToolCall V) (raw : String)
      (r : Result (ToolExecutionError ToolValidationError) (ToolInvocation V × ℕ))
      → json.to_string c.arguments ≡ ok raw
      → Registry.prepare json s.validator c.id c.name raw s.tools ≡ r
      → Permits (Allowed c) (with_prepared json s c r)
  unfolding with_prepared
  with_prepared-Permits c raw (ok (i, n)) printed e = decide-Permits c i n raw printed e
  with_prepared-Permits c raw (err (validation x)) printed e =
      elim (Bool-cases (is_argument_validation x)) [
        | inl h ↦ rw (h, with_prepared) (refused-Permits (Allowed c) c x)
        | inr h ↦ rw (h, with_prepared) tt
      ]
  with_prepared-Permits c raw (err rejected_duplicate) printed e = tt
  with_prepared-Permits c raw (err (failed text)) printed e = tt

  unless_cached-Permits :
      (c : ToolCall V) (cached : Option (ToolResult V))
      → Permits (Allowed c) (unless_cached json s c cached)
  unfolding unless_cached
  unless_cached-Permits c (some result) = tt
  unless_cached-Permits c none =
      or_fail-then-Permits (Allowed c) Fault.arguments (json.to_string c.arguments)
        (λ raw. with_prepared json s c (Registry.prepare json s.validator c.id c.name raw s.tools))
        λ raw printed. with_prepared-Permits c raw _ printed refl

  execute-Permits : (c : ToolCall V) → Permits (Allowed c) (execute_registered_tool json s c)
  unfolding execute_registered_tool
  execute-Permits c =
      Permits-then (Allowed c) (spend_tool s.run_id)
        (λ _. read table_failed (cached_tool_execution s.run_id c.id) >>= unless_cached json s c)
        (spend_tool-Permits (Allowed c) s.run_id)
        λ _ t.
          Permits-then (Allowed c) (or_fail table_failed (cached_tool_execution s.run_id c.id t))
            (unless_cached json s c) (or_fail-Permits (Allowed c) table_failed _)
            (unless_cached-Permits c)

  -- When the execution of a tool call has come to its executor, whatever other threads did, then
  -- the host's approval of an operation was handed to it before, or the policy allowed the
  -- invocation: the one prepared from the call, for the tool registered under the call's name, with
  -- the facts that the policy resolved for it and the authority of the session.
  pub executor_permitted :
      (c : ToolCall V) (events : List (Event V)) (t : RunTable V) (id : RunId) (n : ℕ)
      (i : ToolInvocation V)
      (k : Option (Result (ToolExecutionError ToolValidationError) (ToolResult V))
        → Process V (Message V))
      → (play events t (execute_registered_tool json s c)).1 ≡ effect (executes id n i) k
      → Allowed c i ⊎ (was_approved events t (execute_registered_tool json s c) ≡ true)
  executor_permitted c events t id n i k e =
      elim (Bool-cases (was_approved events t (execute_registered_tool json s c))) [
        | inl approved ↦ inr approved
        | inr unapproved ↦
            inl
              (subst (Permits (Allowed c)) e (
                play-Permits (Allowed c) events t (execute_registered_tool json s c)
                  (execute-Permits c) unapproved)).0
      ]
