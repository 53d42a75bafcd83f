-- ===== src/Runs/Operated.antt =====
-- What the calls of the table do to the store of operations: they leave it, or close a run in it.
use aifluxon.Operations.Command
use aifluxon.Runs.Record
use aifluxon.Runs.Table
use aifluxon.Core.Message.{RunId, ToolInvocationId}
use aifluxon.Core.Run.{RunContext, RunLimits, RunState, RunEvent, terminal_state, is_run_started}
use aifluxon.Ledger.{ToolResult}
use aifluxon.Operations.{OperationStore}
use aifluxon.Operations.Command.{Command}
use aifluxon.Runs.History.{
  registers, hooks_in, sets_state, emits, completes, fails, cancels, writes_completion,
  writes_failure, writes_cancellation, spends_round, spends_tool, executes, records_tool, operates,
  Call, step, run,
}
use aifluxon.Runs.Record.{RunTableError, RunCancellationHook, Update}
use aifluxon.Runs.Spending.{
  consume_model_round, consume_tool_invocation, execute_tool_once, record_tool_execution,
  put_ledger, put_budget,
}
use aifluxon.Runs.Table.{
  RunTable, get_record, with_record, then_wake, refuse, register_cancellation_hook, set_state, emit,
  close_operations, check_operations, write_finish, write_cancel, finish, finish_completed,
  finish_failed, report, cancel,
}
use aifluxon.Prelude.{
  ℕ, is_some, Bool-cases, ◌||◌, Result, Result-cases, ◌≡◌, refl, ◌∙◌, sym, subst, inl, inr, List,
  [], ◌∷◌, arith, ok, err,
}

module _ {V : Type 0} where
  operations-with_record :
      (A : Type 0) (id : RunId) (f : Record.Update V A) (t : RunTable V)
      → (with_record id f t).1.operations ≡ t.operations
  unfolding with_record
  operations-with_record A id f t = elim (Result-cases (get_record id t)) [
    | inl (r, e) ↦ rw (e, with_record)
    | inr (x, e) ↦ rw (e, with_record)
  ]

  operations-then_wake :
      {A : Type 0} (x : Result Record.RunTableError A × RunTable V)
      → (then_wake x).1.operations ≡ x.1.operations
  unfolding then_wake
  operations-then_wake (ok a, t) = refl
  operations-then_wake (err e, t) = refl

  operations-refuse :
      (A : Type 0) (id : RunId) (to : RunState) (t : RunTable V)
      → (refuse {A = A} id to t).1.operations ≡ t.operations
  unfolding refuse
  operations-refuse A id to t = ground arith

  operations-report :
      (id : RunId) (x : Result Record.RunTableError (List Record.RunCancellationHook) × RunTable V)
      → (report id x).1.operations ≡ x.1.operations
  unfolding report
  operations-report id (ok a, t) = refl
  operations-report id (err e, t) = refl

  operations-register :
      (now : ℕ) (context : RunContext) (limits : RunLimits) (t : RunTable V)
      → (Table.register now context limits t).1.operations ≡ t.operations
  unfolding Table.register
  operations-register now context limits t = ground arith

  operations-register_hook :
      (id : RunId) (hook : Record.RunCancellationHook) (t : RunTable V)
      → (register_cancellation_hook id hook t).1.operations ≡ t.operations
  unfolding register_cancellation_hook
  operations-register_hook id hook t = operations-with_record _ id (Record.add_hook hook) t

  operations-set_state :
      (id : RunId) (state : RunState) (t : RunTable V)
      → (set_state id state t).1.operations ≡ t.operations
  unfolding set_state
  operations-set_state id state t = elim (Bool-cases (Record.is_terminal state)) [
    | inl final ↦ rw (final, set_state) (operations-refuse _ id state t)
    | inr going ↦
        rw (going, set_state)
          (operations-then_wake (with_record id (Record.set_record_state state) t)
            ∙ operations-with_record _ id (Record.set_record_state state) t)
  ]

  operations-emit :
      (id : RunId) (event : RunEvent V) (t : RunTable V)
      → (emit id event t).1.operations ≡ t.operations
  unfolding emit
  operations-emit id event t =
      elim (Bool-cases (is_some (terminal_state event) || is_run_started event)) [
        | inl bad ↦ rw (bad, emit) (operations-refuse _ id (Table.refused_state event) t)
        | inr fine ↦
            rw (fine, emit)
              (operations-then_wake (with_record id (Record.emit_record event) t)
                ∙ operations-with_record _ id (Record.emit_record event) t)
      ]

  operations-round :
      (now : ℕ) (id : RunId) (t : RunTable V)
      → (consume_model_round now id t).1.operations ≡ t.operations
  unfolding consume_model_round put_budget
  operations-round now id t = ground arith

  operations-tool :
      (now : ℕ) (id : RunId) (t : RunTable V)
      → (consume_tool_invocation now id t).1.operations ≡ t.operations
  unfolding consume_tool_invocation put_budget
  operations-tool now id t = ground arith

  operations-execute :
      (id : RunId) (invocation : ToolInvocationId) (value : V) (t : RunTable V)
      → (execute_tool_once id invocation value t).2.operations ≡ t.operations
  unfolding execute_tool_once put_ledger
  operations-execute id invocation value t = ground arith

  operations-record_tool :
      (id : RunId) (invocation : ToolInvocationId) (result : ToolResult V) (t : RunTable V)
      → (record_tool_execution id invocation result t).1.operations ≡ t.operations
  unfolding record_tool_execution put_ledger
  operations-record_tool id invocation result t = ground arith

  pub operations-write_finish :
      (id : RunId) (state : RunState) (event : RunEvent V) (t : RunTable V)
      → (write_finish id state event t).1.operations ≡ t.operations
  unfolding write_finish
  operations-write_finish id state event t =
      operations-then_wake (with_record id (Record.finish_record state event) t)
      ∙ operations-with_record _ id (Record.finish_record state event) t

  operations-write_cancel :
      (id : RunId) (t : RunTable V) → (write_cancel id t).1.operations ≡ t.operations
  unfolding write_cancel
  operations-write_cancel id t =
      operations-then_wake (with_record id Record.cancel_record t)
      ∙ operations-with_record _ id Record.cancel_record t

  operations-close_operations :
      {A : Type 0} (id : RunId) (a : A) (t : RunTable V)
      → (close_operations {V = V} id (ok a, t)).1.operations
        ≡ Command.step t.operations (Command.cancels id)
  unfolding close_operations Command.step
  operations-close_operations id a t = ground arith

  -- What every command of the store keeps, every call of the table keeps.
  module _ (P : OperationStore V → Type 0)
      (keep : (s : OperationStore V) (c : Command.Command V) → P s → P (Command.step s c)) where
    pub close_operations-keeps :
        {A : Type 0} (id : RunId) (x : Result Record.RunTableError A × RunTable V)
        → P x.1.operations
        → P (close_operations id x).1.operations
    unfolding close_operations
    close_operations-keeps id (err e, t) h = h
    close_operations-keeps id (ok a, t) h =
        subst P (sym (operations-close_operations id a t))
          (keep t.operations (Command.cancels id) h)

    finish-keeps :
        (id : RunId) (state : RunState) (event : RunEvent V) (t : RunTable V)
        → P t.operations
        → P (finish id state event t).1.operations
    unfolding finish
    finish-keeps id state event t h = elim (Result-cases (check_operations id t)) [
      | inr (x, e) ↦ rw (e, finish) h
      | inl (_, e) ↦
          rw (e, finish)
            (close_operations-keeps id (write_finish id state event t)
              (subst P (sym (operations-write_finish id state event t)) h))
    ]

    cancel-keeps : (id : RunId) (t : RunTable V) → P t.operations → P (cancel id t).1.operations
    unfolding cancel
    cancel-keeps id t h =
        subst P (sym (operations-report id (close_operations id (write_cancel id t)))) (
          close_operations-keeps id (write_cancel id t)
            (subst P (sym (operations-write_cancel id t)) h))

    pub step-keeps : (t : RunTable V) (c : Call V) → P t.operations → P (step t c).operations
    unfolding step finish_completed finish_failed
    step-keeps t (registers now context limits) h =
        subst P (sym (operations-register now context limits t)) h
    step-keeps t (hooks_in id hook) h = subst P (sym (operations-register_hook id hook t)) h
    step-keeps t (sets_state id state) h = subst P (sym (operations-set_state id state t)) h
    step-keeps t (emits id event) h = subst P (sym (operations-emit id event t)) h
    step-keeps t (completes id output) h =
        finish-keeps id RunState.completed (RunEvent.completed output) t h
    step-keeps t (fails id message) h =
        finish-keeps id RunState.failed (RunEvent.failed message) t h
    step-keeps t (cancels id) h = cancel-keeps id t h
    step-keeps t (writes_completion id output) h =
        subst P (sym (operations-write_finish id RunState.completed (RunEvent.completed output) t))
          h
    step-keeps t (writes_failure id message) h =
        subst P (sym (operations-write_finish id RunState.failed (RunEvent.failed message) t)) h
    step-keeps t (writes_cancellation id) h = subst P (sym (operations-write_cancel id t)) h
    step-keeps t (spends_round now id) h = subst P (sym (operations-round now id t)) h
    step-keeps t (spends_tool now id) h = subst P (sym (operations-tool now id t)) h
    step-keeps t (executes id invocation value) h =
        subst P (sym (operations-execute id invocation value t)) h
    step-keeps t (records_tool id invocation result) h =
        subst P (sym (operations-record_tool id invocation result t)) h
    step-keeps t (operates c) h = keep t.operations c h

    pub run-keeps : (t : RunTable V) (cs : List (Call V)) → P t.operations → P (run t cs).operations
    unfolding run
    run-keeps t [] h = h
    run-keeps t (c ∷ cs) h = run-keeps (step t c) cs (step-keeps t c h)
