-- ===== src/Runs/Changes.antt =====
-- What each call of the table changes in its runs.
use aifluxon.Runs.Record
use aifluxon.Budget
use aifluxon.Ledger
use aifluxon.Runs.Table
use aifluxon.Runs.History.{
  same, updated, added, registers, sets_state, emits, Inv, step, Call, RunChange, RunChange-runs,
  get_record-eq-ok, with_record-RunChange, runs-then_wake, runs-close_operations, runs-report,
  hooks_in, completes, fails, cancels, writes_completion, writes_failure, writes_cancellation,
  spends_round, spends_tool, executes, records_tool, operates,
}
use aifluxon.Runs.Steps.{
  kept, Fits, set_record_state-RecordStep, emit_record-RecordStep, finish_record-RecordStep,
  cancel_record-RecordStep, add_hook-RecordStep, Spent,
}
use aifluxon.Runs.Spending.{
  consume_model_round, consume_tool_invocation, put_ledger, execute_tool_once,
  record_tool_execution, put_budget,
}
use aifluxon.Core.Message.{RunId, ToolInvocationId}
use aifluxon.Runs.Record.{
  is_terminal, RunCancellationHook, set_record_state, emit_record, finish_record, cancel_record,
  add_hook, new_record, RunTableError, RunRecord,
}
use aifluxon.Core.Run.{RunContext, RunLimits, RunState, RunEvent, terminal_state, is_run_started}
use aifluxon.Ledger.{ToolResult, from_value, put, execute_once}
use aifluxon.Runs.Table.{
  register, snapshot, RunTable, get_record, refuse, register_cancellation_hook, set_state, emit,
  has_open, finish, finish_completed, finish_failed, cancel, with_record, then_wake, refused_state,
  close_operations, check_operations, write_finish, write_cancel,
}
use aifluxon.Prelude.{
  Bool-cases, Option-cases, is_some, Result-cases, ℕ, ◌≡◌, refl, ◌∙◌, inl, inr, ◌||◌, arith, ok,
}
use aifluxon.Prelude.Map.{lookup}
use aifluxon.Core.Tool.{message}

module _ {V : Type 0} where
  refuse-runs :
      (A : Type 0) (id : RunId) (to : RunState) (t : RunTable V)
      → (refuse {A = A} id to t).1.runs ≡ t.runs
  unfolding refuse
  refuse-runs A id to t = ground arith

  register-RunChange :
      (now : ℕ) (context : RunContext) (limits : RunLimits) (t : RunTable V)
      → RunChange t (Table.register now context limits t).1
  unfolding Table.register
  register-RunChange now context limits t = elim (Bool-cases t.poisoned) [
    | inl bad ↦ same (ground arith)
    | inr fine ↦ elim (Option-cases (lookup context.run_id t.runs)) [
      | inl e ↦ added now context limits e (ground arith)
      | inr (r, e) ↦ same (ground arith)
    ]
  ]

  set_state-RunChange :
      (id : RunId) (state : RunState) (t : RunTable V)
      → Inv t
      → RunChange t (set_state id state t).1
  unfolding set_state
  set_state-RunChange id state t v = elim (Bool-cases (Record.is_terminal state)) [
    | inl final ↦ same (rw (final, set_state) (refuse-runs ℕ id state t))
    | inr going ↦
        rw (going, set_state)
          (RunChange-runs t _ _ (runs-then_wake (with_record id (set_record_state state) t)) (
            with_record-RunChange id (set_record_state state) t v
              (λ r w. set_record_state-RecordStep r state w going)))
  ]

  emit-RunChange :
      (id : RunId) (event : RunEvent V) (t : RunTable V) → Inv t → RunChange t (emit id event t).1
  unfolding emit
  emit-RunChange id event t v =
      elim (Bool-cases (is_some (terminal_state event) || is_run_started event)) [
        | inl bad ↦ same (rw (bad, emit) (refuse-runs ℕ id (refused_state event) t))
        | inr fine ↦
            rw (fine, emit)
              (RunChange-runs t _ _ (runs-then_wake (with_record id (emit_record event) t)) (
                with_record-RunChange id (emit_record event) t v
                  (λ r w. emit_record-RecordStep r event w (ground arith))))
      ]

  pub write_finish-RunChange :
      (id : RunId) (state : RunState) (event : RunEvent V) (t : RunTable V)
      → Inv t
      → Fits event state
      → RunChange t (write_finish id state event t).1
  unfolding write_finish
  write_finish-RunChange id state event t v fits =
      RunChange-runs t _ _ (runs-then_wake (with_record id (finish_record state event) t)) (
        with_record-RunChange id (finish_record state event) t v
          (λ r w. finish_record-RecordStep r state event w fits))

  finish-RunChange :
      (id : RunId) (state : RunState) (event : RunEvent V) (t : RunTable V)
      → Inv t
      → Fits event state
      → RunChange t (finish id state event t).1
  unfolding finish
  finish-RunChange id state event t v fits = elim (Result-cases (check_operations id t)) [
    | inr (x, e) ↦ same (rw (e, finish))
    | inl (_, e) ↦
        rw (e, finish)
          (RunChange-runs t _ _ (runs-close_operations id (write_finish id state event t))
            (write_finish-RunChange id state event t v fits))
  ]

  write_cancel-RunChange : (id : RunId) (t : RunTable V) → Inv t → RunChange t (write_cancel id t).1
  unfolding write_cancel
  write_cancel-RunChange id t v =
      RunChange-runs t _ _ (runs-then_wake (with_record id cancel_record t))
        (with_record-RunChange id cancel_record t v (λ r w. cancel_record-RecordStep r w))

  cancel-RunChange : (id : RunId) (t : RunTable V) → Inv t → RunChange t (cancel id t).1
  unfolding cancel
  cancel-RunChange id t v =
      RunChange-runs t (write_cancel id t).1 (cancel id t).1
        (runs-report id (close_operations id (write_cancel id t))
          ∙ runs-close_operations id (write_cancel id t))
        (write_cancel-RunChange id t v)

  hook-RunChange :
      (id : RunId) (hook : Record.RunCancellationHook) (t : RunTable V)
      → Inv t
      → RunChange t (register_cancellation_hook id hook t).1
  unfolding register_cancellation_hook
  hook-RunChange id hook t v =
      with_record-RunChange id (add_hook hook) t v (λ r w. add_hook-RecordStep r hook)

  round-Spent :
      (now : ℕ) (r : RunRecord V)
      → Spent r (record r { budget = (Budget.consume_model_round now r.budget).1 })
  unfolding Budget.consume_model_round
  round-Spent now r = (ground arith, λ h. ground arith)

  tool-Spent :
      (now : ℕ) (r : RunRecord V)
      → Spent r (record r { budget = (Budget.consume_tool_invocation now r.budget).1 })
  unfolding Budget.consume_tool_invocation
  tool-Spent now r = (ground arith, λ h. ground arith)

  round-RunChange :
      (now : ℕ) (id : RunId) (t : RunTable V) → RunChange t (consume_model_round now id t).1
  unfolding consume_model_round put_budget
  round-RunChange now id t = elim (Result-cases (get_record id t)) [
    | inl (r, e) ↦
        updated id r (record r { budget = (Budget.consume_model_round now r.budget).1 })
          (get_record-eq-ok id t r e) (kept refl refl refl (round-Spent now r))
          (rw (e, consume_model_round))
    | inr (x, e) ↦ same (rw (e, consume_model_round))
  ]

  tool-RunChange :
      (now : ℕ) (id : RunId) (t : RunTable V) → RunChange t (consume_tool_invocation now id t).1
  unfolding consume_tool_invocation put_budget
  tool-RunChange now id t = elim (Result-cases (get_record id t)) [
    | inl (r, e) ↦
        updated id r (record r { budget = (Budget.consume_tool_invocation now r.budget).1 })
          (get_record-eq-ok id t r e) (kept refl refl refl (tool-Spent now r))
          (rw (e, consume_tool_invocation))
    | inr (x, e) ↦ same (rw (e, consume_tool_invocation))
  ]

  execute-RunChange :
      (id : RunId) (invocation : ToolInvocationId) (value : V) (t : RunTable V)
      → RunChange t (execute_tool_once id invocation value t).2
  unfolding execute_tool_once put_ledger
  execute-RunChange id invocation value t = elim (Result-cases (get_record id t)) [
    | inl (r, e) ↦
        updated id r
          (record r {
            ledger =
                (execute_once {E = Unit {0}} invocation (ok (from_value value)) r.ledger).ledger;
          })
          (get_record-eq-ok id t r e) (kept refl refl refl (refl, λ h. omega arith))
          (rw (e, execute_tool_once))
    | inr (x, e) ↦ same (rw (e, execute_tool_once))
  ]

  record_tool-RunChange :
      (id : RunId) (invocation : ToolInvocationId) (result : ToolResult V) (t : RunTable V)
      → RunChange t (record_tool_execution id invocation result t).1
  unfolding record_tool_execution put_ledger
  record_tool-RunChange id invocation result t = elim (Result-cases (get_record id t)) [
    | inl (r, e) ↦
        updated id r (record r { ledger = Ledger.put invocation result r.ledger })
          (get_record-eq-ok id t r e) (kept refl refl refl (refl, λ h. omega arith))
          (rw (e, record_tool_execution))
    | inr (x, e) ↦ same (rw (e, record_tool_execution))
  ]

  pub step-RunChange : (t : RunTable V) (c : Call V) → Inv t → RunChange t (step t c)
  unfolding step finish_completed finish_failed terminal_state Record.is_terminal
  step-RunChange t (registers now context limits) v = register-RunChange now context limits t
  step-RunChange t (hooks_in id hook) v = hook-RunChange id hook t v
  step-RunChange t (sets_state id state) v = set_state-RunChange id state t v
  step-RunChange t (emits id event) v = emit-RunChange id event t v
  step-RunChange t (completes id output) v =
      finish-RunChange id RunState.completed (RunEvent.completed output) t v refl
  step-RunChange t (fails id message) v =
      finish-RunChange id RunState.failed (RunEvent.failed message) t v refl
  step-RunChange t (cancels id) v = cancel-RunChange id t v
  step-RunChange t (writes_completion id output) v =
      write_finish-RunChange id RunState.completed (RunEvent.completed output) t v refl
  step-RunChange t (writes_failure id message) v =
      write_finish-RunChange id RunState.failed (RunEvent.failed message) t v refl
  step-RunChange t (writes_cancellation id) v = write_cancel-RunChange id t v
  step-RunChange t (spends_round now id) v = round-RunChange now id t
  step-RunChange t (spends_tool now id) v = tool-RunChange now id t
  step-RunChange t (executes id invocation value) v = execute-RunChange id invocation value t
  step-RunChange t (records_tool id invocation result) v =
      record_tool-RunChange id invocation result t
  step-RunChange t (operates c) v = same refl
