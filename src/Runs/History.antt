-- ===== src/Runs/History.antt =====
-- Histories of the run table: the calls that change it, in the order in which its mutex lets them
-- in, and the invariant that every history keeps.
use aifluxon.Runs.Steps.{RecordStep}
use Prim.Native.String.{String}
use aifluxon.Runs.Spending.{
  consume_model_round, consume_tool_invocation, execute_tool_once, record_tool_execution,
}
use aifluxon.Core.Message.{RunId, ToolInvocationId, Message}
use aifluxon.Core.Run.{RunContext, RunLimits, RunState, RunEvent}
use aifluxon.Ledger.{ToolResult}
use aifluxon.Runs.Table.{
  register, RunTable, get_record, with_record, then_wake, register_cancellation_hook, set_state,
  emit, close_operations, finish_completed, finish_failed, report, cancel, write_finish,
  write_cancel,
}
use aifluxon.Operations.Command.{Command}
use aifluxon.Prelude.Map.{lookup, insert}
use aifluxon.Prelude.{
  Result, Result-cases, ℕ, ◌≡◌, refl, ◌∙◌, inl, inr, none, some, List, [], ◌∷◌, arith, ok, err,
}
use aifluxon.Runs.EventLog.{WellFormed}
use aifluxon.Runs.Record.{RunTableError, RunCancellationHook, RunRecord, Update, new_record}
use aifluxon.Runs.Record
use aifluxon.Operations.Command

pub data Call (V : Type 0) : Type 0 where
  registers : ℕ → RunContext → RunLimits → Call V
  hooks_in : RunId → Record.RunCancellationHook → Call V
  sets_state : RunId → RunState → Call V
  emits : RunId → RunEvent V → Call V
  completes : RunId → List (Message V) → Call V
  fails : RunId → String → Call V
  cancels : RunId → Call V
  -- The parts of `finish` and `cancel` under the lock, which other calls may come before and behind.
  writes_completion : RunId → List (Message V) → Call V
  writes_failure : RunId → String → Call V
  writes_cancellation : RunId → Call V
  spends_round : ℕ → RunId → Call V
  spends_tool : ℕ → RunId → Call V
  executes : RunId → ToolInvocationId → V → Call V
  records_tool : RunId → ToolInvocationId → ToolResult V → Call V
  operates : Command.Command V → Call V

module _ {V : Type 0} where
  unfoldable pub step : RunTable V → Call V → RunTable V
  step t (registers now context limits) = (register now context limits t).1
  step t (hooks_in id hook) = (register_cancellation_hook id hook t).1
  step t (sets_state id state) = (set_state id state t).1
  step t (emits id event) = (emit id event t).1
  step t (completes id output) = (finish_completed id output t).1
  step t (fails id message) = (finish_failed id message t).1
  step t (cancels id) = (cancel id t).1
  step t (writes_completion id output) =
      (write_finish id RunState.completed (RunEvent.completed output) t).1
  step t (writes_failure id message) =
      (write_finish id RunState.failed (RunEvent.failed message) t).1
  step t (writes_cancellation id) = (write_cancel id t).1
  step t (spends_round now id) = (consume_model_round now id t).1
  step t (spends_tool now id) = (consume_tool_invocation now id t).1
  step t (executes id invocation value) = (execute_tool_once id invocation value t).2
  step t (records_tool id invocation result) = (record_tool_execution id invocation result t).1
  step t (operates c) = record t { operations = Command.step t.operations c }

  unfoldable pub run : RunTable V → List (Call V) → RunTable V
  run t [] = t
  run t (c ∷ cs) = run (step t c) cs

  -- The records under their own ids, each well formed.
  pub record Inv (t : RunTable V) : Type 0 where
    pub at_id :
        (id : RunId) (r : RunRecord V)
        → lookup id t.runs ≡ some r
        → WellFormed r × (r.context.run_id ≡ id)

  pub data RunChange (t u : RunTable V) : Type 0 where
    same : u.runs ≡ t.runs → RunChange t u
    updated :
        (id : RunId) (r r' : RunRecord V)
        → lookup id t.runs ≡ some r
        → RecordStep r r'
        → u.runs ≡ insert id r' t.runs
        → RunChange t u
    added :
        (now : ℕ) (context : RunContext) (limits : RunLimits)
        → lookup context.run_id t.runs ≡ none
        → u.runs ≡ insert context.run_id (new_record now context limits) t.runs
        → RunChange t u

  pub RunChange-runs : (t u w : RunTable V) → w.runs ≡ u.runs → RunChange t u → RunChange t w
  RunChange-runs t u w e (same f) = same (e ∙ f)
  RunChange-runs t u w e (updated id r r' h s f) = updated id r r' h s (e ∙ f)
  RunChange-runs t u w e (added now c l h f) = added now c l h (e ∙ f)

  pub get_record-eq-ok :
      (id : RunId) (t : RunTable V) (r : RunRecord V)
      → get_record id t ≡ ok r
      → lookup id t.runs ≡ some r
  unfolding get_record
  get_record-eq-ok id t r h = ground arith

  pub with_record-RunChange :
      {A : Type 0} (id : RunId) (f : Record.Update V A) (t : RunTable V)
      → Inv t
      → ((r : RunRecord V) → WellFormed r → RecordStep r (f r).1)
      → RunChange t (with_record id f t).1
  unfolding with_record
  with_record-RunChange id f t v keep = elim (Result-cases (get_record id t)) [
    | inl (r, e) ↦
        let found = get_record-eq-ok id t r e in
        updated id r (f r).1 found (keep r (v.at_id id r found).0) (rw (e, with_record))
    | inr (x, e) ↦ same (rw (e, with_record))
  ]

  pub runs-then_wake :
      {A : Type 0} (x : Result Record.RunTableError A × RunTable V)
      → (then_wake x).1.runs ≡ x.1.runs
  unfolding then_wake
  runs-then_wake (ok a, t) = refl
  runs-then_wake (err e, t) = refl

  pub runs-close_operations :
      {A : Type 0} (id : RunId) (x : Result Record.RunTableError A × RunTable V)
      → (close_operations id x).1.runs ≡ x.1.runs
  unfolding close_operations
  runs-close_operations id (ok a, t) = ground arith
  runs-close_operations id (err e, t) = refl

  pub runs-report :
      (id : RunId) (x : Result Record.RunTableError (List Record.RunCancellationHook) × RunTable V)
      → (report id x).1.runs ≡ x.1.runs
  unfolding report
  runs-report id (ok a, t) = refl
  runs-report id (err e, t) = refl
