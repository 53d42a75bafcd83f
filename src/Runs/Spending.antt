-- ===== src/Runs/Spending.antt =====
-- The methods of the run table on a run's budget and tool results (run_table.rs).
use aifluxon.Budget
use aifluxon.Ledger
use mathlib.Core.Option
use aifluxon.Budget.{AgentBudgetKind, Spend}
use aifluxon.Core.Message.{RunId, ToolInvocationId}
use aifluxon.Ledger.{
  ToolResult, ToolLedger, Executed, from_value, get, put, execution_count, execute_once,
}
use aifluxon.Prelude.Map.{insert}
use aifluxon.Prelude.{Result, map_err, map_ok, ℕ, Bool, false, Option, ok, err, ◌>>=◌}
use aifluxon.Runs.Record.{RunTableError, RunRecord, store_unavailable}
use aifluxon.Runs.Table.{RunTable, get_record}

module _ {V : Type 0} where
  unfoldable pub put_budget :
      RunId
      → RunRecord V
      → RunTable V
      → Budget.Spend
      → Result AgentBudgetKind (Unit {0}) × RunTable V
  put_budget run_id r t (result, b) =
      (result, record t { runs = insert run_id (record r { budget = b }) t.runs })

  unfoldable pub consume_model_round :
      ℕ → RunId → RunTable V → Result AgentBudgetKind (Unit {0}) × RunTable V
  unfolding get_record put_budget
  consume_model_round now run_id t = elim (get_record run_id t) [
    | err _ ↦ (err AgentBudgetKind.model_rounds, t)
    | ok r ↦ put_budget run_id r t (Budget.consume_model_round now r.budget)
  ]

  unfoldable pub consume_tool_invocation :
      ℕ → RunId → RunTable V → Result AgentBudgetKind (Unit {0}) × RunTable V
  unfolding get_record put_budget
  consume_tool_invocation now run_id t = elim (get_record run_id t) [
    | err _ ↦ (err AgentBudgetKind.tool_invocations, t)
    | ok r ↦ put_budget run_id r t (Budget.consume_tool_invocation now r.budget)
  ]

  unfoldable pub model_rounds : RunId → RunTable V → Result RunTableError ℕ
  unfolding get_record
  model_rounds run_id t = do r ← get_record run_id t; ok r.budget.model_rounds

  unfoldable pub put_ledger : RunId → RunRecord V → ToolLedger V → RunTable V → RunTable V
  put_ledger run_id r l t = record t { runs = insert run_id (record r { ledger = l }) t.runs }

  -- The answer, whether `execute` was called, and the table. `value` is what `execute` computes.
  unfoldable pub execute_tool_once :
      RunId → ToolInvocationId → V → RunTable V → Result RunTableError V × Bool × RunTable V
  unfolding get_record put_ledger execute_once from_value
  execute_tool_once run_id invocation_id value t = elim (get_record run_id t) [
    | err e ↦ (err e, false, t)
    | ok r ↦
        let x : Executed (Unit {0}) V =
          execute_once invocation_id (ok (from_value value)) r.ledger in
        (
          map_err (λ _. store_unavailable) (map_ok (λ result. result.value) x.answer),
          x.ran,
          put_ledger run_id r x.ledger t,
        )
  ]

  unfoldable pub cached_tool_execution :
      RunId → ToolInvocationId → RunTable V → Result RunTableError (Option (ToolResult V))
  unfolding get_record Ledger.get
  cached_tool_execution run_id invocation_id t = do
    r ← get_record run_id t
    ok (Ledger.get invocation_id r.ledger)

  unfoldable pub cached_tool_result :
      RunId → ToolInvocationId → RunTable V → Result RunTableError (Option V)
  unfolding get_record Ledger.get
  cached_tool_result run_id invocation_id t = do
    r ← get_record run_id t
    ok (Option.map (λ result. result.value) (Ledger.get invocation_id r.ledger))

  unfoldable pub record_tool_execution :
      RunId
      → ToolInvocationId
      → ToolResult V
      → RunTable V
      → Result RunTableError (Unit {0}) × RunTable V
  unfolding get_record put_ledger Ledger.put
  record_tool_execution run_id invocation_id result t = elim (get_record run_id t) [
    | err e ↦ (err e, t)
    | ok r ↦ (ok tt, put_ledger run_id r (Ledger.put invocation_id result r.ledger) t)
  ]

  unfoldable pub record_tool_result :
      RunId → ToolInvocationId → V → RunTable V → Result RunTableError (Unit {0}) × RunTable V
  unfolding record_tool_execution from_value
  record_tool_result run_id invocation_id value =
      record_tool_execution run_id invocation_id (from_value value)

  unfoldable pub tool_execution_count : RunId → RunTable V → Result RunTableError ℕ
  unfolding get_record execution_count
  tool_execution_count run_id t = do r ← get_record run_id t; ok (execution_count r.ledger)
