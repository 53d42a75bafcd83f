-- ===== src/Examples/Limits.antt =====
-- Budgets and ledgers on small histories.
use aifluxon.Budget.Limits.{
  round, tool, charge, is_granted, granted_rounds, granted_tools, granted_rounds-le,
  granted_tools-le, late_charge_refused, AllGranted, unlimited_never_refused,
}
use aifluxon.Budget.{AgentLoopBudget, from_run_limits, with_tool_round_limit, consume_model_round}
use aifluxon.Core.Run.{unlimited}
use aifluxon.Ledger.{ToolResult, ToolLedger, from_value, empty, execute_once, validation}
use aifluxon.Ledger.Once.{Use, calls, records, use_all, recorded, execute_at_most_once}
use aifluxon.Prelude.Map.{lookup}
use aifluxon.Prelude.{ℕ, ◌+◌, ◌≤◌, ◌≡◌, refl, false, List, [], ◌∷◌, arith, ok, err}
use aifluxon.Ledger

abbrev small : AgentLoopBudget
small = with_tool_round_limit 0 2

granted_rounds-le_example : 0 + granted_rounds small (round 1 ∷ round 2 ∷ round 3 ∷ []) ≤ 2
unfolding with_tool_round_limit
granted_rounds-le_example =
    granted_rounds-le small (round 1 ∷ round 2 ∷ round 3 ∷ []) (omega arith) (omega arith)

granted_rounds_two : granted_rounds small (round 1 ∷ round 2 ∷ round 3 ∷ []) ≡ 2
unfolding with_tool_round_limit granted_rounds consume_model_round
granted_rounds_two = refl

granted_tools-le_example : 0 + granted_tools small (tool 1 ∷ tool 2 ∷ tool 3 ∷ []) ≤ 2
unfolding with_tool_round_limit
granted_tools-le_example =
    granted_tools-le small (tool 1 ∷ tool 2 ∷ tool 3 ∷ []) (omega arith) (omega arith)

late_charge_refused_example : is_granted (charge small (round 1800000000001)).0 ≡ false
unfolding with_tool_round_limit
late_charge_refused_example = late_charge_refused small (round 1800000000001) (omega arith)

unlimited_never_refused_example :
    AllGranted (from_run_limits 0 unlimited) (round 1 ∷ tool 1800000000001 ∷ [])
unlimited_never_refused_example =
    unlimited_never_refused 0 (round 1 ∷ tool 1800000000001 ∷ []) (omega arith)

abbrev read_file : ToolResult ℕ
read_file = from_value 4

abbrev blank : ToolLedger ℕ
blank = Ledger.empty

abbrev cached : ToolLedger ℕ
cached = (execute_once {E = ℕ} 1 (ok read_file) blank).ledger

abbrev written : ToolResult ℕ
written = from_value 9

-- Another call, and a result that is recorded under the id of the first.
abbrev overwritten : List (Use ℕ ℕ)
overwritten = calls 2 (ok read_file) ∷ records 1 written ∷ []

execute_at_most_once_example :
    execute_once {E = ℕ} 1 (err (validation 0)) (use_all {E = ℕ} cached overwritten)
    ≡ record { answer = ok written; ledger = use_all {E = ℕ} cached overwritten; ran = false }
unfolding recorded execute_once empty lookup
execute_at_most_once_example =
    execute_at_most_once {E = ℕ} blank 1 (ok read_file) (err (validation 0)) overwritten read_file
      refl
