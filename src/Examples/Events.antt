-- ===== src/Examples/Events.antt =====
-- The run table on one run.
use aifluxon.Runs.Table
use aifluxon.Operations
use aifluxon.Operations.Snapshots
use aifluxon.Runs.Invariant
use aifluxon.Ledger
use aifluxon.Runs.History.{registers, emits, completes, Call}
use aifluxon.Core.Run.{RunState, RunEvent, model_delta, terminal_state, run_started}
use aifluxon.Operations.{register, sweep, cancel_run}
use aifluxon.Prelude.IdSet.{contains, include}
use aifluxon.Prelude.Map.{lookup, insert, map_values}
use aifluxon.Runs.Record.{new_record, RunRecord, append_event, RunTableError}
use aifluxon.Runs.Table.{RunTable, emit, finish_completed, events_since, CancellationReport, cancel}
use aifluxon.Prelude.{
  ℕ, none, List, [], ◌∷◌, false, drop, ◌≡◌, refl, ◌↔◌, true, some, arith, ok, Result, Option,
}
use aifluxon.Budget.{from_run_limits}
use aifluxon.Ledger.{empty}
use aifluxon.Runs.EventLog.{WellFormed}
use aifluxon.Runs.Invariant.{run-WellFormed, SameRun, closed_run_kept}
use aifluxon.Runs.Resume.{events_since-drop}
use aifluxon.Runs.Tree.{push_all, collect, collect_fuel, cancel_tree}
use aifluxon.Runs.Tree.Collect.{here, below, Descends, collect_exact}
use aifluxon.Operations.Snapshots.{snapshot}
use aifluxon.Runs.Tree.Closing.{Closed, cancel_tree_closes}
use aifluxon.Runs.Record
use aifluxon.Runs.History

abbrev talk : List (Call ℕ)
talk =
    registers 0 (record { run_id = 7; session_id = none; parent_run_id = none })
      (record { max_model_rounds = 2; max_tool_invocations = 2 })
    ∷ emits 7 (model_delta "a")
    ∷ completes 7 []
    ∷ []

spoken : RunTable ℕ
unfolding History.run History.step Table.register Table.empty emit finish_completed lookup insert
    cancel_run sweep Operations.empty map_values contains include terminal_state Record.is_terminal
    new_record
spoken = History.run Table.empty talk

spoken-Inv : History.Inv spoken
unfolding spoken
spoken-Inv = Invariant.run-Inv Table.empty talk Invariant.empty-Inv

-- The record of run 7 after `talk`.
abbrev closed : RunRecord ℕ
closed = record {
  context = record { run_id = 7; session_id = none; parent_run_id = none };
  limits = record { max_model_rounds = 2; max_tool_invocations = 2 };
  state = RunState.completed;
  is_cancelled = false;
  budget = from_run_limits 0 (record { max_model_rounds = 2; max_tool_invocations = 2 });
  ledger = Ledger.empty;
  hooks = [];
  events =
      record {
        sequence = 1;
        run_id = 7;
        event = run_started (record { run_id = 7; session_id = none; parent_run_id = none });
      }
      ∷ record { sequence = 2; run_id = 7; event = model_delta "a" }
      ∷ record { sequence = 3; run_id = 7; event = RunEvent.completed [] }
      ∷ [];
}

run-WellFormed_example : WellFormed closed × (closed.context.run_id ≡ 7)
unfolding spoken append_event Snapshots.snapshot
run-WellFormed_example = run-WellFormed talk 7 closed refl

closed_run_kept_example :
    (r' : RunRecord ℕ) × (lookup 7
        (History.run spoken (History.cancels 7 ∷ emits 7 (model_delta "b") ∷ [])).runs
      ≡ some r')
    × SameRun closed r'
unfolding spoken append_event Record.is_terminal Snapshots.snapshot
closed_run_kept_example =
    closed_run_kept spoken (History.cancels 7 ∷ emits 7 (model_delta "b") ∷ []) 7 closed spoken-Inv
      refl refl

events_since-drop_example : events_since 7 1 spoken ≡ ok (drop 1 closed.events)
unfolding spoken append_event Snapshots.snapshot
events_since-drop_example = events_since-drop spoken 7 1 closed spoken-Inv refl refl (omega arith)

-- A root with a child, and the child's own child the root again.
abbrev looped : List (RunRecord ℕ)
looped =
    record closed { context = record { run_id = 1; session_id = none; parent_run_id = some 2 } }
    ∷ record closed { context = record { run_id = 2; session_id = none; parent_run_id = some 1 } }
    ∷ []

collect_exact_example :
    (ts : List ℕ) × (collect (collect_fuel looped) looped (1 ∷ []) [] ≡ some ts)
    × ((k : ℕ) → (contains k ts ≡ true) ↔ Descends looped 1 k)
collect_exact_example = collect_exact looped 1

-- Run 7 with its child, run 8.
abbrev births : List (Call ℕ)
births =
    registers 0 (record { run_id = 7; session_id = none; parent_run_id = none })
      (record { max_model_rounds = 2; max_tool_invocations = 2 })
    ∷ registers 0 (record { run_id = 8; session_id = none; parent_run_id = some 7 })
        (record { max_model_rounds = 2; max_tool_invocations = 2 })
    ∷ []

family : RunTable ℕ
unfolding spoken
family = History.run Table.empty births

abbrev TreeResult : Type 0
TreeResult = Option (Result RunTableError (List (CancellationReport ℕ)) × RunTable ℕ)

abbrev reports_of : TreeResult → List (CancellationReport ℕ)
reports_of (some (ok reports, t)) = reports
reports_of _ = []

abbrev table_of : TreeResult → RunTable ℕ
table_of (some (x, t)) = t
table_of none = Table.empty

cancel_tree_closes_example : Closed 8 (table_of (cancel_tree 7 family))
unfolding family cancel_tree cancel Snapshots.snapshot append_event collect_fuel push_all
cancel_tree_closes_example =
    cancel_tree_closes family (table_of (cancel_tree 7 family)) 7 8
      (reports_of (cancel_tree 7 family))
      (new_record 0 (record { run_id = 8; session_id = none; parent_run_id = some 7 })
        (record { max_model_rounds = 2; max_tool_invocations = 2 }))
      (Invariant.run-Inv Table.empty births Invariant.empty-Inv) refl (below here refl) refl
