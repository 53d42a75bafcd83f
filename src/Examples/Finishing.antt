-- ===== src/Examples/Finishing.antt =====
-- A run that is asked to finish, and an approval that another thread asks for meanwhile.
use aifluxon.Operations
use aifluxon.Runs.Table
use aifluxon.Runs.History
use aifluxon.Runs.History.{Call}
use aifluxon.Runs.Table.{RunTable, finish}
use aifluxon.Runs.Record.{RunRecord, new_record, append_event}
use aifluxon.Runs.Idle.{is_open}
use aifluxon.Runs.Finish.{finish_amid, Waits, finish_guarded}
use aifluxon.Runs.Invariant.{run-Inv, empty-Inv}
use aifluxon.Core.Operation.{PendingOperation, blocking_approval, network, is_terminal}
use aifluxon.Core.Run.{RunState, RunEvent}
use aifluxon.Operations.Snapshots
use aifluxon.Operations.{register, sweep, cancel_run}
use aifluxon.Operations.Command.{Command, step, run}
use aifluxon.Operations.Quiet.{Quiet}
use aifluxon.Prelude.IdSet.{contains, include}
use aifluxon.Prelude.Map.{lookup, insert, map_values, values}
use aifluxon.Prelude.{ℕ, ◌≡◌, refl, false, any, some, none, List, [], ◌∷◌, ok}
use aifluxon.Operations.Command
use aifluxon.Operations.Invariant
use aifluxon.Operations.Quiet

abbrev question : PendingOperation ℕ
question = record {
  id = 1;
  run_id = 7;
  invocation_id = none;
  effect = network;
  mode = blocking_approval;
  summary = "may I?";
  payload = 0;
  deadline = none;
}

abbrev one_run : List (Call ℕ)
one_run =
    History.registers 0 (record { run_id = 7; session_id = none; parent_run_id = none })
      (record { max_model_rounds = 2; max_tool_invocations = 2 })
    ∷ []

-- What another thread does after `finish` read the operations.
abbrev too_late : List (Call ℕ)
too_late = History.operates (Command.registers 0 question) ∷ []

running : RunTable ℕ
unfolding History.run History.step Table.register Table.empty Operations.empty Operations.register
    Command.step lookup insert contains finish_amid append_event map_values include sweep
    is_terminal Snapshots.snapshot new_record cancel_run
running = History.run Table.empty one_run

finished : RunTable ℕ
unfolding running
finished = (finish_amid too_late [] 7 RunState.completed (RunEvent.completed []) running).1

-- The approval that came in between is cancelled.
overtaken :
    finish_amid too_late [] 7 RunState.completed (RunEvent.completed []) running ≡ (ok 2, finished)
unfolding finished
overtaken = refl

running-Inv : History.Inv running
unfolding running
running-Inv = run-Inv Table.empty one_run empty-Inv

finish_guarded_example :
    (any (is_open 7) (values running.operations.operations) ≡ false)
    × ((r : RunRecord ℕ) × (lookup 7 (History.run finished too_late).runs ≡ some r)
        × (r.state ≡ RunState.completed))
    × (¬ Waits 7 (History.run finished too_late).operations)
unfolding running
finish_guarded_example =
    finish_guarded running finished too_late [] too_late 7 RunState.completed
      (RunEvent.completed []) 2 running-Inv Invariant.empty-Inv Quiet.empty-Quiet refl overtaken
