-- ===== src/Runs/Errors.antt =====
-- OperationError::message and RunTableError::message.
use aifluxon.Operations.{OperationError}
use aifluxon.Runs.Record.{RunTableError}
use aifluxon.Core.Run.{RunState}
use aifluxon.Prelude.{String, ◌<>◌}

unfoldable pub operation_message : OperationError → String
operation_message OperationError.identifier_collision = "Operation identifier collision."
operation_message OperationError.unknown_operation = "Operation was not found."
operation_message OperationError.wrong_run = "Operation does not belong to the requested run."
operation_message OperationError.already_resolved = "Operation was already resolved."
operation_message OperationError.blocking_wait_required =
    "Only blocking approvals can be awaited for a decision."
operation_message OperationError.deferred_commit_required =
    "Deferred operations must use the prepared-effect commit path."
operation_message OperationError.invalid_state =
    "Operation is not in a valid state for this action."
operation_message OperationError.run_terminal =
    "The run is terminal and cannot accept operation changes."
operation_message OperationError.operation_cancelled = "Operation was cancelled with its run."
operation_message OperationError.operation_expired = "Operation expired before it was resolved."
operation_message (OperationError.commit_failed message) =
    "Prepared operation commit failed: " <> message
operation_message OperationError.store_unavailable = "Operation store is unavailable."

-- The derived Debug.
unfoldable pub state_name : RunState → String
state_name RunState.running = "Running"
state_name RunState.awaiting_operation = "AwaitingOperation"
state_name RunState.completed = "Completed"
state_name RunState.failed = "Failed"
state_name RunState.cancelled = "Cancelled"

unfoldable pub table_message : RunTableError → String
unfolding operation_message state_name
table_message RunTableError.identifier_collision = "Run identifier collision."
table_message RunTableError.unknown_run = "Run was not found."
table_message RunTableError.run_terminal = "Run is already terminal."
table_message (RunTableError.invalid_transition from to) =
    "Invalid run state transition from " <> (state_name from <> (" to " <> (state_name to <> ".")))
table_message RunTableError.pending_operations =
    "Run cannot finish while operations are still pending."
table_message RunTableError.store_unavailable = "Run table is unavailable."
table_message (RunTableError.operation e) = operation_message e
