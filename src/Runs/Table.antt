-- ===== src/Runs/Table.antt =====
-- The run table and the methods that start, move, finish and cancel a run (run_table.rs).
-- A method returns its result and the table, which keeps what was written before an error.
-- `poisoned` is the state of the table's mutex, `event_wakes` counts the calls of notify_waiters
-- on `event_notify`. Fresh identifiers and the current time are arguments.
use aifluxon.Operations
use aifluxon.Operations.Snapshots
use aifluxon.Core.Operation
use aifluxon.Core.Run.{
  RunState, RunEvent, running, RunContext, RunLimits, RunEventEnvelope, terminal_state,
  is_run_started,
}
use aifluxon.Runs.Record.{
  store_unavailable, unknown_run, identifier_collision, pending_operations, invalid_transition,
  operation, is_terminal, RunTableError, RunCancellationHook, RunRecord, Update, set_record_state,
  emit_record, finish_record, cancel_record, add_hook, new_record,
}
use aifluxon.Core.Message.{RunId, SessionId, Message}
use aifluxon.Core.Operation.{OperationSnapshot}
use aifluxon.Operations.{OperationStore, cancel_run}
use aifluxon.Operations.Change.{fresh}
use aifluxon.Prelude.{
  ltb, if◌then◌else◌, is_some, last, any, keep_if, Result, ok_or, map_err, guard, ℕ, suc, Bool,
  false, not, ◌||◌, Option, none, some, List, [], ◌∷◌, ok, err, ◌>>◌, ◌>>=◌,
}
use aifluxon.Prelude.Map.{Map, lookup, insert}
use Prim.Native.String.{String}

pub record RunTable (V : Type 0) : Type 0 where
  pub runs : Map (RunRecord V)
  pub poisoned : Bool
  pub operations : OperationStore V
  pub event_wakes : ℕ

pub record CanonicalRunSnapshot (V : Type 0) : Type 0 where
  pub context : RunContext
  pub state : RunState
  pub last_event_sequence : ℕ
  pub pending_operations : List (OperationSnapshot V)

pub record CancellationReport (V : Type 0) : Type 0 where
  pub snapshot : CanonicalRunSnapshot V
  pub hook_errors : List String

-- The errors of the hooks, in their order.
unfoldable pub run_hooks : RunId → List RunCancellationHook → List String
run_hooks run_id [] = []
run_hooks run_id (hook ∷ hooks) = elim (hook run_id) [
  | ok _ ↦ run_hooks run_id hooks
  | err e ↦ e ∷ run_hooks run_id hooks
]

abbrev pub Action : Type 0 → Type 0 → Type 0
Action V A = RunTable V → Result RunTableError A × RunTable V

module _ {V : Type 0} where
  unfoldable pub empty : RunTable V
  unfolding Operations.empty
  empty = record { runs = []; poisoned = false; operations = Operations.empty; event_wakes = 0 }

  -- lock()?, runs.get(run_id).ok_or(UnknownRun)?.
  unfoldable pub get_record : RunId → RunTable V → Result RunTableError (RunRecord V)
  get_record run_id t = do
    guard (not t.poisoned) store_unavailable
    ok_or (lookup run_id t.runs) unknown_run

  unfoldable pub apply_update :
      {A : Type 0}
      → RunId
      → RunTable V
      → Result RunTableError A × RunRecord V
      → Result RunTableError A × RunTable V
  apply_update run_id t (result, r) = (result, record t { runs = insert run_id r t.runs })

  -- lock()?, runs.get_mut(run_id).ok_or(UnknownRun)? and the writes through it.
  unfoldable pub with_record : {A : Type 0} → RunId → Update V A → Action V A
  unfolding get_record apply_update
  with_record run_id update t = elim (get_record run_id t) [
    | ok r ↦ apply_update run_id t (update r)
    | err e ↦ (err e, t)
  ]

  -- `?`, then wake_event_waiters.
  unfoldable pub then_wake :
      {A : Type 0} → Result RunTableError A × RunTable V → Result RunTableError A × RunTable V
  then_wake (ok a, t) = (ok a, record t { event_wakes = suc t.event_wakes })
  then_wake (err e, t) = (err e, t)

  unfoldable pub register : ℕ → RunContext → RunLimits → Action V RunContext
  unfolding then_wake
  register now context limits t =
      if t.poisoned
      then (err store_unavailable, t)
      else if is_some (lookup context.run_id t.runs)
      then (err identifier_collision, t)
      else then_wake (
        ok context,
        record t { runs = insert context.run_id (new_record now context limits) t.runs },
      )

  unfoldable pub start :
      ℕ → RunId → Option SessionId → Option RunId → RunLimits → Action V RunContext
  unfolding register
  start now fresh session_id parent_run_id limits =
      register now
        (record { run_id = fresh; session_id = session_id; parent_run_id = parent_run_id }) limits

  unfoldable pub snapshot : RunId → RunTable V → Result RunTableError (CanonicalRunSnapshot V)
  unfolding get_record
  snapshot run_id t = do
    r ← get_record run_id t
    pending ← map_err operation (Snapshots.snapshot run_id t.operations)
    ok (record {
      context = r.context;
      state = r.state;
      last_event_sequence = elim (last r.events) [ none ↦ 0 | some e ↦ e.sequence ];
      pending_operations = pending;
    })

  -- Err(InvalidTransition { from: self.snapshot(run_id)?.state, to }).
  unfoldable pub refuse : {A : Type 0} → RunId → RunState → Action V A
  unfolding snapshot
  refuse run_id to t = elim (snapshot run_id t) [
    | ok s ↦ (err (invalid_transition s.state to), t)
    | err e ↦ (err e, t)
  ]

  unfoldable pub register_cancellation_hook : RunId → RunCancellationHook → Action V (Unit {0})
  unfolding with_record add_hook
  register_cancellation_hook run_id hook = with_record run_id (add_hook hook)

  unfoldable pub set_state : RunId → RunState → Action V ℕ
  unfolding is_terminal refuse with_record then_wake set_record_state
  set_state run_id state t =
      if is_terminal state
      then refuse run_id state t
      else then_wake (with_record run_id (set_record_state state) t)

  -- event.terminal_state().unwrap_or(RunState::Running).
  unfoldable pub refused_state : RunEvent V → RunState
  unfolding terminal_state
  refused_state event = elim (terminal_state event) [ none ↦ running | some s ↦ s ]

  unfoldable pub emit : RunId → RunEvent V → Action V ℕ
  unfolding terminal_state is_run_started refused_state refuse with_record then_wake emit_record
  emit run_id event t =
      if is_some (terminal_state event) || is_run_started event
      then refuse run_id (refused_state event) t
      else then_wake (with_record run_id (emit_record event) t)

  -- self.operations.mark_run_terminal(run_id)?; Ok(sequence).
  unfoldable pub close_operations :
      {A : Type 0}
      → RunId
      → Result RunTableError A × RunTable V
      → Result RunTableError A × RunTable V
  close_operations run_id (err e, t) = (err e, t)
  close_operations run_id (ok a, t) = elim (cancel_run run_id t.operations) [
    | ok (ops, n) ↦ (ok a, record t { operations = ops })
    | err e ↦ (err (operation e), t)
  ]

  -- The test of `finish` for operations that are not terminal.
  unfoldable pub has_open : List (OperationSnapshot V) → Bool
  has_open = any (λ s. not (Operation.is_terminal s.state))

  -- The part of `finish` before the lock, which reads the operations.
  unfoldable pub check_operations : RunId → RunTable V → Result RunTableError (Unit {0})
  unfolding has_open
  check_operations run_id t = do
    snapshots ← map_err operation (Snapshots.snapshot run_id t.operations)
    guard (not (has_open snapshots)) pending_operations

  -- The part under the lock, and the wake of the event waiters.
  unfoldable pub write_finish : RunId → RunState → RunEvent V → Action V ℕ
  unfolding with_record then_wake finish_record
  write_finish run_id state event t = then_wake (with_record run_id (finish_record state event) t)

  -- `finish` with the terminal state of its event, where no other thread comes in between.
  unfoldable pub finish : RunId → RunState → RunEvent V → Action V ℕ
  unfolding check_operations write_finish close_operations
  finish run_id state event t = elim (check_operations run_id t) [
    | err e ↦ (err e, t)
    | ok _ ↦ close_operations run_id (write_finish run_id state event t)
  ]

  unfoldable pub finish_completed : RunId → List (Message V) → Action V ℕ
  unfolding finish
  finish_completed run_id output = finish run_id RunState.completed (RunEvent.completed output)

  unfoldable pub finish_failed : RunId → String → Action V ℕ
  unfolding finish
  finish_failed run_id message = finish run_id RunState.failed (RunEvent.failed message)

  -- The hooks run after the operations were closed, and the report is read at the end.
  unfoldable pub report :
      RunId
      → Result RunTableError (List RunCancellationHook) × RunTable V
      → Result RunTableError (CancellationReport V) × RunTable V
  unfolding snapshot run_hooks
  report run_id (err e, t) = (err e, t)
  report run_id (ok hooks, t) = (
    (do s ← snapshot run_id t; ok (record { snapshot = s; hook_errors = run_hooks run_id hooks })),
    t,
  )

  -- The part of `cancel` under the lock, and the wake of the event waiters.
  unfoldable pub write_cancel : RunId → Action V (List RunCancellationHook)
  unfolding with_record then_wake cancel_record
  write_cancel run_id t = then_wake (with_record run_id cancel_record t)

  unfoldable pub cancel : RunId → Action V (CancellationReport V)
  unfolding write_cancel close_operations report
  cancel run_id t = report run_id (close_operations run_id (write_cancel run_id t))

  unfoldable pub events_since :
      RunId → ℕ → RunTable V → Result RunTableError (List (RunEventEnvelope V))
  unfolding get_record
  events_since run_id sequence t = do
    r ← get_record run_id t
    ok (keep_if (λ e. ltb sequence e.sequence) r.events)
