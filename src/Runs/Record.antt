-- ===== src/Runs/Record.antt =====
-- One run: its state, its event log and what changes them (run_table.rs). Events stand oldest
-- first, as in the Vec. A cancellation hook is the function of the run that it computes.
use aifluxon.Ledger
use Prim.Native.String.{String}
use aifluxon.Operations.{OperationError}
use aifluxon.Core.Run.{
  RunState, RunEvent, running, awaiting_operation, state_changed, run_started, u64_max, RunContext,
  RunLimits, RunEventEnvelope, terminal_state,
}
use aifluxon.Budget.{saturating_add, AgentLoopBudget, from_run_limits}
use aifluxon.Core.Message.{RunId}
use aifluxon.Ledger.{ToolLedger, empty}
use aifluxon.Prelude.{
  if◌then◌else◌, is_some, last, Result, ℕ, Bool, true, false, none, some, List, [], ◌∷◌, ◌++◌, ok,
  err,
}

pub data RunTableError : Type 0 where
  identifier_collision unknown_run run_terminal pending_operations store_unavailable : RunTableError
  invalid_transition : RunState → RunState → RunTableError
  operation : OperationError → RunTableError

abbrev pub RunCancellationHook : Type 0
RunCancellationHook = RunId → Result String (Unit {0})

pub record RunRecord (V : Type 0) : Type 0 where
  pub context : RunContext
  pub limits : RunLimits
  pub state : RunState
  pub is_cancelled : Bool
  pub budget : AgentLoopBudget
  pub ledger : ToolLedger V
  pub hooks : List RunCancellationHook
  pub events : List (RunEventEnvelope V)

unfoldable pub is_terminal : RunState → Bool
is_terminal RunState.completed = true
is_terminal RunState.failed = true
is_terminal RunState.cancelled = true
is_terminal _ = false

-- The pairs of `matches!` in `set_state`.
unfoldable pub may_follow : RunState → RunState → Bool
may_follow running running = true
may_follow running awaiting_operation = true
may_follow awaiting_operation awaiting_operation = true
may_follow awaiting_operation running = true
may_follow _ _ = false

-- A method on one record returns its result and the record, which keeps what was written before
-- an error.
abbrev pub Update : Type 0 → Type 0 → Type 0
Update V A = RunRecord V → Result RunTableError A × RunRecord V

module _ {V : Type 0} where
  -- events.last().is_some_and(|last| last.event.terminal_state().is_some()).
  unfoldable pub is_closed : List (RunEventEnvelope V) → Bool
  unfolding terminal_state
  is_closed events = elim (last events) [ none ↦ false | some e ↦ is_some (terminal_state e.event) ]

  -- events.last().map(|event| event.sequence.saturating_add(1)).unwrap_or(1).
  unfoldable pub next_sequence : List (RunEventEnvelope V) → ℕ
  next_sequence events = elim (last events) [
    | none ↦ 1
    | some e ↦ saturating_add u64_max e.sequence 1
  ]

  unfoldable pub append_event : RunEvent V → Update V ℕ
  unfolding is_closed next_sequence
  append_event event r = if is_closed r.events then (err run_terminal, r) else (
    ok (next_sequence r.events),
    record r {
      events =
          r.events
          ++ record { sequence = next_sequence r.events; run_id = r.context.run_id; event = event }
            ∷ [];
    },
  )

  -- The part of `set_state` under the lock.
  unfoldable pub set_record_state : RunState → Update V ℕ
  unfolding is_terminal may_follow append_event
  set_record_state state r =
      if is_terminal r.state
      then (err run_terminal, r)
      else if may_follow r.state state
      then append_event (state_changed state) (record r { state = state })
      else (err (invalid_transition r.state state), r)

  -- The part of `emit` under the lock.
  unfoldable pub emit_record : RunEvent V → Update V ℕ
  unfolding is_terminal append_event
  emit_record event r = if is_terminal r.state then (err run_terminal, r) else append_event event r

  -- The part of `finish` under the lock.
  unfoldable pub finish_record : RunState → RunEvent V → Update V ℕ
  unfolding is_terminal append_event
  finish_record state event r =
      if is_terminal r.state
      then (err run_terminal, r)
      else append_event event (record r { state = state })

  -- append_event(...)?; std::mem::take(&mut record.hooks).
  take_hooks :
      Result RunTableError ℕ × RunRecord V
      → Result RunTableError (List RunCancellationHook) × RunRecord V
  take_hooks (ok n, r) = (ok r.hooks, record r { hooks = [] })
  take_hooks (err e, r) = (err e, r)

  -- The part of `cancel` under the lock.
  unfoldable pub cancel_record : Update V (List RunCancellationHook)
  unfolding is_terminal append_event take_hooks
  cancel_record r =
      if is_terminal r.state
      then (err run_terminal, r)
      else take_hooks (
          append_event RunEvent.cancelled
            (record r { state = RunState.cancelled; is_cancelled = true }))

  -- The part of `register_cancellation_hook` under the lock.
  unfoldable pub add_hook : RunCancellationHook → Update V (Unit {0})
  unfolding is_terminal
  add_hook hook r =
      if is_terminal r.state
      then (err run_terminal, r)
      else (ok tt, record r { hooks = r.hooks ++ hook ∷ [] })

  -- The record that `register` inserts.
  unfoldable pub new_record : ℕ → RunContext → RunLimits → RunRecord V
  unfolding from_run_limits Ledger.empty
  new_record now context limits = record {
    context = context;
    limits = limits;
    state = running;
    is_cancelled = false;
    budget = from_run_limits now limits;
    ledger = Ledger.empty;
    hooks = [];
    events = record { sequence = 1; run_id = context.run_id; event = run_started context } ∷ [];
  }
