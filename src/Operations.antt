-- ===== src/Operations.antt =====
-- crates/aifluxon-runtime/src/operations.rs: the in-memory store of approvals and commits.
-- Every method takes the store's mutex once and checks before it writes, so a method returns the new
-- store or an error that leaves the store as it was. `poisoned` is the state of the mutex.
-- `wakes` lists the Notify objects on which notify_waiters was called, newest first; each
-- record's Notify has an identity of its own. The current time is an argument.
pub mod Command
pub mod Guards
pub mod Lifecycle
pub mod Change
pub mod Invariant
pub mod Moves
pub mod Final
pub mod Quiet
pub mod Wakeups
pub mod Standing
pub mod Answers
pub mod Snapshots
use Prim.Native.String.{String}
use aifluxon.Prelude.{
  ℕ, suc, Bool, true, false, not, ◌&&◌, ◌||◌, Option, none, some, List, [], ◌∷◌, ◌++◌, map, ◌==◌,
  leb, length, keep_if, if◌then◌else◌, Result, ok, err, ok_or, guard, ◌>>=◌, ◌>>◌, is_some,
}
use aifluxon.Prelude.Map.{Map, lookup, insert, remove as remove_key, map_values, values}
use aifluxon.Prelude.IdSet.{contains, include}
use aifluxon.Core.Message.{RunId, OperationId}
use aifluxon.Core.Operation.{
  PendingOperation, OperationDecision, OperationState, OperationSnapshot, OperationMode, approve,
  reject, pending, approved, rejected, committing, committed, cancelled, expired, failed,
  blocking_approval, deferred_commit, is_approve, is_pending, is_approved, is_committing,
  is_blocking,
}

pub data OperationError : Type 0 where
  identifier_collision unknown_operation wrong_run already_resolved : OperationError
  blocking_wait_required deferred_commit_required invalid_state run_terminal : OperationError
  operation_cancelled operation_expired store_unavailable : OperationError
  commit_failed : String → OperationError

pub record OperationRecord (V : Type 0) : Type 0 where
  pub operation : PendingOperation V
  pub state : OperationState
  pub decision : Option (OperationDecision V)
  pub notify : ℕ

pub record OperationStore (V : Type 0) : Type 0 where
  pub operations : Map (OperationRecord V)
  pub terminal_runs : List RunId
  pub poisoned : Bool
  pub next_notify : ℕ
  pub wakes : List ℕ

-- One turn of a waiting loop: it sleeps on a Notify that it took when `wakes` had some length,
-- or it returns.
pub data Turn (V : Type 0) : Type 0 where
  asleep : ℕ → ℕ → Turn V
  decided : OperationDecision V → Turn V

-- The state after a host effect.
unfoldable pub result_state : Result String (Unit {0}) → OperationState
result_state (ok _) = committed
result_state (err message) = failed message

module _ {V : Type 0} where
  unfoldable pub empty : OperationStore V
  empty = record {
    operations = [];
    terminal_runs = [];
    poisoned = false;
    next_notify = 0;
    wakes = [];
  }

  unfoldable pub lock : OperationStore V → Result OperationError (Unit {0})
  lock s = guard (not s.poisoned) store_unavailable

  unfoldable pub record_for_run :
      OperationStore V → RunId → OperationId → Result OperationError (OperationRecord V)
  record_for_run s run_id operation_id = do
    r ← ok_or (lookup operation_id s.operations) unknown_operation
    guard (r.operation.run_id == run_id) wrong_run
    ok r

  -- deadline.is_some_and(|deadline| deadline <= now).
  unfoldable pub is_due : ℕ → PendingOperation V → Bool
  is_due now operation = elim operation.deadline [ none ↦ false | some d ↦ leb d now ]

  unfoldable pub register :
      ℕ → PendingOperation V → OperationStore V → Result OperationError (OperationStore V)
  unfolding lock is_due
  register now operation s = do
    lock s
    guard (not (contains operation.run_id s.terminal_runs)) run_terminal
    guard (not (is_some (lookup operation.id s.operations))) identifier_collision
    guard (not (is_due now operation)) operation_expired
    ok (record s {
      operations =
          insert operation.id
            (record {
              operation = operation;
              state = pending;
              decision = none;
              notify = s.next_notify;
            })
            s.operations;
      next_notify = suc s.next_notify;
    })

  -- A write through the record's `&mut`.
  unfoldable pub put : OperationId → OperationRecord V → OperationStore V → OperationStore V
  put operation_id r s = record s { operations = insert operation_id r s.operations }

  -- notify_waiters.
  unfoldable pub wake : ℕ → OperationStore V → OperationStore V
  wake n s = record s { wakes = n ∷ s.wakes }

  unfoldable pub decision_state : OperationDecision V → OperationState
  decision_state (approve _) = approved
  decision_state (reject _) = rejected

  unfoldable pub resolve :
      RunId
      → OperationId
      → OperationDecision V
      → OperationStore V
      → Result OperationError (OperationStore V)
  unfolding lock record_for_run put wake decision_state is_pending is_blocking is_approve
  resolve run_id operation_id decision s = do
    lock s
    guard (not (contains run_id s.terminal_runs)) run_terminal
    r ← record_for_run s run_id operation_id
    guard (is_pending r.state) already_resolved
    guard (not (not (is_blocking r.operation.mode) && is_approve decision)) deferred_commit_required
    ok (
        wake r.notify (
          put operation_id (record r { state = decision_state decision; decision = some decision })
            s))

  wait_state : OperationRecord V → ℕ → OperationState → Result OperationError (Turn V)
  wait_state r seen pending = ok (asleep r.notify seen)
  wait_state r seen approved = elim r.decision [
    | none ↦ err invalid_state
    | some d ↦ ok (decided d)
  ]
  wait_state r seen rejected = elim r.decision [
    | none ↦ err invalid_state
    | some d ↦ ok (decided d)
  ]
  wait_state r seen cancelled = err operation_cancelled
  wait_state r seen expired = err operation_expired
  wait_state r seen (failed message) = err (commit_failed message)
  wait_state r seen committing = err invalid_state
  wait_state r seen committed = err invalid_state

  -- One turn of `wait`.
  unfoldable pub wait : RunId → OperationId → OperationStore V → Result OperationError (Turn V)
  unfolding lock record_for_run is_blocking wait_state
  wait run_id operation_id s = do
    lock s
    r ← record_for_run s run_id operation_id
    guard (is_blocking r.operation.mode) blocking_wait_required
    wait_state r (length s.wakes) r.state

  commit_state : OperationRecord V → ℕ → OperationState → Result OperationError (Turn V)
  commit_state r seen pending = ok (asleep r.notify seen)
  commit_state r seen committing = ok (decided (approve none))
  commit_state r seen rejected = elim r.decision [
    | none ↦ err invalid_state
    | some d ↦ ok (decided d)
  ]
  commit_state r seen cancelled = err operation_cancelled
  commit_state r seen expired = err operation_expired
  commit_state r seen (failed message) = err (commit_failed message)
  commit_state r seen approved = err invalid_state
  commit_state r seen committed = err invalid_state

  -- One turn of `wait_for_commit_or_reject`.
  unfoldable pub wait_for_commit_or_reject :
      RunId → OperationId → OperationStore V → Result OperationError (Turn V)
  unfolding lock record_for_run is_blocking commit_state
  wait_for_commit_or_reject run_id operation_id s = do
    lock s
    r ← record_for_run s run_id operation_id
    guard (not (is_blocking r.operation.mode)) deferred_commit_required
    commit_state r (length s.wakes) r.state

  unfoldable pub begin_commit :
      RunId → OperationId → OperationStore V → Result OperationError (OperationStore V)
  unfolding lock record_for_run put wake is_pending is_blocking
  begin_commit run_id operation_id s = do
    lock s
    guard (not (contains run_id s.terminal_runs)) run_terminal
    r ← record_for_run s run_id operation_id
    guard (not (is_blocking r.operation.mode)) deferred_commit_required
    guard (is_pending r.state) already_resolved
    ok (wake r.notify (put operation_id (record r { state = committing }) s))

  unfoldable pub finish_blocking_approval :
      RunId
      → OperationId
      → Result String (Unit {0})
      → OperationStore V
      → Result OperationError (OperationStore V)
  unfolding lock record_for_run put result_state is_blocking is_approved
  finish_blocking_approval run_id operation_id result s = do
    lock s
    r ← record_for_run s run_id operation_id
    guard (not (not (is_blocking r.operation.mode) || not (is_approved r.state))) invalid_state
    ok (put operation_id (record r { state = result_state result }) s)

  unfoldable pub finish_commit :
      RunId
      → OperationId
      → Result String (Unit {0})
      → OperationStore V
      → Result OperationError (OperationStore V)
  unfolding lock record_for_run put result_state is_committing
  finish_commit run_id operation_id result s = do
    lock s
    r ← record_for_run s run_id operation_id
    guard (is_committing r.state) invalid_state
    ok (put operation_id (record r { state = result_state result }) s)

  -- The filter of `cancel_run`.
  unfoldable pub cancellable : RunId → OperationRecord V → Bool
  unfolding is_pending is_approved
  cancellable run_id r = r.operation.run_id == run_id && (is_pending r.state || is_approved r.state)

  -- The filter of `expire`.
  unfoldable pub expirable : ℕ → OperationRecord V → Bool
  unfolding is_pending is_due
  expirable now r = is_pending r.state && is_due now r.operation

  -- values_mut().filter(test).map(...): the state of each match is set and its Notify is collected.
  unfoldable pub sweep :
      (OperationRecord V → Bool) → OperationState → OperationStore V → OperationStore V × ℕ
  sweep test state s =
      let hits = keep_if test (values s.operations) in
      (
        record s {
          operations =
              map_values (λ r. if test r then record r { state = state } else r) s.operations;
          wakes = map (λ r. r.notify) hits ++ s.wakes;
        },
        length hits,
      )

  unfoldable pub cancel_run :
      RunId → OperationStore V → Result OperationError (OperationStore V × ℕ)
  unfolding lock sweep cancellable
  cancel_run run_id s = do
    lock s
    ok (
        sweep (cancellable run_id) cancelled
          (record s { terminal_runs = include run_id s.terminal_runs }))

  unfoldable pub mark_run_terminal :
      RunId → OperationStore V → Result OperationError (OperationStore V × ℕ)
  unfolding cancel_run
  mark_run_terminal = cancel_run

  unfoldable pub expire : ℕ → OperationStore V → Result OperationError (OperationStore V × ℕ)
  unfolding lock sweep expirable
  expire now s = do lock s; ok (sweep (expirable now) expired s)

  unfoldable pub remove :
      RunId → OperationId → OperationStore V → Result OperationError (OperationStore V)
  unfolding lock record_for_run wake
  remove run_id operation_id s = do
    lock s
    r ← record_for_run s run_id operation_id
    ok (wake r.notify (record s { operations = remove_key operation_id s.operations }))
