-- ===== src/Operations/Guards.antt =====
-- When each method of the store succeeds, and what it then writes.
use Prim.Native.String.{String}
use aifluxon.Prelude.{
  ℕ, suc, ◌≡◌, true, false, none, some, arith, Option-cases, inl, inr, not, ◌&&◌, Result, ok,
}
use aifluxon.Prelude.Map.{lookup, insert, remove as remove_key}
use aifluxon.Prelude.IdSet.{contains}
use aifluxon.Core.Message.{RunId, OperationId}
use aifluxon.Core.Operation.{
  PendingOperation, OperationDecision, is_approve, is_pending, is_approved, is_committing,
  is_blocking, pending, committing,
}
use aifluxon.Operations.{
  OperationStore, OperationRecord, register, resolve, begin_commit, finish_blocking_approval,
  finish_commit, remove, is_due, decision_state, result_state, put, wake,
}

module _ {V : Type 0} where
  pub register-eq-ok :
      (now : ℕ) (op : PendingOperation V) (s : OperationStore V) {t : OperationStore V}
      → register now op s ≡ ok t
      → (contains op.run_id s.terminal_runs ≡ false)
        × (lookup op.id s.operations ≡ none)
        × (is_due now op ≡ false)
        × (t ≡ record s {
          operations =
              insert op.id
                (record {
                  operation = op;
                  state = pending;
                  decision = none;
                  notify = s.next_notify;
                })
                s.operations;
          next_notify = suc s.next_notify;
        })
  unfolding register
  register-eq-ok now op s h = ground arith

  pub resolve-eq-ok :
      (run_id : RunId) (id : OperationId) (d : OperationDecision V) (s : OperationStore V)
      {t : OperationStore V}
      → resolve run_id id d s ≡ ok t
      → (r : OperationRecord V) × (lookup id s.operations ≡ some r)
        × (r.operation.run_id ≡ run_id)
        × (contains run_id s.terminal_runs ≡ false)
        × (is_pending r.state ≡ true)
        × ((not (is_blocking r.operation.mode) && is_approve d) ≡ false)
        × (t ≡ wake r.notify (put id (record r { state = decision_state d; decision = some d }) s))
  unfolding resolve
  resolve-eq-ok run_id id d s h = elim (Option-cases (lookup id s.operations)) [
    | inl e ↦ ground arith
    | inr (r, e) ↦ (r, e, ground arith, ground arith, ground arith, ground arith, ground arith)
  ]

  pub begin_commit-eq-ok :
      (run_id : RunId) (id : OperationId) (s : OperationStore V) {t : OperationStore V}
      → begin_commit run_id id s ≡ ok t
      → (r : OperationRecord V) × (lookup id s.operations ≡ some r)
        × (r.operation.run_id ≡ run_id)
        × (contains run_id s.terminal_runs ≡ false)
        × (is_pending r.state ≡ true)
        × (is_blocking r.operation.mode ≡ false)
        × (t ≡ wake r.notify (put id (record r { state = committing }) s))
  unfolding begin_commit
  begin_commit-eq-ok run_id id s h = elim (Option-cases (lookup id s.operations)) [
    | inl e ↦ ground arith
    | inr (r, e) ↦ (r, e, ground arith, ground arith, ground arith, ground arith, ground arith)
  ]

  pub finish_blocking_approval-eq-ok :
      (run_id : RunId) (id : OperationId) (result : Result String (Unit {0})) (s : OperationStore V)
      {t : OperationStore V}
      → finish_blocking_approval run_id id result s ≡ ok t
      → (r : OperationRecord V) × (lookup id s.operations ≡ some r)
        × (r.operation.run_id ≡ run_id)
        × (is_approved r.state ≡ true)
        × (is_blocking r.operation.mode ≡ true)
        × (t ≡ put id (record r { state = result_state result }) s)
  unfolding finish_blocking_approval
  finish_blocking_approval-eq-ok run_id id result s h =
      elim (Option-cases (lookup id s.operations)) [
        | inl e ↦ ground arith
        | inr (r, e) ↦ (r, e, ground arith, ground arith, ground arith, ground arith)
      ]

  pub finish_commit-eq-ok :
      (run_id : RunId) (id : OperationId) (result : Result String (Unit {0})) (s : OperationStore V)
      {t : OperationStore V}
      → finish_commit run_id id result s ≡ ok t
      → (r : OperationRecord V) × (lookup id s.operations ≡ some r)
        × (r.operation.run_id ≡ run_id)
        × (is_committing r.state ≡ true)
        × (t ≡ put id (record r { state = result_state result }) s)
  unfolding finish_commit
  finish_commit-eq-ok run_id id result s h = elim (Option-cases (lookup id s.operations)) [
    | inl e ↦ ground arith
    | inr (r, e) ↦ (r, e, ground arith, ground arith, ground arith)
  ]

  pub remove-eq-ok :
      (run_id : RunId) (id : OperationId) (s : OperationStore V) {t : OperationStore V}
      → remove run_id id s ≡ ok t
      → (r : OperationRecord V) × (lookup id s.operations ≡ some r)
        × (r.operation.run_id ≡ run_id)
        × (t ≡ wake r.notify (record s { operations = remove_key id s.operations }))
  unfolding remove
  remove-eq-ok run_id id s h = elim (Option-cases (lookup id s.operations)) [
    | inl e ↦ ground arith
    | inr (r, e) ↦ (r, e, ground arith, ground arith)
  ]
