-- ===== src/Operations/Answers.antt =====
-- What the waiting methods and the snapshots answer.
use aifluxon.Core.Message.{RunId, OperationId}
use aifluxon.Core.Operation.{
  OperationDecision, is_approve, is_blocking, approve, committed, approved, reject, rejected,
  OperationState, committing, pending, is_terminal,
}
use aifluxon.Operations.{
  OperationRecord, OperationStore, resolve, wait, wait_for_commit_or_reject, begin_commit, decided,
  invalid_state, decision_state, put, wake,
}
use aifluxon.Operations.Change.{Inv}
use aifluxon.Operations.Command.{Command, step, run, resolves}
use aifluxon.Operations.Final.{terminal_kept}
use aifluxon.Operations.Guards.{resolve-eq-ok}
use aifluxon.Operations.Invariant.{step-Inv}
use aifluxon.Operations.Standing.{LeavesAll, LeavesAll-SparesAll, run-live, approved_kept}
use aifluxon.Prelude.Map.{lookup, lookup-insert}
use aifluxon.Prelude.{
  ◌≡◌, true, false, none, some, arith, ok, err, Option-cases, refl, inl, inr, List, subst, ◌∙◌,
}
use aifluxon.Operations.Lifecycle.{IsCoherent}

module _ {V : Type 0} where
  -- What `wait` finds of a decision that stands.
  wait-decided :
      (s : OperationStore V) (run_id : RunId) (id : OperationId) (d : OperationDecision V)
      (r : OperationRecord V)
      → s.poisoned ≡ false
      → lookup id s.operations ≡ some (record r { state = decision_state d; decision = some d })
      → r.operation.run_id ≡ run_id
      → is_blocking r.operation.mode ≡ true
      → wait run_id id s ≡ ok (decided d)
  unfolding wait decision_state
  wait-decided s run_id id (approve payload) r live there owner b = ground arith
  wait-decided s run_id id (reject reason) r live there owner b = ground arith

  -- Where the record goes that a decision was written to.
  decided_kept :
      (t : OperationStore V) (cs : List (Command V)) (run_id : RunId) (id : OperationId)
      (d : OperationDecision V) (r : OperationRecord V)
      → Inv t
      → LeavesAll run_id id d cs
      → r.operation.run_id ≡ run_id
      → lookup id t.operations ≡ some (record r { state = decision_state d; decision = some d })
      → lookup id (run t cs).operations
        ≡ some (record r { state = decision_state d; decision = some d })
  unfolding decision_state is_terminal
  decided_kept t cs run_id id (approve payload) r v k owner h =
      approved_kept run_id id (record r { state = approved; decision = some (approve payload) })
        refl owner t cs payload k h
  decided_kept t cs run_id id (reject reason) r v k owner h =
      terminal_kept t cs id (record r { state = rejected; decision = some (reject reason) }) v
        (LeavesAll-SparesAll run_id id (reject reason) cs k) h refl

  resolve-live :
      (s t : OperationStore V) (run_id : RunId) (id : OperationId) (d : OperationDecision V)
      → resolve run_id id d s ≡ ok t
      → t.poisoned ≡ false
  unfolding resolve
  resolve-live s t run_id id d e = elim (Option-cases (lookup id s.operations)) [
    | inl h ↦ ground arith
    | inr (r, h) ↦ ground arith
  ]

  -- From a store that keeps Inv, after a decision was recorded for a blocking approval, a waiter
  -- receives that very decision after any history that does not remove the operation and, where the
  -- decision is an approval, does not cancel its run or report its effect.
  pub wait-resolve :
      (s t : OperationStore V) (cs : List (Command V)) (run_id : RunId) (id : OperationId)
      (d : OperationDecision V) (r : OperationRecord V)
      → Inv s
      → resolve run_id id d s ≡ ok t
      → lookup id s.operations ≡ some r
      → is_blocking r.operation.mode ≡ true
      → LeavesAll run_id id d cs
      → wait run_id id (run t cs) ≡ ok (decided d)
  unfolding step put wake
  wait-resolve s t cs run_id id d r v e h b k =
      let (r₀, found, owner, _, _, _, shape) = resolve-eq-ok run_id id d s e in
      let there = record r₀ { state = decision_state d; decision = some d } in
      let same : r₀ ≡ r = ground (arith, h, found) in
      let v' : Inv t = subst Inv (rw (e, step)) (step-Inv s (resolves run_id id d) v) in
      let live : (run t cs).poisoned ≡ false = run-live t cs v' ∙ resolve-live s t run_id id d e in
      wait-decided (run t cs) run_id id d r₀ live
        (decided_kept t cs run_id id d r₀ v' k owner
          (ground (arith, shape, lookup-insert id id there s.operations)))
        owner (rw same b)

  -- A deferred commit is never approved by a decision, and its waiter receives a rejection as it
  -- was recorded.
  pub wait_for_commit-resolve :
      (s t : OperationStore V) (run_id : RunId) (id : OperationId) (d : OperationDecision V)
      (r : OperationRecord V)
      → resolve run_id id d s ≡ ok t
      → lookup id s.operations ≡ some r
      → is_blocking r.operation.mode ≡ false
      → (is_approve d ≡ false) × (wait_for_commit_or_reject run_id id t ≡ ok (decided d))
  unfolding resolve wait_for_commit_or_reject
  wait_for_commit-resolve s t run_id id (approve a) r e h b = absurd (ground arith)
  wait_for_commit-resolve s t run_id id (reject a) r e h b = (
    ground arith,
    ground (
      arith,
      lookup-insert id id (record r { state = rejected; decision = some (reject a) }) s.operations,
    ),
  )

  -- The waiter of a deferred commit goes ahead once the commit began.
  pub wait_for_commit-begin_commit :
      (s t : OperationStore V) (run_id : RunId) (id : OperationId)
      → begin_commit run_id id s ≡ ok t
      → wait_for_commit_or_reject run_id id t ≡ ok (decided (approve none))
  unfolding begin_commit wait_for_commit_or_reject
  wait_for_commit-begin_commit s t run_id id e = elim (Option-cases (lookup id s.operations)) [
    | inl h ↦ ground arith
    | inr (r, h) ↦
        ground (arith, lookup-insert id id (record r { state = committing }) s.operations)
  ]

  wait_coherent :
      (s : OperationStore V) (run_id : RunId) (id : OperationId) (r : OperationRecord V)
      (a : OperationState)
      → r.state ≡ a
      → IsCoherent r.operation.mode a r.decision
      → lookup id s.operations ≡ some r
      → wait run_id id s ≡ err invalid_state
      → r.state ≡ committed
  unfolding wait
  wait_coherent s run_id id r pending k c h e = ground arith
  wait_coherent s run_id id r _ k c h e = ground arith

  -- With the invariant, a blocking waiter is told of an invalid state only after the effect was
  -- committed.
  pub wait_invalid :
      (s : OperationStore V) (run_id : RunId) (id : OperationId) (r : OperationRecord V)
      → Inv s
      → lookup id s.operations ≡ some r
      → wait run_id id s ≡ err invalid_state
      → r.state ≡ committed
  wait_invalid s run_id id r v h e = wait_coherent s run_id id r r.state refl (v.at_id id r h).1 h e
