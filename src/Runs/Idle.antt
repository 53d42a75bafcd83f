-- ===== src/Runs/Idle.antt =====
-- The check of `finish`: whether a run has an operation that is not in a terminal state.
use aifluxon.Operations.Snapshots
use aifluxon.Core.Operation
use aifluxon.Operations.Snapshots.{of_run, to_snapshot, sort_by_id, insert_sorted}
use aifluxon.Core.Operation.{OperationSnapshot}
use aifluxon.Operations.{OperationRecord, OperationStore}
use aifluxon.Runs.Table.{RunTable, has_open, check_operations}
use aifluxon.Prelude.Map.{values}
use aifluxon.Core.Message.{RunId}
use aifluxon.Runs.Record.{pending_operations}
use aifluxon.Prelude.{
  ◌==◌, any, keep_if, ◌≡◌, refl, Bool, true, false, not, ◌&&◌, ◌||◌, List, [], ◌∷◌, map, arith, ◌∙◌,
  ok, err, Bool-cases, inl, inr,
}

module _ {V : Type 0} where
  -- The operation belongs to the run and is not in a terminal state.
  abbrev pub is_open : RunId → OperationRecord V → Bool
  is_open run_id r = r.operation.run_id == run_id && not (Operation.is_terminal r.state)

  any-insert_sorted :
      (p : OperationSnapshot V → Bool) (x : OperationSnapshot V) (ys : List (OperationSnapshot V))
      → any p (insert_sorted x ys) ≡ (p x || any p ys)
  unfolding insert_sorted
  any-insert_sorted p x [] = ground arith
  any-insert_sorted p x (y ∷ ys) = ground (arith, any-insert_sorted p x ys)

  any-sort_by_id :
      (p : OperationSnapshot V → Bool) (xs : List (OperationSnapshot V))
      → any p (sort_by_id xs) ≡ any p xs
  unfolding sort_by_id
  any-sort_by_id p [] = refl
  any-sort_by_id p (x ∷ xs) =
      ground (arith, any-insert_sorted p x (sort_by_id xs), any-sort_by_id p xs)

  has_open-map :
      (run_id : RunId) (rs : List (OperationRecord V))
      → has_open (map to_snapshot (keep_if (of_run run_id) rs)) ≡ any (is_open run_id) rs
  unfolding has_open of_run
  has_open-map run_id [] = refl
  has_open-map run_id (r ∷ rs) = ground (arith, has_open-map run_id rs)

  snapshot-has_open :
      (run_id : RunId) (s : OperationStore V)
      → s.poisoned ≡ false
      → any (is_open run_id) (values s.operations) ≡ true
      → (ss : List (OperationSnapshot V)) × (Snapshots.snapshot run_id s ≡ ok ss)
        × (has_open ss ≡ true)
  unfolding Snapshots.snapshot has_open
  snapshot-has_open run_id s live busy =
      let mine = map to_snapshot (keep_if (of_run run_id) (values s.operations)) in
      (
        sort_by_id mine,
        ground (arith, live),
        any-sort_by_id (λ x. not (Operation.is_terminal x.state)) mine
            ∙ has_open-map run_id (values s.operations)
            ∙ busy,
      )

  pub check-idle :
      (t : RunTable V) (run_id : RunId)
      → check_operations run_id t ≡ ok tt
      → any (is_open run_id) (values t.operations.operations) ≡ false
  unfolding check_operations Snapshots.snapshot
  check-idle t run_id e =
      elim (Bool-cases (any (is_open run_id) (values t.operations.operations))) [
        | inr idle ↦ idle
        | inl busy ↦
            let (ss, read, some_open) = snapshot-has_open run_id t.operations (ground arith) busy in
            ground (arith, read, some_open)
      ]

  pub check_blocked :
      (t : RunTable V) (run_id : RunId)
      → t.operations.poisoned ≡ false
      → any (is_open run_id) (values t.operations.operations) ≡ true
      → check_operations run_id t ≡ err pending_operations
  unfolding check_operations
  check_blocked t run_id live busy =
      let (ss, e, some_open) = snapshot-has_open run_id t.operations live busy in
      rw (e, some_open, check_operations) refl
