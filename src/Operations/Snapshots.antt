-- ===== src/Operations/Snapshots.antt =====
-- The sorted snapshot of a run's operations. Hyphenated UUIDs have one length and lower-case hex
-- digits, so their order as text is the order of their numbers.
use aifluxon.Core.Message.{RunId, OperationId}
use aifluxon.Core.Operation.{OperationSnapshot}
use aifluxon.Operations.{OperationError, OperationRecord, OperationStore, lock, record_for_run}
use aifluxon.Prelude.{
  ◌>>=◌, ◌>>◌, leb, ◌==◌, if◌then◌else◌, keep_if, Result, Bool, List, [], ◌∷◌, map, ok,
}
use aifluxon.Prelude.Map.{values}

module _ {V : Type 0} where
  unfoldable pub insert_sorted :
      OperationSnapshot V → List (OperationSnapshot V) → List (OperationSnapshot V)
  insert_sorted x [] = x ∷ []
  insert_sorted x (y ∷ ys) =
      if leb x.operation.id y.operation.id then x ∷ y ∷ ys else y ∷ insert_sorted x ys

  -- snapshots.sort_by_key(...).
  unfoldable pub sort_by_id : List (OperationSnapshot V) → List (OperationSnapshot V)
  unfolding insert_sorted
  sort_by_id [] = []
  sort_by_id (x ∷ xs) = insert_sorted x (sort_by_id xs)

  unfoldable pub of_run : RunId → OperationRecord V → Bool
  of_run run_id r = r.operation.run_id == run_id

  abbrev pub to_snapshot : OperationRecord V → OperationSnapshot V
  to_snapshot r = record { operation = r.operation; state = r.state }

  unfoldable pub snapshot :
      RunId → OperationStore V → Result OperationError (List (OperationSnapshot V))
  unfolding lock of_run sort_by_id
  snapshot run_id s = do
    lock s
    ok (sort_by_id (map to_snapshot (keep_if (of_run run_id) (values s.operations))))

  unfoldable pub snapshot_operation :
      RunId → OperationId → OperationStore V → Result OperationError (OperationSnapshot V)
  unfolding lock record_for_run
  snapshot_operation run_id id s = do lock s; r ← record_for_run s run_id id; ok (to_snapshot r)
