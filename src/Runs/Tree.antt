-- ===== src/Runs/Tree.antt =====
-- Cancelling a run with all its descendants (run_table.rs, `cancel_tree`). The head of `pending` is
-- the end of the Vec.
pub mod Collect
pub mod Closing
use mathlib.Core.Option
use aifluxon.Runs.Record.{run_terminal, RunTableError, RunRecord}
use aifluxon.Core.Message.{RunId}
use aifluxon.Prelude.{
  ◌==◌, length, keep_if, Result, ℕ, zero, suc, ◌+◌, Bool, true, false, Option, none, some, List, [],
  ◌∷◌, ◌++◌, map, ok, err,
}
use aifluxon.Prelude.IdSet.{contains}
use aifluxon.Prelude.Map.{values}
use aifluxon.Runs.Table.{RunTable, CancellationReport, Action, get_record, report, cancel}

-- pending.extend(...).
unfoldable pub push_all : List RunId → List RunId → List RunId
push_all [] pending = pending
push_all (k ∷ ks) pending = push_all ks (k ∷ pending)

module _ {V : Type 0} where
  -- record.context.parent_run_id == Some(parent).
  unfoldable pub is_child : RunId → RunRecord V → Bool
  is_child parent r = elim r.context.parent_run_id [ none ↦ false | some p ↦ p == parent ]

  unfoldable pub children : RunId → List (RunRecord V) → List RunId
  unfolding is_child
  children parent rs = map (λ r. r.context.run_id) (keep_if (is_child parent) rs)

  -- The `while` loop, with `none` when the fuel runs out.
  unfoldable pub collect : ℕ → List (RunRecord V) → List RunId → List RunId → Option (List RunId)
  unfolding children
  collect zero rs pending targets = elim pending [ [] ↦ some targets | _ ∷ _ ↦ none ]
  collect (suc fuel) rs pending targets = elim pending [
    | [] ↦ some targets
    | parent ∷ rest ↦ elim (contains parent targets) [
      | true ↦ collect fuel rs rest targets
      | false ↦ collect fuel rs (push_all (children parent rs) rest) (targets ++ parent ∷ [])
    ]
  ]

  -- Each run is pushed by its parent once, and the root once more.
  unfoldable pub collect_fuel : List (RunRecord V) → ℕ
  collect_fuel rs = length rs + 2

  -- One round of the last loop: the report is kept, a terminal run is skipped, any other error
  -- ends the method. `later` is the rest of the loop.
  unfoldable pub cancel_round :
      (List (CancellationReport V) → Action V (List (CancellationReport V)))
      → List (CancellationReport V)
      → Result RunTableError (CancellationReport V) × RunTable V
      → Result RunTableError (List (CancellationReport V)) × RunTable V
  cancel_round later reports (ok report, t) = later (reports ++ report ∷ []) t
  cancel_round later reports (err run_terminal, t) = later reports t
  cancel_round later reports (err e, t) = (err e, t)

  unfoldable pub cancel_each :
      List RunId → List (CancellationReport V) → Action V (List (CancellationReport V))
  unfolding cancel_round
  cancel_each [] reports t = (ok reports, t)
  cancel_each (target ∷ targets) reports t =
      cancel_round (cancel_each targets) reports (cancel target t)

  -- `contains(root)?`, the targets under the lock, and their cancellation in order. `none` does not
  -- occur.
  unfoldable pub cancel_tree :
      RunId → RunTable V → Option (Result RunTableError (List (CancellationReport V)) × RunTable V)
  unfolding get_record collect collect_fuel cancel_each
  cancel_tree root t = elim (get_record root t) [
    | err e ↦ some (err e, t)
    | ok _ ↦
        Option.map (λ targets. cancel_each targets [] t)
          (collect (collect_fuel (values t.runs)) (values t.runs) (root ∷ []) [])
  ]
