-- ===== src/Examples/Approvals.antt =====
-- The operation store on a blocking approval and a deferred commit of one run.
use aifluxon.Operations
use aifluxon.Core.Operation
use aifluxon.Operations.Command.{registers, resolves, begins, cancels, expires, Command, step, run}
use aifluxon.Core.Operation.{
  approve, reject, pending, approved, blocking_approval, deferred_commit, fs_write,
  PendingOperation, is_approve, cancelled, committed, is_terminal,
}
use aifluxon.Operations.{
  OperationRecord, OperationStore, register, resolve, wait, wait_for_commit_or_reject, begin_commit,
  sweep, cancel_run, expire, decided, finish_blocking_approval,
}
use aifluxon.Operations.Answers.{wait-resolve, wait_for_commit-resolve, wait_invalid}
use aifluxon.Operations.Change.{Inv}
use aifluxon.Operations.Final.{terminal_kept, IsClaimed, resolve_once, begin_commit_once}
use aifluxon.Operations.Invariant.{step-Inv, run-Inv, empty-Inv, run-Coherent}
use aifluxon.Operations.Lifecycle.{is_active, Coherent, Arrow}
use aifluxon.Operations.Moves.{step-Arrow}
use aifluxon.Operations.Quiet.{Quiet, run-Quiet, empty-Quiet, cancel_run_final}
use aifluxon.Operations.Wakeups.{IsAwake, no_lost_wakeup}
use aifluxon.Prelude.IdSet.{contains, include}
use aifluxon.Prelude.Map.{lookup, insert, map_values}
use aifluxon.Prelude.{ℕ, ◌≡◌, refl, ◌⊎◌, false, none, some, List, [], ◌∷◌, ok, arith}

abbrev approval : PendingOperation ℕ
approval = record {
  id = 1;
  run_id = 7;
  invocation_id = none;
  effect = fs_write;
  mode = blocking_approval;
  summary = "confirm";
  payload = 0;
  deadline = some 50;
}

abbrev prepared : PendingOperation ℕ
prepared = record approval { id = 2; mode = deferred_commit; deadline = none }

opened : OperationStore ℕ
unfolding finish_blocking_approval run step register resolve begin_commit cancel_run expire wait
    wait_for_commit_or_reject Operations.empty lookup insert map_values contains include sweep
opened = run Operations.empty (registers 0 approval ∷ registers 0 prepared ∷ [])

opened-Inv : Inv opened
unfolding opened
opened-Inv = run-Inv Operations.empty (registers 0 approval ∷ registers 0 prepared ∷ []) empty-Inv

opened-Quiet : Quiet opened
unfolding opened
opened-Quiet =
    run-Quiet Operations.empty (registers 0 approval ∷ registers 0 prepared ∷ []) empty-Inv
      empty-Quiet

abbrev asked : OperationRecord ℕ
asked = record { operation = approval; state = pending; decision = none; notify = 0 }

abbrev asked_commit : OperationRecord ℕ
asked_commit = record { operation = prepared; state = pending; decision = none; notify = 1 }

approved_store : OperationStore ℕ
unfolding opened
approved_store = step opened (resolves 7 1 (approve none))

begun_store : OperationStore ℕ
unfolding opened
begun_store = step opened (begins 7 2)

rejected_store : OperationStore ℕ
unfolding opened
rejected_store = step opened (resolves 7 2 (reject none))

cancelled_store : OperationStore ℕ
unfolding opened
cancelled_store = step opened (Command.cancels 7)

run-Coherent_example : (asked.operation.id ≡ 1) × Coherent asked
unfolding opened
run-Coherent_example = run-Coherent (registers 0 approval ∷ registers 0 prepared ∷ []) 1 asked refl

step-Arrow_example :
    (record asked { state = approved; decision = some (approve none) } ≡ asked)
    ⊎ Arrow asked (record asked { state = approved; decision = some (approve none) })
unfolding opened
step-Arrow_example =
    step-Arrow opened (resolves 7 1 (approve none)) 1 asked
      (record asked { state = approved; decision = some (approve none) }) opened-Inv refl refl

resolve_once_example : IsClaimed 1 (run approved_store (expires 60 ∷ []))
unfolding approved_store
resolve_once_example =
    resolve_once opened approved_store 7 1 (approve none) (expires 60 ∷ []) opened-Inv refl (tt, tt)

begin_commit_once_example : IsClaimed 2 (run begun_store (expires 60 ∷ []))
unfolding begun_store
begin_commit_once_example =
    begin_commit_once opened begun_store 7 2 (expires 60 ∷ []) opened-Inv refl (tt, tt)

abbrev dismissed : OperationRecord ℕ
dismissed = record asked { state = cancelled }

terminal_kept_example :
    lookup 1 (run cancelled_store (resolves 7 1 (approve none) ∷ [])).operations ≡ some dismissed
unfolding cancelled_store Operation.is_terminal
terminal_kept_example =
    terminal_kept cancelled_store (resolves 7 1 (approve none) ∷ []) 1 dismissed
      (step-Inv opened (Command.cancels 7) opened-Inv) (tt, tt) refl refl

cancel_run_final_example : is_active dismissed.state ≡ false
unfolding cancelled_store
cancel_run_final_example =
    cancel_run_final opened cancelled_store 2 7 (registers 0 approval ∷ []) 1 dismissed opened-Inv
      opened-Quiet refl refl refl

no_lost_wakeup_example :
    IsAwake 1 asked opened.wakes (run opened (resolves 7 1 (approve none) ∷ []))
unfolding opened
no_lost_wakeup_example =
    no_lost_wakeup opened (resolves 7 1 (approve none) ∷ []) 1 asked opened-Inv refl refl

-- What other threads do between the decision and the wait.
abbrev meanwhile : List (Command ℕ)
meanwhile = registers 9 prepared ∷ resolves 7 1 (reject none) ∷ cancels 8 ∷ expires 60 ∷ []

wait-resolve_example : wait 7 1 (run approved_store meanwhile) ≡ ok (decided (approve none))
unfolding approved_store
wait-resolve_example =
    wait-resolve opened approved_store meanwhile 7 1 (approve none) asked opened-Inv refl refl refl
      (tt, (tt, (omega arith, (tt, tt))))

wait_for_commit-resolve_example :
    (is_approve {V = ℕ} (reject none) ≡ false)
    × (wait_for_commit_or_reject 7 2 rejected_store ≡ ok (decided (reject none)))
unfolding rejected_store
wait_for_commit-resolve_example =
    wait_for_commit-resolve opened rejected_store 7 2 (reject none) asked_commit refl refl refl

granted_store : OperationStore ℕ
unfolding approved_store
granted_store = step approved_store (Command.finishes_approval 7 1 (ok tt))

granted_store-Inv : Inv granted_store
unfolding granted_store approved_store
granted_store-Inv =
    step-Inv approved_store (Command.finishes_approval 7 1 (ok tt))
      (step-Inv opened (resolves 7 1 (approve none)) opened-Inv)

abbrev granted : OperationRecord ℕ
granted = record asked { state = committed; decision = some (approve none) }

wait_invalid_example : granted.state ≡ committed
unfolding granted_store
wait_invalid_example = wait_invalid granted_store 7 1 granted granted_store-Inv refl refl
