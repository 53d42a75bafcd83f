-- ===== src/Runs/Finish.antt =====
-- `finish` with other threads between its locks: a run does not finish over open operations.
use aifluxon.Operations.{OperationRecord, OperationStore, cancel_run}
use aifluxon.Operations.Change.{Inv, step-Change}
use aifluxon.Operations.Command
use aifluxon.Operations.Command.{Command}
use aifluxon.Operations.Invariant.{step-Inv}
use aifluxon.Operations.Lifecycle.{is_active}
use aifluxon.Operations.Quiet.{Quiet, step-Quiet, Change-terminal, cancel_run-terminal}
use aifluxon.Runs.Changes.{write_finish-RunChange}
use aifluxon.Runs.History
use aifluxon.Runs.Idle.{is_open, check-idle, check_blocked}
use aifluxon.Runs.History.{Call, run, operates}
use aifluxon.Runs.Invariant.{RunChange-Inv, run-Inv, closed_run_kept}
use aifluxon.Runs.Operated.{step-keeps, run-keeps, operations-write_finish}
use aifluxon.Runs.Record.{pending_operations, RunTableError, RunRecord, is_terminal, finish_record}
use aifluxon.Runs.Steps.{Fits}
use aifluxon.Runs.Table.{
  Action, RunTable, check_operations, write_finish, close_operations, get_record, with_record,
  then_wake,
}
use aifluxon.Prelude.IdSet.{contains}
use aifluxon.Prelude.Map.{values, lookup, lookup-insert}
use aifluxon.Core.Message.{RunId, OperationId}
use aifluxon.Core.Run.{RunState, RunEvent, terminal_state}
use aifluxon.Runs.Record
use aifluxon.Prelude.{
  any, ◌≡◌, refl, true, false, List, ◌∷◌, arith, err, ◌∙◌, ok, ℕ, Result, some, inl, inr,
  Result-cases, ap, sym, subst,
}

module _ {V : Type 0} where
  -- The end of `finish`, which other calls may come before.
  unfoldable pub mark_after :
      List (Call V)
      → RunId
      → Result RunTableError ℕ × RunTable V
      → Result RunTableError ℕ × RunTable V
  unfolding close_operations
  mark_after later run_id (err e, t) = (err e, t)
  mark_after later run_id (ok n, t) = close_operations run_id (ok n, run t later)

  -- `finish`, with the calls of other threads before the lock is taken and behind its release.
  unfoldable pub finish_amid :
      List (Call V) → List (Call V) → RunId → RunState → RunEvent V → Action V ℕ
  unfolding check_operations write_finish mark_after
  finish_amid between later run_id state event t = elim (check_operations run_id t) [
    | err e ↦ (err e, t)
    | ok _ ↦ mark_after later run_id (write_finish run_id state event (run t between))
  ]

  -- An operation that is open when `finish` reads the operations refuses it, and nothing is written.
  pub finish_refused :
      (t : RunTable V) (between later : List (Call V)) (run_id : RunId) (state : RunState)
      (event : RunEvent V)
      → t.operations.poisoned ≡ false
      → any (is_open run_id) (values t.operations.operations) ≡ true
      → finish_amid between later run_id state event t ≡ (err pending_operations, t)
  unfolding finish_amid
  finish_refused t between later run_id state event live busy =
      rw (check_blocked t run_id live busy, finish_amid) refl

  -- The store keeps its invariants, and the run is closed in it.
  record Marked (run_id : RunId) (s : OperationStore V) : Type 0 where
    inv : Inv s
    quiet : Quiet s
    closed : contains run_id s.terminal_runs ≡ true

  step-Marked :
      (run_id : RunId) (s : OperationStore V) (c : Command.Command V)
      → Marked run_id s
      → Marked run_id (Command.step s c)
  step-Marked run_id s c m = record {
    inv = step-Inv s c m.inv;
    quiet = step-Quiet s c m.inv m.quiet;
    closed = Change-terminal run_id m.closed (step-Change s c m.inv);
  }

  abbrev Kept : OperationStore V → Type 0
  Kept s = Inv s × Quiet s

  step-Kept : (s : OperationStore V) (c : Command.Command V) → Kept s → Kept (Command.step s c)
  step-Kept s c k = (step-Inv s c k.0, step-Quiet s c k.0 k.1)

  -- A mark that went through is a cancellation of the run in the store.
  close-step :
      (run_id : RunId) (m n : ℕ) (t u : RunTable V)
      → close_operations run_id (ok m, t) ≡ (ok n, u)
      → (m ≡ n)
        × (History.step t (operates (Command.cancels run_id)) ≡ u)
        × (contains run_id u.operations.terminal_runs ≡ true)
  unfolding close_operations History.step Command.step
  close-step run_id m n t u e = elim (Result-cases (cancel_run run_id t.operations)) [
    | inr (x, h) ↦ absurd (ground (arith, h, e))
    | inl ((ops, count), h) ↦ (
      ground (arith, h, e),
      ground (arith, h, e),
      ground (arith, h, e, cancel_run-terminal t.operations ops count run_id h),
    )
  ]

  mark_after-eq-ok :
      (later : List (Call V)) (run_id : RunId) (x : Result RunTableError ℕ × RunTable V) (n : ℕ)
      (u : RunTable V)
      → mark_after later run_id x ≡ (ok n, u)
      → (x.0 ≡ ok n)
        × (History.step (run x.1 later) (operates (Command.cancels run_id)) ≡ u)
        × (contains run_id u.operations.terminal_runs ≡ true)
  unfolding mark_after
  mark_after-eq-ok later run_id (err y, t) n u e = absurd (ground arith)
  mark_after-eq-ok later run_id (ok m, t) n u e =
      let (same, moved, closed) = close-step run_id m n (run t later) u e in
      (ap ok same, moved, closed)

  finish_amid-eq-ok :
      (between later : List (Call V)) (run_id : RunId) (state : RunState) (event : RunEvent V)
      (t u : RunTable V) (n : ℕ)
      → finish_amid between later run_id state event t ≡ (ok n, u)
      → (check_operations run_id t ≡ ok tt)
        × (mark_after later run_id (write_finish run_id state event (run t between)) ≡ (ok n, u))
  unfolding finish_amid
  finish_amid-eq-ok between later run_id state event t u n e =
      elim (Result-cases (check_operations run_id t)) [
        | inl (tt, h) ↦ (h, ground (arith, h, e))
        | inr (x, h) ↦ absurd (ground (arith, h, e))
      ]

  write_finish-state :
      (run_id : RunId) (state : RunState) (event : RunEvent V) (t : RunTable V) (n : ℕ)
      → (write_finish run_id state event t).0 ≡ ok n
      → (r : RunRecord V) × (lookup run_id (write_finish run_id state event t).1.runs ≡ some r)
        × (r.state ≡ state)
  unfolding write_finish with_record then_wake finish_record
  write_finish-state run_id state event t n e = elim (Result-cases (get_record run_id t)) [
    | inr (x, h) ↦ absurd (ground (arith, h, e))
    | inl (r, h) ↦ (
      (finish_record state event r).1,
      ground (arith, h, e, lookup-insert run_id run_id (finish_record state event r).1 t.runs),
      ground (arith, h, e),
    )
  ]

  -- Only terminal events have a terminal state.
  terminal_suits :
      (event : RunEvent V) (state : RunState)
      → terminal_state event ≡ some state
      → (Record.is_terminal state ≡ true) × Fits event state
  unfolding terminal_state Record.is_terminal
  terminal_suits event state h = (ground arith, ground arith)

  -- An operation of the run is pending or approved.
  abbrev pub Waits : RunId → OperationStore V → Type 0
  Waits run_id s =
      (id : OperationId) × (r : OperationRecord V) × (lookup id s.operations ≡ some r)
      × (r.operation.run_id ≡ run_id)
      × (is_active r.state ≡ true)

  -- From a table that keeps Inv, with operations that keep Inv and Quiet, when `finish` reports
  -- success for a terminal event, whatever other threads do between its steps, then no operation of
  -- the run was open when it read them, and after any history that follows the run is in the state of
  -- the event and none of its operations is pending or approved.
  pub finish_guarded :
      (t u : RunTable V) (between later after : List (Call V)) (run_id : RunId) (state : RunState)
      (event : RunEvent V) (n : ℕ)
      → History.Inv t
      → Inv t.operations
      → Quiet t.operations
      → terminal_state event ≡ some state
      → finish_amid between later run_id state event t ≡ (ok n, u)
      → (any (is_open run_id) (values t.operations.operations) ≡ false)
        × ((r : RunRecord V) × (lookup run_id (run u after).runs ≡ some r) × (r.state ≡ state))
        × (¬ Waits run_id (run u after).operations)
  unfolding run
  finish_guarded t u between later after run_id state event n v inv quiet fits e =
      let (checked, marked) = finish_amid-eq-ok between later run_id state event t u n e in
      let before = run t between in
      let w = (write_finish run_id state event before).1 in
      let (wrote, moved, closed) =
        mark_after-eq-ok later run_id (write_finish run_id state event before) n u marked in
      let (final, suits) = terminal_suits event state fits in
      let w_inv : History.Inv w =
        RunChange-Inv (run-Inv t between v)
          (write_finish-RunChange run_id state event before (run-Inv t between v) suits) in
      let (r₁, found, in_state) = write_finish-state run_id state event before n wrote in
      let (r₂, found₂, same₂) = closed_run_kept w later run_id r₁ w_inv found (rw in_state final) in
      let (r₃, found₃, same₃) =
        closed_run_kept (run w later) (operates (Command.cancels run_id) ∷ after) run_id r₂
          (run-Inv w later w_inv) found₂ (rw (same₂.state ∙ in_state) final) in
      let kept : Kept (run w later).operations = run-keeps Kept step-Kept w later (
        subst Kept (sym (operations-write_finish run_id state event before))
          (run-keeps Kept step-Kept t between (inv, quiet))) in
      let u_kept : Kept u.operations =
        subst (λ (x : RunTable V). Kept x.operations) moved
          (step-keeps Kept step-Kept (run w later) (operates (Command.cancels run_id)) kept) in
      let m : Marked run_id (run u after).operations =
        run-keeps (Marked run_id) (step-Marked run_id) u after
          (record { inv = u_kept.0; quiet = u_kept.1; closed = closed }) in
      (
        check-idle t run_id checked,
        (
          r₃,
          subst (λ (x : RunTable V). lookup run_id (run x after).runs ≡ some r₃) moved found₃,
          same₃.state ∙ same₂.state ∙ in_state,
        ),
        λ (id, r, there, owner, waiting).
            cc (waiting, m.quiet.settled id r there (rw owner m.closed)),
      )
