-- ===== src/Operations/Standing.antt =====
-- How long an approval stands: until it is removed, its effect is reported or its run is cancelled.
use Prim.Native.String.{String}
use aifluxon.Core.Message.{RunId, OperationId}
use aifluxon.Core.Operation.{
  OperationDecision, approve, approved, is_pending, is_committing, PendingOperation, committing,
  cancelled, expired,
}
use aifluxon.Operations.{
  OperationRecord, OperationStore, register, resolve, begin_commit, finish_blocking_approval,
  finish_commit, cancel_run, expire, remove, cancellable, expirable, sweep, put, wake,
  decision_state, result_state,
}
use aifluxon.Operations.Change.{
  fresh, Inv, Change, step-Change, swept-kept, same, added, wrote, swept_over, dropped,
}
use aifluxon.Operations.Command.{
  Command, registers, resolves, begins, finishes_approval, finishes_commit, cancels, expires,
  removes, step, run, Spares, SparesAll,
}
use aifluxon.Operations.Guards.{
  register-eq-ok, resolve-eq-ok, begin_commit-eq-ok, finish_blocking_approval-eq-ok,
  finish_commit-eq-ok, remove-eq-ok,
}
use aifluxon.Operations.Invariant.{step-Inv}
use aifluxon.Prelude.IdSet.{include}
use aifluxon.Prelude.Map.{lookup, lookup-insert, lookup-remove}
use aifluxon.Prelude.{
  ◌≡◌, ◌≢◌, ◌∙◌, refl, inl, inr, some, List, [], ◌∷◌, All, Result-cases, arith, ℕ, Option, Result,
}

module _ {V : Type 0} where
  -- The command does not remove the operation. For an approval, it does not cancel the run, and does
  -- not report the effect of the operation.
  abbrev pub Leaves : RunId → OperationId → OperationDecision V → Command V → Type 0
  Leaves run_id id d (removes k j) = j ≢ id
  Leaves run_id id (approve payload) (cancels k) = k ≢ run_id
  Leaves run_id id (approve payload) (finishes_approval k j result) = j ≢ id
  Leaves run_id id d c = Unit

  abbrev pub LeavesAll : RunId → OperationId → OperationDecision V → List (Command V) → Type 0
  LeavesAll run_id id d = All (Leaves run_id id d)

  pub Leaves-Spares :
      (run_id : RunId) (id : OperationId) (d : OperationDecision V) (c : Command V)
      → Leaves run_id id d c
      → Spares id c
  Leaves-Spares run_id id d (removes k j) h = h
  Leaves-Spares run_id id d (registers now op) h = tt
  Leaves-Spares run_id id d (resolves k j e) h = tt
  Leaves-Spares run_id id d (begins k j) h = tt
  Leaves-Spares run_id id d (finishes_approval k j result) h = tt
  Leaves-Spares run_id id d (finishes_commit k j result) h = tt
  Leaves-Spares run_id id d (cancels k) h = tt
  Leaves-Spares run_id id d (expires now) h = tt

  pub LeavesAll-SparesAll :
      (run_id : RunId) (id : OperationId) (d : OperationDecision V) (cs : List (Command V))
      → LeavesAll run_id id d cs
      → SparesAll id cs
  LeavesAll-SparesAll run_id id d [] h = tt
  LeavesAll-SparesAll run_id id d (c ∷ cs) h =
      (Leaves-Spares run_id id d c h.0, LeavesAll-SparesAll run_id id d cs h.1)

  Change-live : {c : Command V} {s t : OperationStore V} → Change c s t → t.poisoned ≡ s.poisoned
  unfolding sweep
  Change-live (same e) = ground arith
  Change-live (added op open_run unused e) = ground arith
  Change-live (wrote j r₀ r₁ ws found a back woke e) = ground arith
  Change-live (swept_over test state runs arrows settles grows covers e) = ground arith
  Change-live (dropped j r₀ found spares e) = ground arith

  -- No command poisons the mutex.
  pub run-live :
      (s : OperationStore V) (cs : List (Command V)) → Inv s → (run s cs).poisoned ≡ s.poisoned
  unfolding run
  run-live s [] v = refl
  run-live s (c ∷ cs) v = run-live (step s c) cs (step-Inv s c v) ∙ Change-live (step-Change s c v)

  module _ (run_id : RunId) (id : OperationId) (r : OperationRecord V)
      (granted : r.state ≡ approved) (owner : r.operation.run_id ≡ run_id) where
    register-stands :
        (s : OperationStore V) (now : ℕ) (op : PendingOperation V)
        → lookup id s.operations ≡ some r
        → lookup id (step s (registers now op)).operations ≡ some r
    unfolding step
    register-stands s now op h = elim (Result-cases (register now op s)) [
      | inl (t, e) ↦
          let (_, unused, _, shape) = register-eq-ok now op s e in
          ground (arith, e, shape, lookup-insert op.id id (fresh op s.next_notify) s.operations)
      | inr (x, e) ↦ rw (e, step) h
    ]

    resolve-stands :
        (s : OperationStore V) (k : RunId) (j : OperationId) (d : OperationDecision V)
        → lookup id s.operations ≡ some r
        → lookup id (step s (resolves k j d)).operations ≡ some r
    unfolding step put wake is_pending
    resolve-stands s k j d h = elim (Result-cases (resolve k j d s)) [
      | inl (t, e) ↦
          let (r₀, found, _, _, p, _, shape) = resolve-eq-ok k j d s e in
          ground (
            arith,
            e,
            shape,
            lookup-insert j id (record r₀ { state = decision_state d; decision = some d })
                s.operations,
          )
      | inr (x, e) ↦ rw (e, step) h
    ]

    begin-stands :
        (s : OperationStore V) (k : RunId) (j : OperationId)
        → lookup id s.operations ≡ some r
        → lookup id (step s (begins k j)).operations ≡ some r
    unfolding step put wake is_pending
    begin-stands s k j h = elim (Result-cases (begin_commit k j s)) [
      | inl (t, e) ↦
          let (r₀, found, _, _, p, _, shape) = begin_commit-eq-ok k j s e in
          ground
            (arith, e, shape, lookup-insert j id (record r₀ { state = committing }) s.operations)
      | inr (x, e) ↦ rw (e, step) h
    ]

    approval-stands :
        (s : OperationStore V) (k : RunId) (j : OperationId) (result : Result String (Unit {0}))
        → j ≢ id
        → lookup id s.operations ≡ some r
        → lookup id (step s (finishes_approval k j result)).operations ≡ some r
    unfolding step put
    approval-stands s k j result other h =
        elim (Result-cases (finish_blocking_approval k j result s)) [
          | inl (t, e) ↦
              let (r₀, found, _, p, _, shape) = finish_blocking_approval-eq-ok k j result s e in
              ground (
                arith,
                e,
                shape,
                other,
                lookup-insert j id (record r₀ { state = result_state result }) s.operations,
              )
          | inr (x, e) ↦ rw (e, step) h
        ]

    commit-stands :
        (s : OperationStore V) (k : RunId) (j : OperationId) (result : Result String (Unit {0}))
        → lookup id s.operations ≡ some r
        → lookup id (step s (finishes_commit k j result)).operations ≡ some r
    unfolding step put is_committing
    commit-stands s k j result h = elim (Result-cases (finish_commit k j result s)) [
      | inl (t, e) ↦
          let (r₀, found, _, p, shape) = finish_commit-eq-ok k j result s e in
          ground (
            arith,
            e,
            shape,
            lookup-insert j id (record r₀ { state = result_state result }) s.operations,
          )
      | inr (x, e) ↦ rw (e, step) h
    ]

    cancel-stands :
        (s : OperationStore V) (k : RunId)
        → k ≢ run_id
        → lookup id s.operations ≡ some r
        → lookup id (step s (cancels k)).operations ≡ some r
    unfolding step cancel_run cancellable
    cancel-stands s k other h = ground (
      arith,
      other,
      swept-kept (cancellable k) cancelled (record s { terminal_runs = include k s.terminal_runs })
          id r h,
    )

    expire-stands :
        (s : OperationStore V) (now : ℕ)
        → lookup id s.operations ≡ some r
        → lookup id (step s (expires now)).operations ≡ some r
    unfolding step expire expirable
    expire-stands s now h = ground (arith, swept-kept (expirable now) expired s id r h)

    remove-stands :
        (s : OperationStore V) (k : RunId) (j : OperationId)
        → j ≢ id
        → lookup id s.operations ≡ some r
        → lookup id (step s (removes k j)).operations ≡ some r
    unfolding step wake
    remove-stands s k j other h = elim (Result-cases (remove k j s)) [
      | inl (t, e) ↦
          let (r₀, found, _, shape) = remove-eq-ok k j s e in
          ground (arith, e, shape, other, lookup-remove j id s.operations)
      | inr (x, e) ↦ rw (e, step) h
    ]

    step-stands :
        (s : OperationStore V) (c : Command V) (payload : Option V)
        → Leaves run_id id (approve payload) c
        → lookup id s.operations ≡ some r
        → lookup id (step s c).operations ≡ some r
    step-stands s (registers now op) payload k h = register-stands s now op h
    step-stands s (resolves j o d) payload k h = resolve-stands s j o d h
    step-stands s (begins j o) payload k h = begin-stands s j o h
    step-stands s (finishes_approval j o result) payload k h = approval-stands s j o result k h
    step-stands s (finishes_commit j o result) payload k h = commit-stands s j o result h
    step-stands s (cancels j) payload k h = cancel-stands s j k h
    step-stands s (expires now) payload k h = expire-stands s now h
    step-stands s (removes j o) payload k h = remove-stands s j o k h

    -- An approved record stays as it is.
    pub approved_kept :
        (s : OperationStore V) (cs : List (Command V)) (payload : Option V)
        → LeavesAll run_id id (approve payload) cs
        → lookup id s.operations ≡ some r
        → lookup id (run s cs).operations ≡ some r
    unfolding run
    approved_kept s [] payload k h = h
    approved_kept s (c ∷ cs) payload k h =
        approved_kept (step s c) cs payload k.1 (step-stands s c payload k.0 h)
