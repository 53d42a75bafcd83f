-- ===== src/Operations/Change.antt =====
-- Every command changes the store in one of five ways.
use aifluxon.Prelude.{
  ℕ, suc, ◌≡◌, refl, inl, inr, Bool, true, false, none, some, List, [], ◌∷◌, ◌++◌, arith, Result,
  Result-cases, if◌then◌else◌, Bool-cases, Option-cases, ◌⊎◌, ◌≢◌,
}
use aifluxon.Prelude.Map.{lookup, insert, remove as remove_key, lookup-map_values}
use aifluxon.Prelude.IdSet.{contains, include, contains-include}
use aifluxon.Core.Message.{RunId, OperationId}
use aifluxon.Core.Operation.{
  PendingOperation, OperationState, cancelled, expired, pending, is_pending, OperationDecision,
}
use aifluxon.Operations.{
  OperationStore, OperationRecord, sweep, cancellable, expirable, register, resolve, begin_commit,
  finish_blocking_approval, finish_commit, cancel_run, expire, remove, put, wake,
}
use aifluxon.Operations.Command.{
  Command, registers, resolves, begins, finishes_approval, finishes_commit, cancels, expires,
  removes, step, run, Spares,
}
use aifluxon.Operations.Guards.{
  register-eq-ok, resolve-eq-ok, begin_commit-eq-ok, finish_blocking_approval-eq-ok,
  finish_commit-eq-ok, remove-eq-ok,
}
use aifluxon.Operations.Lifecycle.{
  Coherent, Arrow, resolve-Arrow, begin_commit-Arrow, approval-Arrow, commit-Arrow, cancel-Arrow,
  expire-Arrow, is_active, result_settled, approved_unpending, committing_unpending,
}
use Prim.Native.String.{String}

module _ {V : Type 0} where
  -- What `register` adds.
  abbrev pub fresh : PendingOperation V → ℕ → OperationRecord V
  fresh op n = record { operation = op; state = pending; decision = none; notify = n }

  -- What a sweep leaves of a record.
  abbrev pub swept :
      (OperationRecord V → Bool) → OperationState → OperationRecord V → OperationRecord V
  swept test state r = if test r then record r { state = state } else r

  cancel_covers :
      (s : OperationStore V) (run : RunId) (r : OperationRecord V)
      → contains r.operation.run_id (include run s.terminal_runs) ≡ true
      → is_active r.state ≡ true
      → cancellable run r ≡ false
      → contains r.operation.run_id s.terminal_runs ≡ true
  unfolding cancellable
  cancel_covers s run r h k m =
      ground (arith, contains-include run r.operation.run_id s.terminal_runs)

  -- The records under their own ids, each with a coherent state.
  pub record Inv (s : OperationStore V) : Type 0 where
    pub at_id :
        (id : OperationId) (r : OperationRecord V)
        → lookup id s.operations ≡ some r
        → (r.operation.id ≡ id) × Coherent r

  pub data Change (c : Command V) (s t : OperationStore V) : Type 0 where
    same : t ≡ s → Change c s t
    added :
        (op : PendingOperation V)
        → contains op.run_id s.terminal_runs ≡ false
        → lookup op.id s.operations ≡ none
        → t ≡ record s {
          operations = insert op.id (fresh op s.next_notify) s.operations;
          next_notify = suc s.next_notify;
        }
        → Change c s t
    wrote :
        (id : OperationId) (r r' : OperationRecord V) (ws : List ℕ)
        → lookup id s.operations ≡ some r
        → Arrow r r'
        → (is_active r'.state ≡ true → contains r.operation.run_id s.terminal_runs ≡ false)
        → (is_pending r.state ≡ true → ws ≡ r.notify ∷ [])
        → t ≡ record s { operations = insert id r' s.operations; wakes = ws ++ s.wakes }
        → Change c s t
    swept_over :
        (test : OperationRecord V → Bool) (state : OperationState) (runs : List RunId)
        → ((r : OperationRecord V)
            → Coherent r
            → test r ≡ true
            → Arrow r (record r { state = state }))
        → is_active state ≡ false
        → ((k : RunId) → contains k s.terminal_runs ≡ true → contains k runs ≡ true)
        → ((r : OperationRecord V)
            → contains r.operation.run_id runs ≡ true
            → is_active r.state ≡ true
            → test r ≡ false
            → contains r.operation.run_id s.terminal_runs ≡ true)
        → t ≡ (sweep test state (record s { terminal_runs = runs })).0
        → Change c s t
    dropped :
        (id : OperationId) (r : OperationRecord V)
        → lookup id s.operations ≡ some r
        → ((k : OperationId) → Spares k c → id ≢ k)
        → t ≡ record s { operations = remove_key id s.operations; wakes = r.notify ∷ s.wakes }
        → Change c s t

  register-Change :
      (s : OperationStore V) (now : ℕ) (op : PendingOperation V)
      → Change (registers now op) s (step s (registers now op))
  unfolding step
  register-Change s now op = elim (Result-cases (register now op s)) [
    | inl (t, e) ↦
        let (open_run, unused, _, shape) = register-eq-ok now op s e in
        added op open_run unused (rw (e, step) shape)
    | inr (x, e) ↦ same (rw (e, step))
  ]

  resolve-Change :
      (s : OperationStore V) (run : RunId) (id : OperationId) (d : OperationDecision V)
      → Change (resolves run id d) s (step s (resolves run id d))
  unfolding step put wake
  resolve-Change s run id d = elim (Result-cases (resolve run id d s)) [
    | inl (t, e) ↦
        let (r, found, owner, open_run, p, q, shape) = resolve-eq-ok run id d s e in
        wrote id r _ (r.notify ∷ []) found (resolve-Arrow r d p q) (λ _. rw owner open_run)
          (λ _. refl) (rw (e, step) shape)
    | inr (x, e) ↦ same (rw (e, step))
  ]

  begin_commit-Change :
      (s : OperationStore V) (run : RunId) (id : OperationId)
      → Inv s
      → Change (begins run id) s (step s (begins run id))
  unfolding step put wake
  begin_commit-Change s run id v = elim (Result-cases (begin_commit run id s)) [
    | inl (t, e) ↦
        let (r, found, owner, open_run, p, q, shape) = begin_commit-eq-ok run id s e in
        wrote id r _ (r.notify ∷ []) found (begin_commit-Arrow r p q (v.at_id id r found).1)
          (λ _. rw owner open_run) (λ _. refl) (rw (e, step) shape)
    | inr (x, e) ↦ same (rw (e, step))
  ]

  finish_approval-Change :
      (s : OperationStore V) (run : RunId) (id : OperationId) (result : Result String (Unit {0}))
      → Change (finishes_approval run id result) s (step s (finishes_approval run id result))
  unfolding step put
  finish_approval-Change s run id result =
      elim (Result-cases (finish_blocking_approval run id result s)) [
        | inl (t, e) ↦
            let (r, found, _, p, q, shape) = finish_blocking_approval-eq-ok run id result s e in
            wrote id r _ [] found (approval-Arrow r result p q) (λ k. cc (result_settled result))
              (λ k. cc (approved_unpending r.state p)) (rw (e, step) shape)
        | inr (x, e) ↦ same (rw (e, step))
      ]

  finish_commit-Change :
      (s : OperationStore V) (run : RunId) (id : OperationId) (result : Result String (Unit {0}))
      → Inv s
      → Change (finishes_commit run id result) s (step s (finishes_commit run id result))
  unfolding step put
  finish_commit-Change s run id result v = elim (Result-cases (finish_commit run id result s)) [
    | inl (t, e) ↦
        let (r, found, _, p, shape) = finish_commit-eq-ok run id result s e in
        wrote id r _ [] found (commit-Arrow r result p (v.at_id id r found).1)
          (λ k. cc (result_settled result)) (λ k. cc (committing_unpending r.state p))
          (rw (e, step) shape)
    | inr (x, e) ↦ same (rw (e, step))
  ]

  cancel_run-Change :
      (s : OperationStore V) (run : RunId) → Change (cancels run) s (step s (cancels run))
  unfolding step cancel_run
  cancel_run-Change s run = elim (Bool-cases s.poisoned) [
    | inl e ↦ same (ground arith)
    | inr e ↦
        swept_over (cancellable run) cancelled (include run s.terminal_runs)
          (λ r c h. cancel-Arrow run r h c) refl
          (λ k h. ground (arith, contains-include run k s.terminal_runs))
          (λ r. cancel_covers s run r) (ground arith)
  ]

  expire-Change : (s : OperationStore V) (now : ℕ) → Change (expires now) s (step s (expires now))
  unfolding step expire
  expire-Change s now = elim (Bool-cases s.poisoned) [
    | inl e ↦ same (ground arith)
    | inr e ↦
        swept_over (expirable now) expired s.terminal_runs (λ r c h. expire-Arrow now r h) refl
          (λ k h. h) (λ r h _ _. h) (ground arith)
  ]

  remove-Change :
      (s : OperationStore V) (run : RunId) (id : OperationId)
      → Change (removes run id) s (step s (removes run id))
  unfolding step wake
  remove-Change s run id = elim (Result-cases (remove run id s)) [
    | inl (t, e) ↦
        let (r, found, _, shape) = remove-eq-ok run id s e in
        dropped id r found (λ k h. h) (rw (e, step) shape)
    | inr (x, e) ↦ same (rw (e, step))
  ]

  -- Every command is one of the five changes.
  pub step-Change : (s : OperationStore V) (c : Command V) → Inv s → Change c s (step s c)
  step-Change s (registers now op) v = register-Change s now op
  step-Change s (resolves run id d) v = resolve-Change s run id d
  step-Change s (begins run id) v = begin_commit-Change s run id v
  step-Change s (finishes_approval run id r) v = finish_approval-Change s run id r
  step-Change s (finishes_commit run id r) v = finish_commit-Change s run id r v
  step-Change s (cancels run) v = cancel_run-Change s run
  step-Change s (expires now) v = expire-Change s now
  step-Change s (removes run id) v = remove-Change s run id

-- Where a record comes from that a sweep left.
module _ {V : Type 0} where
  pub swept-found :
      (test : OperationRecord V → Bool) (state : OperationState) (s : OperationStore V)
      (id : OperationId) (r : OperationRecord V)
      → lookup id (sweep test state s).0.operations ≡ some r
      → (r₀ : OperationRecord V) × (lookup id s.operations ≡ some r₀)
        × (((test r₀ ≡ true) × (r ≡ record r₀ { state = state })) ⊎ ((test r₀ ≡ false) × (r ≡ r₀)))
  unfolding sweep
  swept-found test state s id r h = elim (Option-cases (lookup id s.operations)) [
    | inl e ↦ absurd (ground (arith, lookup-map_values (swept test state) id s.operations))
    | inr (r₀, e) ↦ (r₀, e, ground (arith, lookup-map_values (swept test state) id s.operations))
  ]

  pub swept-kept :
      (test : OperationRecord V → Bool) (state : OperationState) (s : OperationStore V)
      (id : OperationId) (r : OperationRecord V)
      → lookup id s.operations ≡ some r
      → lookup id (sweep test state s).0.operations ≡ some (swept test state r)
  unfolding sweep
  swept-kept test state s id r h = rw (lookup-map_values (swept test state) id s.operations, h)

  pub swept-runs :
      (test : OperationRecord V → Bool) (state : OperationState) (s : OperationStore V)
      → (sweep test state s).0.terminal_runs ≡ s.terminal_runs
  unfolding sweep
  swept-runs test state s = refl
