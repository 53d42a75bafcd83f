-- ===== src/Operations/Quiet.antt =====
-- A terminal run has no operation that a host could still decide, and gets none.
use aifluxon.Core.Message.{RunId, OperationId}
use aifluxon.Core.Operation.{OperationState}
use aifluxon.Operations.{OperationRecord, OperationStore, empty, cancel_run}
use aifluxon.Operations.Change.{
  fresh, Inv, Change, swept-found, same, added, wrote, swept_over, dropped, step-Change, swept-runs,
}
use aifluxon.Operations.Command.{Command, step, run, cancels}
use aifluxon.Operations.Lifecycle.{is_active}
use aifluxon.Prelude.{
  Bool-cases, ◌≡◌, subst, ◌⊎◌, inl, inr, Bool, true, false, some, List, arith, ℕ, ap, ◌∙◌, [], ◌∷◌,
  ok,
}
use aifluxon.Prelude.IdSet.{contains, contains-include}
use aifluxon.Prelude.Map.{lookup, lookup-insert, lookup-remove}
use aifluxon.Operations.Invariant.{step-Inv}

module _ {V : Type 0} where
  pub record Quiet (s : OperationStore V) : Type 0 where
    pub settled :
        (id : OperationId) (r : OperationRecord V)
        → lookup id s.operations ≡ some r
        → contains r.operation.run_id s.terminal_runs ≡ true
        → is_active r.state ≡ false

  swept_quiet :
      (r r₀ : OperationRecord V) (state : OperationState) (runs old : List RunId) {b : Bool}
      → is_active state ≡ false
      → (contains r₀.operation.run_id runs ≡ true
          → is_active r₀.state ≡ true
          → b ≡ false
          → contains r₀.operation.run_id old ≡ true)
      → (contains r₀.operation.run_id old ≡ true → is_active r₀.state ≡ false)
      → ((b ≡ true) × (r ≡ record r₀ { state = state })) ⊎ ((b ≡ false) × (r ≡ r₀))
      → contains r.operation.run_id runs ≡ true
      → is_active r.state ≡ false
  swept_quiet r r₀ state runs old settles covers before (inl (hit, e)) h = rw e settles
  swept_quiet r r₀ state runs old settles covers before (inr (miss, e)) h =
      elim (Bool-cases (is_active r₀.state)) [
        | inl busy ↦ cc (
          e,
          before (covers (subst (λ x. contains x.operation.run_id runs ≡ true) e h) busy miss),
        )
        | inr idle ↦ rw e idle
      ]

  Change-Quiet : {c : Command V} {s t : OperationStore V} → Inv s → Quiet s → Change c s t → Quiet t
  Change-Quiet v q (same e) = rw e q
  Change-Quiet {s = s} v q (added op open_run unused e) = record {
    settled = λ id r h k.
        ground
          (arith, e, lookup-insert op.id id (fresh op s.next_notify) s.operations, q.settled id r);
  }
  Change-Quiet {s = s} v q (wrote j r₀ r₁ ws found a back woke e) = record {
    settled = λ id r h k.
        ground (arith, e, lookup-insert j id r₁ s.operations, q.settled id r, a.operation, back);
  }
  Change-Quiet {s = s} v q (swept_over test state runs arrows settles grows covers e) = record {
    settled = λ id r h k.
        let (r₀, found, from) =
          swept-found test state (record s { terminal_runs = runs }) id r (rw (← e) h) in
        swept_quiet r r₀ state runs s.terminal_runs settles (covers r₀) (q.settled id r₀ found) from
          (subst (λ js. contains r.operation.run_id js ≡ true)
            (ap (λ (x : OperationStore V). x.terminal_runs) e
              ∙ swept-runs test state (record s { terminal_runs = runs }))
            k);
  }
  Change-Quiet {s = s} v q (dropped j r₀ found spares e) = record {
    settled = λ id r h k. ground (arith, e, lookup-remove j id s.operations, q.settled id r);
  }

  pub step-Quiet : (s : OperationStore V) (c : Command V) → Inv s → Quiet s → Quiet (step s c)
  step-Quiet s c v q = Change-Quiet v q (step-Change s c v)

  pub run-Quiet :
      (s : OperationStore V) (cs : List (Command V)) → Inv s → Quiet s → Quiet (run s cs)
  unfolding run
  run-Quiet s [] v q = q
  run-Quiet s (c ∷ cs) v q = run-Quiet (step s c) cs (step-Inv s c v) (step-Quiet s c v q)

  pub empty-Quiet : Quiet (empty {V = V})
  unfolding empty lookup
  empty-Quiet = record { settled = λ id r h k. cc }

  pub Change-terminal :
      {c : Command V} {s t : OperationStore V} (k : RunId)
      → contains k s.terminal_runs ≡ true
      → Change c s t
      → contains k t.terminal_runs ≡ true
  Change-terminal k h (same e) = ground arith
  Change-terminal k h (added op open_run unused e) = ground arith
  Change-terminal k h (wrote j r₀ r₁ ws found a back woke e) = ground arith
  Change-terminal {s = s} k h (swept_over test state runs arrows settles grows covers e) =
      rw (e, swept-runs test state (record s { terminal_runs = runs })) (grows k h)
  Change-terminal k h (dropped j r₀ found spares e) = ground arith

  run-terminal :
      (s : OperationStore V) (cs : List (Command V)) (k : RunId)
      → Inv s
      → contains k s.terminal_runs ≡ true
      → contains k (run s cs).terminal_runs ≡ true
  unfolding run
  run-terminal s [] k v h = h
  run-terminal s (c ∷ cs) k v h =
      run-terminal (step s c) cs k (step-Inv s c v) (Change-terminal k h (step-Change s c v))

  pub cancel_run-terminal :
      (s t : OperationStore V) (n : ℕ) (run_id : RunId)
      → cancel_run run_id s ≡ ok (t, n)
      → contains run_id t.terminal_runs ≡ true
  unfolding cancel_run
  cancel_run-terminal s t n run_id e =
      ground (arith, contains-include run_id run_id s.terminal_runs)

  -- From a store that keeps Inv and Quiet, once a run was cancelled, no history gives it an
  -- operation that is pending or approved.
  pub cancel_run_final :
      (s t : OperationStore V) (n : ℕ) (run_id : RunId) (cs : List (Command V)) (id : OperationId)
      (r : OperationRecord V)
      → Inv s
      → Quiet s
      → cancel_run run_id s ≡ ok (t, n)
      → lookup id (run t cs).operations ≡ some r
      → r.operation.run_id ≡ run_id
      → is_active r.state ≡ false
  unfolding step
  cancel_run_final s t n run_id cs id r v q e there owner =
      let moved : step s (cancels run_id) ≡ t = rw (e, step) in
      let v' : Inv t = subst Inv moved (step-Inv s (cancels run_id) v) in
      let q' : Quiet t = subst Quiet moved (step-Quiet s (cancels run_id) v q) in
      (run-Quiet t cs v' q').settled id r there
        (rw owner (run-terminal t cs run_id v' (cancel_run-terminal s t n run_id e)))
