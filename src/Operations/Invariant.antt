-- ===== src/Operations/Invariant.antt =====
-- What holds of the store after any history of commands.
use aifluxon.Prelude.{◌≡◌, List, [], ◌∷◌, arith, ◌⊎◌, inl, inr, Bool, true, false, some}
use aifluxon.Operations.{OperationStore, OperationRecord, empty}
use aifluxon.Operations.Change.{
  Change, Inv, same, added, fresh, wrote, swept_over, dropped, step-Change, swept-found,
}
use aifluxon.Prelude.Map.{lookup-insert, lookup-remove, lookup}
use aifluxon.Core.Message.{OperationId}
use aifluxon.Core.Operation.{OperationState}
use aifluxon.Operations.Command.{Command, step, run}
use aifluxon.Operations.Lifecycle.{Coherent, Arrow}

module _ {V : Type 0} where
  swept_kept :
      (id : OperationId) (r₀ r : OperationRecord V) (state : OperationState) {b : Bool}
      → (r₀.operation.id ≡ id) × Coherent r₀
      → (b ≡ true → Arrow r₀ (record r₀ { state = state }))
      → ((b ≡ true) × (r ≡ record r₀ { state = state })) ⊎ ((b ≡ false) × (r ≡ r₀))
      → (r.operation.id ≡ id) × Coherent r
  swept_kept id r₀ r state v arrow (inl (hit, e)) = rw e (v.0, (arrow hit).coherent)
  swept_kept id r₀ r state v arrow (inr (miss, e)) = rw e v

  Change-Inv : {c : Command V} {s t : OperationStore V} → Change c s t → Inv s → Inv t
  Change-Inv (same e) v = rw e v
  Change-Inv {s} (added op open_run unused e) v = record {
    at_id = λ id r h.
        ground
          (arith, e, lookup-insert op.id id (fresh op s.next_notify) s.operations, v.at_id id r);
  }
  Change-Inv {s} (wrote j r₀ r₁ ws found a back woke e) v = record {
    at_id = λ id r h. ground (
      arith,
      e,
      lookup-insert j id r₁ s.operations,
      v.at_id id r,
      v.at_id j r₀ found,
      a.operation,
      a.coherent,
    );
  }
  Change-Inv {s} (swept_over test state runs arrows settles grows covers e) v = record {
    at_id = λ id r h.
        let (r₀, found, from) =
          swept-found test state (record s { terminal_runs = runs }) id r (rw (← e) h) in
        swept_kept id r₀ r state (v.at_id id r₀ found) (arrows r₀ (v.at_id id r₀ found).1) from;
  }
  Change-Inv {s} (dropped j r₀ found spares e) v = record {
    at_id = λ id r h. ground (arith, e, lookup-remove j id s.operations, v.at_id id r);
  }

  pub step-Inv : (s : OperationStore V) (c : Command V) → Inv s → Inv (step s c)
  step-Inv s c v = Change-Inv (step-Change s c v) v

  pub run-Inv : (s : OperationStore V) (cs : List (Command V)) → Inv s → Inv (run s cs)
  unfolding run
  run-Inv s [] v = v
  run-Inv s (c ∷ cs) v = run-Inv (step s c) cs (step-Inv s c v)

  pub empty-Inv : Inv (empty {V = V})
  unfolding empty lookup
  empty-Inv = record { at_id = λ id r h. cc }

  -- After any history from the empty store, a record stands under its own id, and its state, its
  -- mode and its decision agree: only a blocking approval is approved, with the approval
  -- recorded; a rejected operation has its rejection recorded; only a deferred commit commits.
  pub run-Coherent :
      (cs : List (Command V)) (id : OperationId) (r : OperationRecord V)
      → lookup id (run empty cs).operations ≡ some r
      → (r.operation.id ≡ id) × Coherent r
  run-Coherent cs id r h = (run-Inv empty cs empty-Inv).at_id id r h
