-- ===== src/Operations/Moves.antt =====
-- How one record moves under a command, and over a history.
use aifluxon.Core.Message.{OperationId}
use aifluxon.Core.Operation.{OperationState}
use aifluxon.Operations.{OperationRecord, OperationStore}
use aifluxon.Operations.Change.{
  fresh, swept, Inv, Change, step-Change, swept-found, swept-kept, same, added, wrote, swept_over,
  dropped,
}
use aifluxon.Operations.Command.{Command, step, Spares}
use aifluxon.Operations.Lifecycle.{Arrow}
use aifluxon.Prelude.{
  ◌==◌, if◌then◌else◌, Bool-cases, ◌≡◌, ◌∙◌, ◌⊎◌, inl, inr, Bool, true, false, some, arith, subst₂,
}
use aifluxon.Prelude.Map.{lookup, lookup-insert, lookup-remove}

module _ {V : Type 0} where
  swept_moved :
      (r r' r₀ : OperationRecord V) (state : OperationState) {b : Bool}
      → r₀ ≡ r
      → (b ≡ true → Arrow r₀ (record r₀ { state = state }))
      → ((b ≡ true) × (r' ≡ record r₀ { state = state })) ⊎ ((b ≡ false) × (r' ≡ r₀))
      → (r' ≡ r) ⊎ Arrow r r'
  swept_moved r r' r₀ state same_record arrow (inl (hit, e)) =
      inr (rw (e, ← same_record) (arrow hit))
  swept_moved r r' r₀ state same_record arrow (inr (miss, e)) = inl (e ∙ same_record)

  Change-Arrow :
      {c : Command V} {s t : OperationStore V} (id : OperationId) (r r' : OperationRecord V)
      → Inv s
      → lookup id s.operations ≡ some r
      → lookup id t.operations ≡ some r'
      → Change c s t
      → (r' ≡ r) ⊎ Arrow r r'
  Change-Arrow id r r' v h h' (same e) = inl (ground arith)
  Change-Arrow {s = s} id r r' v h h' (added op open_run unused e) =
      inl (ground (arith, lookup-insert op.id id (fresh op s.next_notify) s.operations))
  Change-Arrow {s = s} id r r' v h h' (wrote j r₀ r₁ ws found a back woke e) =
      elim (Bool-cases (j == id)) [
        | inl hit ↦ inr (
            subst₂ Arrow (ground (arith, lookup-insert j id r₁ s.operations))
              (ground (arith, lookup-insert j id r₁ s.operations)) a)
        | inr miss ↦ inl (ground (arith, lookup-insert j id r₁ s.operations))
      ]
  Change-Arrow {s = s} id r r' v h h' (swept_over test state runs arrows settles grows covers e) =
      let (r₀, found, from) =
        swept-found test state (record s { terminal_runs = runs }) id r' (rw (← e) h') in
      swept_moved r r' r₀ state (ground arith) (arrows r₀ (v.at_id id r₀ found).1) from
  Change-Arrow {s = s} id r r' v h h' (dropped j r₀ found spares e) =
      inl (ground (arith, lookup-remove j id s.operations))

  -- From a store that keeps Inv, a command leaves a record that it does not remove as it is, or
  -- moves it along one arrow of the life cycle.
  pub step-Arrow :
      (s : OperationStore V) (c : Command V) (id : OperationId) (r r' : OperationRecord V)
      → Inv s
      → lookup id s.operations ≡ some r
      → lookup id (step s c).operations ≡ some r'
      → (r' ≡ r) ⊎ Arrow r r'
  step-Arrow s c id r r' v h h' = Change-Arrow id r r' v h h' (step-Change s c v)

  Change-present :
      {c : Command V} {s t : OperationStore V} (id : OperationId) (r : OperationRecord V)
      → Spares id c
      → lookup id s.operations ≡ some r
      → Change c s t
      → (r' : OperationRecord V) × (lookup id t.operations ≡ some r')
  Change-present id r k h (same e) = (r, ground arith)
  Change-present {s = s} id r k h (added op open_run unused e) =
      (r, ground (arith, lookup-insert op.id id (fresh op s.next_notify) s.operations))
  Change-present {s = s} id r k h (wrote j r₀ r₁ ws found a back woke e) =
      ((if j == id then r₁ else r), ground (arith, lookup-insert j id r₁ s.operations))
  Change-present {s = s} id r k h (swept_over test state runs arrows settles grows covers e) =
      (swept test state r, rw e (swept-kept test state (record s { terminal_runs = runs }) id r h))
  Change-present {s = s} id r k h (dropped j r₀ found spares e) =
      (r, ground (arith, lookup-remove j id s.operations, spares id k))

  -- Only `remove` takes a record away.
  pub step-present :
      (s : OperationStore V) (c : Command V) (id : OperationId) (r : OperationRecord V)
      → Inv s
      → Spares id c
      → lookup id s.operations ≡ some r
      → (r' : OperationRecord V) × (lookup id (step s c).operations ≡ some r')
  step-present s c id r v k h = Change-present id r k h (step-Change s c v)
