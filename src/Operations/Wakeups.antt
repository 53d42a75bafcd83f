-- ===== src/Operations/Wakeups.antt =====
-- No wake-up is lost: a waiter that saw a pending record is notified when the record moves on.
use aifluxon.Core.Message.{OperationId}
use aifluxon.Core.Operation.{is_pending}
use aifluxon.Operations.{OperationRecord, OperationStore, sweep}
use aifluxon.Operations.Change.{
  fresh, Change, same, added, wrote, swept_over, dropped, Inv, step-Change, swept-kept,
}
use aifluxon.Operations.Command.{Command, step, run}
use aifluxon.Prelude.{
  ◌==◌, Bool-cases, keep_if, ℕ, ◌≡◌, ◌⊎◌, inl, inr, Bool, true, some, List, [], ◌∷◌, ◌++◌, map,
  arith, refl, sym, ap, ◌∙◌, append_assoc,
}
use aifluxon.Prelude.IdSet.{contains, contains-append, contains-prefix}
use aifluxon.Prelude.Map.{Map, lookup, values, lookup-insert, lookup-remove}
use aifluxon.Operations.Invariant.{step-Inv}

module _ {V : Type 0} where
  -- The record is still as the waiter saw it, or its Notify was called since.
  abbrev pub IsAwake : OperationId → OperationRecord V → List ℕ → OperationStore V → Type 0
  IsAwake id r seen t =
      (lookup id t.operations ≡ some r)
      ⊎ ((ws : List ℕ) × (t.wakes ≡ ws ++ seen) × (contains r.notify ws ≡ true))

  contains-notify :
      (test : OperationRecord V → Bool) (id : OperationId) (r : OperationRecord V)
      (m : Map (OperationRecord V))
      → lookup id m ≡ some r
      → test r ≡ true
      → contains r.notify (map (λ x. x.notify) (keep_if test (values m))) ≡ true
  unfolding lookup contains
  contains-notify test id r [] h k = cc
  contains-notify test id r ((j, x) ∷ m) h k = ground (arith, contains-notify test id r m)

  Change-IsAwake :
      {c : Command V} {s t : OperationStore V} (id : OperationId) (r : OperationRecord V)
      → lookup id s.operations ≡ some r
      → is_pending r.state ≡ true
      → Change c s t
      → IsAwake id r s.wakes t
  unfolding contains sweep
  Change-IsAwake id r h p (same e) = inl (ground arith)
  Change-IsAwake {s = s} id r h p (added op open_run unused e) =
      inl (ground (arith, lookup-insert op.id id (fresh op s.next_notify) s.operations))
  Change-IsAwake {s = s} id r h p (wrote j r₀ r₁ ws found a back woke e) =
      elim (Bool-cases (j == id)) [
        | inl hit ↦ inr (ws, ground arith, ground arith)
        | inr miss ↦ inl (ground (arith, lookup-insert j id r₁ s.operations))
      ]
  Change-IsAwake {s = s} id r h p (swept_over test state runs arrows settles grows covers e) =
      elim (Bool-cases (test r)) [
        | inl hit ↦ inr (
          map (λ x. x.notify) (keep_if test (values s.operations)),
          ap (λ (x : OperationStore V). x.wakes) e,
          contains-notify test id r s.operations h hit,
        )
        | inr miss ↦ inl (
            rw e (
              swept-kept test state (record s { terminal_runs = runs }) id r h ∙ ap some (rw miss)))
      ]
  Change-IsAwake {s = s} id r h p (dropped j r₀ found spares e) = elim (Bool-cases (j == id)) [
    | inl hit ↦ inr (r₀.notify ∷ [], ground arith, ground arith)
    | inr miss ↦ inl (ground (arith, lookup-remove j id s.operations))
  ]

  -- The log of wake-ups only grows.
  Change-wakes :
      {c : Command V} {s t : OperationStore V}
      → Change c s t
      → (ws : List ℕ) × (t.wakes ≡ ws ++ s.wakes)
  unfolding sweep
  Change-wakes (same e) = ([], ap (λ (x : OperationStore V). x.wakes) e)
  Change-wakes (added op open_run unused e) = ([], ap (λ (x : OperationStore V). x.wakes) e)
  Change-wakes (wrote j r₀ r₁ ws found a back woke e) =
      (ws, ap (λ (x : OperationStore V). x.wakes) e)
  Change-wakes {s = s} (swept_over test state runs arrows settles grows covers e) = (
    map (λ x. x.notify) (keep_if test (values s.operations)),
    ap (λ (x : OperationStore V). x.wakes) e,
  )
  Change-wakes (dropped j r₀ found spares e) =
      (r₀.notify ∷ [], ap (λ (x : OperationStore V). x.wakes) e)

  run-wakes :
      (s : OperationStore V) (cs : List (Command V))
      → Inv s
      → (ws : List ℕ) × ((run s cs).wakes ≡ ws ++ s.wakes)
  unfolding run
  run-wakes s [] v = ([], refl)
  run-wakes s (c ∷ cs) v =
      let (ws, e) = run-wakes (step s c) cs (step-Inv s c v) in
      let (us, f) = Change-wakes (step-Change s c v) in
      (ws ++ us, e ∙ ap (◌++◌ ws) f ∙ sym (append_assoc ws us s.wakes))

  IsAwake-after :
      (t : OperationStore V) (cs : List (Command V)) (id : OperationId) (r : OperationRecord V)
      (seen : List ℕ)
      → Inv t
      → IsAwake id r seen t
      → (lookup id t.operations ≡ some r → IsAwake id r t.wakes (run t cs))
      → (us : List ℕ) × (t.wakes ≡ us ++ seen)
      → IsAwake id r seen (run t cs)
  IsAwake-after t cs id r seen v (inl h) later (us, f) = elim (later h) [
    | inl still ↦ inl still
    | inr (ws, e, hit) ↦ inr (
      ws ++ us,
      e ∙ ap (◌++◌ ws) f ∙ sym (append_assoc ws us seen),
      contains-prefix r.notify ws us hit,
    )
  ]
  IsAwake-after t cs id r seen v (inr (us, f, hit)) later _ =
      let (ws, e) = run-wakes t cs v in
      inr (
        ws ++ us,
        e ∙ ap (◌++◌ ws) f ∙ sym (append_assoc ws us seen),
        contains-append r.notify ws us hit,
      )

  -- From a store that keeps Inv, a waiter that found a record pending, and took its Notify then,
  -- is woken by every history after which the record is not still exactly as the waiter saw it.
  pub no_lost_wakeup :
      (s : OperationStore V) (cs : List (Command V)) (id : OperationId) (r : OperationRecord V)
      → Inv s
      → lookup id s.operations ≡ some r
      → is_pending r.state ≡ true
      → IsAwake id r s.wakes (run s cs)
  unfolding run
  no_lost_wakeup s [] id r v h p = inl h
  no_lost_wakeup s (c ∷ cs) id r v h p =
      IsAwake-after (step s c) cs id r s.wakes v' (Change-IsAwake id r h p (step-Change s c v))
        (λ h'. no_lost_wakeup (step s c) cs id r v' h' p) (Change-wakes (step-Change s c v))
    where
      v' : Inv (step s c)
      v' = step-Inv s c v
