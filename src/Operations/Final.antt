-- ===== src/Operations/Final.antt =====
-- What cannot happen twice: an operation is decided once, and a terminal state is kept.
use aifluxon.Core.Message.{RunId, OperationId}
use aifluxon.Core.Operation.{OperationDecision, is_terminal, is_pending, committing}
use aifluxon.Operations.{
  OperationRecord, OperationStore, decision_state, resolve, begin_commit, put, wake,
}
use aifluxon.Operations.Change.{Inv}
use aifluxon.Operations.Command.{Command, step, run, SparesAll, resolves, begins}
use aifluxon.Operations.Guards.{resolve-eq-ok, begin_commit-eq-ok}
use aifluxon.Operations.Invariant.{step-Inv}
use aifluxon.Operations.Lifecycle.{Arrow, terminal-stuck, never_pending}
use aifluxon.Operations.Moves.{step-Arrow, step-present}
use aifluxon.Prelude.Map.{lookup, lookup-insert}
use aifluxon.Prelude.{
  ◌≡◌, ap, ◌∙◌, ◌≢◌, ◌⊎◌, inl, inr, true, false, some, List, [], ◌∷◌, arith, ok, refl, subst,
}

module _ {V : Type 0} where
  terminal_moves :
      (r r' : OperationRecord V) → is_terminal r.state ≡ true → (r' ≡ r) ⊎ Arrow r r' → r' ≡ r
  terminal_moves r r' h (inl e) = e
  terminal_moves r r' h (inr a) = cc (a.arrow, terminal-stuck r.operation.mode r.state r'.state h)

  -- From a store that keeps Inv, a record in a terminal state, its decision included, stays as it
  -- is over every history that does not remove it.
  pub terminal_kept :
      (s : OperationStore V) (cs : List (Command V)) (id : OperationId) (r : OperationRecord V)
      → Inv s
      → SparesAll id cs
      → lookup id s.operations ≡ some r
      → is_terminal r.state ≡ true
      → lookup id (run s cs).operations ≡ some r
  unfolding run
  terminal_kept s [] id r v k h f = h
  terminal_kept s (c ∷ cs) id r v k h f =
      let (r', there) = step-present s c id r v k.0 h in
      let unchanged = terminal_moves r r' f (step-Arrow s c id r r' v h there) in
      terminal_kept (step s c) cs id r (step-Inv s c v) k.1 (there ∙ ap some unchanged) f

  unpending_moves :
      (r r' : OperationRecord V)
      → is_pending r.state ≡ false
      → (r' ≡ r) ⊎ Arrow r r'
      → is_pending r'.state ≡ false
  unpending_moves r r' h (inl e) = rw e h
  unpending_moves r r' h (inr a) = never_pending r.operation.mode r.state r'.state a.arrow

  unpending_kept :
      (s : OperationStore V) (cs : List (Command V)) (id : OperationId) (r : OperationRecord V)
      → Inv s
      → SparesAll id cs
      → lookup id s.operations ≡ some r
      → is_pending r.state ≡ false
      → (r' : OperationRecord V) × (lookup id (run s cs).operations ≡ some r')
        × (is_pending r'.state ≡ false)
  unfolding run
  unpending_kept s [] id r v k h f = (r, h, f)
  unpending_kept s (c ∷ cs) id r v k h f =
      let (r', there) = step-present s c id r v k.0 h in
      unpending_kept (step s c) cs id r' (step-Inv s c v) k.1 there
        (unpending_moves r r' f (step-Arrow s c id r r' v h there))

  -- The operation is no longer open to `resolve` or `begin_commit`, whoever calls.
  abbrev pub IsClaimed : OperationId → OperationStore V → Type 0
  IsClaimed id t =
      (run_id : RunId)
      → ((d : OperationDecision V) (u : OperationStore V) → resolve run_id id d t ≢ ok u)
        × ((u : OperationStore V) → begin_commit run_id id t ≢ ok u)

  unpending-IsClaimed :
      (t : OperationStore V) (id : OperationId) (r : OperationRecord V)
      → lookup id t.operations ≡ some r
      → is_pending r.state ≡ false
      → IsClaimed id t
  unpending-IsClaimed t id r h f run_id = (
    λ d u e. let (r₀, found, _, _, p, _, _) = resolve-eq-ok run_id id d t e in ground arith,
    λ u e. let (r₀, found, _, _, p, _, _) = begin_commit-eq-ok run_id id t e in ground arith,
  )

  -- The operation is there and no longer pending.
  abbrev Claimed : OperationId → OperationStore V → Type 0
  Claimed id t =
      (r : OperationRecord V) × (lookup id t.operations ≡ some r) × (is_pending r.state ≡ false)

  Claimed-IsClaimed :
      (t : OperationStore V) (id : OperationId) (cs : List (Command V))
      → Inv t
      → SparesAll id cs
      → Claimed id t
      → IsClaimed id (run t cs)
  Claimed-IsClaimed t id cs v k (r, there, gone) =
      let (r', there', gone') = unpending_kept t cs id r v k there gone in
      unpending-IsClaimed (run t cs) id r' there' gone'

  resolve-Claimed :
      (s t : OperationStore V) (run_id : RunId) (id : OperationId) (d : OperationDecision V)
      → resolve run_id id d s ≡ ok t
      → Claimed id t
  unfolding put wake decision_state is_pending
  resolve-Claimed s t run_id id d e =
      let (r, found, _, _, p, q, shape) = resolve-eq-ok run_id id d s e in
      let r' : OperationRecord V = record r { state = decision_state d; decision = some d } in
      (r', ground (arith, shape, lookup-insert id id r' s.operations), ground arith)

  begin_commit-Claimed :
      (s t : OperationStore V) (run_id : RunId) (id : OperationId)
      → begin_commit run_id id s ≡ ok t
      → Claimed id t
  unfolding put wake is_pending
  begin_commit-Claimed s t run_id id e =
      let (r, found, _, _, p, q, shape) = begin_commit-eq-ok run_id id s e in
      let r' : OperationRecord V = record r { state = committing } in
      (r', ground (arith, shape, lookup-insert id id r' s.operations), refl)

  -- From a store that keeps Inv, after a decision was recorded, no history that does not remove
  -- the operation lets another decision be recorded or a commit begin, for any run.
  pub resolve_once :
      (s t : OperationStore V) (run_id : RunId) (id : OperationId) (d : OperationDecision V)
      (cs : List (Command V))
      → Inv s
      → resolve run_id id d s ≡ ok t
      → SparesAll id cs
      → IsClaimed id (run t cs)
  unfolding step
  resolve_once s t run_id id d cs v e k =
      Claimed-IsClaimed t id cs (subst Inv (rw (e, step)) (step-Inv s (resolves run_id id d) v)) k
        (resolve-Claimed s t run_id id d e)

  -- From a store that keeps Inv, after a commit began, no history that does not remove the
  -- operation lets a second commit begin or a decision be recorded, for any run.
  pub begin_commit_once :
      (s t : OperationStore V) (run_id : RunId) (id : OperationId) (cs : List (Command V))
      → Inv s
      → begin_commit run_id id s ≡ ok t
      → SparesAll id cs
      → IsClaimed id (run t cs)
  unfolding step
  begin_commit_once s t run_id id cs v e k =
      Claimed-IsClaimed t id cs (subst Inv (rw (e, step)) (step-Inv s (begins run_id id) v)) k
        (begin_commit-Claimed s t run_id id e)
