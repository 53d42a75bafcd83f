-- ===== src/Operations/Command.antt =====
-- The store's methods as commands, and histories of them: any thread may issue any command, and
-- the mutex makes a history a sequence.
use Prim.Native.String.{String}
use aifluxon.Prelude.{ℕ, ◌≢◌, List, [], ◌∷◌, Result, ok, err, All}
use aifluxon.Core.Message.{RunId, OperationId}
use aifluxon.Core.Operation.{PendingOperation, OperationDecision}
use aifluxon.Operations.{
  OperationStore, OperationError, register, resolve, begin_commit, finish_blocking_approval,
  finish_commit, cancel_run, expire, remove,
}

pub data Command (V : Type 0) : Type 0 where
  registers : ℕ → PendingOperation V → Command V
  resolves : RunId → OperationId → OperationDecision V → Command V
  begins : RunId → OperationId → Command V
  finishes_approval : RunId → OperationId → Result String (Unit {0}) → Command V
  finishes_commit : RunId → OperationId → Result String (Unit {0}) → Command V
  cancels : RunId → Command V
  expires : ℕ → Command V
  removes : RunId → OperationId → Command V

module _ {V : Type 0} where
  -- A method that fails leaves the store as it was.
  abbrev pub after : OperationStore V → Result OperationError (OperationStore V) → OperationStore V
  after s (ok t) = t
  after s (err e) = s

  abbrev pub after_count :
      OperationStore V → Result OperationError (OperationStore V × ℕ) → OperationStore V
  after_count s (ok (t, n)) = t
  after_count s (err e) = s

  unfoldable pub step : OperationStore V → Command V → OperationStore V
  step s (registers now op) = after s (register now op s)
  step s (resolves run id d) = after s (resolve run id d s)
  step s (begins run id) = after s (begin_commit run id s)
  step s (finishes_approval run id r) = after s (finish_blocking_approval run id r s)
  step s (finishes_commit run id r) = after s (finish_commit run id r s)
  step s (cancels run) = after_count s (cancel_run run s)
  step s (expires now) = after_count s (expire now s)
  step s (removes run id) = after s (remove run id s)

  unfoldable pub run : OperationStore V → List (Command V) → OperationStore V
  run s [] = s
  run s (c ∷ cs) = run (step s c) cs

  -- The command does not remove this operation.
  abbrev pub Spares : OperationId → Command V → Type 0
  Spares id (removes run j) = j ≢ id
  Spares id _ = Unit

  abbrev pub SparesAll : OperationId → List (Command V) → Type 0
  SparesAll id = All (Spares id)
