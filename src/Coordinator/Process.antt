-- ===== src/Coordinator/Process.antt =====
-- The async functions of coordinator.rs. A process asks for one effect after the other, and what
-- answers it is its environment: the run table, which other threads use in between, the model, the
-- executors, the clock and the source of identifiers.
use aifluxon.Runs.History
use aifluxon.Operations
use aifluxon.Operations.{OperationError, Turn, asleep, decided, wait, wait_for_commit_or_reject}
use aifluxon.Core.Message.{RunId, OperationId}
use aifluxon.Core.Operation.{OperationMode, OperationDecision, blocking_approval, deferred_commit}
use aifluxon.Core.Provider.{ModelTurn, ModelTurnRequest}
use aifluxon.Core.Tool.{ToolValidationError}
use aifluxon.Budget.{AgentBudgetKind}
use aifluxon.Ledger.{ToolResult, ToolExecutionError}
use aifluxon.Runs.History.{Call, step}
use aifluxon.Runs.Record.{RunTableError}
use aifluxon.Runs.Table.{RunTable}
use aifluxon.Tools.Validation.{ToolInvocation}
use aifluxon.Prelude.Map.{lookup}
use aifluxon.Prelude.{
  ℕ, Bool, true, false, Option, none, some, List, [], ◌∷◌, String, Result, ok, err, if◌then◌else◌,
}

-- Where a ProviderError comes from.
pub data Fault : Type 0 where
  budget_exceeded : AgentBudgetKind → Fault
  table_failed : RunTableError → Fault
  operation_failed : OperationError → Fault
  tool_failed : ToolExecutionError ToolValidationError → Fault
  provider execution policy arguments : String → Fault
  unregistered : String → Fault
  run_cancelled continuation_limit tool_disappeared : Fault

pub data Effect (V : Type 0) : Type 0 where
  issues : Call V → Effect V
  reads now new_id picks : Effect V
  decides : RunId → OperationMode → OperationId → Effect V
  executes : RunId → ℕ → ToolInvocation V → Effect V
  asks : Option RunId → ModelTurnRequest V → Effect V

-- A call of the table is answered by the table as the call found it. `none` is the cancelled branch
-- of a select.
abbrev pub Answer : {V : Type 0} → Effect V → Type 0
Answer {V} (issues c) = RunTable V
Answer {V} reads = RunTable V
Answer now = ℕ
Answer new_id = ℕ
Answer picks = Bool
Answer {V} (decides id mode operation) = Result OperationError (OperationDecision V)
Answer {V} (executes id executor invocation) =
    Option (Result (ToolExecutionError ToolValidationError) (ToolResult V))
Answer {V} (asks id request) = Option (Result String (ModelTurn V))

pub data Process (V A : Type 0) : Type 0 where
  done : Result Fault A → Process V A
  effect : (e : Effect V) → (Answer e → Process V A) → Process V A

-- What the environment does next: another thread's call, or an attempt to go on.
pub data Event (V : Type 0) : Type 0 where
  other : Call V → Event V
  proceeds cancels : Event V
  number : ℕ → Event V
  picked : Bool → Event V
  executed : Result (ToolExecutionError ToolValidationError) (ToolResult V) → Event V
  turned : Result String (ModelTurn V) → Event V

module _ {V : Type 0} where
  infixl 5 ◌>>=◌ ◌>>◌
  abbrev pub ◌>>=◌ : {A B : Type 0} → Process V A → (A → Process V B) → Process V B
  done (ok a) >>= f = f a
  done (err x) >>= f = done (err x)
  effect e k >>= f = effect e (λ x. k x >>= f)

  abbrev pub ◌>>◌ : {A B : Type 0} → Process V A → Process V B → Process V B
  m >> k = m >>= λ _. k

  abbrev pub pure : {A : Type 0} → A → Process V A
  pure a = done (ok a)

  abbrev pub fail : {A : Type 0} → Fault → Process V A
  fail x = done (err x)

  -- The error under `map_err`.
  abbrev pub or_fail : {A E : Type 0} → (E → Fault) → Result E A → Process V A
  or_fail f (ok a) = done (ok a)
  or_fail f (err e) = done (err (f e))

  -- A call of the table, and its answer.
  unfoldable pub call :
      {A E : Type 0} → (E → Fault) → Call V → (RunTable V → Result E A) → Process V A
  call f c answer = effect (issues c) (λ t. or_fail f (answer t))

  unfoldable pub read : {A E : Type 0} → (E → Fault) → (RunTable V → Result E A) → Process V A
  read f answer = effect reads (λ t. or_fail f (answer t))

  -- The flag behind the cancellation token of a run.
  unfoldable pub is_cancelled : RunId → RunTable V → Bool
  unfolding lookup
  is_cancelled id t = elim (lookup id t.runs) [ none ↦ false | some r ↦ r.is_cancelled ]

  abbrev pub decision :
      Result OperationError (Turn V) → Option (Result OperationError (OperationDecision V))
  decision (ok (asleep notify seen)) = none
  decision (ok (decided d)) = some (ok d)
  decision (err e) = some (err e)

  -- One turn of the waiting loop that belongs to the mode.
  unfoldable pub turn_of :
      RunId → OperationMode → OperationId → RunTable V → Result OperationError (Turn V)
  unfolding Operations.wait Operations.wait_for_commit_or_reject
  turn_of id blocking_approval operation t = Operations.wait id operation t.operations
  turn_of id deferred_commit operation t =
      Operations.wait_for_commit_or_reject id operation t.operations

  -- The answer that an event gives to an effect, if it gives one.
  unfoldable pub deliver : RunTable V → (e : Effect V) → Event V → Option (Answer e)
  unfolding is_cancelled turn_of
  deliver t (issues c) proceeds = some t
  deliver t reads proceeds = some t
  deliver t now (number n) = some n
  deliver t new_id (number n) = some n
  deliver t picks (picked b) = some b
  deliver t (decides id mode operation) proceeds = decision (turn_of id mode operation t)
  deliver t (executes id executor invocation) (executed x) = some (some x)
  deliver t (executes id executor invocation) cancels =
      if is_cancelled id t then some none else none
  deliver t (asks id request) (turned x) = some (some x)
  deliver t (asks (some id) request) cancels = if is_cancelled id t then some none else none
  deliver t e event = none

  unfoldable pub after : RunTable V → Effect V → RunTable V
  unfolding History.step
  after t (issues c) = History.step t c
  after t e = t

  unfoldable pub take :
      {A : Type 0}
      → RunTable V
      → (e : Effect V) → (Answer e → Process V A)
      → Option (Answer e)
      → RunTable V × Process V A
  unfolding after
  take t e k none = (t, effect e k)
  take t e k (some x) = (after t e, k x)

  unfoldable pub advance :
      {A : Type 0} → Event V → RunTable V → Process V A → RunTable V × Process V A
  unfolding deliver take History.step
  advance (other c) t p = (History.step t c, p)
  advance event t (done r) = (t, done r)
  advance event t (effect e k) = take t e k (deliver t e event)

  unfoldable pub play :
      {A : Type 0} → List (Event V) → RunTable V → Process V A → RunTable V × Process V A
  unfolding advance
  play [] t p = (t, p)
  play (event ∷ events) t p = play events (advance event t p).0 (advance event t p).1

  -- `let _ = ...`.
  unfoldable pub ignore : {A : Type 0} → Process V A → Process V (Unit {0})
  ignore (done r) = pure tt
  ignore (effect e k) = effect e (λ x. ignore (k x))

  -- Two processes of one task, polled in any order, with the results in the order of the processes.
  unfoldable pub beside :
      {A : Type 0}
      → Process V A
      → Process V (List (Result Fault A))
      → Process V (List (Result Fault A))
  beside (done a) (done (ok results)) = pure (a ∷ results)
  beside (done a) (done (err x)) = fail x
  beside (done a) (effect e k) = effect e (λ x. beside (done a) (k x))
  beside (effect e k) (done results) = effect e (λ x. beside (k x) (done results))
  beside (effect e k) (effect f l) = effect picks λ first. elim first [
    | true ↦ effect e (λ x. beside (k x) (effect f l))
    | false ↦ effect f (λ y. beside (effect e k) (l y))
  ]

  -- join_all.
  unfoldable pub join_all : {A : Type 0} → List (Process V A) → Process V (List (Result Fault A))
  unfolding beside
  join_all [] = pure []
  join_all (p ∷ ps) = beside p (join_all ps)

-- Collecting into a Result stops at the first error.
unfoldable pub collect : {A : Type 0} → List (Result Fault A) → Result Fault (List A)
collect [] = ok []
collect (err x ∷ rs) = err x
collect (ok a ∷ rs) = elim (collect rs) [ ok rest ↦ ok (a ∷ rest) | err x ↦ err x ]
