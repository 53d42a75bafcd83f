-- ===== src/Coordinator/Permits.antt =====
-- Which executors a process may run before the host approves an operation.
use aifluxon.Operations
use aifluxon.Coordinator.Process.{
  decides, executes, Answer, Process, Event, done, effect, advance, turn_of, proceeds, Fault,
  Effect, ◌>>=◌, or_fail, decision, take, issues, asks, reads, now, new_id, picks, call, deliver,
  play, ignore, other, number, picked, operation_failed, executed, turned, cancels, pure, ◌>>◌,
}
use aifluxon.Core.Run.{RunState, RunEvent, awaiting_operation, operation_requested}
use aifluxon.Core.Operation.{
  PendingOperation, blocking_approval, deferred_commit, approve, reject, OperationDecision,
}
use aifluxon.Core.Tool.{ToolValidationError}
use aifluxon.Ledger.{ToolResult, ToolExecutionError}
use aifluxon.Operations.{OperationError, Turn, asleep, decided, register, resolve}
use aifluxon.Runs.Table.{RunTable}
use aifluxon.Tools.Validation.{ToolInvocation}
use aifluxon.Prelude.{
  Bool, true, false, ◌||◌, Option, List, [], ◌∷◌, Result, ok, err, ◌≡◌, refl, subst, none, some,
  arith, String, map_ok,
}
use aifluxon.Coordinator.Execution.{
  settle, emit_event, move_to, spend_tool, request_operation, finish_host_operation, Approved,
}
use aifluxon.Core.Message.{RunId}

some_injective : {A : Type 0} {a b : A} → some a ≡ some b → a ≡ b
some_injective e = cc

module _ {V : Type 0} where
  -- The wait is answered with an approval.
  unfoldable pub is_approval : Result OperationError (Turn V) → Bool
  is_approval (ok (decided (approve payload))) = true
  is_approval (ok (decided (reject reason))) = false
  is_approval (ok (asleep notify seen)) = false
  is_approval (err e) = false

  -- The event hands an approval of the host to the process.
  unfoldable pub approves : {A : Type 0} → Event V → RunTable V → Process V A → Bool
  unfolding is_approval turn_of
  approves proceeds t (effect (decides id mode op) k) = is_approval (turn_of id mode op t)
  approves event t p = false

  -- Some event did.
  unfoldable pub was_approved : {A : Type 0} → List (Event V) → RunTable V → Process V A → Bool
  unfolding approves advance
  was_approved [] t p = false
  was_approved (event ∷ events) t p =
      approves event t p || was_approved events (advance event t p).0 (advance event t p).1

  -- An approval lifts every restriction.
  abbrev pub Unless : Result OperationError (OperationDecision V) → Type 0 → Type 0
  Unless (ok (approve payload)) P = Unit
  Unless (ok (reject reason)) P = P
  Unless (err e) P = P

  -- Whatever the effects are answered, an executor runs only on an invocation that satisfies P, until
  -- the host approves.
  abbrev pub Permits : {A : Type 0} → (ToolInvocation V → Type 0) → Process V A → Type 0
  Permits P (done r) = Unit
  Permits P (effect (executes id n i) k) =
      P i
      × ((x : Option (Result (ToolExecutionError ToolValidationError) (ToolResult V)))
          → Permits P (k x))
  Permits P (effect (decides id mode op) k) =
      (x : Result OperationError (OperationDecision V)) → Unless x (Permits P (k x))
  Permits P (effect e k) = (x : Answer e) → Permits P (k x)

  Unless-map :
      {P Q : Type 0} (x : Result OperationError (OperationDecision V))
      → (P → Q)
      → Unless x P
      → Unless x Q
  Unless-map (ok (approve payload)) f h = tt
  Unless-map (ok (reject reason)) f h = f h
  Unless-map (err e) f h = f h

  pub Permits-then :
      {A B : Type 0} (P : ToolInvocation V → Type 0) (p : Process V A) (f : A → Process V B)
      → Permits P p
      → ((a : A) → Permits P (f a))
      → Permits P (p >>= f)
  Permits-then P (done (ok a)) f h g = g a
  Permits-then P (done (err x)) f h g = tt
  Permits-then P (effect (issues c) k) f h g = λ x. Permits-then P (k x) f (h x) g
  Permits-then P (effect reads k) f h g = λ x. Permits-then P (k x) f (h x) g
  Permits-then P (effect now k) f h g = λ x. Permits-then P (k x) f (h x) g
  Permits-then P (effect new_id k) f h g = λ x. Permits-then P (k x) f (h x) g
  Permits-then P (effect picks k) f h g = λ x. Permits-then P (k x) f (h x) g
  Permits-then P (effect (asks id request) k) f h g = λ x. Permits-then P (k x) f (h x) g
  Permits-then P (effect (executes id n i) k) f h g = (h.0, λ x. Permits-then P (k x) f (h.1 x) g)
  Permits-then P (effect (decides id mode op) k) f h g =
      λ x. Unless-map x (λ allowed. Permits-then P (k x) f allowed g) (h x)

  pub or_fail-Permits :
      {A E : Type 0} (P : ToolInvocation V → Type 0) (f : E → Fault) (r : Result E A)
      → Permits P (or_fail {V = V} f r)
  or_fail-Permits P f (ok a) = tt
  or_fail-Permits P f (err e) = tt

  pub or_fail-then-Permits :
      {A B E : Type 0} (P : ToolInvocation V → Type 0) (f : E → Fault) (r : Result E A)
      (k : A → Process V B)
      → ((a : A) → r ≡ ok a → Permits P (k a))
      → Permits P (or_fail f r >>= k)
  or_fail-then-Permits P f (ok a) k h = h a refl
  or_fail-then-Permits P f (err e) k h = tt

  take-Permits :
      {A : Type 0} (P : ToolInvocation V → Type 0) (t : RunTable V) (e : Effect V)
      (k : Answer e → Process V A) (answer : Option (Answer e))
      → Permits P (effect e k)
      → ((x : Answer e) → answer ≡ some x → Permits P (k x))
      → Permits P (take t e k answer).1
  unfolding take
  take-Permits P t e k none h g = h
  take-Permits P t e k (some x) h g = g x refl

  decided-Permits :
      {A : Type 0} (P : ToolInvocation V → Type 0)
      (k : Result OperationError (OperationDecision V) → Process V A)
      (turn : Result OperationError (Turn V))
      → ((x : Result OperationError (OperationDecision V)) → Unless x (Permits P (k x)))
      → is_approval turn ≡ false
      → (x : Result OperationError (OperationDecision V)) → decision turn ≡ some x
      → Permits P (k x)
  unfolding is_approval
  decided-Permits P k (ok (asleep notify seen)) h g x e = cc
  decided-Permits P k (ok (decided (approve payload))) h g x e = cc
  decided-Permits P k (ok (decided (reject reason))) h g x e =
      subst (λ y. Permits P (k y)) (some_injective e) (h (ok (reject reason)))
  decided-Permits P k (err y) h g x e = subst (λ y. Permits P (k y)) (some_injective e) (h (err y))

  answer-Permits :
      {A : Type 0} (P : ToolInvocation V → Type 0) (t : RunTable V) (e : Effect V)
      (k : Answer e → Process V A) (event : Event V)
      → Permits P (effect e k)
      → approves event t (effect e k) ≡ false
      → (x : Answer e) → deliver t e event ≡ some x
      → Permits P (k x)
  unfolding approves deliver
  answer-Permits P t (issues c) k event h g x e = h x
  answer-Permits P t reads k event h g x e = h x
  answer-Permits P t now k event h g x e = h x
  answer-Permits P t new_id k event h g x e = h x
  answer-Permits P t picks k event h g x e = h x
  answer-Permits P t (asks id request) k event h g x e = h x
  answer-Permits P t (executes id n i) k event h g x e = h.1 x
  answer-Permits P t (decides id mode op) k proceeds h g x e =
      decided-Permits P k (turn_of id mode op t) h g x e
  answer-Permits P t (decides id mode op) k (other c) h g x e = cc
  answer-Permits P t (decides id mode op) k cancels h g x e = cc
  answer-Permits P t (decides id mode op) k (number n) h g x e = cc
  answer-Permits P t (decides id mode op) k (picked b) h g x e = cc
  answer-Permits P t (decides id mode op) k (executed r) h g x e = cc
  answer-Permits P t (decides id mode op) k (turned r) h g x e = cc

  advance-Permits :
      {A : Type 0} (P : ToolInvocation V → Type 0) (event : Event V) (t : RunTable V)
      (p : Process V A)
      → Permits P p
      → approves event t p ≡ false
      → Permits P (advance event t p).1
  unfolding advance
  advance-Permits P (other c) t p h g = h
  advance-Permits P proceeds t (done r) h g = tt
  advance-Permits P cancels t (done r) h g = tt
  advance-Permits P (number n) t (done r) h g = tt
  advance-Permits P (picked b) t (done r) h g = tt
  advance-Permits P (executed x) t (done r) h g = tt
  advance-Permits P (turned x) t (done r) h g = tt
  advance-Permits P proceeds t (effect e k) h g =
      take-Permits P t e k _ h (answer-Permits P t e k proceeds h g)
  advance-Permits P cancels t (effect e k) h g =
      take-Permits P t e k _ h (answer-Permits P t e k cancels h g)
  advance-Permits P (number n) t (effect e k) h g =
      take-Permits P t e k _ h (answer-Permits P t e k (number n) h g)
  advance-Permits P (picked b) t (effect e k) h g =
      take-Permits P t e k _ h (answer-Permits P t e k (picked b) h g)
  advance-Permits P (executed r) t (effect e k) h g =
      take-Permits P t e k _ h (answer-Permits P t e k (executed r) h g)
  advance-Permits P (turned r) t (effect e k) h g =
      take-Permits P t e k _ h (answer-Permits P t e k (turned r) h g)

  pub play-Permits :
      {A : Type 0} (P : ToolInvocation V → Type 0) (events : List (Event V)) (t : RunTable V)
      (p : Process V A)
      → Permits P p
      → was_approved events t p ≡ false
      → Permits P (play events t p).1
  unfolding play was_approved
  play-Permits P [] t p h g = h
  play-Permits P (event ∷ events) t p h g =
      play-Permits P events (advance event t p).0 (advance event t p).1
        (advance-Permits P event t p h (ground arith)) (ground arith)

  pub settle-Permits :
      (P : ToolInvocation V → Type 0) (id : RunId) (a : Approved) (r : Result String (Unit {0}))
      → Permits P (settle {V = V} id a r)
  unfolding settle finish_host_operation call
  settle-Permits P id none r = tt
  settle-Permits P id (some (op, blocking_approval)) r = λ t. or_fail-Permits P _ _
  settle-Permits P id (some (op, deferred_commit)) r = λ t. or_fail-Permits P _ _

  pub ignore-Permits :
      {A : Type 0} (P : ToolInvocation V → Type 0) (p : Process V A)
      → Permits P p
      → Permits P (ignore p)
  unfolding ignore
  ignore-Permits P (done r) h = tt
  ignore-Permits P (effect (issues c) k) h = λ x. ignore-Permits P (k x) (h x)
  ignore-Permits P (effect reads k) h = λ x. ignore-Permits P (k x) (h x)
  ignore-Permits P (effect now k) h = λ x. ignore-Permits P (k x) (h x)
  ignore-Permits P (effect new_id k) h = λ x. ignore-Permits P (k x) (h x)
  ignore-Permits P (effect picks k) h = λ x. ignore-Permits P (k x) (h x)
  ignore-Permits P (effect (asks id request) k) h = λ x. ignore-Permits P (k x) (h x)
  ignore-Permits P (effect (executes id n i) k) h = (h.0, λ x. ignore-Permits P (k x) (h.1 x))
  ignore-Permits P (effect (decides id mode op) k) h =
      λ x. Unless-map x (ignore-Permits P (k x)) (h x)

  pub emit_event-Permits :
      (P : ToolInvocation V → Type 0) (id : RunId) (event : RunEvent V)
      → Permits P (emit_event id event)
  unfolding emit_event call
  emit_event-Permits P id event = λ t. or_fail-Permits P _ _

  pub move_to-Permits :
      (P : ToolInvocation V → Type 0) (id : RunId) (state : RunState)
      → Permits P (move_to {V = V} id state)
  unfolding move_to call
  move_to-Permits P id state = λ t. or_fail-Permits P _ _

  pub spend_tool-Permits :
      (P : ToolInvocation V → Type 0) (id : RunId) → Permits P (spend_tool {V = V} id)
  unfolding spend_tool call
  spend_tool-Permits P id = λ at t. or_fail-Permits P _ _

  pub request_operation-Permits :
      (P : ToolInvocation V → Type 0) (id : RunId) (op : PendingOperation V)
      → Permits P (request_operation id op)
  unfolding request_operation
  request_operation-Permits P id op = λ at t.
      Permits-then P
        (or_fail operation_failed (map_ok (λ _. tt) (Operations.register at op t.operations)))
        (λ _. move_to id awaiting_operation >> (emit_event id (operation_requested op) >> pure tt))
        (or_fail-Permits P operation_failed _)
        λ _.
          Permits-then P (move_to id awaiting_operation)
            (λ _. emit_event id (operation_requested op) >> pure tt)
            (move_to-Permits P id awaiting_operation)
            λ _.
              Permits-then P (emit_event id (operation_requested op)) (λ _. pure tt)
                (emit_event-Permits P id _) λ _. tt
