-- ===== src/Coordinator/Returns.antt =====
-- What a process returns, whatever its effects are answered.
use aifluxon.Coordinator.Process.{
  Fault, Effect, Answer, Process, Event, done, effect, play, take, advance, deliver, beside,
  collect, or_fail, ◌>>=◌, other, proceeds, cancels, number, picked, executed, turned,
}
use aifluxon.Core.Message.{Message, ToolCall, tool}
use aifluxon.Runs.Table.{RunTable}
use aifluxon.Prelude.{
  Result-cases, ◌≡◌, subst, inl, inr, true, false, Option, none, some, List, [], ◌∷◌, Result, ok,
  err,
}

module _ {V : Type 0} where
  -- If the process returns a value, the value satisfies Q, whatever its effects were answered.
  abbrev pub Returns : {A : Type 0} → (A → Type 0) → Process V A → Type 0
  Returns Q (done (ok a)) = Q a
  Returns Q (done (err x)) = Unit
  Returns Q (effect e k) = (x : Answer e) → Returns Q (k x)

  pub Returns-any : {A : Type 0} (p : Process V A) → Returns (λ _. Unit) p
  Returns-any (done (ok a)) = tt
  Returns-any (done (err x)) = tt
  Returns-any (effect e k) = λ x. Returns-any (k x)

  pub Returns->>= :
      {A B : Type 0} (Q : A → Type 0) (R : B → Type 0) (p : Process V A) (f : A → Process V B)
      → Returns Q p
      → ((a : A) → Q a → Returns R (f a))
      → Returns R (p >>= f)
  Returns->>= Q R (done (ok a)) f h g = g a h
  Returns->>= Q R (done (err x)) f h g = tt
  Returns->>= Q R (effect e k) f h g = λ x. Returns->>= Q R (k x) f (h x) g

  -- A step whose value does not matter.
  pub Returns-then :
      {A B : Type 0} (R : B → Type 0) (p : Process V A) (f : A → Process V B)
      → ((a : A) → Returns R (f a))
      → Returns R (p >>= f)
  Returns-then R p f g = Returns->>= (λ _. Unit) R p f (Returns-any p) (λ a _. g a)

  take-Returns :
      {A : Type 0} (Q : A → Type 0) (t : RunTable V) (e : Effect V) (k : Answer e → Process V A)
      (answer : Option (Answer e))
      → Returns Q (effect e k)
      → Returns Q (take t e k answer).1
  unfolding take
  take-Returns Q t e k none h = h
  take-Returns Q t e k (some x) h = h x

  advance-Returns :
      {A : Type 0} (Q : A → Type 0) (event : Event V) (t : RunTable V) (p : Process V A)
      → Returns Q p
      → Returns Q (advance event t p).1
  unfolding advance
  advance-Returns Q (other c) t p h = h
  advance-Returns Q proceeds t (done r) h = h
  advance-Returns Q cancels t (done r) h = h
  advance-Returns Q (number n) t (done r) h = h
  advance-Returns Q (picked b) t (done r) h = h
  advance-Returns Q (executed x) t (done r) h = h
  advance-Returns Q (turned x) t (done r) h = h
  advance-Returns Q proceeds t (effect e k) h = take-Returns Q t e k (deliver t e proceeds) h
  advance-Returns Q cancels t (effect e k) h = take-Returns Q t e k (deliver t e cancels) h
  advance-Returns Q (number n) t (effect e k) h = take-Returns Q t e k (deliver t e (number n)) h
  advance-Returns Q (picked b) t (effect e k) h = take-Returns Q t e k (deliver t e (picked b)) h
  advance-Returns Q (executed r) t (effect e k) h =
      take-Returns Q t e k (deliver t e (executed r)) h
  advance-Returns Q (turned r) t (effect e k) h = take-Returns Q t e k (deliver t e (turned r)) h

  play-Returns :
      {A : Type 0} (Q : A → Type 0) (events : List (Event V)) (t : RunTable V) (p : Process V A)
      → Returns Q p
      → Returns Q (play events t p).1
  unfolding play
  play-Returns Q [] t p h = h
  play-Returns Q (event ∷ events) t p h =
      play-Returns Q events (advance event t p).0 (advance event t p).1
        (advance-Returns Q event t p h)

  pub Returns-done :
      {A : Type 0} (Q : A → Type 0) (events : List (Event V)) (t : RunTable V) (p : Process V A)
      (a : A)
      → Returns Q p
      → (play events t p).1 ≡ done (ok a)
      → Q a
  Returns-done Q events t p a h e = subst (Returns Q) e (play-Returns Q events t p h)

  -- The message is the answer to the call.
  abbrev pub IsAnswer : ToolCall V → Message V → Type 0
  IsAnswer c m = (m.role ≡ tool) × (m.tool_call_id ≡ some c.id)

  -- One answer for each call, in the same order.
  abbrev pub Answers : List (ToolCall V) → List (Message V) → Type 0
  Answers [] [] = Unit
  Answers [] (m ∷ ms) = ⊥
  Answers (c ∷ cs) [] = ⊥
  Answers (c ∷ cs) (m ∷ ms) = IsAnswer c m × Answers cs ms

  -- One result for each call: an answer, or an error.
  abbrev pub Results : List (ToolCall V) → List (Result Fault (Message V)) → Type 0
  Results [] [] = Unit
  Results [] (r ∷ rs) = ⊥
  Results (c ∷ cs) [] = ⊥
  Results (c ∷ cs) (ok m ∷ rs) = IsAnswer c m × Results cs rs
  Results (c ∷ cs) (err x ∷ rs) = Results cs rs

  pub beside-Results :
      (c : ToolCall V) (cs : List (ToolCall V)) (p : Process V (Message V))
      (ps : Process V (List (Result Fault (Message V))))
      → Returns (IsAnswer c) p
      → Returns (Results cs) ps
      → Returns (Results (c ∷ cs)) (beside p ps)
  unfolding beside
  beside-Results c cs (done (ok m)) (done (ok rs)) h g = (h, g)
  beside-Results c cs (done (err x)) (done (ok rs)) h g = g
  beside-Results c cs (done r) (done (err x)) h g = tt
  beside-Results c cs (done r) (effect e k) h g = λ x. beside-Results c cs (done r) (k x) h (g x)
  beside-Results c cs (effect e k) (done rs) h g = λ x. beside-Results c cs (k x) (done rs) (h x) g
  beside-Results c cs (effect e k) (effect f l) h g = λ first.
      elim first
        as (λ b. Returns (Results (c ∷ cs)) (elim b [
          | true ↦ effect e (λ x. beside (k x) (effect f l))
          | false ↦ effect f (λ y. beside (effect e k) (l y))
        ])) [
          | true ↦ λ x. beside-Results c cs (k x) (effect f l) (h x) g
          | false ↦ λ y. beside-Results c cs (effect e k) (l y) h (g y)
        ]

  pub collect-Answers :
      (cs : List (ToolCall V)) (rs : List (Result Fault (Message V)))
      → Results cs rs
      → Returns (Answers cs) (or_fail (λ (x : Fault). x) (collect rs))
  unfolding collect
  collect-Answers [] [] h = tt
  collect-Answers [] (r ∷ rs) h = elim h [ ]
  collect-Answers (c ∷ cs) [] h = elim h [ ]
  collect-Answers (c ∷ cs) (err x ∷ rs) h = tt
  collect-Answers (c ∷ cs) (ok m ∷ rs) h =
      let rest = collect-Answers cs rs h.1 in
      elim (Result-cases (collect rs)) [
        | inl (ms, e) ↦ rw (e, collect) (h.0, rw e at rest)
        | inr (x, e) ↦ rw (e, collect) tt
      ]
