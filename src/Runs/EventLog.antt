-- ===== src/Runs/EventLog.antt =====
-- The event log of one run: numbered from 1, owned by the run, closed by its terminal event.
use aifluxon.Runs.Record
-- The largest number that saturates.
use aifluxon.Core.Message.{RunId}
use aifluxon.Core.Run.{u64_max, RunContext, RunState, RunEventEnvelope, terminal_state, run_started}
use aifluxon.Prelude.{
  ltb, if◌then◌else◌, Option-cases, length, last, last-append, All, ℕ, ◌+◌, ◌≡◌, inl, inr, Option,
  none, some, List, [], ◌∷◌, ◌++◌, arith, ◌≢◌,
}
use aifluxon.Runs.Record.{RunRecord, next_sequence, append_event}

abbrev pub clamp : ℕ → ℕ
clamp n = if ltb u64_max n then u64_max else n

module _ {V : Type 0} where
  abbrev pub last_terminal : List (RunEventEnvelope V) → Option RunState
  last_terminal es = elim (last es) [ none ↦ none | some e ↦ terminal_state e.event ]

  -- The sequence numbers are k, k + 1, ... as far as u64 goes.
  abbrev pub Numbered : ℕ → List (RunEventEnvelope V) → Type 0
  Numbered k [] = Unit
  Numbered k (e ∷ es) = (e.sequence ≡ clamp k) × Numbered (k + 1) es

  -- No event but the last is terminal.
  abbrev pub OpenUntilLast : List (RunEventEnvelope V) → Type 0
  OpenUntilLast [] = Unit
  OpenUntilLast (e ∷ []) = Unit
  OpenUntilLast (e ∷ f ∷ es) = (terminal_state e.event ≡ none) × OpenUntilLast (f ∷ es)

  -- The events after the first one.
  abbrev pub BeganWith : RunContext → List (RunEventEnvelope V) → Type 0
  BeganWith c [] = ⊥
  BeganWith c (e ∷ es) = e.event ≡ run_started c

  abbrev pub IsOwned : RunId → RunEventEnvelope V → Type 0
  IsOwned k e = e.run_id ≡ k

  pub record WellFormed (r : RunRecord V) : Type 0 where
    pub numbered : Numbered 1 r.events
    pub ordered : OpenUntilLast r.events
    pub began : BeganWith r.context r.events
    pub owned : All (IsOwned r.context.run_id) r.events
    pub agrees :
        last_terminal r.events ≡ (if Record.is_terminal r.state then some r.state else none)

  pub Numbered-append :
      (k : ℕ) (es : List (RunEventEnvelope V)) (x : RunEventEnvelope V)
      → Numbered k es
      → x.sequence ≡ clamp (k + length es)
      → Numbered k (es ++ x ∷ [])
  Numbered-append k [] x h e = (ground arith, tt)
  Numbered-append k (y ∷ es) x h e = (h.0, Numbered-append (k + 1) es x h.1 (ground arith))

  last-Numbered :
      (k : ℕ) (es : List (RunEventEnvelope V)) (e : RunEventEnvelope V)
      → Numbered k es
      → last es ≡ some e
      → e.sequence + 1 ≡ clamp (k + length es) + (if ltb u64_max (k + length es) then 1 else 0)
  last-Numbered k [] e h p = cc
  last-Numbered k (x ∷ []) e h p = ground arith
  last-Numbered k (x ∷ y ∷ es) e h p = ground (arith, last-Numbered (k + 1) (y ∷ es) e h.1 p)

  pub last-cons : (x : RunEventEnvelope V) (es : List (RunEventEnvelope V)) → last (x ∷ es) ≢ none
  last-cons x [] e = cc
  last-cons x (y ∷ es) e = last-cons y es e

  pub next_sequence-Numbered :
      (es : List (RunEventEnvelope V)) → Numbered 1 es → next_sequence es ≡ clamp (1 + length es)
  unfolding next_sequence
  next_sequence-Numbered [] h = ground arith
  next_sequence-Numbered (y ∷ es) h = elim (Option-cases (last (y ∷ es))) [
    | inl e ↦ absurd (last-cons y es e)
    | inr (x, e) ↦ ground (arith, last-Numbered 1 (y ∷ es) x h e)
  ]

  pub OpenUntilLast-append :
      (es : List (RunEventEnvelope V)) (x : RunEventEnvelope V)
      → OpenUntilLast es
      → last_terminal es ≡ none
      → OpenUntilLast (es ++ x ∷ [])
  OpenUntilLast-append [] x h e = tt
  OpenUntilLast-append (y ∷ []) x h e = (e, tt)
  OpenUntilLast-append (y ∷ z ∷ es) x h e = (h.0, OpenUntilLast-append (z ∷ es) x h.1 e)

  pub BeganWith-append :
      (c : RunContext) (es : List (RunEventEnvelope V)) (x : RunEventEnvelope V)
      → BeganWith c es
      → BeganWith c (es ++ x ∷ [])
  BeganWith-append c [] x h = absurd h
  BeganWith-append c (y ∷ es) x h = h

  pub last_terminal-append :
      (es : List (RunEventEnvelope V)) (x : RunEventEnvelope V)
      → last_terminal (es ++ x ∷ []) ≡ terminal_state x.event
  last_terminal-append es x = rw (last-append es x, last_terminal)
