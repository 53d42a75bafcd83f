-- ===== src/Terminal.antt =====
-- crates/aifluxon-runtime/src/terminal.rs: the guard that lets one terminal outcome in. The atomic
-- byte is a number, and each of its operations is one step.
use aifluxon.Prelude.{
  ℕ, ◌==◌, if◌then◌else◌, Bool, true, false, Option, none, some, List, [], ◌∷◌, map, ◌≡◌, refl,
}

pub data AgentTerminalOutcome : Type 0 where
  completed failed cancelled budget_exceeded : AgentTerminalOutcome

-- outcome as u8.
abbrev pub code_of : AgentTerminalOutcome → ℕ
code_of completed = 1
code_of failed = 2
code_of cancelled = 3
code_of budget_exceeded = 4

pub record AgentTerminalGuard : Type 0 where
  pub inner : ℕ

abbrev pub new_guard : AgentTerminalGuard
new_guard = record { inner = 0 }

-- The answer and the guard after it.
unfoldable pub try_enter : AgentTerminalOutcome → AgentTerminalGuard → Bool × AgentTerminalGuard
try_enter o g = if g.inner == 0 then (true, record { inner = code_of o }) else (false, g)

unfoldable pub outcome : AgentTerminalGuard → Option AgentTerminalOutcome
outcome g =
    if g.inner == 1
    then some completed
    else if g.inner == 2
    then some failed
    else if g.inner == 3
    then some cancelled
    else if g.inner == 4
    then some budget_exceeded
    else none

-- The answers to the threads that try to enter, in their order, and the guard after them.
abbrev entries : List AgentTerminalOutcome → AgentTerminalGuard → List Bool × AgentTerminalGuard
unfolding try_enter
entries [] g = ([], g)
entries (o ∷ os) g =
    let here = try_enter o g in let rest = entries os here.1 in (here.0 ∷ rest.0, rest.1)

entered :
    (o : AgentTerminalOutcome) (os : List AgentTerminalOutcome)
    → entries os (record { inner = code_of o })
      ≡ (map (λ other. false) os, record { inner = code_of o })
unfolding try_enter
entered o [] = refl
entered completed (p ∷ os) = rw (entered completed os) refl
entered failed (p ∷ os) = rw (entered failed os) refl
entered cancelled (p ∷ os) = rw (entered cancelled os) refl
entered budget_exceeded (p ∷ os) = rw (entered budget_exceeded os) refl

outcome-code_of : (o : AgentTerminalOutcome) → outcome (record { inner = code_of o }) ≡ some o
unfolding outcome
outcome-code_of completed = refl
outcome-code_of failed = refl
outcome-code_of cancelled = refl
outcome-code_of budget_exceeded = refl

-- Of the threads that try to enter a new guard, the first alone does, and its outcome stays.
first_outcome_kept :
    (o : AgentTerminalOutcome) (os : List AgentTerminalOutcome)
    → ((entries (o ∷ os) new_guard).0 ≡ true ∷ map (λ other. false) os)
      × (outcome (entries (o ∷ os) new_guard).1 ≡ some o)
unfolding try_enter
first_outcome_kept o os = rw (entered o os) (refl, outcome-code_of o)
