-- ===== src/Runs/Steps.antt =====
-- What the methods under the lock do to one run's record.
use aifluxon.Runs.Record
use aifluxon.Core.Run.{
  RunContext, RunLimits, RunState, RunEvent, terminal_state, state_changed, u32_max,
}
use aifluxon.Prelude.{
  if◌then◌else◌, Bool-cases, Option-cases, last, All-append, ℕ, ◌≡◌, refl, ◌∙◌, inl, inr, Bool,
  true, false, none, some, List, [], ◌∷◌, ◌++◌, arith, ok, ◌≤◌, ◌<◌,
}
use aifluxon.Runs.EventLog.{
  IsOwned, WellFormed, Numbered-append, next_sequence-Numbered, OpenUntilLast-append,
  BeganWith-append, last_terminal-append,
}
use aifluxon.Runs.Record.{
  RunCancellationHook, RunRecord, may_follow, is_closed, next_sequence, append_event,
  set_record_state, emit_record, finish_record, cancel_record, add_hook, new_record, is_terminal,
}

module _ {V : Type 0} where
  -- What appending an event leaves, beside a new state, cancellation flag and hooks.
  abbrev pub extended :
      RunEvent V → RunState → Bool → List Record.RunCancellationHook → RunRecord V → RunRecord V
  extended event state flag hooks r = record r {
    state = state;
    is_cancelled = flag;
    hooks = hooks;
    events =
        r.events
        ++ record { sequence = next_sequence r.events; run_id = r.context.run_id; event = event }
          ∷ [];
  }

  -- The event says which state the run is in, as far as it speaks of a terminal one.
  abbrev pub Fits : RunEvent V → RunState → Type 0
  Fits event state = terminal_state event ≡ (if Record.is_terminal state then some state else none)

  -- The limit on rounds stays, and below the largest u32 the rounds that were used do not decrease.
  abbrev pub Spent : RunRecord V → RunRecord V → Type 0
  Spent r r' =
      (r'.budget.max_model_rounds ≡ r.budget.max_model_rounds)
      × (r.budget.max_model_rounds < u32_max → r.budget.model_rounds ≤ r'.budget.model_rounds)

  pub data RecordStep (r r' : RunRecord V) : Type 0 where
    kept :
        r'.context ≡ r.context
        → r'.state ≡ r.state
        → r'.events ≡ r.events
        → Spent r r'
        → RecordStep r r'
    grew :
        (event : RunEvent V) (state : RunState) (flag : Bool)
        (hooks : List Record.RunCancellationHook)
        → Record.is_terminal r.state ≡ false
        → Fits event state
        → r' ≡ extended event state flag hooks r
        → RecordStep r r'

  open_log :
      (r : RunRecord V)
      → WellFormed r
      → Record.is_terminal r.state ≡ false
      → is_closed r.events ≡ false
  unfolding is_closed
  open_log r w h = elim (Option-cases (last r.events)) [
    | inl e ↦ rw (e, is_closed)
    | inr (x, e) ↦ ground (arith, w.agrees)
  ]

  append_event-eq :
      (r : RunRecord V) (event : RunEvent V) (state : RunState) (flag : Bool)
      → WellFormed r
      → Record.is_terminal r.state ≡ false
      → append_event event (record r { state = state; is_cancelled = flag })
        ≡ (ok (next_sequence r.events), extended event state flag r.hooks r)
  unfolding append_event
  append_event-eq r event state flag w h = rw (open_log r w h, append_event)

  extended-WellFormed :
      (r : RunRecord V) (event : RunEvent V) (state : RunState) (flag : Bool)
      (hooks : List Record.RunCancellationHook)
      → WellFormed r
      → Record.is_terminal r.state ≡ false
      → Fits event state
      → WellFormed (extended event state flag hooks r)
  extended-WellFormed r event state flag hooks w h fits = record {
    numbered = Numbered-append 1 r.events _ w.numbered (next_sequence-Numbered r.events w.numbered);
    ordered = OpenUntilLast-append r.events _ w.ordered (w.agrees ∙ rw h);
    began = BeganWith-append r.context r.events _ w.began;
    owned = All-append (IsOwned r.context.run_id) r.events _ w.owned (refl, tt);
    agrees = last_terminal-append r.events _ ∙ fits;
  }

  pub RecordStep-WellFormed : (r r' : RunRecord V) → WellFormed r → RecordStep r r' → WellFormed r'
  RecordStep-WellFormed r r' w (kept c s e b) = record {
    numbered = rw e w.numbered;
    ordered = rw e w.ordered;
    began = rw (e, c) w.began;
    owned = rw (e, c) w.owned;
    agrees = rw (e, s) w.agrees;
  }
  RecordStep-WellFormed r r' w (grew event state flag hooks open_state fits e) =
      rw e (extended-WellFormed r event state flag hooks w open_state fits)

  pub set_record_state-RecordStep :
      (r : RunRecord V) (state : RunState)
      → WellFormed r
      → Record.is_terminal state ≡ false
      → RecordStep r (set_record_state state r).1
  unfolding set_record_state terminal_state
  set_record_state-RecordStep r state w h = elim (Bool-cases (Record.is_terminal r.state)) [
    | inl shut ↦ rw (shut, set_record_state) (kept refl refl refl (refl, λ h. omega arith))
    | inr live ↦ elim (Bool-cases (may_follow r.state state)) [
      | inl fine ↦
          grew (state_changed state) state r.is_cancelled r.hooks live (rw h)
            (ground (arith, append_event-eq r (state_changed state) state r.is_cancelled w live))
      | inr bad ↦
          kept (ground arith) (ground arith) (ground arith) (ground arith, λ h. ground arith)
    ]
  ]

  pub emit_record-RecordStep :
      (r : RunRecord V) (event : RunEvent V)
      → WellFormed r
      → terminal_state event ≡ none
      → RecordStep r (emit_record event r).1
  unfolding emit_record
  emit_record-RecordStep r event w h = elim (Bool-cases (Record.is_terminal r.state)) [
    | inl shut ↦ kept (ground arith) (ground arith) (ground arith) (ground arith, λ h. ground arith)
    | inr live ↦
        grew event r.state r.is_cancelled r.hooks live (rw live h)
          (ground (arith, append_event-eq r event r.state r.is_cancelled w live))
  ]

  pub finish_record-RecordStep :
      (r : RunRecord V) (state : RunState) (event : RunEvent V)
      → WellFormed r
      → Fits event state
      → RecordStep r (finish_record state event r).1
  unfolding finish_record
  finish_record-RecordStep r state event w fits = elim (Bool-cases (Record.is_terminal r.state)) [
    | inl shut ↦ kept (ground arith) (ground arith) (ground arith) (ground arith, λ h. ground arith)
    | inr live ↦
        grew event state r.is_cancelled r.hooks live fits
          (ground (arith, append_event-eq r event state r.is_cancelled w live))
  ]

  pub cancel_record-RecordStep : (r : RunRecord V) → WellFormed r → RecordStep r (cancel_record r).1
  unfolding cancel_record terminal_state Record.is_terminal
  cancel_record-RecordStep r w = elim (Bool-cases (Record.is_terminal r.state)) [
    | inl shut ↦ kept (ground arith) (ground arith) (ground arith) (ground arith, λ h. ground arith)
    | inr live ↦
        grew RunEvent.cancelled RunState.cancelled true [] live refl
          (ground (arith, append_event-eq r RunEvent.cancelled RunState.cancelled true w live))
  ]

  pub add_hook-RecordStep :
      (r : RunRecord V) (hook : Record.RunCancellationHook) → RecordStep r (add_hook hook r).1
  unfolding add_hook
  add_hook-RecordStep r hook =
      kept (ground arith) (ground arith) (ground arith) (ground arith, λ h. ground arith)

  pub new_record-WellFormed :
      (now : ℕ) (context : RunContext) (limits : RunLimits)
      → WellFormed (new_record {V = V} now context limits)
  unfolding new_record terminal_state Record.is_terminal
  new_record-WellFormed now context limits = record {
    numbered = (refl, tt);
    ordered = tt;
    began = refl;
    owned = (refl, tt);
    agrees = refl;
  }

pub new_record-context :
    (V : Type 0) (now : ℕ) (context : RunContext) (limits : RunLimits)
    → (new_record {V = V} now context limits).context ≡ context
unfolding new_record
new_record-context V now context limits = refl
