-- ===== src/Coordinator/Rounds.antt =====
-- A loop of a run with a limit ends within the rounds that the limit leaves.
use aifluxon.Runs.History
use aifluxon.Coordinator.Interleaving.{
  Always, Always->>=, Always-Kept, Kept, run-Kept, after-Kept, Always-done,
}
use aifluxon.Coordinator.Loop.{
  Next, ends, goes_on, resume, rounds, spend_round, received, after_turn, round,
  run_registered_model_tool_loop, cancellation_token, start_counts, check_cancelled,
  run_registered_calls,
}
use aifluxon.Coordinator.Process.{
  Fault, Process, done, effect, after, call, or_fail, Event, ◌>>=◌, play, asks, table_failed, read,
}
use aifluxon.Continuation.{ContinuationCounts}
use aifluxon.Core.Message.{RunId, Message}
use aifluxon.Core.Provider.{ModelTurnRequest, ModelTurn}
use aifluxon.Runs.History.{Call, Inv, run, spends_round}
use aifluxon.Runs.Rounds.{RoundsLeft, step-RoundsLeft, spend-RoundsLeft}
use aifluxon.Runs.Spending.{consume_model_round}
use aifluxon.Runs.Table.{RunTable}
use aifluxon.Prelude.{
  ℕ, zero, suc, ◌<◌, ◌≢◌, subst, List, Option, none, Result, ok, err, Result-cases, inl, inr, arith,
  sym, ◌+◌, ◌≡◌, refl, some, ◌≤◌,
}
use aifluxon.Prelude.Map.{lookup}
use aifluxon.Coordinator.Messages.{RunExecutionResult}
use aifluxon.Json.{Json}
use aifluxon.Coordinator.Execution.{Session}
use aifluxon.Runs.Record.{RunRecord}
use aifluxon.Core.Run.{u32_max}

module _ {V : Type 0} where
  -- What a round that was paid for leaves.
  abbrev Spends : {A : Type 0} → RunId → ℕ → Result Fault A → RunTable V → Type 0
  Spends id n (ok a) u = (m : ℕ) × (m < n) × RoundsLeft id m u
  Spends id n (err x) u = Unit

  RoundsLeft-Kept : (id : RunId) (n : ℕ) → Kept (RoundsLeft {V = V} id n)
  RoundsLeft-Kept id n t c h = step-RoundsLeft id n t c h

  run-RoundsLeft :
      (id : RunId) (n : ℕ) (t : RunTable V) (cs : List (Call V))
      → RoundsLeft id n t
      → RoundsLeft id n (History.run t cs)
  run-RoundsLeft id n = run-Kept (RoundsLeft id n) (RoundsLeft-Kept id n)

  charged :
      (at : ℕ) (id : RunId) (n : ℕ) (t : RunTable V)
      → RoundsLeft id n t
      → Always
          (Spends id n)
          (or_fail Fault.budget_exceeded (consume_model_round at id t).0)
          (History.step t (spends_round at id))
  charged at id n t h = elim (Result-cases (consume_model_round at id t).0) [
    | inl (u, e) ↦
        let (m, less, left) = spend-RoundsLeft at id n t h e in
        rw e (λ cs. (m, less, run-RoundsLeft id m (History.step t (spends_round at id)) cs left))
    | inr (x, e) ↦ rw e (λ cs. tt)
  ]

  spend_round-Always :
      (id : RunId) (n : ℕ) (t : RunTable V)
      → RoundsLeft id n t
      → Always (Spends id n) (spend_round id) t
  unfolding spend_round call after
  spend_round-Always id n t h = λ cs at _ ds x fits.
      subst
        (λ u.
          Always (Spends id n) (or_fail Fault.budget_exceeded (consume_model_round at id u).0)
            (History.step (History.run (History.run t cs) ds) (spends_round at id)))
        (sym fits)
        (charged at id n (History.run (History.run t cs) ds)
          (run-RoundsLeft id n (History.run t cs) ds (run-RoundsLeft id n t cs h)))

  -- What follows a round that was paid for leaves it so.
  Spends-Kept :
      {A : Type 0} (id : RunId) (n : ℕ) (p : Process V A) (t : RunTable V)
      → (m : ℕ) × (m < n) × RoundsLeft id m t
      → Always (Spends id n) p t
  Spends-Kept id n (done (ok a)) t (m, less, h) = λ cs. (m, less, run-RoundsLeft id m t cs h)
  Spends-Kept id n (done (err x)) t h = λ cs. tt
  Spends-Kept id n (effect e k) t (m, less, h) = λ cs x fits.
      Spends-Kept id n (k x) (after (History.run t cs) e) (
        m,
        less,
        after-Kept (RoundsLeft id m) (RoundsLeft-Kept id m) (History.run t cs) e
            (run-RoundsLeft id m t cs h),
      )

  -- The loop has not run out of fuel.
  abbrev pub IsEnough : {A : Type 0} → Result Fault (Option A) → RunTable V → Type 0
  IsEnough r u = r ≢ ok none

  resume-IsEnough :
      (more : ContinuationCounts → ModelTurnRequest V → Process V (Option (RunExecutionResult V)))
      (next : Next V) (u : RunTable V)
      → ((counts : ContinuationCounts) (request : ModelTurnRequest V)
          → Always IsEnough (more counts request) u)
      → Always IsEnough (resume more next) u
  unfolding resume
  resume-IsEnough more (ends result) u h = λ cs e. cc
  resume-IsEnough more (goes_on counts request) u h = h counts request

  rounds-IsEnough :
      (fuel : ℕ) (before : Process V (Unit {0}))
      (body : ContinuationCounts → ModelTurnRequest V → Process V (Next V)) (id : RunId) (n : ℕ)
      (counts : ContinuationCounts) (request : ModelTurnRequest V) (t : RunTable V)
      → ((counts : ContinuationCounts) (request : ModelTurnRequest V) (n : ℕ) (u : RunTable V)
          → RoundsLeft id n u
          → Always (Spends id n) (body counts request) u)
      → n < fuel
      → RoundsLeft id n t
      → Always IsEnough (rounds fuel before body counts request) t
  unfolding rounds resume
  rounds-IsEnough zero before body id n counts request t paid less h = absurd (omega arith)
  rounds-IsEnough (suc fuel) before body id n counts request t paid less h =
      Always->>= (λ r u. RoundsLeft id n u) IsEnough before _ t
        (λ a u left.
          Always->>= (Spends id n) IsEnough (body counts request) (resume (rounds fuel before body))
            u
            (λ next w (m, below, rest).
              resume-IsEnough (rounds fuel before body) next w (λ counts' request'.
                rounds-IsEnough fuel before body id m counts' request' w paid (omega arith) rest))
            (λ x w _ e. cc) (paid counts request n u left))
        (λ x u _ e. cc) (Always-Kept (RoundsLeft id n) (RoundsLeft-Kept id n) before t h)

  round-Spends :
      (json : Json V) (id : RunId) (cancellable : Option RunId)
      (tools : ModelTurn V → Process V (List (Message V))) (counts : ContinuationCounts)
      (request : ModelTurnRequest V) (n : ℕ) (u : RunTable V)
      → RoundsLeft id n u
      → Always (Spends id n) (round json id cancellable tools counts request) u
  unfolding round
  round-Spends json id cancellable tools counts request n u h =
      Always->>= (Spends id n) (Spends id n) (spend_round id) _ u
        (λ a w spent.
          Spends-Kept id n
            (effect (asks cancellable request) received >>= λ turn.
              after_turn json tools counts request turn)
            w spent)
        (λ x w _. tt) (spend_round-Always id n u h)

module _ {V : Type 0} (json : Json V) (s : Session V) where
  loop-IsEnough :
      (fuel : ℕ) (request : ModelTurnRequest V) (t : RunTable V)
      → RoundsLeft s.run_id fuel t
      → Always IsEnough (run_registered_model_tool_loop json s (suc fuel) request) t
  unfolding run_registered_model_tool_loop
  loop-IsEnough fuel request t h =
      Always->>= (λ r u. RoundsLeft s.run_id fuel u) IsEnough
        (read table_failed (cancellation_token s.run_id)) _ t
        (λ a u left.
          Always->>= (λ r w. RoundsLeft s.run_id fuel w) IsEnough (start_counts s.run_id) _ u
            (λ counts w left'.
              rounds-IsEnough (suc fuel) (check_cancelled s.run_id)
                (round json s.run_id (some s.run_id) (run_registered_calls json s)) s.run_id fuel
                counts request w
                (round-Spends json s.run_id (some s.run_id) (run_registered_calls json s))
                (omega arith) left')
            (λ x w _ e. cc)
            (Always-Kept (RoundsLeft s.run_id fuel) (RoundsLeft-Kept s.run_id fuel)
              (start_counts s.run_id) u left))
        (λ x u _ e. cc)
        (Always-Kept (RoundsLeft s.run_id fuel) (RoundsLeft-Kept s.run_id fuel)
          (read table_failed (cancellation_token s.run_id)) t h)

  -- In a table that keeps Inv, for a run whose limit on rounds is below u32::MAX and leaves at
  -- most a number of rounds, with one unit of fuel more than that the loop over registered tools
  -- does not end for want of fuel, whatever the model, the tools, the host and other threads do.
  pub loop_ends :
      (fuel : ℕ) (request : ModelTurnRequest V) (events : List (Event V)) (t : RunTable V)
      (r : RunRecord V)
      → Inv t
      → lookup s.run_id t.runs ≡ some r
      → r.budget.max_model_rounds < u32_max
      → r.budget.max_model_rounds ≤ r.budget.model_rounds + fuel
      → (play events t (run_registered_model_tool_loop json s (suc fuel) request)).1
        ≢ done (ok none)
  loop_ends fuel request events t r v found limited enough ended =
      Always-done IsEnough events t (run_registered_model_tool_loop json s (suc fuel) request)
        (ok none)
        (loop-IsEnough fuel request t
          (record { inv = v; found = r; there = found; limited = limited; left = enough }))
        ended refl
