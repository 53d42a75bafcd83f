-- ===== src/Runs/Rounds.antt =====
-- How many model rounds a run has left, whatever the calls of the table.
use aifluxon.Budget
use aifluxon.Core.Message.{RunId}
use aifluxon.Core.Run.{u32_max}
use aifluxon.Runs.Changes.{step-RunChange}
use aifluxon.Runs.History.{
  same, updated, added, Inv, step, Call, RunChange, spends_round, get_record-eq-ok,
}
use aifluxon.Runs.Invariant.{step-Inv}
use aifluxon.Runs.Record.{RunRecord, new_record}
use aifluxon.Runs.Spending.{consume_model_round, put_budget}
use aifluxon.Runs.Steps.{kept, grew, RecordStep, Spent}
use aifluxon.Runs.Table.{RunTable, get_record}
use aifluxon.Prelude.Map.{lookup, lookup-insert}
use aifluxon.Prelude.{
  ◌==◌, Bool-cases, ◌≡◌, ap, inl, inr, ℕ, zero, suc, ◌+◌, ◌≤◌, ◌<◌, some, ok, arith,
}
use aifluxon.Runs.History

module _ {V : Type 0} where
  -- The run is there, its limit is a real one, and at most n rounds are left.
  pub record RoundsLeft (id : RunId) (n : ℕ) (t : RunTable V) : Type 0 where
    pub inv : Inv t
    pub found : RunRecord V
    pub there : lookup id t.runs ≡ some found
    pub limited : found.budget.max_model_rounds < u32_max
    pub left : found.budget.max_model_rounds ≤ found.budget.model_rounds + n

  RecordStep-Spent : (r r' : RunRecord V) → RecordStep r r' → Spent r r'
  RecordStep-Spent r r' (kept c s e b) = b
  RecordStep-Spent r r' (grew event state flag hooks h fits e) =
      let same_budget = ap (λ (x : RunRecord V). x.budget) e in
      (ground (arith, same_budget), λ h. ground (arith, same_budget))

  moved :
      (id : RunId) (n : ℕ) (t u : RunTable V)
      → RoundsLeft id n t
      → Inv u
      → RunChange t u
      → RoundsLeft id n u
  moved id n t u h v (same e) = record {
    inv = v;
    found = h.found;
    there = rw e h.there;
    limited = h.limited;
    left = h.left;
  }
  moved id n t u h v (updated j r r' found s e) = elim (Bool-cases (j == id)) [
    | inl hit ↦
        let spent = RecordStep-Spent r r' s in
        let there : r ≡ h.found = ground (arith, h.there) in
        let limit = ap (λ (x : RunRecord V). x.budget.max_model_rounds) there in
        let used = ap (λ (x : RunRecord V). x.budget.model_rounds) there in
        let more = spent.1 (omega (arith, h.limited)) in
        record {
          inv = v;
          found = r';
          there = ground (arith, e, lookup-insert j id r' t.runs);
          limited = omega (arith, h.limited, spent.0);
          left = omega (arith, h.left, spent.0);
        }
    | inr miss ↦ record {
      inv = v;
      found = h.found;
      there = ground (arith, e, h.there, lookup-insert j id r' t.runs);
      limited = h.limited;
      left = h.left;
    }
  ]
  moved id n t u h v (added now context limits found e) = record {
    inv = v;
    found = h.found;
    there =
        ground (
          arith,
          e,
          h.there,
          lookup-insert context.run_id id (new_record now context limits) t.runs,
        );
    limited = h.limited;
    left = h.left;
  }

  pub step-RoundsLeft :
      (id : RunId) (n : ℕ) (t : RunTable V) (c : Call V)
      → RoundsLeft id n t
      → RoundsLeft id n (History.step t c)
  step-RoundsLeft id n t c h =
      moved id n t (History.step t c) h (step-Inv t c h.inv) (step-RunChange t c h.inv)

  -- A round that is granted leaves one less, and none is granted where none is left.
  pub spend-RoundsLeft :
      (now : ℕ) (id : RunId) (n : ℕ) (t : RunTable V)
      → RoundsLeft id n t
      → (consume_model_round now id t).0 ≡ ok tt
      → (m : ℕ) × (m < n) × RoundsLeft id m (History.step t (spends_round now id))
  unfolding consume_model_round put_budget Budget.consume_model_round get_record History.step
  spend-RoundsLeft now id zero t h granted = absurd (ground (arith, h.there, h.limited, h.left))
  spend-RoundsLeft now id (suc n) t h granted = (
    n,
    omega arith,
    record {
      inv = step-Inv t (spends_round now id) h.inv;
      found = record h.found { budget = (Budget.consume_model_round now h.found.budget).1 };
      there = ground (
        arith,
        h.there,
        lookup-insert id id
            (record h.found { budget = (Budget.consume_model_round now h.found.budget).1 }) t.runs,
      );
      limited = ground (arith, h.limited);
      left = ground (arith, h.there, h.limited, h.left, granted);
    },
  )
