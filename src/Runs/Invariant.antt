-- ===== src/Runs/Invariant.antt =====
-- Every history of calls keeps each run's event log well formed, and closed runs as they are.
use aifluxon.Runs.Record
use aifluxon.Runs.Table
use aifluxon.Runs.History.{same, updated, added, Inv, step, run, Call, RunChange}
use aifluxon.Runs.Steps.{
  kept, grew, RecordStep, RecordStep-WellFormed, new_record-WellFormed, new_record-context,
}
use aifluxon.Core.Message.{RunId}
use aifluxon.Runs.Record.{is_terminal, RunRecord, new_record}
use aifluxon.Core.Run.{RunContext}
use aifluxon.Runs.Table.{empty, RunTable}
use aifluxon.Prelude.{
  ◌==◌, ==_iff, Bool-cases, ◌≡◌, refl, ap, subst, ◌∙◌, ◌⊎◌, inl, inr, true, some, List, [], ◌∷◌,
  arith,
}
use aifluxon.Prelude.Map.{lookup, lookup-insert}
use aifluxon.Runs.Changes.{step-RunChange}
use aifluxon.Runs.EventLog.{WellFormed}

module _ {V : Type 0} where
  RecordStep-context : {r r' : RunRecord V} → RecordStep r r' → r'.context ≡ r.context
  RecordStep-context (kept c s e b) = c
  RecordStep-context (grew event state flag hooks h fits e) = ap (λ (x : RunRecord V). x.context) e

  pub RunChange-Inv : {t u : RunTable V} → Inv t → RunChange t u → Inv u
  RunChange-Inv v (same e) = record { at_id = λ id r h. v.at_id id r (rw (← e) h) }
  RunChange-Inv {t} v (updated j r₀ r₁ found s e) = record {
    at_id = λ id r h. elim (Bool-cases (j == id)) [
      | inl hit ↦
          subst (λ x. WellFormed x × (x.context.run_id ≡ id))
            (ground (arith, e, lookup-insert j id r₁ t.runs))
            (
              RecordStep-WellFormed r₀ r₁ (v.at_id j r₀ found).0 s,
              ap (λ (c : RunContext). c.run_id) (RecordStep-context s)
                  ∙ (v.at_id j r₀ found).1
                  ∙ (==_iff j id).0 hit,
            )
      | inr miss ↦ v.at_id id r (ground (arith, e, lookup-insert j id r₁ t.runs))
    ];
  }
  RunChange-Inv {t} v (added now context limits found e) = record {
    at_id = λ id r h. elim (Bool-cases (context.run_id == id)) [
      | inl hit ↦
          subst (λ x. WellFormed x × (x.context.run_id ≡ id))
            (ground
              (arith, e, lookup-insert context.run_id id (new_record now context limits) t.runs))
            (
              new_record-WellFormed now context limits,
              ap (λ (c : RunContext). c.run_id) (new_record-context _ now context limits)
                  ∙ (==_iff context.run_id id).0 hit,
            )
      | inr miss ↦ v.at_id id r (
          ground (arith, e, lookup-insert context.run_id id (new_record now context limits) t.runs))
    ];
  }

  pub step-Inv : (t : RunTable V) (c : Call V) → Inv t → Inv (step t c)
  step-Inv t c v = RunChange-Inv v (step-RunChange t c v)

  pub run-Inv : (t : RunTable V) (cs : List (Call V)) → Inv t → Inv (run t cs)
  unfolding run
  run-Inv t [] v = v
  run-Inv t (c ∷ cs) v = run-Inv (step t c) cs (step-Inv t c v)

  pub empty-Inv : Inv (Table.empty {V = V})
  unfolding Table.empty lookup
  empty-Inv = record { at_id = λ id r h. cc }

  -- After any history from the empty table, every run's log is numbered from 1, belongs to the
  -- run, begins with its start, has no terminal event but the last, and ends with one exactly
  -- when the run's state is terminal, which is then the state that the event states.
  pub run-WellFormed :
      (cs : List (Call V)) (id : RunId) (r : RunRecord V)
      → lookup id (run Table.empty cs).runs ≡ some r
      → WellFormed r × (r.context.run_id ≡ id)
  run-WellFormed cs id r h = (run-Inv Table.empty cs empty-Inv).at_id id r h

  -- What outside observers see of a run: who it is, its state and its log.
  pub record SameRun (r r' : RunRecord V) : Type 0 where
    pub context : r'.context ≡ r.context
    pub state : r'.state ≡ r.state
    pub events : r'.events ≡ r.events

  RecordStep-closed :
      {r r' : RunRecord V} → Record.is_terminal r.state ≡ true → RecordStep r r' → SameRun r r'
  RecordStep-closed h (kept c s e b) = record { context = c; state = s; events = e }
  RecordStep-closed h (grew event state flag hooks open_state fits e) = cc (h, open_state)

  pub RunChange-present :
      {t u : RunTable V} (id : RunId) (r : RunRecord V)
      → lookup id t.runs ≡ some r
      → RunChange t u
      → (r' : RunRecord V) × (lookup id u.runs ≡ some r') × (SameRun r r' ⊎ RecordStep r r')
  RunChange-present id r h (same e) =
      (r, ground (arith, e), inl (record { context = refl; state = refl; events = refl }))
  RunChange-present {t} id r h (updated j r₀ r₁ found s e) = elim (Bool-cases (j == id)) [
    | inl hit ↦ (
      r₁,
      ground (arith, e, lookup-insert j id r₁ t.runs),
      inr (subst (λ x. RecordStep x r₁) (ground arith) s),
    )
    | inr miss ↦ (
      r,
      ground (arith, e, lookup-insert j id r₁ t.runs),
      inl (record { context = refl; state = refl; events = refl }),
    )
  ]
  RunChange-present {t} id r h (added now context limits found e) = (
    r,
    ground (arith, e, lookup-insert context.run_id id (new_record now context limits) t.runs),
    inl (record { context = refl; state = refl; events = refl }),
  )

  SameRun-trans : {a b c : RunRecord V} → SameRun a b → SameRun b c → SameRun a c
  SameRun-trans p q = record {
    context = q.context ∙ p.context;
    state = q.state ∙ p.state;
    events = q.events ∙ p.events;
  }

  closed_step :
      {r r' : RunRecord V}
      → Record.is_terminal r.state ≡ true
      → SameRun r r' ⊎ RecordStep r r'
      → SameRun r r'
  closed_step h (inl s) = s
  closed_step h (inr s) = RecordStep-closed h s

  -- From a table that keeps Inv, once a run is completed, failed or cancelled, no history of
  -- calls changes its context, its state or its event log, or removes it.
  pub closed_run_kept :
      (t : RunTable V) (cs : List (Call V)) (id : RunId) (r : RunRecord V)
      → Inv t
      → lookup id t.runs ≡ some r
      → Record.is_terminal r.state ≡ true
      → (r' : RunRecord V) × (lookup id (run t cs).runs ≡ some r') × SameRun r r'
  unfolding run
  closed_run_kept t [] id r v h f = (r, h, record { context = refl; state = refl; events = refl })
  closed_run_kept t (c ∷ cs) id r v h f =
      let (r₁, there, moved) = RunChange-present id r h (step-RunChange t c v) in
      let here = closed_step f moved in
      let (r₂, there', later) =
        closed_run_kept (step t c) cs id r₁ (step-Inv t c v) there (rw here.state f) in
      (r₂, there', SameRun-trans here later)
