-- ===== src/Runs/Tree/Closing.antt =====
-- Cancelling a tree closes every run of it.
use mathlib.Core.Option
use aifluxon.Runs.Record
use aifluxon.Runs.History
use aifluxon.Runs.History.{Inv, run, step, runs-report, runs-close_operations, runs-then_wake}
use aifluxon.Runs.Record.{
  identifier_collision, unknown_run, run_terminal, pending_operations, store_unavailable,
  invalid_transition, operation, RunTableError, RunCancellationHook, RunRecord, cancel_record,
  is_terminal, is_closed,
}
use aifluxon.Runs.Table.{
  RunTable, CancellationReport, Action, get_record, with_record, report, cancel, then_wake,
  close_operations,
}
use aifluxon.Runs.Tree.{cancel_round, cancel_each, cancel_tree}
use aifluxon.Runs.Changes.{step-RunChange}
use aifluxon.Runs.Invariant.{RunChange-present, closed_run_kept, step-Inv}
use aifluxon.Prelude.Map.{lookup, insert, lookup-insert, values}
use aifluxon.Prelude.IdSet.{contains}
use aifluxon.Core.Message.{RunId}
use aifluxon.Prelude.{
  Result, ◌≡◌, refl, Bool, true, false, some, List, [], ◌∷◌, ◌++◌, ok, err, ◌==◌, ==_iff,
  Bool-cases, Result-cases, sym, ap, subst, ◌∙◌, inl, inr, arith,
}
use aifluxon.Runs.Tree.Collect.{Descends, collect_exact}

-- The results after which `cancel_tree` goes on.
passes : {A : Type 0} → Result RunTableError A → Bool
passes (ok a) = true
passes (err run_terminal) = true
passes (err _) = false

module _ {V : Type 0} where
  -- The run is in the table, and there in a terminal state.
  pub record Closed (id : RunId) (t : RunTable V) : Type 0 where
    pub found : RunRecord V
    pub there : lookup id t.runs ≡ some found
    pub final : Record.is_terminal found.state ≡ true

  record Present (id : RunId) (t : RunTable V) : Type 0 where
    held : RunRecord V
    there : lookup id t.runs ≡ some held

  cancel_record-final : (r : RunRecord V) → Record.is_terminal (cancel_record r).1.state ≡ true
  unfolding cancel_record Record.is_terminal
  cancel_record-final r = elim (Bool-cases (Record.is_terminal r.state)) [
    | inl shut ↦ ground arith
    | inr live ↦ elim (Bool-cases (is_closed r.events)) [
      | inl ended ↦ ground arith
      | inr going ↦ ground arith
    ]
  ]

  locked_runs :
      (t : RunTable V) (id : RunId) → (cancel id t).1.runs ≡ (with_record id cancel_record t).1.runs
  unfolding cancel
  locked_runs t id =
      let locked : Result RunTableError (List RunCancellationHook) × RunTable V =
        with_record id cancel_record t in
      runs-report id (close_operations id (then_wake locked))
      ∙ runs-close_operations id (then_wake locked)
      ∙ runs-then_wake locked

  get_record-eq-err :
      (id : RunId) (t : RunTable V) (x : RunTableError) (r : RunRecord V)
      → get_record id t ≡ err x
      → lookup id t.runs ≡ some r
      → x ≡ store_unavailable
  unfolding get_record
  get_record-eq-err id t x r e h = ground arith

  cancel-eq-err :
      (id : RunId) (t : RunTable V) (x : RunTableError)
      → get_record id t ≡ err x
      → (cancel id t).0 ≡ err x
  unfolding cancel with_record then_wake close_operations report
  cancel-eq-err id t x e = rw (e, with_record, cancel) refl

  cancel-Closed :
      (t : RunTable V) (id : RunId)
      → Present id t
      → passes (cancel id t).0 ≡ true
      → Closed id (cancel id t).1
  unfolding passes with_record insert
  cancel-Closed t id p h = elim (Result-cases (get_record id t)) [
    | inl (r, e) ↦
        let moved : (cancel id t).1.runs ≡ insert id (cancel_record r).1 t.runs =
          locked_runs t id ∙ rw (e, with_record) in
        record {
          found = (cancel_record r).1;
          there = ground (arith, moved, lookup-insert id id (cancel_record r).1 t.runs);
          final = cancel_record-final r;
        }
    | inr (x, e) ↦
        absurd (cc (h, cancel-eq-err id t x e, get_record-eq-err id t x p.held e p.there))
  ]

  cancel_round-ok :
      (later : List (CancellationReport V) → Action V (List (CancellationReport V)))
      (reports out : List (CancellationReport V))
      (x : Result RunTableError (CancellationReport V) × RunTable V) (u : RunTable V)
      → cancel_round later reports x ≡ (ok out, u)
      → (passes x.0 ≡ true)
        × ((reports' : List (CancellationReport V)) × (later reports' x.1 ≡ (ok out, u)))
  unfolding cancel_round passes
  cancel_round-ok later reports out (ok one, t) u h = (refl, (reports ++ one ∷ [], h))
  cancel_round-ok later reports out (err run_terminal, t) u h = (refl, (reports, h))
  cancel_round-ok later reports out (err identifier_collision, t) u h = cc
  cancel_round-ok later reports out (err unknown_run, t) u h = cc
  cancel_round-ok later reports out (err pending_operations, t) u h = cc
  cancel_round-ok later reports out (err store_unavailable, t) u h = cc
  cancel_round-ok later reports out (err (invalid_transition a b), t) u h = cc
  cancel_round-ok later reports out (err (operation e), t) u h = cc

  cancel_keeps-Closed :
      (t : RunTable V) (id other : RunId) → Inv t → Closed id t → Closed id (cancel other t).1
  unfolding run step
  cancel_keeps-Closed t id other v c =
      let (r', h, same) =
        closed_run_kept t (History.cancels other ∷ []) id c.found v c.there c.final in
      record { found = r'; there = h; final = rw same.state c.final }

  cancel_keeps-Present :
      (t : RunTable V) (id other : RunId) → Inv t → Present id t → Present id (cancel other t).1
  unfolding step
  cancel_keeps-Present t id other v p =
      let (r', h, moved) =
        RunChange-present id p.held p.there (step-RunChange t (History.cancels other) v) in
      record { held = r'; there = h }

  cancel-Inv : (t : RunTable V) (id : RunId) → Inv t → Inv (cancel id t).1
  unfolding step
  cancel-Inv t id v = step-Inv t (History.cancels id) v

  cancel_each-Closed :
      (targets : List RunId) (reports out : List (CancellationReport V)) (t u : RunTable V)
      → Inv t
      → cancel_each targets reports t ≡ (ok out, u)
      → (id : RunId)
      → ((Closed id t → Closed id u) × (contains id targets ≡ true → Present id t → Closed id u))
  unfolding cancel_each contains
  cancel_each-Closed [] reports out t u v e id =
      (λ c. subst (Closed id) (ap (λ x. x.1) e) c, λ h p. cc)
  cancel_each-Closed (target ∷ targets) reports out t u v e id =
      let (passed, (reports', rest)) =
        cancel_round-ok (cancel_each targets) reports out (cancel target t) u e in
      let (keeps, closes) =
        cancel_each-Closed targets reports' out (cancel target t).1 u (cancel-Inv t target v) rest
          id in
      (
        λ c. keeps (cancel_keeps-Closed t id target v c),
        λ h p. elim (Bool-cases (target == id)) [
          | inl hit ↦ keeps (
              subst (λ k. Closed k (cancel target t).1) ((==_iff target id).0 hit)
                (cancel-Closed t target
                  (subst (λ k. Present k t) (sym ((==_iff target id).0 hit)) p) passed))
          | inr miss ↦ closes (ground arith) (cancel_keeps-Present t id target v p)
        ],
      )

  -- From a table that keeps Inv, when cancel_tree reports success, the root and every run below
  -- it that is in the table is completed, failed or cancelled.
  pub cancel_tree_closes :
      (t u : RunTable V) (root id : RunId) (out : List (CancellationReport V)) (r : RunRecord V)
      → Inv t
      → cancel_tree root t ≡ some (ok out, u)
      → Descends (values t.runs) root id
      → lookup id t.runs ≡ some r
      → Closed id u
  unfolding cancel_tree
  cancel_tree_closes t u root id out r v e below_root there =
      elim (Result-cases (get_record root t)) [
        | inr (x, failed) ↦ absurd (cc (rw (failed, cancel_tree) at e))
        | inl (r₀, found) ↦
            let (ts, collected, exact) = collect_exact (values t.runs) root in
            let ended : cancel_each ts [] t ≡ (ok out, u) =
              cc (rw (found, collected, cancel_tree, Option.map) at e) in
            (cancel_each-Closed ts [] out t u v ended id).1 ((exact id).1 below_root)
              (record { held = r; there = there })
      ]
