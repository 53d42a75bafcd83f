-- ===== src/Runs/Resume.antt =====
-- Reading a run's log from a sequence number on: a client that has seen n events gets the rest.
use aifluxon.Core.Run.{u64_max, RunEventEnvelope}
use aifluxon.Prelude.{
  ltb, length, keep_if, drop, ℕ, zero, suc, ◌+◌, ◌≤◌, ◌<◌, ◌≡◌, refl, List, [], ◌∷◌, arith, subst,
  false, some, ok,
}
use aifluxon.Runs.EventLog.{Numbered}
use aifluxon.Core.Message.{RunId}
use aifluxon.Runs.History.{Inv}
use aifluxon.Prelude.Map.{lookup}
use aifluxon.Runs.Record.{RunRecord}
use aifluxon.Runs.Table.{RunTable, events_since}

module _ {V : Type 0} where
  abbrev after : ℕ → List (RunEventEnvelope V) → List (RunEventEnvelope V)
  after n = keep_if (λ e. ltb n e.sequence)

  after_all :
      (n k : ℕ) (es : List (RunEventEnvelope V))
      → n < k
      → k + length es ≤ u64_max + 1
      → Numbered k es
      → after n es ≡ es
  after_all n k [] lt fits h = refl
  after_all n k (e ∷ es) lt fits h =
      ground (arith, h.0, after_all n (k + 1) es (omega arith) (ground arith) h.1)

  after-drop :
      (n k : ℕ) (es : List (RunEventEnvelope V))
      → k + length es ≤ u64_max
      → Numbered (k + 1) es
      → after (k + n) es ≡ drop n es
  after-drop zero k es fits h =
      subst (λ m. after m es ≡ es) (omega arith)
        (after_all k (k + 1) es (omega arith) (omega arith) h)
  after-drop (suc n) k [] fits h = refl
  after-drop (suc n) k (e ∷ es) fits h =
      let rest : after (k + suc n) es ≡ drop n es =
        subst (λ m. after m es ≡ drop n es) (omega arith)
          (after-drop n (k + 1) es (omega arith) h.1) in
      ground (arith, h.0, rest)

  -- In a table that keeps Inv and whose mutex is not poisoned, while a run has fewer than 2^64
  -- events, events_since after event n gives exactly the events behind the first n of the log.
  pub events_since-drop :
      (t : RunTable V) (id : RunId) (n : ℕ) (r : RunRecord V)
      → Inv t
      → t.poisoned ≡ false
      → lookup id t.runs ≡ some r
      → length r.events ≤ u64_max
      → events_since id n t ≡ ok (drop n r.events)
  unfolding events_since
  events_since-drop t id n r v live found fits =
      let rest : after n r.events ≡ drop n r.events =
        subst (λ m. after m r.events ≡ drop n r.events) (omega arith)
          (after-drop n 0 r.events (omega arith) (v.at_id id r found).0.numbered) in
      ground (arith, rest)
