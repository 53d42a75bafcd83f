-- ===== src/Runs/Tree/Collect.antt =====
-- The targets of `cancel_tree`: the loop ends, and it finds the descendants and nothing else.
use aifluxon.Core.Message.{RunId}
use aifluxon.Prelude.{
  Bool-cases, Option-cases, length, keep_if, ℕ, zero, suc, ◌+◌, ◌≤◌, ◌≡◌, refl, inl, inr, Bool,
  true, false, not, ◌||◌, none, some, List, [], ◌∷◌, ◌++◌, arith, subst, length-keep_if-le, ◌↔◌,
}
use aifluxon.Prelude.IdSet.{contains, contains-++}
use aifluxon.Runs.Record.{RunRecord}
use aifluxon.Runs.Tree.{push_all, children, collect, collect_fuel}

contains-push_all :
    (k : RunId) (ks ps : List RunId)
    → contains k (push_all ks ps) ≡ (contains k ks || contains k ps)
unfolding push_all contains
contains-push_all k [] ps = refl
contains-push_all k (j ∷ ks) ps = ground (arith, contains-push_all k ks (j ∷ ps))

length-push_all : (ks ps : List RunId) → length (push_all ks ps) ≡ length ks + length ps
unfolding push_all
length-push_all [] ps = omega arith
length-push_all (j ∷ ks) ps = omega (arith, length-push_all ks (j ∷ ps))

-- What the loop has still to visit or has visited.
reached : RunId → List RunId → List RunId → Bool
reached k pending targets = contains k targets || contains k pending

module _ {V : Type 0} where
  -- The runs that hang below a root by their parent ids, the root included.
  pub data Descends (rs : List (RunRecord V)) (root : RunId) : RunId → Type 0 where
    here : Descends rs root root
    below :
        {p k : RunId} → Descends rs root p → contains k (children p rs) ≡ true → Descends rs root k

  -- The parent of the run was not visited yet.
  unclaimed : List RunId → RunRecord V → Bool
  unclaimed targets r = elim r.context.parent_run_id [
    | none ↦ false
    | some p ↦ not (contains p targets)
  ]

  waiting : List RunId → List (RunRecord V) → ℕ
  unfolding unclaimed
  waiting targets rs = length (keep_if (unclaimed targets) rs)

  waiting-children :
      (p : RunId) (targets : List RunId) (rs : List (RunRecord V))
      → contains p targets ≡ false
      → waiting (targets ++ p ∷ []) rs + length (children p rs) ≡ waiting targets rs
  unfolding waiting children contains
  waiting-children p targets [] h = omega arith
  waiting-children p targets (r ∷ rs) h = elim (Option-cases r.context.parent_run_id) [
    | inl e ↦ ground (arith, waiting-children p targets rs h)
    | inr (q, e) ↦ ground (arith, waiting-children p targets rs h, contains-++ q targets (p ∷ []))
  ]

  -- The loop ends within its fuel.
  collect_total :
      (fuel : ℕ) (rs : List (RunRecord V)) (pending targets : List RunId)
      → length pending + waiting targets rs ≤ fuel
      → (ts : List RunId) × (collect fuel rs pending targets ≡ some ts)
  unfolding collect
  collect_total zero rs [] targets h = (targets, refl)
  collect_total zero rs (p ∷ ps) targets h = absurd (omega arith)
  collect_total (suc fuel) rs [] targets h = (targets, refl)
  collect_total (suc fuel) rs (p ∷ ps) targets h = elim (Bool-cases (contains p targets)) [
    | inl seen ↦
        let (ts, e) = collect_total fuel rs ps targets (omega arith) in (ts, rw (seen, collect) e)
    | inr unseen ↦
        let (ts, e) = collect_total fuel rs (push_all (children p rs) ps) (targets ++ p ∷ []) (
          omega
            (arith, length-push_all (children p rs) ps, waiting-children p targets rs unseen)) in
        (ts, rw (unseen, collect) e)
  ]

  collect_sound :
      (fuel : ℕ) (rs : List (RunRecord V)) (pending targets ts : List RunId) (root : RunId)
      → ((k : RunId) → contains k pending ≡ true → Descends rs root k)
      → ((k : RunId) → contains k targets ≡ true → Descends rs root k)
      → collect fuel rs pending targets ≡ some ts
      → (k : RunId) → contains k ts ≡ true
      → Descends rs root k
  unfolding collect contains
  collect_sound zero rs [] targets ts root hp ht e k h = ht k (ground arith)
  collect_sound zero rs (p ∷ ps) targets ts root hp ht e k h = cc
  collect_sound (suc fuel) rs [] targets ts root hp ht e k h = ht k (ground arith)
  collect_sound (suc fuel) rs (p ∷ ps) targets ts root hp ht e k h =
      elim (Bool-cases (contains p targets)) [
        | inl seen ↦
            collect_sound fuel rs ps targets ts root (λ j m. hp j (ground arith)) ht
              (rw (seen, collect) at e) k h
        | inr unseen ↦
            collect_sound fuel rs (push_all (children p rs) ps) (targets ++ p ∷ []) ts root
              (λ j m. elim (Bool-cases (contains j (children p rs))) [
                | inl kid ↦ below (hp p (ground arith)) kid
                | inr other ↦ hp j (ground (arith, contains-push_all j (children p rs) ps))
              ])
              (λ j m. elim (Bool-cases (contains j targets)) [
                | inl old ↦ ht j old
                | inr new ↦
                    subst (Descends rs root) (ground (arith, contains-++ j targets (p ∷ [])))
                      (hp p (ground arith))
              ])
              (rw (unseen, collect) at e) k h
      ]

  collect_complete :
      (fuel : ℕ) (rs : List (RunRecord V)) (pending targets ts : List RunId)
      → ((p k : RunId)
          → contains p targets ≡ true
          → contains k (children p rs) ≡ true
          → reached k pending targets ≡ true)
      → collect fuel rs pending targets ≡ some ts
      → ((k : RunId) → reached k pending targets ≡ true → contains k ts ≡ true)
        × ((p k : RunId)
            → contains p ts ≡ true
            → contains k (children p rs) ≡ true
            → contains k ts ≡ true)
  unfolding collect contains reached
  collect_complete zero rs [] targets ts inv e =
      (λ k h. ground arith, λ p k hp hk. ground (arith, inv p k))
  collect_complete zero rs (p ∷ ps) targets ts inv e = cc
  collect_complete (suc fuel) rs [] targets ts inv e =
      (λ k h. ground arith, λ p k hp hk. ground (arith, inv p k))
  collect_complete (suc fuel) rs (p ∷ ps) targets ts inv e =
      elim (Bool-cases (contains p targets)) [
        | inl seen ↦
            let (all, closed) =
              collect_complete fuel rs ps targets ts (λ q k hq hk. ground (arith, inv q k))
                (rw (seen, collect) at e) in
            (λ k h. all k (ground arith), closed)
        | inr unseen ↦
            let (all, closed) =
              collect_complete fuel rs (push_all (children p rs) ps) (targets ++ p ∷ []) ts
                (λ q k hq hk. ground (
                  arith,
                  inv q k,
                  contains-++ q targets (p ∷ []),
                  contains-++ k targets (p ∷ []),
                  contains-push_all k (children p rs) ps,
                ))
                (rw (unseen, collect) at e) in
            (
              λ k h. all k (
                  ground (
                    arith,
                    contains-++ k targets (p ∷ []),
                    contains-push_all k (children p rs) ps,
                  )),
              closed,
            )
      ]

  waiting-le : (targets : List RunId) (rs : List (RunRecord V)) → waiting targets rs ≤ length rs
  unfolding waiting
  waiting-le targets rs = length-keep_if-le (unclaimed targets) rs

  only :
      (rs : List (RunRecord V)) (root : RunId) (ts : List RunId)
      → collect (length rs + 2) rs (root ∷ []) [] ≡ some ts
      → (k : RunId) → contains k ts ≡ true
      → Descends rs root k
  unfolding contains
  only rs root ts e =
      collect_sound (length rs + 2) rs (root ∷ []) [] ts root
        (λ k h. subst (Descends rs root) (ground arith) here) (λ k h. cc) e

  all_of :
      (rs : List (RunRecord V)) (root : RunId) (ts : List RunId)
      → collect (length rs + 2) rs (root ∷ []) [] ≡ some ts
      → (k : RunId) → Descends rs root k
      → contains k ts ≡ true
  unfolding contains reached
  all_of rs root ts e k here =
      (collect_complete (length rs + 2) rs (root ∷ []) [] ts (λ p j h m. cc) e).0 root
        (ground arith)
  all_of rs root ts e k (below {p = p} d h) =
      (collect_complete (length rs + 2) rs (root ∷ []) [] ts (λ q j l m. cc) e).1 p k
        (all_of rs root ts e p d) h

  -- The loop of `cancel_tree` ends within its fuel, whatever the parent ids are, cycles included, and
  -- its targets are exactly the root and the runs below it.
  pub collect_exact :
      (rs : List (RunRecord V)) (root : RunId)
      → (ts : List RunId) × (collect (collect_fuel rs) rs (root ∷ []) [] ≡ some ts)
        × ((k : RunId) → (contains k ts ≡ true) ↔ Descends rs root k)
  unfolding collect_fuel
  collect_exact rs root =
      let (ts, e) =
        collect_total (length rs + 2) rs (root ∷ []) [] (omega (arith, waiting-le [] rs)) in
      (ts, e, λ k. (only rs root ts e k, all_of rs root ts e k))
