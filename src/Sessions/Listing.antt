-- ===== src/Sessions/Listing.antt =====
-- The list of sessions: every stored session once, the most recently saved first.
use mathlib.Core.List.{Perm}
use aifluxon.Sessions.{
  SessionSummary, SessionStore, comes_first, insert_summary, sort_summaries, list, summary,
}
use aifluxon.Prelude.Map.{values}
use aifluxon.Prelude.{
  ◌<◌, ◌≤◌, ◌⊎◌, ◌==◌, Bool-cases, ◌≡◌, subst, inl, inr, true, false, List, [], ◌∷◌, map, arith, ok,
}
use mathlib.Core.List.Perm

-- Saved later, or at the same time and under an identifier that is not greater.
abbrev pub Precedes : SessionSummary → SessionSummary → Type 0
Precedes x y = (y.updated_at < x.updated_at) ⊎ ((x.updated_at ≡ y.updated_at) × (x.id ≤ y.id))

-- Each summary precedes the next one.
abbrev pub IsSorted : List SessionSummary → Type 0
IsSorted [] = Unit
IsSorted (x ∷ []) = Unit
IsSorted (x ∷ y ∷ ys) = Precedes x y × IsSorted (y ∷ ys)

comes_first-Precedes : (x y : SessionSummary) → comes_first x y ≡ true → Precedes x y
unfolding comes_first
comes_first-Precedes x y h = elim (Bool-cases (x.updated_at == y.updated_at)) [
  | inl same ↦ inr (ground arith, ground arith)
  | inr other ↦ inl (ground arith)
]

comes_later-Precedes : (x y : SessionSummary) → comes_first x y ≡ false → Precedes y x
unfolding comes_first
comes_later-Precedes x y h = elim (Bool-cases (x.updated_at == y.updated_at)) [
  | inl same ↦ inr (ground arith, ground arith)
  | inr other ↦ inl (ground arith)
]

insert_summary-IsSorted :
    (x : SessionSummary) (ys : List SessionSummary) → IsSorted ys → IsSorted (insert_summary x ys)
unfolding insert_summary
insert_summary-IsSorted x [] h = tt
insert_summary-IsSorted x (y ∷ []) h = elim (Bool-cases (comes_first x y)) [
  | inl first ↦ rw first (comes_first-Precedes x y first, tt)
  | inr later ↦ rw later (comes_later-Precedes x y later, tt)
]
insert_summary-IsSorted x (y ∷ z ∷ ys) h = elim (Bool-cases (comes_first x y)) [
  | inl first ↦ rw first (comes_first-Precedes x y first, h)
  | inr later ↦ elim (Bool-cases (comes_first x z)) [
    | inl second ↦
        rw (later, second) (comes_later-Precedes x y later, (comes_first-Precedes x z second, h.1))
    | inr third ↦
        let rest = insert_summary-IsSorted x (z ∷ ys) h.1 in
        rw (later, third) (h.0, (rw third at rest))
  ]
]

insert_summary-Perm :
    (x : SessionSummary) (ys : List SessionSummary) → Perm (insert_summary x ys) (x ∷ ys)
unfolding insert_summary
insert_summary-Perm x [] = Perm.refl _
insert_summary-Perm x (y ∷ ys) = elim (Bool-cases (comes_first x y)) [
  | inl first ↦ rw first (Perm.refl _)
  | inr later ↦ rw later (Perm.trans (Perm.cons y (insert_summary-Perm x ys)) (Perm.swap x y ys))
]

sort_summaries-IsSorted : (xs : List SessionSummary) → IsSorted (sort_summaries xs)
unfolding sort_summaries
sort_summaries-IsSorted [] = tt
sort_summaries-IsSorted (x ∷ xs) =
    insert_summary-IsSorted x (sort_summaries xs) (sort_summaries-IsSorted xs)

sort_summaries-Perm : (xs : List SessionSummary) → Perm (sort_summaries xs) xs
unfolding sort_summaries
sort_summaries-Perm [] = Perm.refl _
sort_summaries-Perm (x ∷ xs) =
    Perm.trans (insert_summary-Perm x (sort_summaries xs)) (Perm.cons x (sort_summaries-Perm xs))

-- A list that `list` returns has the summary of each stored session once, whatever the order of the
-- map: each summary was saved later than the next one, or at the same time and under an identifier
-- that is not greater.
pub list-IsSorted :
    {V : Type 0} (s : SessionStore V) (xs : List SessionSummary)
    → list s ≡ ok xs
    → IsSorted xs × Perm xs (map summary (values s.records))
unfolding list
list-IsSorted s xs e =
    let same : sort_summaries (map summary (values s.records)) ≡ xs = ground arith in
    subst (λ ys. IsSorted ys × Perm ys (map summary (values s.records))) same
      (
        sort_summaries-IsSorted (map summary (values s.records)),
        sort_summaries-Perm (map summary (values s.records)),
      )
