-- ===== src/Deltas/Snapshots.antt =====
-- Growing snapshots are put together to the last one.
use aifluxon.Deltas.{
  Text, TextDeltaReconciler, push, cumulative_compatible, missing_complete_text_suffix,
  push_compatible, emit_suffix, looks_cumulative,
}
use aifluxon.Deltas.Texts.{same_text_refl, strip_prefix-append, longer}
use aifluxon.Prelude.{
  ℕ, ◌≡◌, refl, sym, ap, subst, none, some, List, [], ◌∷◌, ◌++◌, arith, true, false, append-nil,
  Bool,
}
use aifluxon.Operations.Change.{fresh}

-- Each text begins with the one before it.
abbrev pub Grows : Text → List Text → Type 0
Grows e [] = Unit
Grows e (t ∷ ts) = ((s : Text) × (t ≡ e ++ s)) × Grows t ts

-- The last text, or the first one where there is no other.
abbrev pub latest : Text → List Text → Text
latest e [] = e
latest e (t ∷ ts) = latest t ts

unfoldable pub push_snapshots : TextDeltaReconciler → List Text → TextDeltaReconciler
push_snapshots r [] = r
push_snapshots r (t ∷ ts) = push_snapshots (push t cumulative_compatible r).1 ts

missing-append :
    (e : Text) (c : ℕ) (s : Text) → missing_complete_text_suffix e (e ++ c ∷ s) ≡ some (c ∷ s)
unfolding missing_complete_text_suffix
missing-append e c s =
    let (present, other, fresh) = longer e c s in
    rw (present, other, fresh, strip_prefix-append e (c ∷ s)) refl

missing_self : (e : Text) → missing_complete_text_suffix e e ≡ none
unfolding missing_complete_text_suffix
missing_self e = ground (arith, same_text_refl e)

-- A push that counts as a snapshot, on a text that begins with the held one.
emit_missing :
    (r : TextDeltaReconciler) (s : Text)
    → (emit_suffix (missing_complete_text_suffix r.emitted (r.emitted ++ s)) r).1.emitted
      ≡ r.emitted ++ s
unfolding emit_suffix
emit_missing r [] =
    subst (λ x. (emit_suffix (missing_complete_text_suffix r.emitted x) r).1.emitted ≡ x)
      (sym (append-nil r.emitted)) (rw (missing_self r.emitted) refl)
emit_missing r (c ∷ s) = rw (missing-append r.emitted c s) refl

push-held :
    (e : Text) (d : Bool) (s : Text)
    → (push
        (e ++ s)
        cumulative_compatible
        (record { emitted = e; cumulative_detected = d })).1.emitted
      ≡ e ++ s
unfolding push push_compatible looks_cumulative
push-held [] d [] = refl
push-held [] false (c ∷ s) = refl
push-held [] true (c ∷ s) =
    emit_missing (record { emitted = []; cumulative_detected = true }) (c ∷ s)
push-held (x ∷ xs) false s =
    let held = emit_missing (record { emitted = x ∷ xs; cumulative_detected = true }) s in
    rw (strip_prefix-append (x ∷ xs) s) (rw (strip_prefix-append (x ∷ xs) s) at held)
push-held (x ∷ xs) true s = emit_missing (record { emitted = x ∷ xs; cumulative_detected = true }) s

push-snapshot :
    (r : TextDeltaReconciler) (s : Text)
    → (push (r.emitted ++ s) cumulative_compatible r).1.emitted ≡ r.emitted ++ s
push-snapshot r s = push-held r.emitted r.cumulative_detected s

-- Whatever the reconciler held, snapshots that each begin with the one before, the first with the
-- held text, leave it with the last snapshot.
pub push_snapshots-latest :
    (r : TextDeltaReconciler) (ts : List Text)
    → Grows r.emitted ts
    → (push_snapshots r ts).emitted ≡ latest r.emitted ts
unfolding push_snapshots
push_snapshots-latest r [] g = refl
push_snapshots-latest r (t ∷ ts) ((s, e), g) =
    let now : (push t cumulative_compatible r).1.emitted ≡ t =
      subst (λ x. (push x cumulative_compatible r).1.emitted ≡ x) (sym e) (push-snapshot r s) in
    rw
      (push_snapshots-latest (push t cumulative_compatible r).1 ts
        (subst (λ x. Grows x ts) (sym now) g))
      (ap (λ x. latest x ts) now)
