-- ===== src/Deltas/Exact.antt =====
-- What a client puts together from the pieces is what the reconciler holds.
use aifluxon.Deltas
use aifluxon.Deltas.{
  Text, TextDeltaReconciler, push_compatible, emit_suffix, complete, complete_with,
  strict_complete_text_suffix, missing_complete_text_suffix, looks_cumulative,
}
use aifluxon.Operations.Snapshots.{snapshot}
use aifluxon.Prelude.{
  Bool-cases, Result, ◌≡◌, refl, sym, ◌≢◌, inl, inr, Bool, true, ◌||◌, Option, none, some, List, [],
  ◌∷◌, ◌++◌, append_assoc, append-nil, ok, err,
}
use Prim.Native.String.{String}
use aifluxon.Deltas.Texts.{strict_complete_text_suffix-eq-ok}

pub data Input : Type 0 where
  pushes : Text → Bool → Bool → Input
  completes : Text → Input

-- The text that a call hands out, none as the empty text.
abbrev pub piece : Option Text → Text
piece none = []
piece (some text) = text

abbrev pub completed_piece : Result String (Option Text) → Text
completed_piece (ok o) = piece o
completed_piece (err e) = []

unfoldable pub feed : TextDeltaReconciler → Input → Text × TextDeltaReconciler
feed r (pushes text snapshot allow) =
    (piece (push_compatible text snapshot allow r).0, (push_compatible text snapshot allow r).1)
feed r (completes text) = (completed_piece (complete text r).0, (complete text r).1)

unfoldable pub feed_all : TextDeltaReconciler → List Input → Text × TextDeltaReconciler
unfolding feed
feed_all r [] = ([], r)
feed_all r (x ∷ xs) = let rest = feed_all (feed r x).1 xs in ((feed r x).0 ++ rest.0, rest.1)

emit_suffix-emitted :
    (o : Option Text) (r : TextDeltaReconciler)
    → (emit_suffix o r).1.emitted ≡ r.emitted ++ piece (emit_suffix o r).0
unfolding emit_suffix
emit_suffix-emitted none r = sym (append-nil r.emitted)
emit_suffix-emitted (some s) r = refl

push_compatible-emitted :
    (text : Text) (snapshot allow : Bool) (r : TextDeltaReconciler)
    → (push_compatible text snapshot allow r).1.emitted
      ≡ r.emitted ++ piece (push_compatible text snapshot allow r).0
unfolding push_compatible
push_compatible-emitted [] snapshot allow r = sym (append-nil r.emitted)
push_compatible-emitted (c ∷ cs) snapshot allow r =
    elim (Bool-cases
      (snapshot || (r.cumulative_detected || Deltas.looks_cumulative (c ∷ cs) allow r))) [
        | inl cumulative ↦ rw cumulative (
            emit_suffix-emitted (missing_complete_text_suffix r.emitted (c ∷ cs))
              (record r { cumulative_detected = true }))
        | inr plain ↦ rw plain refl
      ]

complete_with-emitted :
    (x : Result String (Option Text)) (r : TextDeltaReconciler)
    → (complete_with x r).1.emitted ≡ r.emitted ++ completed_piece (complete_with x r).0
unfolding complete_with
complete_with-emitted (err e) r = sym (append-nil r.emitted)
complete_with-emitted (ok none) r = sym (append-nil r.emitted)
complete_with-emitted (ok (some s)) r = refl

feed-emitted :
    (r : TextDeltaReconciler) (x : Input) → (feed r x).1.emitted ≡ r.emitted ++ (feed r x).0
unfolding feed complete
feed-emitted r (pushes text snapshot allow) = push_compatible-emitted text snapshot allow r
feed-emitted r (completes text) =
    complete_with-emitted (strict_complete_text_suffix r.emitted text) r

-- Over any sequence of pushes and completions, refused ones included, the reconciler's text is
-- what it held before, followed by the pieces that the calls handed out.
pub feed_all-emitted :
    (r : TextDeltaReconciler) (xs : List Input)
    → (feed_all r xs).1.emitted ≡ r.emitted ++ (feed_all r xs).0
unfolding feed_all
feed_all-emitted r [] = sym (append-nil r.emitted)
feed_all-emitted r (x ∷ xs) = cc (
  feed_all-emitted (feed r x).1 xs,
  feed-emitted r x,
  append_assoc r.emitted (feed r x).0 (feed_all (feed r x).1 xs).0,
)

complete_with-text :
    (text : Text) (o : Option Text) (x : Result String (Option Text)) (r : TextDeltaReconciler)
    → (complete_with x r).0 ≡ ok o
    → (x ≡ ok o → text ≡ r.emitted ++ piece o)
    → (complete_with x r).1.emitted ≡ text
unfolding complete_with
complete_with-text text o (err e) r h agrees = cc
complete_with-text text o (ok none) r h agrees = cc (agrees h, h, append-nil r.emitted)
complete_with-text text o (ok (some s)) r h agrees = cc (agrees h, h)

-- A completion that is accepted leaves the reconciler with exactly the completed text, where that is
-- not empty.
pub complete-emitted :
    (text : Text) (r : TextDeltaReconciler) (o : Option Text)
    → (complete text r).0 ≡ ok o
    → text ≢ []
    → (complete text r).1.emitted ≡ text
unfolding complete
complete-emitted text r o e present =
    complete_with-text text o (strict_complete_text_suffix r.emitted text) r e
      (λ h. strict_complete_text_suffix-eq-ok r.emitted text o h present)
