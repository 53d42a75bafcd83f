-- ===== src/Deltas.antt =====
-- crates/aifluxon-providers/src/common/delta.rs: text that providers stream in pieces or as growing
-- snapshots. A text is the list of its code points: prefixes, suffixes and overlaps at character
-- boundaries are those of the bytes.
pub mod Texts
pub mod Exact
pub mod Snapshots
use Prim.Native.String.{String}
use aifluxon.Prelude.{
  ℕ, ◌==◌, if◌then◌else◌, is_some, Result, Bool, true, false, not, ◌&&◌, ◌||◌, Option, none, some,
  List, [], ◌∷◌, ◌++◌, ok, err,
}
use aifluxon.Operations.Snapshots.{snapshot}

abbrev pub Text : Type 0
Text = List ℕ

pub data DeltaMode : Type 0 where
  incremental cumulative_compatible : DeltaMode

pub record TextDeltaReconciler : Type 0 where
  pub emitted : Text
  pub cumulative_detected : Bool

-- str::is_empty.
abbrev pub is_empty : Text → Bool
is_empty [] = true
is_empty (c ∷ cs) = false

-- Equality of texts.
unfoldable pub same_text : Text → Text → Bool
same_text [] [] = true
same_text [] (y ∷ ys) = false
same_text (x ∷ xs) [] = false
same_text (x ∷ xs) (y ∷ ys) = let rest = same_text xs ys in if x == y then rest else false

-- str::strip_prefix, with the prefix first.
unfoldable pub strip_prefix : Text → Text → Option Text
strip_prefix [] ys = some ys
strip_prefix (x ∷ xs) [] = none
strip_prefix (x ∷ xs) (y ∷ ys) = let rest = strip_prefix xs ys in if x == y then rest else none

-- str::ends_with.
unfoldable pub ends_with : Text → Text → Bool
unfolding same_text
ends_with [] ys = is_empty ys
ends_with (x ∷ xs) ys = let rest = ends_with xs ys in if same_text (x ∷ xs) ys then true else rest

-- complete[overlap..] at the longest end of `current` with which `complete` begins.
unfoldable pub after_overlap : Text → Text → Text
unfolding strip_prefix
after_overlap [] complete = complete
after_overlap (c ∷ cs) complete =
    let rest = after_overlap cs complete in
    elim (strip_prefix (c ∷ cs) complete) [ some suffix ↦ suffix | none ↦ rest ]

-- (!suffix.is_empty()).then(...).
abbrev pub unless_empty : Text → Option Text
unless_empty [] = none
unless_empty (c ∷ cs) = some (c ∷ cs)

unfoldable pub missing_complete_text_suffix : Text → Text → Option Text
unfolding same_text ends_with strip_prefix after_overlap
missing_complete_text_suffix current complete =
    if is_empty complete || same_text current complete || ends_with current complete
    then none
    else elim (strip_prefix current complete) [
      | some suffix ↦ unless_empty suffix
      | none ↦ unless_empty (after_overlap current complete)
    ]

unfoldable pub strict_complete_text_suffix : Text → Text → Result String (Option Text)
unfolding same_text strip_prefix
strict_complete_text_suffix current complete =
    if is_empty complete || same_text current complete
    then ok none
    else elim (strip_prefix current complete) [
      | some suffix ↦ ok (unless_empty suffix)
      | none ↦ err "Responses stream text diverged from its completed snapshot."
    ]

unfoldable pub reconcile_terminal_text : Text → Text → Bool → Result String (Option Text)
unfolding same_text strict_complete_text_suffix
reconcile_terminal_text current complete saw_output_done =
    if saw_output_done && not (same_text current complete)
    then err "Responses done output diverged from its completed terminal snapshot."
    else strict_complete_text_suffix current complete

-- TextDeltaReconciler::default.
unfoldable pub blank : TextDeltaReconciler
blank = record { emitted = []; cumulative_detected = false }

-- self.emitted.push_str(...), and the suffix.
emit_suffix : Option Text → TextDeltaReconciler → Option Text × TextDeltaReconciler
emit_suffix none r = (none, r)
emit_suffix (some suffix) r = (some suffix, record r { emitted = r.emitted ++ suffix })

unfoldable pub looks_cumulative : Text → Bool → TextDeltaReconciler → Bool
unfolding strip_prefix
looks_cumulative incoming allow r =
    allow && (not (is_empty r.emitted) && is_some (strip_prefix r.emitted incoming))

unfoldable pub push_compatible :
    Text → Bool → Bool → TextDeltaReconciler → Option Text × TextDeltaReconciler
unfolding looks_cumulative missing_complete_text_suffix emit_suffix
push_compatible incoming explicit_snapshot allow r =
    if is_empty incoming
    then (none, r)
    else if explicit_snapshot || (r.cumulative_detected || looks_cumulative incoming allow r)
    then emit_suffix (missing_complete_text_suffix r.emitted incoming)
        (record r { cumulative_detected = true })
    else (some incoming, record r { emitted = r.emitted ++ incoming })

unfoldable pub push : Text → DeltaMode → TextDeltaReconciler → Option Text × TextDeltaReconciler
unfolding push_compatible
push value incremental = push_compatible value false false
push value cumulative_compatible = push_compatible value false true

complete_with :
    Result String (Option Text)
    → TextDeltaReconciler
    → Result String (Option Text) × TextDeltaReconciler
complete_with (err e) r = (err e, r)
complete_with (ok none) r = (ok none, r)
complete_with (ok (some suffix)) r =
    (ok (some suffix), record { emitted = r.emitted ++ suffix; cumulative_detected = true })

unfoldable pub complete :
    Text → TextDeltaReconciler → Result String (Option Text) × TextDeltaReconciler
unfolding strict_complete_text_suffix complete_with
complete text r = complete_with (strict_complete_text_suffix r.emitted text) r
