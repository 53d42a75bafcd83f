-- ===== src/Deltas/Texts.antt =====
-- Texts: comparison and prefixes.
use aifluxon.Deltas.{
  Text, same_text, strip_prefix, ends_with, is_empty, unless_empty, strict_complete_text_suffix,
  complete,
}
use aifluxon.Prelude.{
  Bool-cases, length, ◌≤◌, ◌≡◌, refl, subst, inl, inr, true, some, [], ◌∷◌, ◌++◌, arith,
  Option-cases, length-append, ℕ, suc, ◌+◌, ap, ◌≢◌, false, Option, none, append-nil, ok,
}

pub same_text-eq : (xs ys : Text) → same_text xs ys ≡ true → xs ≡ ys
unfolding same_text
same_text-eq [] [] h = refl
same_text-eq [] (y ∷ ys) h = cc
same_text-eq (x ∷ xs) [] h = cc
same_text-eq (x ∷ xs) (y ∷ ys) h = ground (arith, same_text-eq xs ys)

pub same_text_refl : (xs : Text) → same_text xs xs ≡ true
unfolding same_text
same_text_refl [] = refl
same_text_refl (x ∷ xs) = ground (arith, same_text_refl xs)

pub strip_prefix-eq-some : (p xs s : Text) → strip_prefix p xs ≡ some s → xs ≡ p ++ s
unfolding strip_prefix
strip_prefix-eq-some [] xs s h = cc
strip_prefix-eq-some (x ∷ p) [] s h = cc
strip_prefix-eq-some (x ∷ p) (y ∷ xs) s h = ground (arith, strip_prefix-eq-some p xs s)

pub strip_prefix-append : (p s : Text) → strip_prefix p (p ++ s) ≡ some s
unfolding strip_prefix
strip_prefix-append [] s = refl
strip_prefix-append (x ∷ p) s = ground (arith, strip_prefix-append p s)

pub ends_with-length : (xs ys : Text) → ends_with xs ys ≡ true → length ys ≤ length xs
unfolding ends_with
ends_with-length [] [] h = omega arith
ends_with-length [] (y ∷ ys) h = cc
ends_with-length (x ∷ xs) ys h = elim (Bool-cases (same_text (x ∷ xs) ys)) [
  | inl same ↦
      subst (λ zs. length zs ≤ length (x ∷ xs)) (same_text-eq (x ∷ xs) ys same) (omega arith)
  | inr other ↦ omega (arith, ends_with-length xs ys (ground arith))
]

is_empty-append : (e : Text) (c : ℕ) (s : Text) → is_empty (e ++ c ∷ s) ≡ false
is_empty-append [] c s = refl
is_empty-append (x ∷ e) c s = refl

-- The two refused tests on a proper extension, and the empty test.
pub longer :
    (e : Text) (c : ℕ) (s : Text)
    → (is_empty (e ++ c ∷ s) ≡ false)
      × (same_text e (e ++ c ∷ s) ≡ false)
      × (ends_with e (e ++ c ∷ s) ≡ false)
longer e c s = (
  is_empty-append e c s,
  (elim (Bool-cases (same_text e (e ++ c ∷ s))) [
    | inl same ↦
        absurd (omega (arith, more, ap (λ xs. length xs) (same_text-eq e (e ++ c ∷ s) same)))
    | inr other ↦ other
  ]),
  (elim (Bool-cases (ends_with e (e ++ c ∷ s))) [
    | inl ends ↦ absurd (omega (arith, more, ends_with-length e (e ++ c ∷ s) ends))
    | inr other ↦ other
  ]),
)
  where
    more : length (e ++ c ∷ s) ≡ length e + suc (length s)
    more = length-append e (c ∷ s)

strict_some :
    (current complete s : Text) (o : Option Text)
    → strip_prefix current complete ≡ some s
    → unless_empty s ≡ o
    → complete ≡ current ++ (elim o [ none ↦ [] | some t ↦ t ])
strict_some current complete [] o h e = cc (e, strip_prefix-eq-some current complete [] h)
strict_some current complete (c ∷ s) o h e = cc (e, strip_prefix-eq-some current complete (c ∷ s) h)

pub strict_complete_text_suffix-eq-ok :
    (current complete : Text) (o : Option Text)
    → strict_complete_text_suffix current complete ≡ ok o
    → complete ≢ []
    → complete ≡ current ++ (elim o [ none ↦ [] | some t ↦ t ])
unfolding strict_complete_text_suffix
strict_complete_text_suffix-eq-ok current [] o e present = absurd (present refl)
strict_complete_text_suffix-eq-ok current (c ∷ cs) o e present =
    elim (Bool-cases (same_text current (c ∷ cs))) [
      | inl same ↦ cc (e, same, same_text-eq current (c ∷ cs) same, append-nil current)
      | inr other ↦ elim (Option-cases (strip_prefix current (c ∷ cs))) [
        | inl apart ↦ cc (e, other, apart)
        | inr (s, begins) ↦ strict_some current (c ∷ cs) s o begins (ground arith)
      ]
    ]
