-- ===== src/Sse/Clean.antt =====
-- Text in which no continuation byte follows an ASCII byte: where it may be sliced.
use aifluxon.Sse.Utf8.{is_continuation}
use aifluxon.Sse.{lf, cr, begins_char, is_char_boundary, boundary_here, next_event_boundary}
use aifluxon.Prelude.{
  ltb, not, ◌&&◌, Bool, Bool-cases, Option-cases, true, ℕ, zero, suc, ◌+◌, ◌≤◌, ◌<◌, ◌≡◌, refl, inl,
  inr, ◌∙◌, some, List, [], ◌∷◌, ◌++◌, length, drop, arith, ap, sym, ◌==◌,
}

-- Whether no continuation byte stands behind an ASCII byte, or in front where the flag is set.
unfoldable pub is_clean : Bool → List ℕ → Bool
is_clean ascii [] = true
is_clean ascii (b ∷ bs) =
    let rest = is_clean (ltb b 128) bs in not (ascii && is_continuation b) && rest

pub clean_weaker : (ascii : Bool) (bs : List ℕ) → is_clean true bs ≡ true → is_clean ascii bs ≡ true
unfolding is_clean
clean_weaker ascii [] h = refl
clean_weaker ascii (b ∷ bs) h = ground arith

pub clean-append :
    (ascii : Bool) (xs ys : List ℕ)
    → is_clean ascii xs ≡ true
    → is_clean true ys ≡ true
    → is_clean ascii (xs ++ ys) ≡ true
unfolding is_clean
clean-append ascii [] ys hx hy = clean_weaker ascii ys hy
clean-append ascii (x ∷ xs) ys hx hy =
    ground (arith, clean-append (ltb x 128) xs ys (ground arith) hy)

pub clean-begins : (bs : List ℕ) → is_clean true bs ≡ true → begins_char bs ≡ true
unfolding is_clean
clean-begins [] h = refl
clean-begins (b ∷ bs) h = ground arith

clean_here :
    (bs : List ℕ) (ascii : Bool) (n : ℕ)
    → is_clean ascii bs ≡ true
    → boundary_here bs ≡ some n
    → is_clean true (drop n bs) ≡ true
unfolding is_clean
clean_here [] ascii n h e = cc
clean_here (a ∷ []) ascii n h e = cc
clean_here (a ∷ b ∷ []) ascii n h e = elim (Bool-cases (a == lf && b == lf)) [
  | inl f ↦ let same : 2 ≡ n = ground (arith, e, f) in rw (← same) refl
  | inr f ↦ absurd (ground (arith, e, f))
]
clean_here (a ∷ b ∷ c ∷ []) ascii n h e = elim (Bool-cases (a == lf && b == lf)) [
  | inl f ↦ let same : 2 ≡ n = ground (arith, e, f) in rw (← same) (ground (arith, h, f))
  | inr f ↦ absurd (ground (arith, e, f))
]
clean_here (a ∷ b ∷ c ∷ d ∷ more) ascii n h e = elim (Bool-cases (a == lf && b == lf)) [
  | inl f ↦ let same : 2 ≡ n = ground (arith, e, f) in rw (← same) (ground (arith, h, f))
  | inr f ↦ elim (Bool-cases (a == cr && (b == lf && (c == cr && d == lf)))) [
    | inl g ↦ let same : 4 ≡ n = ground (arith, e, f, g) in rw (← same) (ground (arith, h, g))
    | inr g ↦ absurd (ground (arith, e, f, g))
  ]
]

-- Behind a boundary the text is clean from its first byte on.
pub clean_behind :
    (bs : List ℕ) (ascii : Bool) (n : ℕ)
    → is_clean ascii bs ≡ true
    → next_event_boundary bs ≡ some n
    → is_clean true (drop n bs) ≡ true
unfolding is_clean next_event_boundary
clean_behind [] ascii n h e = cc
clean_behind (b ∷ bs) ascii n h e = elim (Option-cases (boundary_here (b ∷ bs))) [
  | inr (k, f) ↦
      let same : k ≡ n = ground (arith, e, f) in rw (← same) (clean_here (b ∷ bs) ascii k h f)
  | inl f ↦ elim (Option-cases (next_event_boundary bs)) [
    | inl g ↦ absurd (ground (arith, e, f, g))
    | inr (k, g) ↦
        let same : suc k ≡ n = ground (arith, e, f, g) in
        rw (← same) (clean_behind bs (ltb b 128) k (ground arith) g)
  ]
]

drop_nil : (n : ℕ) → drop {A = ℕ} n [] ≡ []
drop_nil zero = refl
drop_nil (suc n) = refl

pub drop-drop : (m n : ℕ) (bs : List ℕ) → drop n (drop m bs) ≡ drop (m + n) bs
drop-drop zero n bs = let shift : n ≡ 0 + n = omega arith in ap (λ k. drop k bs) shift
drop-drop (suc m) n [] = drop_nil n ∙ sym (drop_nil (suc m + n))
drop-drop (suc m) n (b ∷ bs) =
    let shift : suc (m + n) ≡ suc m + n = omega arith in
    drop-drop m n bs ∙ ap (λ k. drop k (b ∷ bs)) shift

-- Where the rest is clean, the text may be sliced.
pub clean_boundary :
    (n : ℕ) (bs : List ℕ)
    → n ≤ length bs
    → is_clean true (drop n bs) ≡ true
    → is_char_boundary n bs ≡ true
unfolding is_char_boundary
clean_boundary zero bs h c = refl
clean_boundary (suc n) bs h c = ground (arith, clean-begins (drop (suc n) bs) c)

pub zero_boundary : (bs : List ℕ) → is_char_boundary 0 bs ≡ true
unfolding is_char_boundary
zero_boundary bs = refl

pub drop-append :
    (n : ℕ) (xs ys : List ℕ)
    → n < length xs
    → begins_char (drop n xs) ≡ true
    → begins_char (drop n (xs ++ ys)) ≡ true
drop-append n [] ys le h = absurd (omega arith)
drop-append zero (x ∷ xs) ys le h = h
drop-append (suc n) (x ∷ xs) ys le h = drop-append n xs ys (omega arith) h
