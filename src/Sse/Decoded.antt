-- ===== src/Sse/Decoded.antt =====
-- What the decoder hands out is clean text: the bytes that str::from_utf8 accepts are.
use aifluxon.Sse.Clean.{is_clean, clean_weaker}
use aifluxon.Sse.Utf8.{
  Validity, valid, invalid, is_continuation, sequence_length, is_second, continues, scan, from_utf8,
}
use aifluxon.Prelude.{
  Bool, Bool-cases, true, false, ◌&&◌, ltb, ◌==◌, ◌⊎◌, inl, inr, ℕ, suc, ◌+◌, ◌-◌, ◌≤◌, ◌≡◌, refl,
  subst, List, [], ◌∷◌, take, arith,
}

-- The bytes up to where the report says that they are valid, for a sequence that began at the index,
-- when `start` bytes were read.
abbrev CleanTo : ℕ → ℕ → Bool → List ℕ → Validity → Type 0
CleanTo index start ascii bs valid = is_clean ascii bs ≡ true
CleanTo index start ascii bs (invalid n k) =
    (n ≡ index) ⊎ ((start ≤ n) × (is_clean ascii (take (n - start) bs) ≡ true))

nil_clean : (ascii : Bool) → is_clean ascii [] ≡ true
unfolding is_clean
nil_clean ascii = refl

-- A byte that begins a sequence is no continuation byte.
single_starts :
    (ascii : Bool) (b : ℕ) → (sequence_length b == 0) ≡ false → (ascii && is_continuation b) ≡ false
unfolding sequence_length is_continuation
single_starts ascii b h = ground arith

lead_high :
    (b : ℕ)
    → (sequence_length b == 0) ≡ false
    → (sequence_length b == 1) ≡ false
    → false ≡ ltb b 128
unfolding sequence_length
lead_high b h k = ground arith

continues_high : (lead seen b : ℕ) → continues lead seen b ≡ true → false ≡ ltb b 128
unfolding continues is_second is_continuation
continues_high lead seen b h = ground arith

cons-clean :
    (ascii next : Bool) (b : ℕ) (bs : List ℕ)
    → (ascii && is_continuation b) ≡ false
    → (next ≡ true) ⊎ (next ≡ ltb b 128)
    → is_clean next bs ≡ true
    → is_clean ascii (b ∷ bs) ≡ true
unfolding is_clean
cons-clean ascii next b bs h (inl e) c =
    ground (arith, clean_weaker (ltb b 128) bs (subst (λ a. is_clean a bs ≡ true) e c))
cons-clean ascii next b bs h (inr e) c = ground (arith, subst (λ a. is_clean a bs ≡ true) e c)

CleanTo-cons :
    (v : Validity) (index index' start : ℕ) (ascii next : Bool) (b : ℕ) (bs : List ℕ)
    → (ascii && is_continuation b) ≡ false
    → (next ≡ true) ⊎ (next ≡ ltb b 128)
    → (index' ≡ index) ⊎ (index' ≡ suc start)
    → CleanTo index' (suc start) next bs v
    → CleanTo index start ascii (b ∷ bs) v
CleanTo-cons valid index index' start ascii next b bs h e at c = cons-clean ascii next b bs h e c
CleanTo-cons (invalid n k) index index' start ascii next b bs h e (inl same) (inl here) =
    inl (omega arith)
CleanTo-cons (invalid n k) index index' start ascii next b bs h e (inr after) (inl here) =
    let one : 1 ≡ n - start = omega arith in
    inr (
      omega arith,
      subst (λ c. is_clean ascii (take c (b ∷ bs)) ≡ true) one
          (cons-clean ascii next b [] h e (nil_clean next)),
    )
CleanTo-cons (invalid n k) index index' start ascii next b bs h e at (inr (le, c)) =
    let more : suc (n - suc start) ≡ n - start = omega arith in
    inr (
      omega arith,
      subst (λ m. is_clean ascii (take m (b ∷ bs)) ≡ true) more
          (cons-clean ascii next b (take (n - suc start) bs) h e c),
    )

scan-CleanTo :
    (index lead seen start : ℕ) (ascii : Bool) (bs : List ℕ)
    → start ≡ index + seen
    → (seen == 0) ≡ ascii
    → CleanTo index start ascii bs (scan index lead seen bs)
unfolding scan is_clean
scan-CleanTo index lead seen start ascii [] at flag = elim (Bool-cases (seen == 0)) [
  | inl e ↦ rw (e, scan) refl
  | inr e ↦ rw (e, scan) (inl refl)
]
scan-CleanTo index lead seen start ascii (b ∷ bs) at flag = elim (Bool-cases (seen == 0)) [
  | inl e ↦ elim (Bool-cases (sequence_length b == 0)) [
    | inl f ↦ rw (e, f, scan) (inl refl)
    | inr f ↦ elim (Bool-cases (sequence_length b == 1)) [
      | inl g ↦
          rw (e, f, g, scan)
            (CleanTo-cons (scan (index + 1) 0 0 bs) index (index + 1) start ascii true b bs
              (single_starts ascii b f) (inl refl) (inr (ground arith))
              (scan-CleanTo (index + 1) 0 0 (suc start) true bs (ground arith) refl))
      | inr g ↦
          rw (e, f, g, scan)
            (CleanTo-cons (scan index b 1 bs) index index start ascii false b bs
              (single_starts ascii b f) (inr (lead_high b f g)) (inl refl)
              (scan-CleanTo index b 1 (suc start) false bs (ground arith) refl))
    ]
  ]
  | inr e ↦ elim (Bool-cases (continues lead seen b)) [
    | inr f ↦ rw (e, f, scan) (inl refl)
    | inl f ↦ elim (Bool-cases (seen + 1 == sequence_length lead)) [
      | inl g ↦
          rw (e, f, g, scan)
            (CleanTo-cons (scan (index + seen + 1) 0 0 bs) index (index + seen + 1) start ascii true
              b bs (ground (arith, flag, e)) (inl refl) (inr (omega arith))
              (scan-CleanTo (index + seen + 1) 0 0 (suc start) true bs (omega arith) refl))
      | inr g ↦
          rw (e, f, g, scan)
            (CleanTo-cons (scan index lead (seen + 1) bs) index index start ascii false b bs
              (ground (arith, flag, e)) (inr (continues_high lead seen b f)) (inl refl)
              (scan-CleanTo index lead (seen + 1) (suc start) false bs (omega arith)
                (ground arith)))
    ]
  ]
]

-- What a report of str::from_utf8 accepts.
abbrev pub Accepted : List ℕ → Validity → Type 0
Accepted bytes valid = is_clean true bytes ≡ true
Accepted bytes (invalid n k) = is_clean true (take n bytes) ≡ true

CleanTo-Accepted : (bytes : List ℕ) (v : Validity) → CleanTo 0 0 true bytes v → Accepted bytes v
unfolding is_clean
CleanTo-Accepted bytes valid c = c
CleanTo-Accepted bytes (invalid n k) (inl e) = rw e refl
CleanTo-Accepted bytes (invalid n k) (inr (le, c)) =
    let same : n - 0 ≡ n = omega arith in subst (λ m. is_clean true (take m bytes) ≡ true) same c

pub from_utf8-Accepted : (bytes : List ℕ) → Accepted bytes (from_utf8 bytes)
unfolding from_utf8
from_utf8-Accepted bytes =
    CleanTo-Accepted bytes (scan 0 0 0 bytes) (scan-CleanTo 0 0 0 0 true bytes refl refl)
