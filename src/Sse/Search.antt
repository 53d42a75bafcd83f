-- ===== src/Sse/Search.antt =====
-- Where the first boundary of a text stands, and where a search for it may begin.
use aifluxon.Sse.{boundary_here, further, next_event_boundary}
use aifluxon.Prelude.{
  ℕ, zero, suc, ◌+◌, ◌≤◌, ◌≡◌, refl, ap, ◌∙◌, inl, inr, ◌⊎◌, Option-cases, Option, none, some, List,
  [], ◌∷◌, ◌++◌, length, drop, arith,
}

-- A boundary is seen from its first byte with three bytes more.
boundary_here-extend :
    (a b c d : ℕ) (xs ys : List ℕ)
    → boundary_here (a ∷ b ∷ c ∷ d ∷ xs) ≡ boundary_here (a ∷ b ∷ c ∷ d ∷ ys)
boundary_here-extend a b c d xs ys = refl

-- Adding to an index.
abbrev pub shifted : ℕ → Option ℕ → Option ℕ
shifted s none = none
shifted s (some n) = some (s + n)

none_here :
    (b : ℕ) (bs : List ℕ)
    → next_event_boundary (b ∷ bs) ≡ none
    → (boundary_here (b ∷ bs) ≡ none) × (next_event_boundary bs ≡ none)
unfolding next_event_boundary
none_here b bs h = (ground arith, ground arith)

further-shifted : (s : ℕ) (o : Option ℕ) → further (shifted s o) ≡ shifted (suc s) o
further-shifted s none = refl
further-shifted s (some n) = ap some (omega arith)

pub shifted_zero : (o : Option ℕ) → o ≡ shifted 0 o
shifted_zero none = refl
shifted_zero (some n) = ap some (omega arith)

step_over :
    (b : ℕ) (bs : List ℕ)
    → boundary_here (b ∷ bs) ≡ none
    → next_event_boundary (b ∷ bs) ≡ further (next_event_boundary bs)
unfolding next_event_boundary
step_over b bs h = ground arith

-- Where the old bytes hold no boundary, a search of the longer bytes may begin anywhere but in the
-- last three old bytes.
boundary_skip :
    (s : ℕ) (old ext : List ℕ)
    → next_event_boundary old ≡ none
    → s + 3 ≤ length old
    → next_event_boundary (old ++ ext) ≡ shifted s (next_event_boundary (drop s (old ++ ext)))
boundary_skip zero old ext h le = shifted_zero (next_event_boundary (old ++ ext))
boundary_skip (suc s) (a ∷ b ∷ c ∷ d ∷ old) ext h le =
    let (here, rest) = none_here a (b ∷ c ∷ d ∷ old) h in
    step_over a (b ∷ c ∷ d ∷ (old ++ ext)) here
    ∙ ap further (boundary_skip s (b ∷ c ∷ d ∷ old) ext rest (omega arith))
    ∙ further-shifted s (next_event_boundary (drop s (b ∷ c ∷ d ∷ (old ++ ext))))
boundary_skip (suc s) [] ext h le = absurd (omega arith)
boundary_skip (suc s) (a ∷ []) ext h le = absurd (omega arith)
boundary_skip (suc s) (a ∷ b ∷ []) ext h le = absurd (omega arith)
boundary_skip (suc s) (a ∷ b ∷ c ∷ []) ext h le = absurd (omega arith)

-- The search may begin at the index.
abbrev pub IsSafe : ℕ → List ℕ → Type 0
IsSafe s old = (s ≡ 0) ⊎ (s + 3 ≤ length old)

pub safe_skip :
    (s : ℕ) (old ext : List ℕ)
    → next_event_boundary old ≡ none
    → IsSafe s old
    → next_event_boundary (old ++ ext) ≡ shifted s (next_event_boundary (drop s (old ++ ext)))
safe_skip s old ext h (inl e) = rw e (shifted_zero (next_event_boundary (old ++ ext)))
safe_skip s old ext h (inr le) = boundary_skip s old ext h le

boundary_here-bound : (bs : List ℕ) (n : ℕ) → boundary_here bs ≡ some n → (1 ≤ n) × (n ≤ length bs)
boundary_here-bound [] n h = cc
boundary_here-bound (a ∷ []) n h = cc
boundary_here-bound (a ∷ b ∷ []) n h = ground arith
boundary_here-bound (a ∷ b ∷ c ∷ []) n h = ground arith
boundary_here-bound (a ∷ b ∷ c ∷ d ∷ more) n h = ground arith

pub boundary-bound :
    (bs : List ℕ) (n : ℕ) → next_event_boundary bs ≡ some n → (1 ≤ n) × (n ≤ length bs)
unfolding next_event_boundary
boundary-bound [] n h = cc
boundary-bound (b ∷ bs) n h = elim (Option-cases (boundary_here (b ∷ bs))) [
  | inr (k, e) ↦
      let bound = boundary_here-bound (b ∷ bs) k e in
      let same : k ≡ n = ground (arith, e, h) in rw (← same) bound
  | inl e ↦ elim (Option-cases (next_event_boundary bs)) [
    | inl f ↦ absurd (ground (arith, e, f, h))
    | inr (k, f) ↦
        let bound = boundary-bound bs k f in
        let same : suc k ≡ n = ground (arith, e, f, h) in (omega arith, omega arith)
  ]
]
