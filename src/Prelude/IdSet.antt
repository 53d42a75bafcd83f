-- ===== src/Prelude/IdSet.antt =====
-- A HashSet of identifiers, as a list without an order that matters.
use Prim.Native.Nat.{ℕ}
use mathlib.Core.Path.{◌≡◌}
use mathlib.Core.Bool.{Bool, true, false, ◌||◌}
use mathlib.Core.List.{List, [], ◌∷◌, ◌++◌}
use native.Mathlib.Omega.{arith}
use aifluxon.Prelude.Checks.{◌==◌, if◌then◌else◌}
use aifluxon.Prelude.{refl}

-- HashSet::contains, Vec::contains.
unfoldable pub contains : ℕ → List ℕ → Bool
contains k [] = false
contains k (j ∷ js) = let rest = contains k js in if j == k then true else rest

-- HashSet::insert.
unfoldable pub include : ℕ → List ℕ → List ℕ
include k js = if contains k js then js else k ∷ js

pub contains-include :
    (k j : ℕ) (js : List ℕ) → contains j (include k js) ≡ (k == j || contains j js)
unfolding include contains
contains-include k j js = ground arith

pub contains-append : (n : ℕ) (xs ys : List ℕ) → contains n ys ≡ true → contains n (xs ++ ys) ≡ true
unfolding contains
contains-append n [] ys h = h
contains-append n (x ∷ xs) ys h = ground (arith, contains-append n xs ys h)

pub contains-prefix : (n : ℕ) (xs ys : List ℕ) → contains n xs ≡ true → contains n (xs ++ ys) ≡ true
unfolding contains
contains-prefix n [] ys h = cc
contains-prefix n (x ∷ xs) ys h = ground (arith, contains-prefix n xs ys)

pub contains-++ :
    (n : ℕ) (xs ys : List ℕ) → contains n (xs ++ ys) ≡ (contains n xs || contains n ys)
unfolding contains
contains-++ n [] ys = refl
contains-++ n (x ∷ xs) ys = ground (arith, contains-++ n xs ys)
