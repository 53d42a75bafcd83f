-- ===== src/Context/Walk.antt =====
-- Where the walk back from the window ends.
use aifluxon.Context.{Json, is_tool_result, is_assistant_tool_call, walk_back, element}
use aifluxon.Prelude.{
  All, All-append, Bool-cases, length, length-append, ℕ, zero, suc, ◌≡◌, refl, sym, ap, inl, inr,
  ◌⊎◌, true, false, List, [], ◌∷◌, ◌++◌, arith, ◌∙◌, append_assoc, append-nil, some, subst,
}

element-append :
    {V : Type 0} (xs : List V) (y : V) (ys : List V) → element (length xs) (xs ++ y ∷ ys) ≡ some y
unfolding element
element-append [] y ys = refl
element-append (x ∷ xs) y ys = element-append xs y ys

-- The last element, with what stands before it.
snoc :
    {V : Type 0} (n : ℕ) (xs : List V)
    → length xs ≡ suc n
    → (init : List V) × (x : V) × (xs ≡ init ++ x ∷ []) × (length init ≡ n)
snoc n [] h = absurd (omega arith)
snoc zero (x ∷ []) h = ([], x, refl, refl)
snoc zero (x ∷ y ∷ ys) h = absurd (omega arith)
snoc (suc n) (x ∷ ys) h =
    let (init, y, e, l) = snoc n ys (omega arith) in (x ∷ init, y, ap (λ zs. x ∷ zs) e, omega arith)

module _ {V : Type 0} (json : Json V) where
  abbrev pub IsResult : V → Type 0
  IsResult m = is_tool_result json m ≡ true

  -- A tool result that is no call as well.
  abbrev pub IsAnswer : V → Type 0
  IsAnswer m = (is_tool_result json m ≡ true) × (is_assistant_tool_call json m ≡ false)

  abbrev pub BeginsWhole : List V → Type 0
  BeginsWhole [] = Unit
  BeginsWhole (m ∷ ms) = is_tool_result json m ≡ false

  abbrev pub BeginsResult : List V → Type 0
  BeginsResult [] = ⊥
  BeginsResult (m ∷ ms) = IsResult m

  -- What the walk picks up between the cut and the window.
  pub data Held (cut : List V) : List V → List V → Type 0 where
    nothing : (window : List V) → (BeginsWhole window) ⊎ (cut ≡ []) → Held cut [] window
    block :
        (call : V) (results window : List V)
        → BeginsResult window
        → All IsAnswer results
        → (is_tool_result json call ≡ false)
          ⊎ ((is_assistant_tool_call json call ≡ true) ⊎ (cut ≡ []))
        → Held cut (call ∷ results) window

  abbrev pub Walked : (before window : List V) → ℕ → Type 0
  Walked before window n =
      (cut : List V) × (held : List V) × (before ≡ cut ++ held)
      × (walk_back json (before ++ window) n ≡ some (length cut))
      × Held cut held window

  extend :
      (cut held window : List V) (b m : V)
      → is_tool_result json m ≡ true
      → is_assistant_tool_call json b ≡ false
      → Held cut held (b ∷ m ∷ window)
      → Held cut (held ++ b ∷ []) (m ∷ window)
  extend cut held window b m h plain (nothing _ (inl whole)) =
      block b [] (m ∷ window) h tt (inl whole)
  extend cut held window b m h plain (nothing _ (inr first)) =
      block b [] (m ∷ window) h tt (inr (inr first))
  extend cut held window b m h plain (block call results _ result answers why) =
      block call (results ++ b ∷ []) (m ∷ window) h
        (All-append IsAnswer results (b ∷ []) answers ((result, plain), tt)) why

  module _ (init : List V) (b m : V) (window : List V) where
    same_list : (init ++ b ∷ []) ++ m ∷ window ≡ init ++ b ∷ m ∷ window
    same_list = append_assoc init (b ∷ []) (m ∷ window)

    at_start : element (suc (length init)) ((init ++ b ∷ []) ++ m ∷ window) ≡ some m
    at_start =
        subst (λ n. element n ((init ++ b ∷ []) ++ m ∷ window) ≡ some m)
          (length-append init (b ∷ []) ∙ omega arith) (element-append (init ++ b ∷ []) m window)

    before_start : element (length init) ((init ++ b ∷ []) ++ m ∷ window) ≡ some b
    before_start = rw same_list (element-append init b (m ∷ window))

    walk_snoc :
        Walked init (b ∷ m ∷ window) (length init)
        → Walked (init ++ b ∷ []) (m ∷ window) (suc (length init))
    unfolding walk_back
    walk_snoc (cut, held, e, walked, h) = elim (Bool-cases (is_tool_result json m)) [
      | inr whole ↦ (
        init ++ b ∷ [],
        [],
        sym (append-nil (init ++ b ∷ [])),
        rw (at_start, whole, walk_back) (ap some (omega (arith, length-append init (b ∷ [])))),
        nothing (m ∷ window) (inl whole),
      )
      | inl result ↦ elim (Bool-cases (is_assistant_tool_call json b)) [
        | inl called ↦ (
          init,
          b ∷ [],
          refl,
          rw (at_start, result, before_start, called, walk_back) refl,
          block b [] (m ∷ window) result tt (inr (inl called)),
        )
        | inr plain ↦ (
          cut,
          held ++ b ∷ [],
          ap (λ xs. xs ++ b ∷ []) e ∙ append_assoc cut held (b ∷ []),
          rw (at_start, result, before_start, plain, walk_back)
              (subst (λ xs. walk_back json xs (length init) ≡ some (length cut)) (sym same_list)
                walked),
          extend cut held window b m result plain h,
        )
      ]
    ]

  -- From the start of a window that is not empty, the walk ends, and holds what `Held` says.
  pub walk :
      (n : ℕ) (before : List V) (m : V) (window : List V)
      → length before ≡ n
      → Walked before (m ∷ window) n
  unfolding walk_back
  walk zero [] m window h = ([], [], refl, refl, nothing (m ∷ window) (inr refl))
  walk zero (x ∷ before) m window h = absurd (omega arith)
  walk (suc n) before m window h =
      let (init, b, e, l) = snoc n before h in
      let inner : Walked init (b ∷ m ∷ window) (length init) =
        subst (Walked init (b ∷ m ∷ window)) (sym l) (walk n init b (m ∷ window) l) in
      subst (λ xs. Walked xs (m ∷ window) (suc n)) (sym e)
        (subst (λ k. Walked (init ++ b ∷ []) (m ∷ window) (suc k)) l
          (walk_snoc init b m window inner))
