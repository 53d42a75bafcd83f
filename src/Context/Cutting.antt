-- ===== src/Context/Cutting.antt =====
-- What pruning keeps of the messages around the start of its window.
use aifluxon.Context.{Json, is_tool_result, is_assistant_tool_call, skip_results}
use aifluxon.Context.Walk.{IsResult, IsAnswer, BeginsWhole, BeginsResult, Held, nothing, block}
use aifluxon.Prelude.{
  All, ◌⊎◌, Bool-cases, ◌≡◌, refl, ap, inl, inr, true, false, List, [], ◌∷◌, ◌++◌,
}

module _ {V : Type 0} (json : Json V) where
  -- What is kept of the messages before a window and of the window. `with_call` is the case for which
  -- the pruning is made: the window begins with results, and the message that they answer is kept
  -- with all the results between.
  pub data Cutting (before window : List V) : List V → Type 0 where
    at_window : BeginsWhole json window → Cutting before window window
    with_call :
        (cut : List V) (call : V) (results : List V)
        → BeginsResult json window
        → before ≡ cut ++ call ∷ results
        → is_tool_result json call ≡ false
        → All (IsAnswer json) results
        → Cutting before window (call ∷ (results ++ window))
    -- No message before the results is there, or a malformed one that is a call and a result.
    orphaned :
        (cut held results kept : List V)
        → BeginsResult json window
        → before ≡ cut ++ held
        → (cut ≡ [])
          ⊎ ((call : V) × (more : List V) × (held ≡ call ∷ more)
              × (is_assistant_tool_call json call ≡ true))
        → All (IsResult json) held
        → window ≡ results ++ kept
        → All (IsResult json) results
        → BeginsWhole json kept
        → Cutting before window kept

  skip_results-split :
      (ms : List V)
      → (results : List V) × (ms ≡ results ++ skip_results json ms)
        × (All (IsResult json) results)
        × (BeginsWhole json (skip_results json ms))
  unfolding skip_results
  skip_results-split [] = ([], refl, tt, tt)
  skip_results-split (m ∷ ms) = elim (Bool-cases (is_tool_result json m)) [
    | inl result ↦
        let (results, e, all, whole) = skip_results-split ms in
        rw result (m ∷ results, ap (λ xs. m ∷ xs) e, (result, all), whole)
    | inr whole ↦ rw whole ([], refl, tt, whole)
  ]

  skip_results-append :
      (xs ys : List V)
      → All (IsResult json) xs
      → skip_results json (xs ++ ys) ≡ skip_results json ys
  unfolding skip_results
  skip_results-append [] ys h = refl
  skip_results-append (x ∷ xs) ys h = rw (h.0) (skip_results-append xs ys h.1)

  skip_results-whole : (ms : List V) → BeginsWhole json ms → skip_results json ms ≡ ms
  unfolding skip_results
  skip_results-whole [] h = refl
  skip_results-whole (m ∷ ms) h = rw h

  answers-results : (xs : List V) → All (IsAnswer json) xs → All (IsResult json) xs
  answers-results [] h = tt
  answers-results (x ∷ xs) h = (h.0.0, answers-results xs h.1)

  orphaned-Cutting :
      (before window cut held : List V)
      → BeginsResult json window
      → before ≡ cut ++ held
      → (cut ≡ [])
        ⊎ ((call : V) × (more : List V) × (held ≡ call ∷ more)
            × (is_assistant_tool_call json call ≡ true))
      → All (IsResult json) held
      → Cutting before window (skip_results json (held ++ window))
  orphaned-Cutting before window cut held begins e why all =
      let (results, f, skipped, whole) = skip_results-split window in
      rw (skip_results-append held window all)
        (orphaned cut held results (skip_results json window) begins e why all f skipped whole)

  orphan_why :
      (cut : List V) (call : V) (results : List V)
      → IsResult json call
      → (is_tool_result json call ≡ false)
        ⊎ ((is_assistant_tool_call json call ≡ true) ⊎ (cut ≡ []))
      → (cut ≡ [])
        ⊎ ((first : V) × (more : List V) × (call ∷ results ≡ first ∷ more)
            × (is_assistant_tool_call json first ≡ true))
  orphan_why cut call results result (inl whole) = inl (cc (result, whole))
  orphan_why cut call results result (inr (inl called)) = inr (call, results, refl, called)
  orphan_why cut call results result (inr (inr first)) = inl first

  pub Held-Cutting :
      (before cut held window : List V)
      → before ≡ cut ++ held
      → Held json cut held window
      → Cutting before window (skip_results json (held ++ window))
  unfolding skip_results
  Held-Cutting before cut _ window e (nothing _ (inl whole)) =
      rw (skip_results-whole window whole) (at_window whole)
  Held-Cutting before cut _ [] e (nothing _ (inr first)) = at_window tt
  Held-Cutting before cut _ (m ∷ ms) e (nothing _ (inr first)) =
      elim (Bool-cases (is_tool_result json m)) [
        | inl result ↦ orphaned-Cutting before (m ∷ ms) cut [] result e (inl first) tt
        | inr whole ↦ rw (skip_results-whole (m ∷ ms) whole) (at_window whole)
      ]
  Held-Cutting before cut _ window e (block call results _ begins answers why) =
      elim (Bool-cases (is_tool_result json call)) [
        | inr whole ↦
            rw (skip_results-whole (call ∷ results ++ window) whole)
              (with_call cut call results begins e whole answers)
        | inl result ↦
            orphaned-Cutting before window cut (call ∷ results) begins e
              (orphan_why cut call results result why) (result, answers-results results answers)
      ]
