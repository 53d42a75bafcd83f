-- ===== src/ToolDeltas/Assembly.antt =====
-- The arguments that the fragments of a stream add up to.
use Prim.Native.String.{String}
use text.Mathlib.TextLemmas.{append-nil, append_assoc}
use aifluxon.Json.{Json}
use aifluxon.ToolDeltas.{
  PendingToolCall, ToolCallAssembler, blank_call, text_at, index_at, streamed_tool_call_index,
  delta_index, function_text, flat_arguments, after_delta, apply_chat_delta, padded, change_at,
}
use aifluxon.Prelude.{
  ℕ, zero, suc, ◌==◌, if◌then◌else◌, Bool, false, Option, none, some, List, [], ◌∷◌, ◌<>◌, ◌≡◌,
  refl, sym, inl, inr, Bool-cases, All, arith,
}

module _ {V : Type 0} where
  -- The call at an index, blank where there is none.
  abbrev pub call_at : ℕ → List (PendingToolCall V) → PendingToolCall V
  call_at i [] = blank_call
  call_at zero (call ∷ calls) = call
  call_at (suc i) (call ∷ calls) = call_at i calls

  call_at-padded :
      (n i : ℕ) (calls : List (PendingToolCall V)) → call_at i (padded n calls) ≡ call_at i calls
  unfolding padded
  call_at-padded zero i calls = refl
  call_at-padded (suc n) zero [] = refl
  call_at-padded (suc n) (suc i) [] = call_at-padded n i []
  call_at-padded (suc n) zero (call ∷ calls) = refl
  call_at-padded (suc n) (suc i) (call ∷ calls) = call_at-padded n i calls

  -- A change of the call at an index changes no other call.
  call_at-change_at :
      (n i : ℕ) (f : PendingToolCall V → PendingToolCall V) (calls : List (PendingToolCall V))
      → call_at i (change_at n f (padded (suc n) calls))
        ≡ (if n == i then f (call_at i calls) else call_at i calls)
  unfolding padded change_at
  call_at-change_at zero zero f [] = ground arith
  call_at-change_at zero (suc i) f [] = ground arith
  call_at-change_at (suc n) zero f [] = ground arith
  call_at-change_at (suc n) (suc i) f [] = ground (arith, call_at-change_at n i f [])
  call_at-change_at zero zero f (call ∷ calls) = ground arith
  call_at-change_at zero (suc i) f (call ∷ calls) = ground arith
  call_at-change_at (suc n) zero f (call ∷ calls) = ground arith
  call_at-change_at (suc n) (suc i) f (call ∷ calls) = ground (arith, call_at-change_at n i f calls)

  module _ (json : Json V) (merge : V → V → V) where
    -- The delta names its call.
    abbrev pub HasIndex : V → Type 0
    HasIndex delta = (n : ℕ) × (index_at json delta ≡ some n)

    abbrev pub or_empty : Option String → String
    or_empty none = ""
    or_empty (some text) = text

    -- The fragment of the arguments in a delta: that of its function, where it has one.
    abbrev pub fragment : V → String
    fragment delta = elim (json.get "function" delta) [
      | some function ↦ or_empty (text_at json "arguments" function)
      | none ↦ or_empty (text_at json "arguments" delta)
    ]

    abbrev pub is_for : ℕ → V → Bool
    is_for i delta = elim (index_at json delta) [ some n ↦ n == i | none ↦ false ]

    -- The fragments for one call, one after the other.
    abbrev pub joined : ℕ → List (V × ℕ) → String
    joined i [] = ""
    joined i ((delta, fallback) ∷ deltas) =
        let rest = joined i deltas in if is_for i delta then fragment delta <> rest else rest

    -- The assembler after the deltas of a stream, each with its position in its chunk.
    abbrev pub streamed : List (V × ℕ) → ToolCallAssembler V → ToolCallAssembler V
    streamed [] a = a
    streamed ((delta, fallback) ∷ deltas) a =
        streamed deltas (apply_chat_delta json merge delta fallback false a)

    arguments-after_delta :
        (delta : V) (whole : Bool) (call : PendingToolCall V)
        → (after_delta json merge delta false whole call).arguments
          ≡ call.arguments <> fragment delta
    unfolding after_delta function_text flat_arguments
    arguments-after_delta delta whole call = grind (arith, append-nil)

    delta_index-HasIndex :
        (delta : V) (fallback n : ℕ) (a : ToolCallAssembler V)
        → index_at json delta ≡ some n
        → delta_index json delta fallback a ≡ n
    unfolding delta_index streamed_tool_call_index
    delta_index-HasIndex delta fallback n a e = grind arith

    arguments-apply_chat_delta :
        (delta : V) (fallback i : ℕ) (a : ToolCallAssembler V)
        → HasIndex delta
        → (call_at i (apply_chat_delta json merge delta fallback false a).calls).arguments ≡ (
            if is_for i delta
            then (call_at i a.calls).arguments <> fragment delta
            else (call_at i a.calls).arguments)
    unfolding apply_chat_delta
    arguments-apply_chat_delta delta fallback i a (n, e) = elim (Bool-cases (n == i)) [
      | inl hit ↦
          rw (delta_index-HasIndex delta fallback n a e, call_at-change_at n i, is_for, e, hit)
            (arguments-after_delta delta a.metadata_snapshots (call_at i a.calls))
      | inr miss ↦
          rw (delta_index-HasIndex delta fallback n a e, call_at-change_at n i, is_for, e, miss)
            refl
    ]

    -- Where every delta of a stream names its call, the arguments of each call are what they were
    -- before the stream, then its fragments in the order of the stream, however the deltas of the
    -- calls are interleaved.
    pub arguments_in_order :
        (deltas : List (V × ℕ)) (a : ToolCallAssembler V) (i : ℕ)
        → All (λ p. HasIndex p.0) deltas
        → (call_at i (streamed deltas a).calls).arguments
          ≡ (call_at i a.calls).arguments <> joined i deltas
    arguments_in_order [] a i h = sym (append-nil (call_at i a.calls).arguments)
    arguments_in_order ((delta, fallback) ∷ deltas) a i h = elim (Bool-cases (is_for i delta)) [
      | inl hit ↦
          rw
            (
              arguments_in_order deltas (apply_chat_delta json merge delta fallback false a) i h.1,
              arguments-apply_chat_delta delta fallback i a h.0,
              hit,
            )
            (append_assoc (call_at i a.calls).arguments (fragment delta) (joined i deltas))
      | inr miss ↦
          rw
            (
              arguments_in_order deltas (apply_chat_delta json merge delta fallback false a) i h.1,
              arguments-apply_chat_delta delta fallback i a h.0,
              miss,
            )
            refl
    ]
