-- ===== src/Continuation/Limits.antt =====
-- How many continuations a run is granted.
use aifluxon.Core.Provider.{ContinuationReason, default_limit}
use aifluxon.Continuation.{ContinuationCounts, for_limits, slot, try_begin, reset_incomplete}
use aifluxon.Core.Run.{RunLimits, is_unlimited, unlimited}
use aifluxon.Prelude.{
  if◌then◌else◌, ℕ, suc, ◌+◌, ◌*◌, ◌≤◌, ◌≡◌, Bool, true, false, ◌&&◌, List, [], ◌∷◌, refl, arith,
}

pub data Event : Type 0 where
  begins : ContinuationReason → Event
  resets : Event

unfoldable pub after : ContinuationCounts → Event → ContinuationCounts
after c (begins reason) = (try_begin reason c).1
after c resets = reset_incomplete c

unfoldable pub same_reason : ContinuationReason → ContinuationReason → Bool
same_reason ContinuationReason.incomplete ContinuationReason.incomplete = true
same_reason ContinuationReason.summary_only ContinuationReason.summary_only = true
same_reason ContinuationReason.provider_requested ContinuationReason.provider_requested = true
same_reason _ _ = false

-- How often a history grants the reason, and how often it resets the counter of the first reason.
unfoldable pub granted : ContinuationReason → ContinuationCounts → List Event → ℕ
unfolding same_reason after
granted reason c [] = 0
granted reason c (begins other ∷ es) =
    let rest = granted reason (after c (begins other)) es in
    if same_reason reason other && (try_begin other c).0 then suc rest else rest
granted reason c (resets ∷ es) = granted reason (after c resets) es

abbrev pub reset_count : List Event → ℕ
reset_count [] = 0
reset_count (begins reason ∷ es) = reset_count es
reset_count (resets ∷ es) = suc (reset_count es)

-- The limit as often as the counter is cleared.
unfoldable pub allowance : ContinuationReason → List Event → ℕ
unfolding default_limit
allowance ContinuationReason.incomplete es =
    default_limit ContinuationReason.incomplete * reset_count es
allowance _ es = 0

-- A begin, counted when it is granted, keeps the counter within the limit.
begins-slot :
    (reason other : ContinuationReason) (c : ContinuationCounts)
    → c.unlimited ≡ false
    → slot reason c ≤ default_limit reason
    → ((after c (begins other)).unlimited ≡ false)
      × (slot reason (after c (begins other)) ≤ default_limit reason)
      × (slot reason (after c (begins other))
          ≡ slot reason c + (if same_reason reason other && (try_begin other c).0 then 1 else 0))
unfolding after try_begin slot same_reason default_limit
begins-slot ContinuationReason.incomplete ContinuationReason.incomplete c h k = ground arith
begins-slot ContinuationReason.incomplete ContinuationReason.summary_only c h k = ground arith
begins-slot ContinuationReason.incomplete ContinuationReason.provider_requested c h k = ground arith
begins-slot ContinuationReason.summary_only ContinuationReason.incomplete c h k = ground arith
begins-slot ContinuationReason.summary_only ContinuationReason.summary_only c h k = ground arith
begins-slot ContinuationReason.summary_only ContinuationReason.provider_requested c h k =
    ground arith
begins-slot ContinuationReason.provider_requested ContinuationReason.incomplete c h k = ground arith
begins-slot ContinuationReason.provider_requested ContinuationReason.summary_only c h k =
    ground arith
begins-slot ContinuationReason.provider_requested ContinuationReason.provider_requested c h k =
    ground arith

resets-bounded : (c : ContinuationCounts) → c.unlimited ≡ false → (after c resets).unlimited ≡ false
unfolding after reset_incomplete
resets-bounded c h = h

resets-slot :
    (reason : ContinuationReason) (c : ContinuationCounts) (es : List Event)
    → slot reason c ≤ default_limit reason
    → (slot reason (after c resets) ≤ default_limit reason)
      × (slot reason c + allowance reason es
          ≤ slot reason (after c resets) + allowance reason (resets ∷ es))
unfolding after reset_incomplete slot allowance default_limit
resets-slot ContinuationReason.incomplete c es k = ground arith
resets-slot ContinuationReason.summary_only c es k = ground arith
resets-slot ContinuationReason.provider_requested c es k = ground arith

allowance-begins :
    (reason other : ContinuationReason) (es : List Event)
    → allowance reason (begins other ∷ es) ≡ allowance reason es
unfolding allowance
allowance-begins ContinuationReason.incomplete other es = refl
allowance-begins ContinuationReason.summary_only other es = refl
allowance-begins ContinuationReason.provider_requested other es = refl

within :
    (reason : ContinuationReason) (c : ContinuationCounts) (es : List Event)
    → c.unlimited ≡ false
    → slot reason c ≤ default_limit reason
    → slot reason c + granted reason c es ≤ default_limit reason + allowance reason es
unfolding granted
within reason c [] h k = omega arith
within reason c (begins other ∷ es) h k =
    let (bounded, fits, moved) = begins-slot reason other c h k in
    ground (
      arith,
      allowance-begins reason other es,
      within reason (after c (begins other)) es bounded fits,
    )
within reason c (resets ∷ es) h k =
    let (fits, paid) = resets-slot reason c es k in
    omega (arith, within reason (after c resets) es (resets-bounded c h) fits)

begun :
    (limits : RunLimits) (reason : ContinuationReason)
    → is_unlimited limits ≡ false
    → ((for_limits limits).unlimited ≡ false)
      × (slot reason (for_limits limits) ≤ default_limit reason)
      × (slot reason (for_limits limits) ≡ 0)
unfolding for_limits slot
begun limits ContinuationReason.incomplete h = (h, omega arith, refl)
begun limits ContinuationReason.summary_only h = (h, omega arith, refl)
begun limits ContinuationReason.provider_requested h = (h, omega arith, refl)

-- A run with limits is granted no more continuations for a reason than the reason's limit, and, for
-- unfinished answers, the limit again for each time that tools ran in between.
pub granted-le :
    (limits : RunLimits) (reason : ContinuationReason) (es : List Event)
    → is_unlimited limits ≡ false
    → granted reason (for_limits limits) es ≤ default_limit reason + allowance reason es
granted-le limits reason es bounded =
    let (h, k, nothing) = begun limits reason bounded in
    omega (arith, within reason (for_limits limits) es h k)

-- Each begin of the history is granted.
abbrev pub AllBegun : ContinuationCounts → List Event → Type 0
AllBegun c [] = Unit
AllBegun c (begins reason ∷ es) =
    ((try_begin reason c).0 ≡ true) × AllBegun (after c (begins reason)) es
AllBegun c (resets ∷ es) = AllBegun (after c resets) es

unlimited_all : (c : ContinuationCounts) (es : List Event) → c.unlimited ≡ true → AllBegun c es
unfolding try_begin after reset_incomplete
unlimited_all c [] h = tt
unlimited_all c (begins reason ∷ es) h =
    (ground arith, unlimited_all (after c (begins reason)) es (ground arith))
unlimited_all c (resets ∷ es) h = unlimited_all (after c resets) es h

-- A run with unlimited limits is granted every continuation.
pub unlimited_always_begins : (es : List Event) → AllBegun (for_limits unlimited) es
unfolding for_limits unlimited
unlimited_always_begins es = unlimited_all (for_limits unlimited) es refl
