-- ===== src/Budget/Limits.antt =====
-- What a budget grants over a history of charges.
use aifluxon.Budget
use aifluxon.Budget.{
  AgentBudgetKind, AgentLoopBudget, duration_max, from_run_limits, Spend, consume_model_round,
  consume_tool_invocation, consume_tokens,
}
use aifluxon.Core.Run.{u32_max, u64_max, unlimited}
use aifluxon.Prelude.{
  if◌then◌else◌, All, Result, ℕ, ◌+◌, ◌-◌, ◌≤◌, ◌<◌, ◌≡◌, refl, Bool, true, false, List, [], ◌∷◌,
  arith, ok, err,
}

pub data Charge : Type 0 where
  round tool : ℕ → Charge
  tokens : ℕ → ℕ → ℕ → ℕ → Charge

abbrev pub charge : AgentLoopBudget → Charge → Budget.Spend
charge b (round now) = consume_model_round now b
charge b (tool now) = consume_tool_invocation now b
charge b (tokens now i o r) = consume_tokens now i o r b

abbrev pub is_granted : Result AgentBudgetKind (Unit {0}) → Bool
is_granted (ok _) = true
is_granted (err _) = false

-- How many model rounds, and how many tool invocations, a history grants.
unfoldable pub granted_rounds : AgentLoopBudget → List Charge → ℕ
granted_rounds b [] = 0
granted_rounds b (round now ∷ cs) =
    let rest = granted_rounds (charge b (round now)).1 cs in
    if is_granted (charge b (round now)).0 then rest + 1 else rest
granted_rounds b (c ∷ cs) = granted_rounds (charge b c).1 cs

unfoldable pub granted_tools : AgentLoopBudget → List Charge → ℕ
granted_tools b [] = 0
granted_tools b (tool now ∷ cs) =
    let rest = granted_tools (charge b (tool now)).1 cs in
    if is_granted (charge b (tool now)).0 then rest + 1 else rest
granted_tools b (c ∷ cs) = granted_tools (charge b c).1 cs

-- A charge keeps the limits, and a counter moves by one when it is granted.
round_counts :
    (b : AgentLoopBudget) (now : ℕ)
    → b.max_model_rounds < u32_max
    → b.model_rounds ≤ b.max_model_rounds
    → ((consume_model_round now b).1.max_model_rounds ≡ b.max_model_rounds)
      × ((consume_model_round now b).1.model_rounds ≤ b.max_model_rounds)
      × ((if is_granted (consume_model_round now b).0 then b.model_rounds + 1 else b.model_rounds)
          ≤ (consume_model_round now b).1.model_rounds)
unfolding consume_model_round
round_counts b now lt le = ground arith

tool_keeps_rounds :
    (b : AgentLoopBudget) (now : ℕ)
    → ((consume_tool_invocation now b).1.max_model_rounds ≡ b.max_model_rounds)
      × ((consume_tool_invocation now b).1.model_rounds ≡ b.model_rounds)
unfolding consume_tool_invocation
tool_keeps_rounds b now = ground arith

tool_counts :
    (b : AgentLoopBudget) (now : ℕ)
    → b.max_tool_invocations < u32_max
    → b.tool_invocations ≤ b.max_tool_invocations
    → ((consume_tool_invocation now b).1.max_tool_invocations ≡ b.max_tool_invocations)
      × ((consume_tool_invocation now b).1.tool_invocations ≤ b.max_tool_invocations)
      × ((if is_granted (consume_tool_invocation now b).0
            then b.tool_invocations + 1
            else b.tool_invocations)
          ≤ (consume_tool_invocation now b).1.tool_invocations)
unfolding consume_tool_invocation
tool_counts b now lt le = ground arith

round_keeps_tools :
    (b : AgentLoopBudget) (now : ℕ)
    → ((consume_model_round now b).1.max_tool_invocations ≡ b.max_tool_invocations)
      × ((consume_model_round now b).1.tool_invocations ≡ b.tool_invocations)
unfolding consume_model_round
round_keeps_tools b now = ground arith

-- With a limit below u32::MAX that the count does not exceed, no history is granted more model
-- rounds than are left.
pub granted_rounds-le :
    (b : AgentLoopBudget) (cs : List Charge)
    → b.max_model_rounds < u32_max
    → b.model_rounds ≤ b.max_model_rounds
    → b.model_rounds + granted_rounds b cs ≤ b.max_model_rounds
unfolding granted_rounds consume_tokens
granted_rounds-le b [] lt le = omega arith
granted_rounds-le b (round now ∷ cs) lt le =
    ground (arith, round_counts b now, granted_rounds-le (consume_model_round now b).1 cs)
granted_rounds-le b (tool now ∷ cs) lt le =
    ground (arith, tool_keeps_rounds b now, granted_rounds-le (consume_tool_invocation now b).1 cs)
granted_rounds-le b (tokens now i o r ∷ cs) lt le =
    granted_rounds-le (consume_tokens now i o r b).1 cs lt le

-- With a limit below u32::MAX that the count does not exceed, no history is granted more tool
-- invocations than are left.
pub granted_tools-le :
    (b : AgentLoopBudget) (cs : List Charge)
    → b.max_tool_invocations < u32_max
    → b.tool_invocations ≤ b.max_tool_invocations
    → b.tool_invocations + granted_tools b cs ≤ b.max_tool_invocations
unfolding granted_tools consume_tokens
granted_tools-le b [] lt le = omega arith
granted_tools-le b (tool now ∷ cs) lt le =
    ground (arith, tool_counts b now, granted_tools-le (consume_tool_invocation now b).1 cs)
granted_tools-le b (round now ∷ cs) lt le =
    ground (arith, round_keeps_tools b now, granted_tools-le (consume_model_round now b).1 cs)
granted_tools-le b (tokens now i o r ∷ cs) lt le =
    granted_tools-le (consume_tokens now i o r b).1 cs lt le

-- The time at which a charge is made.
abbrev pub time_of : Charge → ℕ
time_of (round now) = now
time_of (tool now) = now
time_of (tokens now i o r) = now

-- Once its wall time is over, a budget grants nothing, whatever is left of the counters.
pub late_charge_refused :
    (b : AgentLoopBudget) (c : Charge)
    → b.max_wall_time < time_of c - b.started_at
    → is_granted (charge b c).0 ≡ false
unfolding consume_model_round consume_tool_invocation consume_tokens
late_charge_refused b (round now) h = ground arith
late_charge_refused b (tool now) h = ground arith
late_charge_refused b (tokens now i o r) h = ground arith

-- The limits that an unlimited run gets.
abbrev IsUnlimited : AgentLoopBudget → Type 0
IsUnlimited b =
    (b.max_model_rounds ≡ u32_max)
    × (b.max_tool_invocations ≡ u32_max)
    × (b.max_input_tokens ≡ u64_max)
    × (b.max_output_tokens ≡ u64_max)
    × (b.max_reasoning_tokens ≡ u64_max)
    × (b.max_wall_time ≡ duration_max)

IsUnlimited-charge :
    (b : AgentLoopBudget) (c : Charge)
    → IsUnlimited b
    → time_of c ≤ b.started_at + duration_max
    → (is_granted (charge b c).0 ≡ true)
      × IsUnlimited (charge b c).1
      × ((charge b c).1.started_at ≡ b.started_at)
unfolding consume_model_round consume_tool_invocation consume_tokens
IsUnlimited-charge b (round now) u h = ground arith
IsUnlimited-charge b (tool now) u h = ground arith
IsUnlimited-charge b (tokens now i o r) u h = ground arith

-- Every charge of a history is granted.
abbrev pub AllGranted : AgentLoopBudget → List Charge → Type 0
AllGranted b [] = Unit
AllGranted b (c ∷ cs) = (is_granted (charge b c).0 ≡ true) × AllGranted (charge b c).1 cs

unlimited_history :
    (b : AgentLoopBudget) (cs : List Charge)
    → IsUnlimited b
    → All (λ c. time_of c ≤ b.started_at + duration_max) cs
    → AllGranted b cs
unlimited_history b [] u h = tt
unlimited_history b (c ∷ cs) u h =
    let (yes_now, u', same_start) = IsUnlimited-charge b c u h.0 in
    (yes_now, unlimited_history (charge b c).1 cs u' (rw same_start h.1))

-- A run with unlimited limits is never refused: every history of charges within the largest
-- duration is granted, however the counters saturate.
pub unlimited_never_refused :
    (now : ℕ) (cs : List Charge)
    → All (λ c. time_of c ≤ now + duration_max) cs
    → AllGranted (from_run_limits now unlimited) cs
unfolding from_run_limits unlimited
unlimited_never_refused now cs h =
    unlimited_history (from_run_limits now unlimited) cs (refl, refl, refl, refl, refl, refl) h
