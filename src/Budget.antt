-- ===== src/Budget.antt =====
-- crates/aifluxon-runtime/src/budget.rs: the limits on one run. Durations are nanoseconds, the
-- current time is an argument, and Instant::elapsed stops at 0 as `-` does.
pub mod Limits
use aifluxon.Core.Run.{u32_max, u64_max, RunLimits, is_unlimited}
use aifluxon.Prelude.{
  ltb, leb, ◌==◌, if◌then◌else◌, Result, ℕ, ◌+◌, ◌-◌, ◌*◌, ◌^◌, not, ◌&&◌, ok, err,
}

pub data AgentBudgetKind : Type 0 where
  model_rounds tool_invocations wall_time input_tokens output_tokens reasoning_tokens :
      AgentBudgetKind

pub record AgentLoopBudget : Type 0 where
  pub max_model_rounds : ℕ
  pub max_tool_invocations : ℕ
  pub max_wall_time : ℕ
  pub max_input_tokens : ℕ
  pub max_output_tokens : ℕ
  pub max_reasoning_tokens : ℕ
  pub model_rounds : ℕ
  pub tool_invocations : ℕ
  pub input_tokens : ℕ
  pub output_tokens : ℕ
  pub reasoning_tokens : ℕ
  pub started_at : ℕ

-- Duration::MAX.
abbrev pub duration_max : ℕ
duration_max = 2 ^ 64 * 1000000000 - 1

-- Duration::from_secs(30 * 60).
abbrev pub half_hour : ℕ
half_hour = 1800 * 1000000000

-- saturating_add at a largest value.
abbrev pub saturating_add : ℕ → ℕ → ℕ → ℕ
saturating_add top a b = if ltb top (a + b) then top else a + b

unfoldable pub from_run_limits : ℕ → RunLimits → AgentLoopBudget
unfolding is_unlimited
from_run_limits now limits = record {
  max_model_rounds = limits.max_model_rounds;
  max_tool_invocations = limits.max_tool_invocations;
  max_wall_time = if is_unlimited limits then duration_max else half_hour;
  max_input_tokens = u64_max;
  max_output_tokens = u64_max;
  max_reasoning_tokens = u64_max;
  model_rounds = 0;
  tool_invocations = 0;
  input_tokens = 0;
  output_tokens = 0;
  reasoning_tokens = 0;
  started_at = now;
}

unfoldable pub with_tool_round_limit : ℕ → ℕ → AgentLoopBudget
unfolding from_run_limits
with_tool_round_limit now max =
    from_run_limits now (record { max_model_rounds = max; max_tool_invocations = max })

unfoldable pub check_wall_time : ℕ → AgentLoopBudget → Result AgentBudgetKind (Unit {0})
check_wall_time now b = if ltb b.max_wall_time (now - b.started_at) then err wall_time else ok tt

-- A method returns its result and the budget, which keeps what was counted before an error.
abbrev pub Spend : Type 0
Spend = Result AgentBudgetKind (Unit {0}) × AgentLoopBudget

unfoldable pub consume_model_round : ℕ → AgentLoopBudget → Spend
unfolding check_wall_time
consume_model_round now b =
    if not (b.max_model_rounds == u32_max) && leb b.max_model_rounds b.model_rounds
    then (err AgentBudgetKind.model_rounds, b)
    else (let b' : AgentLoopBudget = record b {
      model_rounds = saturating_add u32_max b.model_rounds 1;
    } in
        (check_wall_time now b', b'))

unfoldable pub consume_tool_invocation : ℕ → AgentLoopBudget → Spend
unfolding check_wall_time
consume_tool_invocation now b =
    if not (b.max_tool_invocations == u32_max) && leb b.max_tool_invocations b.tool_invocations
    then (err AgentBudgetKind.tool_invocations, b)
    else (let b' : AgentLoopBudget = record b {
      tool_invocations = saturating_add u32_max b.tool_invocations 1;
    } in
        (check_wall_time now b', b'))

unfoldable pub consume_tokens : ℕ → ℕ → ℕ → ℕ → AgentLoopBudget → Spend
unfolding check_wall_time
consume_tokens now input output reasoning b =
    let b' : AgentLoopBudget = record b {
      input_tokens = saturating_add u64_max b.input_tokens input;
      output_tokens = saturating_add u64_max b.output_tokens output;
      reasoning_tokens = saturating_add u64_max b.reasoning_tokens reasoning;
    } in
    (
      if ltb b'.max_input_tokens b'.input_tokens
          then err AgentBudgetKind.input_tokens
          else if ltb b'.max_output_tokens b'.output_tokens
          then err AgentBudgetKind.output_tokens
          else if ltb b'.max_reasoning_tokens b'.reasoning_tokens
          then err AgentBudgetKind.reasoning_tokens
          else check_wall_time now b',
      b',
    )
