-- ===== src/Continuation.antt =====
-- crates/aifluxon-runtime/src/continuation.rs: how often a run may continue without a new user turn,
-- with the limits of crates/aifluxon-core/src/provider.rs.
pub mod Limits
use aifluxon.Core.Provider.{ContinuationReason, default_limit}
use aifluxon.Core.Run.{RunLimits, is_unlimited}
use aifluxon.Prelude.{leb, if◌then◌else◌, ℕ, suc, Bool, true, false}

pub record ContinuationCounts : Type 0 where
  pub unlimited : Bool
  pub incomplete : ℕ
  pub summary_only : ℕ
  pub provider_requested : ℕ

unfoldable pub for_limits : RunLimits → ContinuationCounts
unfolding is_unlimited
for_limits limits = record {
  unlimited = is_unlimited limits;
  incomplete = 0;
  summary_only = 0;
  provider_requested = 0;
}

-- *slot.
unfoldable pub slot : ContinuationReason → ContinuationCounts → ℕ
slot ContinuationReason.incomplete c = c.incomplete
slot ContinuationReason.summary_only c = c.summary_only
slot ContinuationReason.provider_requested c = c.provider_requested

-- *slot += 1, which stays far below the largest u32.
unfoldable pub count : ContinuationReason → ContinuationCounts → ContinuationCounts
count ContinuationReason.incomplete c = record c { incomplete = suc c.incomplete }
count ContinuationReason.summary_only c = record c { summary_only = suc c.summary_only }
count ContinuationReason.provider_requested c = record c {
  provider_requested = suc c.provider_requested;
}

unfoldable pub try_begin : ContinuationReason → ContinuationCounts → Bool × ContinuationCounts
unfolding default_limit slot count
try_begin reason c =
    if c.unlimited
    then (true, c)
    else if leb (default_limit reason) (slot reason c)
    then (false, c)
    else (true, count reason c)

unfoldable pub reset_incomplete : ContinuationCounts → ContinuationCounts
reset_incomplete c = record c { incomplete = 0 }
