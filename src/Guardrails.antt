-- ===== src/Guardrails.antt =====
-- harness/runtime/guardrails.py: the limits of a run, checked against its row.
pub mod Repeats
pub mod Streaks
use marcus.Prelude.{
  ltb, if◌then◌else◌, leb, any, ◌==◌, ℕ, ◌+◌, Bool, Option, none, some, List, [], ◌∷◌,
}
use marcus.Repository.{seconds}
use marcus.Run.Row.{AgentRun}
use marcus.Run.Status.{
  sensitive_write, cancelled, RiskTier, destructive, RunStatus, timed_out, tier_eq,
}

abbrev pub approval_required_tiers : List RiskTier
approval_required_tiers = sensitive_write ∷ destructive ∷ []

unfoldable pub requires_approval : RiskTier → Bool
requires_approval tier = any (λ t. t == tier) approval_required_tiers

-- Why a guardrail stops a run. The text of the reason names the limit.
pub data Reason : Type 0 where
  was_cancelled exceeded_max_steps exceeded_timeout exceeded_max_tool_calls : Reason
  repeated_call no_progress : Reason

-- A `GuardrailViolation`: the reason, and the status that the run takes.
pub record Violation : Type 0 where
  pub reason : Reason
  pub status : RunStatus

abbrev pub violation : Reason → RunStatus → Option Violation
violation reason status = some (record { reason = reason; status = status })

-- `elapsed > timeout_seconds` with the creation time on the other side, so that nothing is
-- subtracted.
unfoldable pub check_before_step : ℕ → AgentRun → Option Violation
check_before_step now run =
    if run.cancel_requested
    then violation was_cancelled cancelled
    else if leb run.max_steps run.current_step
    then violation exceeded_max_steps timed_out
    else if ltb (run.created_at + seconds run.timeout_seconds) now
    then violation exceeded_timeout timed_out
    else none

unfoldable pub token_budget_exceeded : AgentRun → ℕ → Bool
token_budget_exceeded run tokens_used = ltb run.token_budget tokens_used

unfoldable pub check_tool_call_budget : AgentRun → ℕ → Option Violation
check_tool_call_budget run incoming =
    if ltb run.max_tool_calls (run.tool_calls_used + incoming)
    then violation exceeded_max_tool_calls timed_out
    else none
