-- ===== src/Coding/Effort.antt =====
-- marcus_code/runtime/effort_router.py. The rest of the budget is a fraction; the code gives it as a
-- float and compares it with 0.2, which
-- is the same for budgets below 2 ^ 50.
use marcus.Prelude.{
  if◌then◌else◌, ltb, ℕ, ◌*◌, ◌≤◌, String, ◌≡◌, Bool, true, false, Option, none, some, arith, ◌==◌,
  ◌-◌, nat_eq,
}
use marcus.Coding.Coherent.{IsCoherent, derive_task_contract-IsCoherent}
use marcus.Coding.Contract.{
  derive_task_contract, allows, agentic, TaskContract, change, command, direct, operate, explain,
}
use marcus.Coding.Patterns.{Re}

pub data ReasoningEffort : Type 0 where
  low medium high : ReasoningEffort

abbrev pub step_down : ReasoningEffort → ReasoningEffort
step_down high = medium
step_down medium = low
step_down low = low

unfoldable pub base_effort : TaskContract → ReasoningEffort
base_effort contract = elim contract.response_mode [
  | direct ↦ low
  | agentic ↦ elim contract.kind [ change ↦ high | operate ↦ high | explain ↦ medium ]
]

-- The rest of the budget as `left` parts of `whole`.
pub record Ratio : Type 0 where
  pub left : ℕ
  pub whole : ℕ

-- `ratio < LOW_BUDGET_RATIO`, which is 1/5
abbrev pub is_low : Ratio → Bool
is_low r = ltb (5 * r.left) r.whole

unfoldable pub route_reasoning_effort : TaskContract → Option Ratio → ReasoningEffort
unfolding base_effort
route_reasoning_effort contract none = base_effort contract
route_reasoning_effort contract (some r) =
    if is_low r then step_down (base_effort contract) else base_effort contract

abbrev pub rank : ReasoningEffort → ℕ
rank low = 0
rank medium = 1
rank high = 2

-- `_budget_remaining_ratio` of marcus_code/runtime/agent.py: `max_total_tokens` may be none, the
-- other number is `usage.total_tokens`. Truncated subtraction is the `max(0.0, …)`.
unfoldable pub budget_remaining_ratio : Option ℕ → ℕ → Option Ratio
budget_remaining_ratio none total = none
budget_remaining_ratio (some max_total) total =
    if max_total == 0 then none else some (record { left = max_total - total; whole = max_total })

-- `_effective_reasoning_effort`, where the configured effort is `auto`
abbrev pub auto_effort : TaskContract → Option ℕ → ℕ → ReasoningEffort
auto_effort c budget total = route_reasoning_effort c (budget_remaining_ratio budget total)

record EffortSpec (c : TaskContract) (budget : Option ℕ) (less more : ℕ) : Type 0 where
  monotone : rank (auto_effort c budget more) ≤ rank (auto_effort c budget less)
  unplanned : c.requires_plan ≡ false → auto_effort c budget less ≡ low
  highest : auto_effort c budget less ≡ high → allows c command ≡ true

coherent_effort :
    (c : TaskContract) (budget : Option ℕ) (less more : ℕ)
    → IsCoherent c
    → less ≤ more
    → EffortSpec c budget less more
unfolding route_reasoning_effort base_effort budget_remaining_ratio
coherent_effort c budget less more coh h =
    let planned = coh.agentic_iff_planned in
    let working = coh.work_runs_commands in
    record { monotone = ground arith; unplanned = ground arith; highest = ground arith }

-- Over the contract of any request and any budget of tokens, or none: as a session uses more tokens,
-- the effort never rises; a contract without a plan gets the lowest effort; and the highest is given
-- only to a contract that may run commands.
pub effort_never_rises :
    (re : Re) (user_input : String) (budget : Option ℕ) (less more : ℕ)
    → less ≤ more
    → let c = derive_task_contract re user_input in
      (rank (auto_effort c budget more) ≤ rank (auto_effort c budget less))
      × (c.requires_plan ≡ false → auto_effort c budget less ≡ low)
      × (auto_effort c budget less ≡ high → allows c command ≡ true)
effort_never_rises re user_input budget less more h =
    let spec =
      coherent_effort (derive_task_contract re user_input) budget less more
        (derive_task_contract-IsCoherent re user_input) h in
    (spec.monotone, spec.unplanned, spec.highest)
