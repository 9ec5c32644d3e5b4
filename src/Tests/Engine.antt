-- ===== src/Tests/Engine.antt =====
-- harness/runtime/engine.py at a concrete answer of the model.
use marcus.Prelude.{
  if◌then◌else◌, length, ◌==◌, ℕ, ◌≤◌, ◌<◌, ◌≡◌, none, some, List, [], ◌∷◌, arith, string_eq,
}
use marcus.Engine.Plan.{plan_tool_calls, Tools, enumerate, Planned}
use marcus.Engine.Planned.{plan_is_safe, Merges, AllReadOnly}
use marcus.Executions.{ToolCall}
use marcus.Run.Status.{read_only, destructive, tier_eq}
use marcus.Tests.Fixtures.{tool_of, call_of}

abbrev toolbox : Tools
toolbox name =
    if name == "look"
    then some (tool_of "look" read_only)
    else if name == "deploy"
    then some (tool_of "deploy" destructive)
    else none

abbrev answer : List ToolCall
answer = call_of "look" ∷ call_of "deploy" ∷ call_of "look" ∷ call_of "look" ∷ []

abbrev plan : Planned
plan = plan_tool_calls toolbox 2 answer

plan_is_safe_example :
    Merges plan.selected plan.deferred (enumerate 0 answer)
    × ((l : List (ℕ × ToolCall)) × (plan.selected ≡ (0, call_of "look") ∷ l))
    × (length plan.selected ≤ 2)
    × (1 < length plan.selected → AllReadOnly toolbox plan.selected)
plan_is_safe_example =
    plan_is_safe toolbox 2 (call_of "look")
      (call_of "deploy" ∷ call_of "look" ∷ call_of "look" ∷ []) (omega arith)
