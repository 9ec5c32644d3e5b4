-- ===== src/Engine/Plan.antt =====
-- `_plan_tool_calls` of harness/runtime/engine.py: which calls of a step run now.
use marcus.Prelude.{
  if◌then◌else◌, ltb, ◌==◌, ℕ, suc, ◌-◌, String, Bool, false, ◌&&◌, Option, none, some, List, [],
  ◌∷◌,
}
use marcus.Executions.{ToolCall}
use marcus.Run.Status.{read_only, tier_eq}
use marcus.Tools.{Tool}

-- `self.tools_by_name.get(name)`
abbrev pub Tools : Type 0
Tools = String → Option Tool

abbrev pub is_read_only : Tools → ToolCall → Bool
is_read_only tools call = elim (tools call.name) [
  | none ↦ false
  | some t ↦ t.risk_tier == read_only
]

-- enumerate(calls), from `i` on
abbrev pub enumerate : ℕ → List ToolCall → List (ℕ × ToolCall)
enumerate i [] = []
enumerate i (c ∷ cs) = (i, c) ∷ enumerate (suc i) cs

pub record Planned : Type 0 where
  pub selected : List (ℕ × ToolCall)
  pub deferred : List (ℕ × ToolCall)

-- The loop over the calls; `room` is how many may still be selected.
unfoldable pub plan_loop : Tools → ℕ → List (ℕ × ToolCall) → Planned
plan_loop tools room [] = record { selected = []; deferred = [] }
plan_loop tools room ((i, call) ∷ rest) =
    let take_it = is_read_only tools call && ltb 0 room in
    let p = plan_loop tools (if take_it then room - 1 else room) rest in
    if take_it
    then record p { selected = (i, call) ∷ p.selected }
    else record p { deferred = (i, call) ∷ p.deferred }

unfoldable pub plan_tool_calls : Tools → ℕ → List ToolCall → Planned
plan_tool_calls tools limit [] = record { selected = []; deferred = [] }
plan_tool_calls tools limit (first ∷ rest) =
    if is_read_only tools first
    then plan_loop tools limit (enumerate 0 (first ∷ rest))
    else record { selected = (0, first) ∷ []; deferred = enumerate 1 rest }
