-- ===== src/Engine/Batch.antt =====
-- `_process_tool_calls` of harness/runtime/engine.py. The read-only calls, which the code starts
-- together, run one after another in the order of the answer.
use marcus.Prelude.{
  where_, ℕ, ◌+◌, String, ◌⊎◌, inl, inr, Bool, true, false, not, Option, none, some, List, [], ◌∷◌,
  if◌then◌else◌,
}
use marcus.Engine.Calls.{execute_single_tool_call, execute_call}
use marcus.Engine.Control.{no_control, completes, Control, waits_approval, fails, asks_user}
use marcus.Engine.Meta.{tools_by_name}
use marcus.Engine.Plan.{is_read_only, plan_tool_calls}
use marcus.Engine.State.{Work, Deps}
use marcus.Errors.{ok, Result, err, and_then, plain_status}
use marcus.Executions.{ToolCall}
use marcus.Prelude.Json.{field, put, pos, text, end, int}
use marcus.Prelude.Texts.{concat}
use marcus.Run.Status.{read_only}
use marcus.Tools.{policy_denied, Tool, runtime_error}

-- `_build_deferred_tool`
abbrev pub build_deferred_tool : Option Tool → String → Tool
build_deferred_tool original message = record {
  name = elim original [ none ↦ "unknown" | some t ↦ t.name ];
  parameters = elim original [ none ↦ field "type" (text "object") end | some t ↦ t.parameters ];
  handler = λ n arguments. runtime_error message policy_denied true;
  risk_tier = elim original [ none ↦ read_only | some t ↦ t.risk_tier ];
  idempotent = true;
  mcp_server_id = none;
}

-- {**control[1], "executed_count": count}, which leaves the error or the observation in place
abbrev pub with_count : ℕ → Control → Control
with_count count no_control = no_control
with_count count (waits_approval n) = waits_approval count
with_count count (completes fields) = completes (put "executed_count" (int (pos count)) fields)
with_count count (asks_user fields) = asks_user (put "executed_count" (int (pos count)) fields)
with_count count (fails reason) = fails reason

-- The loop over `read_only_results`: `inl` where it returns. A result other than a wait for
-- approval only counts.
unfoldable pub scan_results : ℕ → List Control → ℕ ⊎ ℕ
scan_results count [] = inr count
scan_results count (waits_approval n ∷ rest) = inl count
scan_results count (_ ∷ rest) = scan_results (count + 1) rest

-- The other calls run whatever this one came to.
abbrev pub collected :
    Work → (Work → Work × List Control) → Result (Work × Control) → Work × List Control
collected w others (err e) = others w
collected w others (ok (w', control)) = let rest = others w' in (rest.0, control ∷ rest.1)

-- The next calls run only where this one has no control result.
abbrev pub proceed : ℕ → (Work → Result (Work × Control)) → Work × Control → Result (Work × Control)
proceed count others (w, no_control) = others w
proceed count others (w, waits_approval n) = ok (w, with_count count (waits_approval n))
proceed count others (w, completes fields) = ok (w, with_count count (completes fields))
proceed count others (w, asks_user fields) = ok (w, with_count count (asks_user fields))
proceed count others (w, fails reason) = ok (w, with_count count (fails reason))

module _ (deps : Deps) where
  open deps use {words, max_calls_per_step}

  abbrev pub deferral_text : Bool → String
  deferral_text true = concat "up to " (
      concat (words.digits max_calls_per_step)
        " read-only tool calls are allowed per reasoning step")
  deferral_text false =
      "only one mutation tool call is allowed per reasoning step; inspect its result before choosing the next action"

  unfoldable pub deny_each : ℕ → ℕ → List (ℕ × ToolCall) → Work → Result Work
  unfolding execute_call
  deny_each now step_no [] w = ok w
  deny_each now step_no ((i, c) ∷ rest) w =
      let original = tools_by_name w.entries c.name in
      let message = deferral_text (is_read_only (tools_by_name w.entries) c) in
      let r = execute_call deps now w step_no i c (some (build_deferred_tool original message)) in
      let later = deny_each now step_no rest r.0 in if r.1.raises then err plain_status else later

  -- `asyncio.gather(…, return_exceptions=True)`: an exception is dropped.
  unfoldable pub run_read_only : ℕ → ℕ → List (ℕ × ToolCall) → Work → Work × List Control
  unfolding execute_single_tool_call
  run_read_only now step_no [] w = (w, [])
  run_read_only now step_no ((i, c) ∷ rest) w =
      collected w (run_read_only now step_no rest) (execute_single_tool_call deps now w step_no i c)

  unfoldable pub run_sequential : ℕ → ℕ → ℕ → List (ℕ × ToolCall) → Work → Result (Work × Control)
  unfolding execute_single_tool_call
  run_sequential now step_no count [] w = ok (w, no_control)
  run_sequential now step_no count ((i, c) ∷ rest) w =
      and_then (execute_single_tool_call deps now w step_no i c)
        (proceed count (run_sequential now step_no (count + 1) rest))

  abbrev pub is_read_only_at : Work → ℕ × ToolCall → Bool
  is_read_only_at w p = is_read_only (tools_by_name w.entries) p.1

  unfoldable pub after_read_only :
      ℕ → ℕ → List (ℕ × ToolCall) → Work → ℕ ⊎ ℕ → Result (Work × Control)
  unfolding run_sequential
  after_read_only now step_no sequential w (inl count) = ok (w, waits_approval count)
  after_read_only now step_no sequential w (inr count) =
      run_sequential now step_no count sequential w

  unfoldable pub process_tool_calls : ℕ → Work → ℕ → List ToolCall → Result (Work × Control)
  unfolding plan_tool_calls deny_each run_read_only scan_results after_read_only
  process_tool_calls now w step_no calls =
      let p = plan_tool_calls (tools_by_name w.entries) max_calls_per_step calls in
      let read_only_calls = where_ (is_read_only_at w) p.selected in
      let sequential_calls = where_ (λ (c : ℕ × ToolCall). not (is_read_only_at w c)) p.selected in
      and_then (deny_each now step_no p.deferred w) (λ w'.
        let r = run_read_only now step_no read_only_calls w' in
        after_read_only now step_no sequential_calls r.0 (scan_results 0 r.1))
