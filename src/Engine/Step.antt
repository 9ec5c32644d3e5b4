-- ===== src/Engine/Step.antt =====
-- `_execute_step_inner` and `run_until_blocked` of harness/runtime/engine.py.
use marcus.Prelude.{
  ℕ, if◌then◌else◌, length, ◌==◌, zero, suc, ◌+◌, String, true, false, Option, none, some, List, [],
  ◌∷◌, nat_eq, string_eq,
}
use marcus.Engine.Asking.{Answer, answer_of, Called, gave_up, replied}
use marcus.Engine.Batch.{process_tool_calls}
use marcus.Engine.Control.{waits_approval, Control, asks_user, fails, no_control, completes}
use marcus.Engine.Meta.{ensure_mcp_tools_loaded, Entry}
use marcus.Engine.State.{stop, Deps, add_message, save_run, Db, record_skill_usage_for_run, Work}
use marcus.Errors.{run_not_found, Result, and_then, ok, err}
use marcus.Guardrails.{Violation, check_tool_call_budget, token_budget_exceeded, check_before_step}
use marcus.Llm.{assistant_role}
use marcus.Prelude.Json.{Fields, get, text}
use marcus.Repository.{row}
use marcus.Run.Row.{
  set_tokens_used, set_tool_calls_used, AgentRun, set_current_step, FieldUpdate, set_error,
  set_final_result,
}
use marcus.Run.Status.{
  waiting_approval, RunStatus, timed_out, pending, completed, waiting_user_input, running,
  status_eq, tier_eq,
}

module _ (deps : Deps) where
  open deps use {client, clock}

  -- `args.get("question", "(no question provided)")`: the schema makes it a text.
  abbrev pub question_of : Fields → String
  question_of fields = elim (get "question" fields) [
    | some (text q) ↦ q
    | _ ↦ "(no question provided)"
  ]

  unfoldable pub recorded : Result Work → Result Work
  unfolding record_skill_usage_for_run
  recorded r = and_then r (λ w. ok (record_skill_usage_for_run w))

  abbrev pub progress : ℕ → ℕ → ℕ → List FieldUpdate
  progress step_no tokens used =
      set_current_step step_no ∷ set_tokens_used tokens ∷ set_tool_calls_used used ∷ []

  -- The checkpoint that ends a step.
  unfoldable pub conclude : ℕ → ℕ → Answer → Work × Control → Result Work
  unfolding save_run recorded
  conclude now step_no a (w, waits_approval count) =
      save_run w (some waiting_approval)
        (progress step_no a.tokens_used (w.run.tool_calls_used + count))
  conclude now step_no a (w, no_control) =
      save_run w none
        (progress (step_no + 1) a.tokens_used (w.run.tool_calls_used + length a.tool_calls))
  conclude now step_no a (w, completes fields) = recorded (
      save_run w (some completed) (
        set_final_result (some fields)
        ∷ progress (step_no + 1) a.tokens_used (w.run.tool_calls_used + length a.tool_calls)))
  conclude now step_no a (w, asks_user fields) =
      save_run (add_message w now assistant_role (question_of fields)) (some waiting_user_input)
        (progress (step_no + 1) a.tokens_used (w.run.tool_calls_used + length a.tool_calls))
  conclude now step_no a (w, fails reason) = recorded (
      save_run w (some RunStatus.failed) (
        set_error reason
        ∷ progress (step_no + 1) a.tokens_used (w.run.tool_calls_used + length a.tool_calls)))

  -- `if plain_content: await self.repo.add_message(…)`
  abbrev pub say_plain : ℕ → Work → Option String → Work
  say_plain now w none = w
  say_plain now w (some content) =
      if content == "" then w else add_message w now assistant_role content

  abbrev pub moved : ℕ → ℕ → List FieldUpdate
  moved step_no tokens = set_current_step step_no ∷ set_tokens_used tokens ∷ []

  unfoldable pub act_within_budget : ℕ → ℕ → Work → Answer → Option Violation → Result Work
  unfolding stop process_tool_calls conclude
  act_within_budget now step_no w a (some v) = stop deps w v (moved (step_no + 1) a.tokens_used)
  act_within_budget now step_no w a none =
      and_then (process_tool_calls deps now w step_no a.tool_calls) (conclude now step_no a)

  -- What a step does with the answer.
  unfoldable pub act_on : ℕ → ℕ → Work → Answer → Result Work
  unfolding save_run token_budget_exceeded check_tool_call_budget act_within_budget recorded
  act_on now step_no w a =
      if token_budget_exceeded w.run a.tokens_used
      then recorded (
          save_run w (some timed_out)
            (set_error (some "token budget exceeded") ∷ moved (step_no + 1) a.tokens_used))
      else if length a.tool_calls == 0
      then save_run (say_plain now w a.plain_content) (some waiting_user_input)
          (moved (step_no + 1) a.tokens_used)
      else act_within_budget now step_no w a (check_tool_call_budget w.run (length a.tool_calls))

  unfoldable pub step_called : ℕ → ℕ → Called → Result Work
  unfolding act_on
  step_called now step_no (gave_up w) = ok w
  step_called now step_no (replied w a) = act_on now step_no w a

  -- `self.tools_by_name` once the tools of the tenant's servers are there.
  unfoldable pub loaded_entries : Work → List Entry
  unfolding ensure_mcp_tools_loaded
  loaded_entries w =
      if w.mcp_tools_loaded
      then w.entries
      else ensure_mcp_tools_loaded client w.db.mcp w.run.tenant_id w.entries

  abbrev pub with_mcp_tools : Work → Work
  with_mcp_tools w = record w { entries = loaded_entries w; mcp_tools_loaded = true }

  unfoldable pub ask_and_act : ℕ → Work → Result Work
  unfolding answer_of step_called
  ask_and_act now w =
      and_then (answer_of deps now w w.run.current_step) (step_called now w.run.current_step)

  unfoldable pub step_unless : ℕ → Work → Option Violation → Result Work
  unfolding stop loaded_entries ask_and_act
  step_unless now w (some v) = stop deps w v []
  step_unless now w none = ask_and_act now (with_mcp_tools w)

  unfoldable pub execute_step_inner : ℕ → Work → Result Work
  unfolding check_before_step step_unless
  execute_step_inner now w = step_unless now w (check_before_step now w.run)

  -- An exception ends the loop.
  abbrev pub go_on : (Work → Option (Result Work)) → Result Work → Option (Result Work)
  go_on next_round (err e) = some (err e)
  go_on next_round (ok w) = next_round w

  -- What is left of the loop when the fuel is used up is `none`.
  unfoldable pub run_loop : ℕ → ℕ → Work → Option (Result Work)
  unfolding execute_step_inner
  run_loop zero round w = if w.run.status == running then none else some (ok w)
  run_loop (suc fuel) round w =
      if w.run.status == running
      then go_on (run_loop fuel (suc round)) (execute_step_inner (clock round) w)
      else some (ok w)

  unfoldable pub started_run : Work → Result Work
  unfolding save_run
  started_run w = if w.run.status == pending then save_run w (some running) [] else ok w

  abbrev pub run_found : ℕ → Db → List Entry → Option AgentRun → Option (Result Work)
  run_found fuel db entries none = some (err run_not_found)
  run_found fuel db entries (some r) =
      go_on (run_loop fuel 0)
        (started_run (record { db = db; run = r; entries = entries; mcp_tools_loaded = false }))

  -- `run_until_blocked`, without its metrics
  unfoldable pub run_until_blocked : ℕ → Db → List Entry → ℕ → Option (Result Work)
  unfolding row started_run run_loop
  run_until_blocked fuel db entries run_id = run_found fuel db entries (row run_id db.runs)
