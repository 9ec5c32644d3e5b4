-- ===== src/Engine/Ended.antt =====
-- How a step of harness/runtime/engine.py ends: by a guardrail, or by the checkpoint of its results.
-- A guardrail stops a run with one of two statuses.
use marcus.Prelude.{
  length, ℕ, ◌+◌, ◌≤◌, ◌<◌, String, ◌≡◌, refl, true, Option, none, some, List, ◌∷◌, arith,
}
use marcus.Engine.Asking.{Called, replied, Answer, gave_up}
use marcus.Engine.Control.{completes, no_control, fails, asks_user, Control, waits_approval}
use marcus.Engine.Keeping.{Keeps}
use marcus.Engine.Kept.{CallSpec}
use marcus.Engine.Saved.{Returning, new_row}
use marcus.Engine.State.{Work, save_run, Deps, stop, reason_text, add_message}
use marcus.Engine.Step.{question_of, recorded, conclude}
use marcus.Engine.Stepped.{is_left, stops-Steps, IsRow, recorded-Steps, Steps, goes_on-Steps}
use marcus.Guardrails.{Violation, check_tool_call_budget, check_before_step}
use marcus.Llm.{assistant_role}
use marcus.Run.Row.{AgentRun, set_error, FieldUpdate}
use marcus.Run.Status.{running, RunStatus, waiting_user_input, waiting_approval, completed}

abbrev pub LeavesBy : Option Violation → Type 0
LeavesBy none = Unit
LeavesBy (some v) = is_left v.status ≡ true

pub check_before_step-LeavesBy : (now : ℕ) (r : AgentRun) → LeavesBy (check_before_step now r)
unfolding check_before_step
check_before_step-LeavesBy now r = ground arith

abbrev pub FitsBudget : AgentRun → ℕ → Option Violation → Type 0
FitsBudget r n none = r.tool_calls_used + n ≤ r.max_tool_calls
FitsBudget r n (some v) = is_left v.status ≡ true

pub check_tool_call_budget-FitsBudget :
    (r : AgentRun) (n : ℕ) → FitsBudget r n (check_tool_call_budget r n)
unfolding check_tool_call_budget
check_tool_call_budget-FitsBudget r n = ground arith

abbrev pub HasRoom : AgentRun → Option Violation → Type 0
HasRoom r none = r.current_step < r.max_steps
HasRoom r (some v) = Unit

pub check_before_step-HasRoom : (now : ℕ) (r : AgentRun) → HasRoom r (check_before_step now r)
unfolding check_before_step
check_before_step-HasRoom now r = ground arith

module _ (deps : Deps) where
  abbrev pub AnswerSpec : Work → Called → Type 0
  AnswerSpec w0 (replied w a) = Keeps w0 w
  AnswerSpec w0 (gave_up w) = Steps w0 w

  pub add_message-Keeps :
      (w0 w : Work) (now : ℕ) (s : String)
      → Keeps w0 w
      → Keeps w0 (add_message w now assistant_role s)
  add_message-Keeps w0 w now s k = record {
    synced = record { keyed = k.synced.keyed; current = k.synced.current };
    kept = k.kept;
  }

  pub stop-Steps :
      (w0 w : Work) (v : Violation) (updates : List FieldUpdate) (current_step : ℕ)
      → Keeps w0 w
      → w0.run.status ≡ running
      → is_left v.status ≡ true
      → (w0.run.current_step ≤ w0.run.max_steps → current_step ≤ w0.run.max_steps)
      → IsRow deps
          (new_row w
            (some v.status)
            (set_error (some (reason_text deps w.run "" v.reason)) ∷ updates))
          w.run
          v.status
          current_step
          w.run.tool_calls_used
      → Returning (Steps w0) (stop deps w v updates)
  unfolding stop recorded
  stop-Steps w0 w v updates current_step k now_running leaves steps is_row =
      recorded-Steps deps w0
        (save_run w (some v.status)
          (set_error (some (reason_text deps w.run "" v.reason)) ∷ updates))
        (stops-Steps deps w0 w v.status
          (set_error (some (reason_text deps w.run "" v.reason)) ∷ updates) current_step
          w.run.tool_calls_used k now_running leaves steps
          (λ h. omega (arith, h, k.kept.tool_calls_used)) is_row)

  -- What the checkpoint at the end of a step makes of the results.
  pub conclude-Steps :
      (w0 : Work) (now : ℕ) (a : Answer) (r : Work × Control)
      → w0.run.status ≡ running
      → w0.run.current_step < w0.run.max_steps
      → w0.run.tool_calls_used + length a.tool_calls ≤ w0.run.max_tool_calls
      → CallSpec deps w0 (length a.tool_calls) r
      → Returning (Steps w0) (conclude deps now w0.run.current_step a r)
  unfolding conclude
  conclude-Steps w0 now a (w, waits_approval count) now_running room budget (k, counts) =
      stops-Steps deps w0 w waiting_approval _ w0.run.current_step (w.run.tool_calls_used + count) k
        now_running refl (λ h. h) (λ h. omega (arith, budget, counts, k.kept.tool_calls_used))
        (refl, refl, refl, refl, refl, refl)
  conclude-Steps w0 now a (w, no_control) now_running room budget (k, counts) =
      goes_on-Steps deps w0 w _ (w.run.tool_calls_used + length a.tool_calls) k room
        (λ h. omega (arith, budget, k.kept.tool_calls_used))
        (refl, refl, refl, refl, omega arith, refl)
  conclude-Steps w0 now a (w, completes fields) now_running room budget (k, counts) =
      recorded-Steps deps w0 _ (
        stops-Steps deps w0 w completed _ (w0.run.current_step + 1)
          (w.run.tool_calls_used + length a.tool_calls) k now_running refl
          (λ h. omega (arith, room)) (λ h. omega (arith, budget, k.kept.tool_calls_used))
          (refl, refl, refl, refl, refl, refl))
  conclude-Steps w0 now a (w, asks_user fields) now_running room budget (k, counts) =
      stops-Steps deps w0 (add_message w now assistant_role (question_of deps fields))
        waiting_user_input _ (w0.run.current_step + 1) (w.run.tool_calls_used + length a.tool_calls)
        (add_message-Keeps w0 w now (question_of deps fields) k) now_running refl
        (λ h. omega (arith, room)) (λ h. omega (arith, budget, k.kept.tool_calls_used))
        (refl, refl, refl, refl, refl, refl)
  conclude-Steps w0 now a (w, fails reason) now_running room budget (k, counts) =
      recorded-Steps deps w0 _ (
        stops-Steps deps w0 w RunStatus.failed _ (w0.run.current_step + 1)
          (w.run.tool_calls_used + length a.tool_calls) k now_running refl
          (λ h. omega (arith, room)) (λ h. omega (arith, budget, k.kept.tool_calls_used))
          (refl, refl, refl, refl, refl, refl))
