-- ===== src/Engine/Acted.antt =====
-- What a step of harness/runtime/engine.py does with an answer, and before it asks for one.
use marcus.Prelude.{
  if◌then◌else◌, length, ◌==◌, ℕ, ◌+◌, ◌<◌, String, ◌≡◌, refl, true, false, Option, none, some,
  arith, nat_eq, string_eq,
}
use marcus.Compaction.{
  llm_refused, other_raised, llm_failed, untouched, maybe_compact, compacted, Compaction,
}
use marcus.Engine.Asking.{names_available, choose_skill, compact, Answer, compacted_by, take_skill}
use marcus.Engine.Batch.{process_tool_calls}
use marcus.Engine.Counted.{process_tool_calls-Keeps}
use marcus.Engine.Ended.{
  FitsBudget, conclude-Steps, stop-Steps, check_tool_call_budget-FitsBudget, add_message-Keeps,
}
use marcus.Engine.Keeping.{Keeps, Keeps-same, IsKept-refl, Saved-Keeps, Keeps-trans}
use marcus.Engine.Kept.{skill-IsKept, CallSpec}
use marcus.Engine.Saved.{
  Returning, Returning-if, save_run-Saved, Returning-map, Returning-and_then, IsSynced, Saved,
}
use marcus.Engine.State.{Work, save_run, Deps, add_message}
use marcus.Engine.Step.{act_within_budget, say_plain, moved, act_on, conclude}
use marcus.Engine.Stepped.{stops-Steps, Steps, recorded-Steps}
use marcus.Guardrails.{check_tool_call_budget, Violation, token_budget_exceeded}
use marcus.Llm.{assistant_role}
use marcus.Repository.{is_none}
use marcus.Run.Status.{waiting_user_input, running, timed_out, status_eq, tier_eq}
use marcus.Skills.Registry.{Skill, SkillRevision}
use marcus.Skills.Selection.{select_skill_candidate}

module _ (deps : Deps) where
  say_plain-Keeps :
      (w0 w : Work) (now : ℕ) (o : Option String) → Keeps w0 w → Keeps w0 (say_plain deps now w o)
  say_plain-Keeps w0 w now none k = k
  say_plain-Keeps w0 w now (some content) k =
      elim (content == "")
        as (λ b. Keeps w0 (if b then w else add_message w now assistant_role content)) [
          | true ↦ k
          | false ↦ add_message-Keeps deps w0 w now content k
        ]

  act_within_budget-Steps :
      (now : ℕ) (w0 w : Work) (a : Answer) (o : Option Violation)
      → Keeps w0 w
      → w0.run.status ≡ running
      → w0.run.current_step < w0.run.max_steps
      → FitsBudget w.run (length a.tool_calls) o
      → Returning (Steps w0) (act_within_budget deps now w0.run.current_step w a o)
  unfolding act_within_budget
  act_within_budget-Steps now w0 w a (some v) k now_running room leaves =
      stop-Steps deps w0 w v (moved deps (w0.run.current_step + 1) a.tokens_used)
        (w0.run.current_step + 1) k now_running leaves (λ h. omega (arith, room))
        (refl, refl, refl, refl, refl, refl)
  act_within_budget-Steps now w0 w a none k now_running room fits =
      Returning-and_then (CallSpec deps w (length a.tool_calls)) (Steps w0)
        (process_tool_calls deps now w w0.run.current_step a.tool_calls)
        (conclude deps now w0.run.current_step a)
        (process_tool_calls-Keeps deps now w w0.run.current_step a.tool_calls k.synced)
        (λ r h.
          conclude-Steps deps w0 now a r now_running room
            (omega (arith, fits, k.kept.tool_calls_used, k.kept.max_tool_calls))
            (Keeps-trans k h.0, h.1))

  pub act_on-Steps :
      (now : ℕ) (w0 w : Work) (a : Answer)
      → Keeps w0 w
      → w0.run.status ≡ running
      → w0.run.current_step < w0.run.max_steps
      → Returning (Steps w0) (act_on deps now w0.run.current_step w a)
  unfolding act_on
  act_on-Steps now w0 w a k now_running room =
      Returning-if (Steps w0) (token_budget_exceeded w.run a.tokens_used) _ _
        (recorded-Steps deps w0 _ (
          stops-Steps deps w0 w timed_out _ (w0.run.current_step + 1) w.run.tool_calls_used k
            now_running refl (λ h. omega (arith, room))
            (λ h. omega (arith, h, k.kept.tool_calls_used)) (refl, refl, refl, refl, refl, refl)))
        (Returning-if (Steps w0) (length a.tool_calls == 0) _ _
          (said_plain (say_plain deps now w a.plain_content)
            (say_plain-Keeps w0 w now a.plain_content k))
          (act_within_budget-Steps now w0 w a (check_tool_call_budget w.run (length a.tool_calls)) k
            now_running room (check_tool_call_budget-FitsBudget w.run (length a.tool_calls))))
    where
      said_plain :
          (x : Work)
          → Keeps w0 x
          → Returning (Steps w0) (
              save_run x
                (some waiting_user_input)
                (moved deps (w0.run.current_step + 1) a.tokens_used))
      said_plain x kx =
          stops-Steps deps w0 x waiting_user_input _ (w0.run.current_step + 1) x.run.tool_calls_used
            kx now_running refl (λ h. omega (arith, room))
            (λ h. omega (arith, h, kx.kept.tool_calls_used)) (refl, refl, refl, refl, refl, refl)

  pub compact-Keeps :
      (now : ℕ) (w : Work)
      → IsSynced w
      → Returning (λ (r : Work × ℕ). Keeps w r.0) (compact deps now w)
  unfolding compact
  compact-Keeps now w s = compacted_by-Keeps (
      maybe_compact deps.printing deps.model w.db.asked now w.run w.db.steps w.db.store.executions
        deps.context_window deps.compact_threshold)
    where
      compacted_by-Keeps :
          (c : Compaction) → Returning (λ (r : Work × ℕ). Keeps w r.0) (compacted_by deps now w c)
      compacted_by-Keeps untouched = Keeps-same w s
      compacted_by-Keeps (llm_failed (llm_refused message)) = refl
      compacted_by-Keeps (llm_failed (other_raised message)) = refl
      compacted_by-Keeps (compacted x tokens) = record {
        synced = record { keyed = s.keyed; current = s.current };
        kept = IsKept-refl w.run;
      }

  take_skill-Keeps :
      (w0 w : Work) (o : Option (Skill × SkillRevision))
      → Keeps w0 w
      → Returning (Keeps w0) (take_skill deps w o)
  unfolding take_skill
  take_skill-Keeps w0 w none k = k
  take_skill-Keeps w0 w (some (x, r)) k =
      Returning-if (Keeps w0) (length (names_available w r) == length r.required_tools) _ _
        (Returning-map (Saved w _) (Keeps w0) _ (save_run-Saved w none _ k.synced refl) (λ w' saved.
          Keeps-trans k
            (Saved-Keeps w _ w' (skill-IsKept deps w r.id (names_available w r)) saved)))
        k

  pub choose_skill-Keeps : (w0 w : Work) → Keeps w0 w → Returning (Keeps w0) (choose_skill deps w)
  unfolding choose_skill
  choose_skill-Keeps w0 w k =
      Returning-if (Keeps w0) (is_none w.run.active_skill_revision_id) _ _
        (take_skill-Keeps w0 w
          (select_skill_candidate deps.words w.run w.db.skills w.db.skill_usage) k)
        k
