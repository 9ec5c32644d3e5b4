-- ===== src/Engine/Loop.antt =====
-- The loop of harness/runtime/engine.py ends, within the limits of its run.
use marcus.Prelude.{ℕ, suc, ◌<◌, ◌≡◌, refl, ◌⊎◌, inl, inr, none, some, [], ◌∷◌, arith, Option}
use marcus.Compaction.{LlmResponse, ModelError, other_raised, llm_refused}
use marcus.Engine.Acted.{choose_skill-Keeps, act_on-Steps, compact-Keeps}
use marcus.Engine.Asking.{
  stored_answer, gave_up, replied, choose_skill, context_of, Called, answer_of, compact, call_llm,
  answered_by,
}
use marcus.Engine.Ended.{
  AnswerSpec, LeavesBy, stop-Steps, HasRoom, check_before_step-LeavesBy, check_before_step-HasRoom,
}
use marcus.Engine.Keeping.{Keeps, IsKept-refl, Keeps-same}
use marcus.Engine.Saved.{Returning, Returning-and_then, IsSynced}
use marcus.Engine.State.{Work, get_step, Deps, save_run}
use marcus.Engine.Step.{
  step_unless, step_called, execute_step_inner, ask_and_act, recorded, with_mcp_tools,
}
use marcus.Engine.Stepped.{recorded-Steps, stops-Steps, Steps}
use marcus.Errors.{ok}
use marcus.Guardrails.{check_before_step, Violation}
use marcus.Run.Row.{set_error}
use marcus.Run.Status.{RunStatus, running}

module _ (deps : Deps) where
  answered_by-AnswerSpec :
      (now step_no tokens : ℕ) (w0 w : Work) (r : LlmResponse ⊎ ModelError)
      → Keeps w0 w
      → w0.run.status ≡ running
      → Returning (AnswerSpec deps w0) (answered_by deps now step_no tokens w r)
  unfolding answered_by recorded
  answered_by-AnswerSpec now step_no tokens w0 w (inl response) k now_running = record {
    synced = record { keyed = k.synced.keyed; current = k.synced.current };
    kept = k.kept;
  }
  answered_by-AnswerSpec now step_no tokens w0 w (inr (other_raised message)) k now_running = refl
  answered_by-AnswerSpec now step_no tokens w0 w (inr (llm_refused message)) k now_running =
      let asked_once : Work = record w { db = record w.db { asked = suc w.db.asked } } in
      let k' : Keeps w0 asked_once = record {
        synced = record { keyed = k.synced.keyed; current = k.synced.current };
        kept = k.kept;
      } in
      Returning-and_then (Steps w0) (AnswerSpec deps w0)
        (save_run asked_once (some RunStatus.failed) (set_error (some message) ∷ [])) _
        (stops-Steps deps w0 asked_once RunStatus.failed (set_error (some message) ∷ [])
          w.run.current_step w.run.tool_calls_used k' now_running refl
          (λ h. omega (arith, h, k.kept.current_step))
          (λ h. omega (arith, h, k.kept.tool_calls_used)) (refl, refl, refl, refl, refl, refl))
        (λ w' h. recorded-Steps deps w0 (ok w') h)

  call_llm-AnswerSpec :
      (now step_no : ℕ) (w : Work)
      → IsSynced w
      → w.run.status ≡ running
      → Returning (AnswerSpec deps w) (call_llm deps now w step_no)
  unfolding call_llm
  call_llm-AnswerSpec now step_no w s now_running =
      Returning-and_then (λ (r : Work × ℕ). Keeps w r.0) (AnswerSpec deps w) (compact deps now w) _
        (compact-Keeps deps now w s)
        (λ c k.
          Returning-and_then (Keeps w) (AnswerSpec deps w) (choose_skill deps c.0) _
            (choose_skill-Keeps deps w c.0 k)
            (λ w' k'.
              answered_by-AnswerSpec now step_no c.1 w w'
                (deps.model w'.db.asked (context_of deps w')) k' now_running))

  answer_of-AnswerSpec :
      (now step_no : ℕ) (w : Work)
      → IsSynced w
      → w.run.status ≡ running
      → Returning (AnswerSpec deps w) (answer_of deps now w step_no)
  unfolding answer_of
  answer_of-AnswerSpec now step_no w s now_running =
      elim (get_step w.run.id step_no w.db.steps)
        as (λ o. Returning (AnswerSpec deps w) (elim o [
          | none ↦ call_llm deps now w step_no
          | some x ↦ ok (replied w (stored_answer deps w x.body))
        ])) [ none ↦ call_llm-AnswerSpec now step_no w s now_running | some x ↦ Keeps-same w s ]

  with_mcp_tools-Keeps : (w : Work) → IsSynced w → Keeps w (with_mcp_tools deps w)
  with_mcp_tools-Keeps w s = record {
    synced = record { keyed = s.keyed; current = s.current };
    kept = IsKept-refl w.run;
  }

  step_called-Steps :
      (now : ℕ) (w : Work) (c : Called)
      → w.run.status ≡ running
      → w.run.current_step < w.run.max_steps
      → AnswerSpec deps w c
      → Returning (Steps w) (step_called deps now w.run.current_step c)
  unfolding step_called
  step_called-Steps now w (replied x a) now_running room k =
      act_on-Steps deps now w x a k now_running room
  step_called-Steps now w (gave_up x) now_running room h = h

  ask_and_act-Steps :
      (now : ℕ) (w : Work)
      → IsSynced w
      → w.run.status ≡ running
      → w.run.current_step < w.run.max_steps
      → Returning (Steps w) (ask_and_act deps now w)
  unfolding ask_and_act
  ask_and_act-Steps now w s now_running room =
      Returning-and_then (AnswerSpec deps w) (Steps w) (answer_of deps now w w.run.current_step)
        (step_called deps now w.run.current_step)
        (answer_of-AnswerSpec now w.run.current_step w s now_running)
        (λ c h. step_called-Steps now w c now_running room h)

  step_unless-Steps :
      (now : ℕ) (w : Work) (o : Option Violation)
      → IsSynced w
      → w.run.status ≡ running
      → LeavesBy o
      → HasRoom w.run o
      → Returning (Steps w) (step_unless deps now w o)
  unfolding step_unless
  step_unless-Steps now w (some v) s now_running leaves room =
      stop-Steps deps w w v [] w.run.current_step (Keeps-same w s) now_running leaves (λ h. h)
        (refl, refl, refl, refl, refl, refl)
  step_unless-Steps now w none s now_running leaves room =
      ask_and_act-Steps now (with_mcp_tools deps w) (with_mcp_tools-Keeps w s).synced now_running
        room

  pub execute_step_inner-Steps :
      (now : ℕ) (w : Work)
      → IsSynced w
      → w.run.status ≡ running
      → Returning (Steps w) (execute_step_inner deps now w)
  unfolding execute_step_inner
  execute_step_inner-Steps now w s now_running =
      step_unless-Steps now w (check_before_step now w.run) s now_running
        (check_before_step-LeavesBy now w.run) (check_before_step-HasRoom now w.run)
