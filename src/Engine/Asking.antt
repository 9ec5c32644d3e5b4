-- ===== src/Engine/Asking.antt =====
-- `_call_llm` of harness/runtime/engine.py, and the answer of a step.
use marcus.Prelude.{
  ℕ, if◌then◌else◌, where_, length, ◌==◌, suc, ◌+◌, String, ◌⊎◌, inl, inr, Bool, not, Option, none,
  some, List, [], ◌∷◌, nat_eq, string_eq,
}
use marcus.Compaction.{
  ModelError, llm_refused, other_raised, compacted, maybe_compact, llm_failed, LlmResponse,
  Compaction, untouched,
}
use marcus.Context.{build_llm_messages, summary, AgentStep, llm_call, StepBody}
use marcus.Engine.Meta.{tools_by_name}
use marcus.Engine.State.{
  Work, Deps, get_step, record_skill_usage_for_run, add_step, save_run, record_usage,
}
use marcus.Errors.{ok, llm_error, model_raised, Failure, Result, err, and_then}
use marcus.Executions.{ToolCall}
use marcus.Llm.{LlmMessage}
use marcus.Prelude.Json.{pos}
use marcus.Repository.{is_none}
use marcus.Run.Row.{set_active_tool_names, set_active_skill_revision_id, set_error}
use marcus.Run.Status.{RunStatus, status_eq, tier_eq}
use marcus.Skills.Registry.{SkillRevision, Skill}
use marcus.Skills.Selection.{select_skill_candidate, build_skill_context}

pub record Answer : Type 0 where
  pub tool_calls : List ToolCall
  pub plain_content : Option String
  pub tokens_used : ℕ

-- `_call_llm` returns an answer, or None after it has let the run fail.
pub data Called : Type 0 where
  replied : Work → Answer → Called
  gave_up : Work → Called

abbrev pub is_available : Work → String → Bool
is_available w name = not (is_none (tools_by_name w.entries name))

abbrev pub names_available : Work → SkillRevision → List String
names_available w r = where_ (is_available w) r.required_tools

-- Whoever does not catch it lets the exception through.
abbrev pub failure_of : ModelError → Failure
failure_of (llm_refused message) = llm_error message
failure_of (other_raised message) = model_raised message

module _ (deps : Deps) where
  open deps use {words, printing, model, client, clock, context_window, compact_threshold}

  -- The summary step of a compaction, its usage row, and the tokens that it took.
  abbrev pub compacted_by : ℕ → Work → Compaction → Result (Work × ℕ)
  compacted_by now w untouched = ok (w, 0)
  compacted_by now w (llm_failed error) = err (failure_of error)
  compacted_by now w (compacted s tokens) =
      let db = add_step s (record_usage now w.run.tenant_id tokens w.db) in
      ok (record w { db = record db { asked = suc db.asked } }, tokens)

  unfoldable pub compact : ℕ → Work → Result (Work × ℕ)
  unfolding maybe_compact
  compact now w = compacted_by now w (
      maybe_compact printing model w.db.asked now w.run w.db.steps w.db.store.executions
        context_window compact_threshold)

  unfoldable pub take_skill : Work → Option (Skill × SkillRevision) → Result Work
  unfolding save_run
  take_skill w none = ok w
  take_skill w (some (s, r)) =
      if length (names_available w r) == length r.required_tools
      then save_run w none (
          set_active_skill_revision_id (some r.id)
          ∷ set_active_tool_names (names_available w r)
          ∷ [])
      else ok w

  -- The choice of a skill for a run that has none.
  unfoldable pub choose_skill : Work → Result Work
  unfolding select_skill_candidate take_skill
  choose_skill w =
      if is_none w.run.active_skill_revision_id
      then take_skill w (select_skill_candidate words w.run w.db.skills w.db.skill_usage)
      else ok w

  unfoldable pub context_of : Work → List LlmMessage
  unfolding build_llm_messages build_skill_context
  context_of w =
      let (skill_catalog, active_skill) = build_skill_context words w.run w.db.skills in
      build_llm_messages printing.dumps w.run w.db.messages w.db.steps w.db.store.executions
        skill_catalog active_skill

  abbrev pub answer_step : ℕ → Work → ℕ → LlmResponse → AgentStep
  answer_step now w step_no response = record {
    run_id = w.run.id;
    step_no = pos step_no;
    body = llm_call response.content response.tool_calls response.provider_fields;
    created_at = now;
  }

  -- From the answer of the model on: an `LLMError` lets the run fail, no other exception is caught.
  unfoldable pub answered_by : ℕ → ℕ → ℕ → Work → LlmResponse ⊎ ModelError → Result Called
  unfolding save_run record_skill_usage_for_run
  answered_by now step_no compact_tokens w (inr (other_raised message)) = err (model_raised message)
  answered_by now step_no compact_tokens w (inr (llm_refused message)) =
      and_then
        (save_run (record w { db = record w.db { asked = suc w.db.asked } }) (some RunStatus.failed)
          (set_error (some message) ∷ []))
        (λ w'. ok (gave_up (record_skill_usage_for_run w')))
  answered_by now step_no compact_tokens w (inl response) =
      let db =
        record_usage now w.run.tenant_id response.total_tokens
          (add_step (answer_step now w step_no response) w.db) in
      ok (
        replied (record w { db = record db { asked = suc db.asked } })
          (record {
            tool_calls = response.tool_calls;
            plain_content = response.content;
            tokens_used = w.run.tokens_used + compact_tokens + response.total_tokens;
          }))

  unfoldable pub call_llm : ℕ → Work → ℕ → Result Called
  unfolding compact choose_skill context_of answered_by
  call_llm now w step_no = and_then (compact now w) (λ c.
      and_then (choose_skill c.0)
        (λ w'. answered_by now step_no c.1 w' (model w'.db.asked (context_of w'))))

  abbrev pub stored_answer : Work → StepBody → Answer
  stored_answer w (llm_call content calls fields) = record {
    tool_calls = calls;
    plain_content = content;
    tokens_used = w.run.tokens_used;
  }
  stored_answer w (summary content upto) = record {
    tool_calls = [];
    plain_content = none;
    tokens_used = w.run.tokens_used;
  }

  -- The answer of this step: a step that a crash left behind is not asked for again.
  unfoldable pub answer_of : ℕ → Work → ℕ → Result Called
  unfolding call_llm
  answer_of now w step_no = elim (get_step w.run.id step_no w.db.steps) [
    | none ↦ call_llm now w step_no
    | some s ↦ ok (replied w (stored_answer w s.body))
  ]
