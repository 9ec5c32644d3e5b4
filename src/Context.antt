-- ===== src/Context.antt =====
-- harness/runtime/context.py: the messages of a run, from its conversation, its steps and the rows
-- of its tool calls. orjson's `dumps` is a parameter.
pub mod Paired
use marcus.Prelude.{
  if◌then◌else◌, ltb, where_, ◌==◌, ℕ, suc, String, Bool, Option, none, some, List, [], ◌∷◌, ◌++◌,
  map, nat_eq,
}
use marcus.Executions.{get_existing, ToolExecution, ToolCall}
use marcus.Llm.{said, LlmMessage, system_role, Role, tool_role, assistant_role}
use marcus.Prelude.Json.{Fields, field, int_max, ℤ, end, negsuc, text, pos, int_ltb}
use marcus.Prelude.Sorting.{sorted}
use marcus.Prelude.Texts.{concat, or_text}
use marcus.Run.Row.{AgentRun}
use marcus.Run.Status.{succeeded, unknown, failed, started}

-- A row of `agent_steps`: a call of the model or a summary of older ones. What the engine writes
-- of a payload and no modelled code reads (the finish reason, the model's name) is left out.
pub data StepBody : Type 0 where
  llm_call : Option String → List ToolCall → Fields → StepBody
  summary : String → ℤ → StepBody

-- The number of a summary is negative.
pub record AgentStep : Type 0 where
  pub run_id : ℕ
  pub step_no : ℤ
  pub body : StepBody
  pub created_at : ℕ

pub record AgentMessage : Type 0 where
  pub run_id : ℕ
  pub role : Role
  pub content : String
  pub created_at : ℕ

unfoldable pub load_messages : ℕ → List AgentMessage → List AgentMessage
load_messages run_id t =
    sorted (λ (a b : AgentMessage). ltb a.created_at b.created_at)
      (where_ (λ (m : AgentMessage). m.run_id == run_id) t)

unfoldable pub load_steps : ℕ → List AgentStep → List AgentStep
load_steps run_id t =
    sorted (λ (a b : AgentStep). int_ltb a.step_no b.step_no)
      (where_ (λ (s : AgentStep). s.run_id == run_id) t)

-- `executions_by_step.get(step_no, [])` as `executions_by_index`: the row of a call. The key of a
-- row is unique.
abbrev pub execution_at : ℕ → ℤ → List ToolExecution → ℕ → Option ToolExecution
execution_at run_id (negsuc n) t position = none
execution_at run_id (pos n) t position =
    get_existing (record { run_id = run_id; step_no = n; call_index = position }) t

-- The loop of `latest_covered_step_no`, with what is covered so far.
abbrev pub covered_from : ℤ → List AgentStep → ℤ
covered_from covered [] = covered
covered_from covered (s ∷ rest) =
    covered_from
      (elim s.body [
        | llm_call content calls fields ↦ covered
        | summary t upto ↦ int_max covered upto
      ])
      rest

unfoldable pub latest_covered_step_no : List AgentStep → ℤ
latest_covered_step_no steps = covered_from (negsuc 0) steps

abbrev pub with_chunk :
    ℕ → Option (List LlmMessage) → List (ℕ × List LlmMessage) → List (ℕ × List LlmMessage)
with_chunk at none rest = rest
with_chunk at (some chunk) rest = (at, chunk) ∷ rest

abbrev pub message_chunk : AgentMessage → ℕ × List LlmMessage
message_chunk m = (m.created_at, said m.role (some m.content) ∷ [])

abbrev pub joined_chunks : List (ℕ × List LlmMessage) → List LlmMessage
joined_chunks [] = []
joined_chunks (c ∷ rest) = c.1 ++ joined_chunks rest

abbrev pub earlier : ℕ × List LlmMessage → ℕ × List LlmMessage → Bool
earlier a b = ltb a.0 b.0

abbrev pub system_prompt : String → String → String → String
system_prompt goal skill_catalog active_skill =
    concat "You are an autonomous agent working towards a goal on behalf of a user.\n\nGoal: " (
      concat goal (
        concat "\n\nCall the `finish` tool once the goal is achieved, passing your result. " (
          concat "Call `ask_user` if you need clarification before continuing."
            (concat skill_catalog active_skill))))

module _ (dumps : Fields → String) where
  abbrev pub answer_content : Option ToolExecution → Fields
  answer_content none = field "error" (text "execution record missing") end
  answer_content (some e) = elim e.status [
    | succeeded ↦ elim e.result [ none ↦ end | some r ↦ r ]
    | failed ↦ field "error" (text (or_text e.error "unknown failure")) end
    | started ↦ field "error" (text (or_text e.error "unknown failure")) end
    | unknown ↦ field "error" (text (or_text e.error "unknown failure")) end
  ]

  -- The loop over the calls, from `position` on.
  abbrev pub tool_answers : (ℕ → Option ToolExecution) → ℕ → List ToolCall → List LlmMessage
  tool_answers executions position [] = []
  tool_answers executions position (c ∷ cs) =
      record (said tool_role (some (dumps (answer_content (executions position))))) {
        tool_call_id = some c.id;
      }
      ∷ tool_answers executions (suc position) cs

  unfoldable pub llm_call_step_to_messages :
      Option String → List ToolCall → Fields → (ℕ → Option ToolExecution) → List LlmMessage
  llm_call_step_to_messages content calls fields executions =
      record (said assistant_role content) { tool_calls = calls; provider_fields = fields }
      ∷ tool_answers executions 0 calls

  abbrev pub body_chunk : ℕ → List ToolExecution → ℤ → ℤ → StepBody → Option (List LlmMessage)
  body_chunk run_id executions covered step_no (llm_call content calls fields) =
      if int_ltb covered step_no
      then some
          (llm_call_step_to_messages content calls fields (execution_at run_id step_no executions))
      else none
  body_chunk run_id executions covered step_no (summary t upto) =
      some (said system_role (some (concat "[Earlier steps summarized]: " t)) ∷ [])

  -- What the steps add to the timeline; one that a summary covers adds nothing.
  abbrev pub step_chunks : ℕ → List ToolExecution → ℤ → List AgentStep → List (ℕ × List LlmMessage)
  step_chunks run_id executions covered [] = []
  step_chunks run_id executions covered (s ∷ rest) =
      with_chunk s.created_at (body_chunk run_id executions covered s.step_no s.body)
        (step_chunks run_id executions covered rest)

  -- `build_llm_messages`, with the two texts of `build_skill_context`.
  unfoldable pub build_llm_messages :
      AgentRun
      → List AgentMessage
      → List AgentStep
      → List ToolExecution
      → String
      → String
      → List LlmMessage
  unfolding load_messages load_steps latest_covered_step_no
  build_llm_messages run messages steps executions skill_catalog active_skill =
      let own = load_steps run.id steps in
      let covered = latest_covered_step_no own in
      let timeline =
        map message_chunk (load_messages run.id messages)
        ++ step_chunks run.id executions covered own in
      said system_role (some (system_prompt run.goal skill_catalog active_skill))
      ∷ joined_chunks (sorted earlier timeline)
