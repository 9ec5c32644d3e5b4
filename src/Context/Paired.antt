-- ===== src/Context/Paired.antt =====
-- The context of harness/runtime/context.py is one that a model accepts.
use mathlib.Core.List.{append-nil}
use mathlib.Core.Path.{subst}
use marcus.Prelude.{
  All, ℕ, suc, String, refl, ◌≢◌, Option, some, List, [], ◌∷◌, map, ◌≡◌, arith, All-where_,
  All-append, ◌==◌, none, ◌++◌, nat_eq,
}
use marcus.Context.{
  AgentMessage, step_chunks, tool_answers, message_chunk, llm_call_step_to_messages, AgentStep,
  joined_chunks, llm_call, body_chunk, execution_at, build_llm_messages, summary, StepBody,
  latest_covered_step_no, earlier, load_messages, with_chunk, load_steps,
}
use marcus.Executions.{ToolExecution, ToolCall}
use marcus.Llm.{said, assistant_role, Role, tool_role, LlmMessage, system_role}
use marcus.Llm.Paired.{
  Answers, silence, IsPaired-append, all_answered, answered, exchange, plain, IsPaired,
}
use marcus.Prelude.Json.{Fields, ℤ}
use marcus.Prelude.Sorting.{sorted, All-sorted}
use marcus.Prelude.Texts.{concat}
use marcus.Run.Row.{AgentRun}

module _ (dumps : Fields → String) where
  tool_answers-Answers :
      (executions : ℕ → Option ToolExecution) (i : ℕ) (calls : List ToolCall)
      → Answers calls (tool_answers dumps executions i calls)
  tool_answers-Answers executions i [] = all_answered
  tool_answers-Answers executions i (c ∷ cs) =
      answered refl refl (tool_answers-Answers executions (suc i) cs)

  llm_call_step_to_messages-IsPaired :
      (content : Option String) (calls : List ToolCall) (fields : Fields)
      (executions : ℕ → Option ToolExecution)
      → IsPaired (llm_call_step_to_messages dumps content calls fields executions)
  unfolding llm_call_step_to_messages
  llm_call_step_to_messages-IsPaired content calls fields executions =
      let asks : LlmMessage = record (said assistant_role content) {
        tool_calls = calls;
        provider_fields = fields;
      } in
      subst (λ rs. IsPaired (asks ∷ rs)) (append-nil (tool_answers dumps executions 0 calls))
        (exchange refl (tool_answers-Answers executions 0 calls) silence)

  abbrev ChunkPaired : ℕ × List LlmMessage → Type 0
  ChunkPaired c = IsPaired c.1

  said-IsPaired :
      (role : Role) (content : Option String) → role ≢ tool_role → IsPaired (said role content ∷ [])
  said-IsPaired role content ne = plain refl ne silence

  joined_chunks-IsPaired :
      (l : List (ℕ × List LlmMessage)) → All ChunkPaired l → IsPaired (joined_chunks l)
  joined_chunks-IsPaired [] h = silence
  joined_chunks-IsPaired (c ∷ l) h = IsPaired-append h.0 (joined_chunks-IsPaired l h.1)

  pub body_chunk-IsPaired :
      (run_id : ℕ) (t : List ToolExecution) (covered step_no : ℤ) (body : StepBody)
      (chunk : List LlmMessage)
      → body_chunk dumps run_id t covered step_no body ≡ some chunk
      → IsPaired chunk
  body_chunk-IsPaired run_id t covered step_no (llm_call content calls fields) chunk h =
      let executions = execution_at run_id step_no t in
      let same : llm_call_step_to_messages dumps content calls fields executions ≡ chunk =
        ground (arith, h) in
      subst IsPaired same (llm_call_step_to_messages-IsPaired content calls fields executions)
  body_chunk-IsPaired run_id t covered step_no (summary u upto) chunk h =
      let note = concat "[Earlier steps summarized]: " u in
      let same : said system_role (some note) ∷ [] ≡ chunk = ground (arith, h) in
      subst IsPaired same (said-IsPaired system_role (some note) (λ e. cc e))

  with_chunk-paired :
      (at : ℕ) (o : Option (List LlmMessage)) (rest : List (ℕ × List LlmMessage))
      → ((chunk : List LlmMessage) → o ≡ some chunk → IsPaired chunk)
      → All ChunkPaired rest
      → All ChunkPaired (with_chunk at o rest)
  with_chunk-paired at none rest h k = k
  with_chunk-paired at (some chunk) rest h k = (h chunk refl, k)

  step_chunks-paired :
      (run_id : ℕ) (t : List ToolExecution) (covered : ℤ) (steps : List AgentStep)
      → All ChunkPaired (step_chunks dumps run_id t covered steps)
  step_chunks-paired run_id t covered [] = tt
  step_chunks-paired run_id t covered (s ∷ rest) =
      with_chunk-paired s.created_at (body_chunk dumps run_id t covered s.step_no s.body)
        (step_chunks dumps run_id t covered rest)
        (body_chunk-IsPaired run_id t covered s.step_no s.body)
        (step_chunks-paired run_id t covered rest)

  message_chunks-paired :
      (messages : List AgentMessage)
      → All (λ (m : AgentMessage). m.role ≢ tool_role) messages
      → All ChunkPaired (map message_chunk messages)
  message_chunks-paired [] h = tt
  message_chunks-paired (m ∷ rest) h =
      (said-IsPaired m.role (some m.content) h.0, message_chunks-paired rest h.1)

  -- Whatever the steps and their rows are, complete or not, and however a crash left them: if no
  -- message of the conversation is a tool's, then in the context that goes to the model each call of
  -- an assistant's message is answered right after it, in order and under its id, and no answer
  -- stands anywhere else.
  pub build_llm_messages-IsPaired :
      (run : AgentRun) (messages : List AgentMessage) (steps : List AgentStep)
      (executions : List ToolExecution) (skill_catalog active_skill : String)
      → All (λ (m : AgentMessage). m.role ≢ tool_role) messages
      → IsPaired (build_llm_messages dumps run messages steps executions skill_catalog active_skill)
  unfolding build_llm_messages
  build_llm_messages-IsPaired run messages steps executions skill_catalog active_skill spoken =
      plain refl (λ e. cc e)
        (joined_chunks-IsPaired (sorted earlier timeline) (
          All-sorted earlier ChunkPaired timeline (
            All-append ChunkPaired (map message_chunk (load_messages run.id messages)) _
              (message_chunks-paired (load_messages run.id messages) own_spoken)
              (step_chunks-paired run.id executions (latest_covered_step_no own) own))))
    where
      own : List AgentStep
      own = load_steps run.id steps

      timeline : List (ℕ × List LlmMessage)
      timeline =
          map message_chunk (load_messages run.id messages)
          ++ step_chunks dumps run.id executions (latest_covered_step_no own) own

      own_spoken : All (λ (m : AgentMessage). m.role ≢ tool_role) (load_messages run.id messages)
      own_spoken =
          All-sorted _ _ _ (All-where_ _ (λ (m : AgentMessage). m.run_id == run.id) messages spoken)
