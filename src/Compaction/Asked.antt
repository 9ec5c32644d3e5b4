-- ===== src/Compaction/Asked.antt =====
-- What harness/runtime/compaction.py asks of the model is a conversation that a model accepts.
use marcus.Prelude.{ℕ, List, [], ◌∷◌, length, take, ◌-◌, ◌≡◌, refl, Option, none, some, ◌++◌}
use marcus.Compaction.{
  Printing, step_messages, summarize_instruction, Model, keep_recent_steps, maybe_compact,
  uncovered, or_empty,
}
use marcus.Context.{AgentStep, load_steps, body_chunk}
use marcus.Context.Paired.{body_chunk-IsPaired}
use marcus.Executions.{ToolExecution}
use marcus.Llm.{LlmMessage, user_role, said}
use marcus.Llm.Paired.{IsPaired, silence, IsPaired-append, plain}
use marcus.Prelude.Json.{negsuc}
use marcus.Run.Row.{AgentRun}

module _ (printing : Printing) where
  or_empty-IsPaired :
      (o : Option (List LlmMessage))
      → ((chunk : List LlmMessage) → o ≡ some chunk → IsPaired chunk)
      → IsPaired (or_empty o)
  or_empty-IsPaired none h = silence
  or_empty-IsPaired (some chunk) h = h chunk refl

  step_messages-IsPaired :
      (run_id : ℕ) (executions : List ToolExecution) (steps : List AgentStep)
      → IsPaired (step_messages printing run_id executions steps)
  step_messages-IsPaired run_id executions [] = silence
  step_messages-IsPaired run_id executions (s ∷ rest) =
      let o = body_chunk printing.dumps run_id executions (negsuc 0) s.step_no s.body in
      IsPaired-append
        (or_empty-IsPaired o
          (body_chunk-IsPaired printing.dumps run_id executions (negsuc 0) s.step_no s.body))
        (step_messages-IsPaired run_id executions rest)

  -- A compaction asks the model about a conversation that it accepts: two models that answer alike
  -- where each call is answered right after it, in order and under its id, and no other answer
  -- stands, lead to the same compaction, whatever the steps and their rows are.
  pub maybe_compact_asks_paired :
      (model other : Model) (calls now : ℕ) (run : AgentRun) (t : List AgentStep)
      (executions : List ToolExecution) (context_window : Option ℕ) (threshold : ℕ)
      → ((n : ℕ) (ms : List LlmMessage) → IsPaired ms → model n ms ≡ other n ms)
      → maybe_compact printing model calls now run t executions context_window threshold
        ≡ maybe_compact printing other calls now run t executions context_window threshold
  unfolding maybe_compact
  maybe_compact_asks_paired model other calls now run t executions context_window threshold alike =
      let old = uncovered (load_steps run.id t) in
      let to_summarize = take (length old - keep_recent_steps) old in
      rw
        (alike calls
          (step_messages printing run.id executions to_summarize
            ++ said user_role (some summarize_instruction) ∷ [])
          (IsPaired-append (step_messages-IsPaired run.id executions to_summarize)
            (plain refl (λ e. cc e) silence)))
        refl
