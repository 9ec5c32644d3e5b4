-- ===== src/Compaction.antt =====
-- harness/runtime/compaction.py: the older steps of a run folded into a summary. The model is a
-- parameter, and so are orjson's `dumps`, Python's `str` of a dictionary and `len` of a text.
pub mod Asked
use marcus.Prelude.{
  ltb, leb, if◌then◌else◌, length, take, where_, ℕ, ◌+◌, ◌-◌, ◌*◌, ◌/◌, String, ◌⊎◌, inl, inr, Bool,
  true, false, Option, none, some, List, [], ◌∷◌, ◌++◌,
}
use marcus.Context.{summary, AgentStep, load_steps, latest_covered_step_no, llm_call, body_chunk}
use marcus.Executions.{ToolExecution, ToolCall}
use marcus.Intake.{or_number}
use marcus.Llm.{LlmMessage, said, user_role}
use marcus.Prelude.Json.{int_ltb, Fields, ℤ, negsuc}
use marcus.Prelude.Texts.{or_text}
use marcus.Run.Row.{AgentRun}

pub record LlmResponse : Type 0 where
  pub content : Option String
  pub tool_calls : List ToolCall
  pub provider_fields : Fields
  pub total_tokens : ℕ

-- How a call of the model fails: an `LLMError`, or another exception, which harness/llm/gateway.py
-- raises where the body of a response is malformed. Both have a text.
pub data ModelError : Type 0 where
  llm_refused other_raised : String → ModelError

-- A call of the model. The number of calls so far is an argument, since the model may answer the same
-- question differently.
abbrev pub Model : Type 0
Model = ℕ → List LlmMessage → LlmResponse ⊎ ModelError

pub record Printing : Type 0 where
  pub dumps : Fields → String
  pub str : Fields → String
  pub len : String → ℕ

abbrev pub keep_recent_steps : ℕ
keep_recent_steps = 10

abbrev pub summarize_instruction : String
summarize_instruction =
    "Summarize the tool calls, results, and reasoning above concisely, in a few sentences. Preserve concrete facts, findings, and conclusions that would be needed to continue the task. Do not include pleasantries."

abbrev pub is_uncovered : ℤ → AgentStep → Bool
is_uncovered covered s = elim s.body [
  | llm_call content calls fields ↦ int_ltb covered s.step_no
  | summary t upto ↦ false
]

abbrev pub is_summary : AgentStep → Bool
is_summary s = elim s.body [ llm_call content calls fields ↦ false | summary t upto ↦ true ]

unfoldable pub uncovered : List AgentStep → List AgentStep
unfolding latest_covered_step_no
uncovered steps = where_ (is_uncovered (latest_covered_step_no steps)) steps

-- `to_summarize[-1].step_no`
abbrev pub last_step_no : ℤ → List AgentStep → ℤ
last_step_no default [] = default
last_step_no default (s ∷ rest) = last_step_no s.step_no rest

-- -(n + 1)
abbrev pub summary_number : ℕ → ℤ
summary_number n = negsuc n

-- What a compaction comes to: nothing to do, an exception that the caller sees, or a new step and the
-- tokens used.
pub data Compaction : Type 0 where
  untouched : Compaction
  llm_failed : ModelError → Compaction
  compacted : AgentStep → ℕ → Compaction

abbrev pub or_empty : Option (List LlmMessage) → List LlmMessage
or_empty none = []
or_empty (some chunk) = chunk

module _ (printing : Printing) where
  open printing use {dumps, str, len}

  abbrev pub call_chars : List ToolCall → ℕ
  call_chars [] = 0
  call_chars (c ∷ cs) = len c.name + len (str c.arguments) + call_chars cs

  abbrev pub total_chars : List LlmMessage → ℕ
  total_chars [] = 0
  total_chars (m ∷ ms) = len (or_text m.content "") + call_chars m.tool_calls + total_chars ms

  unfoldable pub estimate_tokens : List LlmMessage → ℕ
  estimate_tokens messages = total_chars messages / 4

  abbrev pub step_messages : ℕ → List ToolExecution → List AgentStep → List LlmMessage
  step_messages run_id executions [] = []
  step_messages run_id executions (s ∷ rest) =
      or_empty (body_chunk dumps run_id executions (negsuc 0) s.step_no s.body)
      ++ step_messages run_id executions rest

  abbrev pub summary_step : AgentRun → ℕ → List AgentStep → List AgentStep → String → AgentStep
  summary_step run now steps to_summarize content = record {
    run_id = run.id;
    step_no = summary_number (length (where_ is_summary steps));
    body = summary content (last_step_no (negsuc 0) to_summarize);
    created_at = now;
  }

  -- `threshold` is in percent; `context_window` is none or 0 where the run's budget is the limit.
  unfoldable pub maybe_compact :
      Model → ℕ → ℕ → AgentRun → List AgentStep → List ToolExecution → Option ℕ → ℕ → Compaction
  unfolding estimate_tokens uncovered load_steps
  maybe_compact model calls now run t executions context_window threshold =
      let steps = load_steps run.id t in
      let old = uncovered steps in
      let limit = or_number context_window run.token_budget in
      let to_summarize = take (length old - keep_recent_steps) old in
      let asked =
        step_messages run.id executions to_summarize
        ++ said user_role (some summarize_instruction) ∷ [] in
      if leb (length old) keep_recent_steps
      then untouched
      else if ltb (100 * estimate_tokens (step_messages run.id executions old)) (limit * threshold)
      then untouched
      else elim (model calls asked) [
        | inr error ↦ llm_failed error
        | inl response ↦
            compacted (summary_step run now steps to_summarize (or_text response.content ""))
              response.total_tokens
      ]
