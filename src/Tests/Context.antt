-- ===== src/Tests/Context.antt =====
-- harness/runtime/context.py on a run with one exchange.
use marcus.Prelude.{String, true, none, some, [], ◌∷◌}
use marcus.Context.{llm_call, build_llm_messages, StepBody, AgentMessage, AgentStep}
use marcus.Context.Paired.{build_llm_messages-IsPaired}
use marcus.Executions.{new_execution, ToolExecution}
use marcus.Llm.{user_role}
use marcus.Llm.Paired.{IsPaired}
use marcus.Prelude.Json.{negsuc, bool, field, end, Fields, pos}
use marcus.Run.Status.{read_only, ToolExecutionStatus, running}
use marcus.Tests.Fixtures.{tool_of, empty_store, first_key, fresh_run, call_of}

abbrev dumped : Fields → String
dumped end = "{}"
dumped (field k v fs) = k

abbrev greeting : AgentMessage
greeting = record { run_id = 1; role = user_role; content = "tidy up"; created_at = 0 }

-- The model asks for two calls, of which one has a row.
abbrev first_step : AgentStep
first_step = record {
  run_id = 1;
  step_no = pos 0;
  body = llm_call (some "looking") (call_of "look" ∷ call_of "list" ∷ []) end;
  created_at = 5;
}

abbrev older_steps : AgentStep
older_steps = record {
  run_id = 1;
  step_no = negsuc 0;
  body = StepBody.summary "nothing yet" (negsuc 0);
  created_at = 2;
}

abbrev looked : ToolExecution
looked =
    record (new_execution empty_store first_key (tool_of "look" read_only) end
      ToolExecutionStatus.succeeded none) { result = some (field "done" (bool true) end) }

build_llm_messages-IsPaired_example : IsPaired (
    build_llm_messages dumped
      (fresh_run 1 running 0)
      (greeting ∷ [])
      (first_step ∷ older_steps ∷ [])
      (looked ∷ [])
      ""
      "")
build_llm_messages-IsPaired_example =
    build_llm_messages-IsPaired dumped (fresh_run 1 running 0) (greeting ∷ [])
      (first_step ∷ older_steps ∷ []) (looked ∷ []) "" "" ((λ e. cc e), tt)
