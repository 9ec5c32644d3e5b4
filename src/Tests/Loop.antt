-- ===== src/Tests/Loop.antt =====
-- harness/runtime/engine.py on a run whose model looks once, and then finishes.
use marcus.Prelude.{zero, suc, ◌≡◌, refl, inl, inr, true, false, none, some, [], ◌∷◌}
use marcus.Compaction.{Model, LlmResponse}
use marcus.Engine.Calls.{finish_evidence_error, execute_call, execute_single_tool_call}
use marcus.Engine.Control.{completes, Control, latest_execution}
use marcus.Engine.Evidence.{HasEvidence, finish_needs_evidence}
use marcus.Engine.Meta.{Entry}
use marcus.Engine.State.{Work, Deps, Db}
use marcus.Errors.{ok, err, Result}
use marcus.Executions.{ToolCall, get_existing}
use marcus.Executor.{
  write_ahead, finalize, prepare, prepare_tool, run_prepared, execute, invoke_and_finalize,
  start_fresh,
}
use marcus.Guardrails.{requires_approval}
use marcus.Mcp.{McpClient}
use marcus.Prelude.Json.{field, end, text, Fields}
use marcus.Prelude.Sorting.{sorted}
use marcus.Run.Status.{running, read_only}
use marcus.Skills.Registry.{Catalog}
use marcus.Tests.Fixtures.{empty_store, plain_services, two_runs, call_of, tool_of, fresh_run}
use marcus.Tools.{Tool}

abbrev empty_catalog : Catalog
empty_catalog = record { skills = []; revisions = [] }

abbrev finish_arguments : Fields
finish_arguments = field "result" (text "all tidy") end

abbrev finish_call : ToolCall
finish_call = record { id = "c2"; name = "finish"; arguments = finish_arguments }

abbrev asks_for : ToolCall → LlmResponse
asks_for c = record { content = none; tool_calls = c ∷ []; provider_fields = end; total_tokens = 7 }

abbrev scripted : Model
scripted zero messages = inl (asks_for (call_of "look"))
scripted (suc n) messages = inl (asks_for finish_call)

abbrev quiet_client : McpClient
quiet_client = record {
  call_tool = λ n server name arguments. inr "unreachable";
  str = λ v. "value";
  isalnum = λ c. true;
}

abbrev pub sample_deps : Deps
sample_deps = record {
  services = plain_services;
  printing = record { dumps = λ fs. "{}"; str = λ fs. "{}"; len = λ s. 1 };
  words = record { findall = λ pattern s. []; lower = λ s. s; digits = λ n. "n" };
  client = quiet_client;
  model = scripted;
  clock = λ i. i;
  code_of = λ s. s;
  quoted = λ s. s;
  cut = λ s. s;
  parse_id = λ s. none;
  context_window = none;
  compact_threshold = 70;
  max_calls_per_step = 1;
  max_argument_repairs = 1;
  repeat_window = 3;
}

abbrev pub sample_db : Db
sample_db = record {
  runs = two_runs;
  store = empty_store;
  steps = [];
  messages = [];
  skills = empty_catalog;
  mcp = record { servers = []; tools = [] };
  skill_usage = [];
  usage_records = [];
  asked = 0;
}

abbrev pub look_entry : Entry
look_entry = record {
  exposed_name = "look";
  tool = tool_of "look" read_only;
  description = "looks";
}

abbrev sample_work : Work
sample_work = record {
  db = sample_db;
  run = fresh_run 1 running 4;
  entries = look_entry ∷ [];
  mcp_tools_loaded = false;
}

abbrev work_of : Result (Work × Control) → Work
work_of (ok (w, c)) = w
work_of (err e) = sample_work

abbrev completed_fields : Result (Work × Control) → Fields
completed_fields (ok (w, completes fields)) = fields
completed_fields (ok (w, c)) = end
completed_fields (err e) = end

-- The run finishes by its first call, when it has called no other tool.
abbrev finish_result : Result (Work × Control)
finish_result = execute_single_tool_call sample_deps 0 sample_work 0 0 finish_call

finish_result-completes :
    finish_result ≡ ok (work_of finish_result, completes (completed_fields finish_result))
unfolding execute_single_tool_call execute_call execute prepare prepare_tool start_fresh write_ahead
    run_prepared invoke_and_finalize finalize get_existing finish_evidence_error latest_execution
    requires_approval sorted
finish_result-completes = refl

no_row_yet :
    get_existing (record { run_id = 1; step_no = 0; call_index = 0 }) empty_store.executions ≡ none
unfolding get_existing
no_row_yet = refl

finish_needs_evidence_example : HasEvidence sample_work finish_arguments
finish_needs_evidence_example =
    finish_needs_evidence sample_deps 0 sample_work (work_of finish_result) 0 0 finish_call
      (completed_fields finish_result) refl no_row_yet finish_result-completes

-- A tool of a server, which the run has not unlocked.
abbrev remote_tool : Tool
remote_tool = record (tool_of "search" read_only) { mcp_server_id = some 7 }
