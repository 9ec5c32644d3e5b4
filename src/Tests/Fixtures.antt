-- ===== src/Tests/Fixtures.antt =====
-- Rows and tools that the other tests share.
use marcus.Prelude.{ℕ, String, inl, true, false, none, some, List, [], ◌∷◌, refl}
use marcus.Executions.{ToolCall, Key, Store}
use marcus.Approvals.{Services}
use marcus.Prelude.Json.{field, end, obj, Fields, Json, bool}
use marcus.Repository.{row}
use marcus.Repository.Cell.{IsKeyed}
use marcus.Run.Row.{AgentRun, api}
use marcus.Run.Status.{running, RunStatus, RiskTier}
use marcus.Tools.{Tool, returned}

abbrev pub fresh_run : ℕ → RunStatus → ℕ → AgentRun
fresh_run id status version = record {
  id = id;
  tenant_id = 1;
  created_by_user_id = none;
  status = status;
  version = version;
  goal = "tidy the repository";
  channel = api;
  channel_metadata = end;
  current_step = 0;
  max_steps = 3;
  max_tool_calls = 4;
  token_budget = 1000;
  timeout_seconds = 900;
  tokens_used = 0;
  tool_calls_used = 0;
  active_skill_revision_id = none;
  active_tool_names = [];
  lease_owner = none;
  lease_expires_at = none;
  final_result = none;
  error = none;
  cancel_requested = false;
  created_at = 0;
}

abbrev pub leased : AgentRun → String → ℕ → AgentRun
leased r owner until = record r { lease_owner = some owner; lease_expires_at = some until }

-- Run 2 is leased by the worker "a" until 5 seconds; run 1 is free.
abbrev pub two_runs : List AgentRun
two_runs = fresh_run 1 running 4 ∷ leased (fresh_run 2 running 7) "a" 5000000 ∷ []

abbrev pub first_key : Key
first_key = record { run_id = 1; step_no = 0; call_index = 0 }

abbrev pub tool_of : String → RiskTier → Tool
tool_of name tier = record {
  name = name;
  parameters = end;
  handler = λ n args. returned (obj (field "done" (bool true) end));
  risk_tier = tier;
  idempotent = false;
  mcp_server_id = none;
}

abbrev pub call_of : String → ToolCall
call_of name = record { id = "c1"; name = name; arguments = end }

abbrev pub as_object : Json → Fields
as_object (obj fs) = fs
as_object v = field "value" v end

abbrev pub plain_services : Services
plain_services = record {
  normalize = λ schema args. inl args;
  truncate = as_object;
  now = 0;
  approval_expiry = 86400000000;
  id_text = λ n. "id";
  status_value = λ a. none;
}

abbrev pub empty_store : Store
empty_store = record { executions = []; approvals = []; invoked = [] }

pub two_runs-IsKeyed : IsKeyed two_runs
unfolding row
two_runs-IsKeyed = (refl, (refl, tt))
