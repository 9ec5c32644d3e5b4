-- ===== src/Tests/Executor.antt =====
-- harness/runtime/tool_executor.py at concrete calls.
use mathlib.Core.Option.{some-injective}
use mathlib.Core.Path.{subst}
use marcus.Prelude.{◌≤◌, ◌≡◌, refl, ◌⊎◌, false, none, some, [], ◌∷◌, ◌||◌}
use marcus.Executions.{
  get_existing, get_approval, save_execution, ApprovalRequest, Store, ToolExecution,
}
use marcus.Approvals.{check_approval, gate_on, decide}
use marcus.Executor.{
  recover_started, finalize, prepare, execute, safe_to_retry, prepare_tool, invoke_and_finalize,
  start_fresh, resolve_existing, write_ahead,
}
use marcus.Executor.Approval.{handler_needs_approval}
use marcus.Executor.Crash.{attempts, before_commit, times, attempt, Attempt, Crash, no_crash}
use marcus.Executor.Once.{safe_tool, reaches_world_once}
use marcus.Executor.Prepare.{is_started}
use marcus.Executor.Replay.{replay_is_silent}
use marcus.Guardrails.{requires_approval}
use marcus.Prelude.Json.{end}
use marcus.Run.Status.{approved, succeeded, read_only, destructive}
use marcus.Tests.Fixtures.{plain_services, empty_store, tool_of, first_key, call_of}
use marcus.Tools.{Tool}

abbrev deploy : Tool
deploy = tool_of "deploy" destructive

abbrev look : Tool
look = tool_of "look" read_only

abbrev approve : ApprovalRequest
approve = record {
  key = first_key;
  tool_name = "deploy";
  risk_tier = destructive;
  args = end;
  status = approved;
  reason = none;
  expires_at = 0;
}

abbrev approved_store : Store
approved_store = record { executions = []; approvals = approve ∷ []; invoked = [] }

abbrev deploying : Crash → Attempt
deploying c = record { key = first_key; call = call_of "deploy"; tool = some deploy; crash = c }

-- The worker dies while the handler runs; the next one does not repeat it.
crash_then_resume :
    times first_key
      (attempts plain_services approved_store
        (deploying before_commit ∷ deploying no_crash ∷ [])).invoked
    ≡ 1
unfolding times attempts attempt prepare prepare_tool start_fresh check_approval gate_on decide
    write_ahead resolve_existing recover_started safe_to_retry get_existing save_execution
    requires_approval
crash_then_resume = refl

deploy_unsafe : (t : Tool) → some deploy ≡ some t → safe_tool t ≡ false
deploy_unsafe t e = subst (λ x. safe_tool x ≡ false) (some-injective _ _ e) refl

reaches_world_once_example :
    times first_key
      (attempts plain_services approved_store
        (deploying before_commit ∷ deploying no_crash ∷ [])).invoked
    ≤ 1
unfolding get_existing times
reaches_world_once_example =
    reaches_world_once plain_services approved_store first_key
      (deploying before_commit ∷ deploying no_crash ∷ []) refl refl
      ((λ t own is. deploy_unsafe t is), ((λ t own is. deploy_unsafe t is), tt))

handler_needs_approval_example :
    ((a : ApprovalRequest) × (get_approval first_key [] ≡ some a) × (a.status ≡ approved))
    ⊎ ((execute plain_services empty_store first_key (call_of "deploy") (some deploy)).0.invoked
        ≡ [])
unfolding get_existing requires_approval
handler_needs_approval_example =
    handler_needs_approval plain_services empty_store first_key (call_of "deploy") deploy refl
      (λ e found. cc)

look_done :
    ((execute plain_services empty_store first_key (call_of "look") (some look)).1.needs_approval
      || (execute plain_services empty_store first_key (call_of "look") (some look)).1.raises)
    ≡ false
unfolding execute prepare prepare_tool start_fresh write_ahead invoke_and_finalize finalize
    get_existing requires_approval
look_done = refl

replay_is_silent_example :
    let (s', o) = execute plain_services empty_store first_key (call_of "look") (some look) in
    (e : ToolExecution) × (get_existing first_key s'.executions ≡ some e)
    × (is_started e.status ≡ false)
    × ((execute plain_services s' first_key (call_of "look") (some look)).0 ≡ s')
    × (e.status ≡ succeeded
        → (execute plain_services s' first_key (call_of "look") (some look)).1 ≡ o)
replay_is_silent_example =
    replay_is_silent plain_services empty_store first_key (call_of "look") (call_of "look") look
      look look_done
