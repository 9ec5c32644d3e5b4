-- ===== src/Executor.antt =====
-- harness/runtime/tool_executor.py: write-ahead execution of tool calls, with crash recovery. A
-- commit makes the store durable; a crash loses what was not committed.
pub mod Prepare
pub mod Crash
pub mod Attempted
pub mod Once
pub mod Replay
pub mod Approval
use marcus.Prelude.{
  if◌then◌else◌, any, length, ◌==◌, String, ◌⊎◌, inl, inr, Bool, true, false, ◌&&◌, ◌||◌, Option,
  none, some, [], ◌∷◌, nat_eq, string_eq,
}
use marcus.Approvals.{Services, check_approval, failed_outcome}
use marcus.Executions.{
  ToolExecution, new_execution, get_existing, Key, add_execution, ToolCall, Store, save_execution,
  key_eq,
}
use marcus.Guardrails.{requires_approval}
use marcus.Prelude.Json.{Fields, end}
use marcus.Prelude.Texts.{or_text, concat}
use marcus.Run.Status.{
  RiskTier, low_risk_write, read_only, ToolExecutionStatus, sensitive_write, unknown, failed,
  started, destructive, succeeded, tier_eq, status_eq,
}
use marcus.Tools.{
  outcome_unknown, ExecutionOutcome, execution_failed, other_error, unknown_tool, error_observation,
  returned, code_text, HandlerResult, Tool, runtime_error, success_observation, observed,
}

-- What `_execute_inner` comes to before a handler runs: an outcome, or a row in status `started`
-- that is durable, and whose handler is to be called.
pub data Prepared : Type 0 where
  settled : Store → ExecutionOutcome → Prepared
  ready : Store → ToolExecution → Prepared

-- The status `started` on resume: the worker crashed after the write-ahead insert.
unfoldable pub safe_to_retry : ToolExecution → Bool
safe_to_retry e = e.risk_tier == read_only || (e.risk_tier == low_risk_write && e.idempotent)

module _ (services : Services) where
  open services use {normalize, truncate, id_text}

  unfoldable pub record_unknown_tool :
      Store → Key → ToolCall → Option ToolExecution → Store × ExecutionOutcome
  record_unknown_tool s k call (some existing) = (
    s,
    failed_outcome services existing (or_text existing.error "unknown tool")
        (code_text unknown_tool) false,
  )
  record_unknown_tool s k call none =
      let e : ToolExecution = record {
        id = length s.executions;
        key = k;
        tool_name = call.name;
        mcp_server_id = none;
        risk_tier = read_only;
        idempotent = false;
        args = call.arguments;
        status = ToolExecutionStatus.failed;
        result = none;
        error = some (concat "unknown tool: " call.name);
      } in
      (
        add_execution s e,
        failed_outcome services e (concat "unknown tool: " call.name) (code_text unknown_tool)
            false,
      )

  abbrev pub is_fatal_tier : RiskTier → Bool
  is_fatal_tier tier = any (λ t. t == tier) (sensitive_write ∷ destructive ∷ [])

  abbrev pub crashed_text : Bool → String
  crashed_text fatal =
      concat "crashed mid-execution; outcome unknown and this tool is not safe to auto-retry"
        (if fatal then " (requires manual review)" else "")

  unfoldable pub recover_started : Store → ToolExecution → Prepared
  unfolding safe_to_retry
  recover_started s e =
      let fatal = is_fatal_tier e.risk_tier in
      let e' : ToolExecution = record e {
        status = ToolExecutionStatus.unknown;
        error = some (crashed_text fatal);
      } in
      if safe_to_retry e
      then ready s e
      else settled (record s { executions = save_execution e' s.executions })
          (record {
            observation =
                error_observation id_text (crashed_text fatal) (code_text outcome_unknown) false
                  e.id;
            fatal = fatal;
            fatal_reason = if fatal then some (crashed_text fatal) else none;
            needs_approval = false;
            raises = false;
          })

  abbrev pub resolve_status : ToolExecutionStatus → Store → ToolExecution → Prepared
  unfolding recover_started
  resolve_status succeeded s e =
      settled s
        (observed (success_observation id_text (elim e.result [ none ↦ end | some r ↦ r ]) e.id))
  resolve_status failed s e = settled s (
      failed_outcome services e (or_text e.error "tool call failed") (code_text execution_failed)
        false)
  resolve_status unknown s e = settled s (
      failed_outcome services e (or_text e.error "tool call failed") (code_text outcome_unknown)
        false)
  resolve_status started s e = recover_started s e

  unfoldable pub resolve_existing : Store → ToolExecution → Prepared
  unfolding resolve_status
  resolve_existing s e = resolve_status e.status s e

  -- _record_invalid_arguments; `arguments` are those of the call, as the model wrote them
  unfoldable pub record_invalid_arguments :
      Store → Key → Fields → Tool → String → String → Store × ExecutionOutcome
  record_invalid_arguments s k arguments tool code message =
      let e = new_execution s k tool arguments ToolExecutionStatus.failed (some message) in
      (add_execution s e, failed_outcome services e message code true)

  -- The write-ahead insert.
  unfoldable pub write_ahead : Store → Key → Tool → Fields → Prepared
  write_ahead s k tool arguments =
      let e = new_execution s k tool arguments ToolExecutionStatus.started none in
      ready (add_execution s e) e

  abbrev pub after_gate : Key → Tool → Fields → Store × Option ExecutionOutcome → Prepared
  unfolding write_ahead
  after_gate k tool arguments (s, none) = write_ahead s k tool arguments
  after_gate k tool arguments (s, some o) = settled s o

  abbrev pub settle : Store × ExecutionOutcome → Prepared
  settle (s, o) = settled s o

  -- `_execute_inner`, for a tool that exists and a call with no row yet.
  unfoldable pub start_fresh : Store → Key → ToolCall → Tool → Fields ⊎ String × String → Prepared
  unfolding check_approval after_gate record_invalid_arguments
  start_fresh s k call tool (inr (code, message)) =
      settle (record_invalid_arguments s k call.arguments tool code message)
  start_fresh s k call tool (inl arguments) =
      if requires_approval tool.risk_tier
      then after_gate k tool arguments (check_approval services s k tool arguments)
      else write_ahead s k tool arguments

  unfoldable pub prepare_tool : Store → Key → ToolCall → Tool → Option ToolExecution → Prepared
  unfolding resolve_existing start_fresh
  prepare_tool s k call tool (some existing) = resolve_existing s existing
  prepare_tool s k call tool none =
      start_fresh s k call tool (normalize tool.parameters call.arguments)

  -- `_execute_inner` up to the call of `_invoke_and_finalize`.
  unfoldable pub prepare : Store → Key → ToolCall → Option Tool → Prepared
  unfolding record_unknown_tool prepare_tool
  prepare s k call none = settle (record_unknown_tool s k call (get_existing k s.executions))
  prepare s k call (some tool) = prepare_tool s k call tool (get_existing k s.executions)

  -- The handler is called: the world has seen the call.
  abbrev pub reach : Store → ToolExecution → Store
  reach s e = record s { invoked = e.key ∷ s.invoked }

  -- The commits after the handler ended.
  unfoldable pub finalize : Store → ToolExecution → Tool → HandlerResult → Store × ExecutionOutcome
  finalize s e tool (returned value) =
      let result = truncate value in
      let e' : ToolExecution = record e {
        status = ToolExecutionStatus.succeeded;
        result = some result;
      } in
      (
        record s { executions = save_execution e' s.executions },
        observed (success_observation id_text result e.id),
      )
  finalize s e tool (runtime_error message code retryable) =
      let e' : ToolExecution = record e {
        status = ToolExecutionStatus.failed;
        error = some message;
      } in
      (
        record s { executions = save_execution e' s.executions },
        failed_outcome services e message (code_text code) retryable,
      )
  finalize s e tool (other_error message) =
      let e' : ToolExecution = record e {
        status = ToolExecutionStatus.failed;
        error = some message;
      } in
      (
        record s { executions = save_execution e' s.executions },
        failed_outcome services e message (code_text execution_failed)
            (tool.risk_tier == read_only || tool.idempotent),
      )

  unfoldable pub invoke_and_finalize : Store → ToolExecution → Tool → Store × ExecutionOutcome
  unfolding finalize
  invoke_and_finalize s e tool =
      finalize (reach s e) e tool (tool.handler (length s.invoked) e.args)

  -- A tool that is missing is never ready to run.
  unfoldable pub run_prepared : Option Tool → Prepared → Store × ExecutionOutcome
  unfolding invoke_and_finalize
  run_prepared tool (settled s o) = (s, o)
  run_prepared none (ready s e) = (s, observed end)
  run_prepared (some tool) (ready s e) = invoke_and_finalize s e tool

  unfoldable pub execute : Store → Key → ToolCall → Option Tool → Store × ExecutionOutcome
  unfolding prepare run_prepared
  execute s k call tool = run_prepared tool (prepare s k call tool)
