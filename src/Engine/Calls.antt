-- ===== src/Engine/Calls.antt =====
-- `_execute_single_tool_call` and `_finish_evidence_error` of harness/runtime/engine.py.
use marcus.Prelude.{
  ltb, if◌then◌else◌, length, where_, any, ◌==◌, ℕ, String, Bool, false, not, ◌&&◌, Option, none,
  some, [], ◌∷◌, ◌++◌, nat_eq, string_eq,
}
use marcus.Engine.Control.{
  no_control, Control, latest_execution, is_succeeded, completes, is_invalid_argument,
  waits_approval, first_of, required_of, add_names, asks_user, fails, text_at, status_text,
}
use marcus.Engine.Disclosure.{
  list_domain_tools_tool, load_tool_tool, list_domains_tool, use_skill_tool, Catalogs,
}
use marcus.Engine.Meta.{finish_tool, tools_by_name, ask_user_tool}
use marcus.Engine.State.{Work, Deps, reason_text, save_run}
use marcus.Errors.{plain_status, err, bad_id, and_then, Result, ok}
use marcus.Executions.{ToolExecution, ToolCall}
use marcus.Executor.{execute}
use marcus.Guardrails.{Violation}
use marcus.Guardrails.Repeats.{check_no_progress, check_repeated_calls, rows_of}
use marcus.Prelude.Json.{Items, Fields, obj, text, field, end, has, has_text}
use marcus.Prelude.Texts.{concat}
use marcus.Repository.{is_none}
use marcus.Run.Row.{set_active_tool_names, set_active_skill_revision_id}
use marcus.Run.Status.{read_only, tier_eq}
use marcus.Tools.{ExecutionOutcome, Tool, returned, other_error}

module _ (deps : Deps) where
  open deps use {
    services, words, client, code_of, quoted, cut, parse_id, max_argument_repairs, repeat_window,
  }

  abbrev pub catalogs_of : Work → Catalogs
  catalogs_of w = record {
    client = client;
    tables = w.db.mcp;
    skills = w.db.skills;
    entries = w.entries;
    cut = cut;
    str = client.str;
    id_text = services.id_text;
  }

  unfoldable pub execute_call : ℕ → Work → ℕ → ℕ → ToolCall → Option Tool → Work × ExecutionOutcome
  execute_call now w step_no call_index c tool =
      let r =
        execute (record services { now = now }) w.db.store
          (record { run_id = w.run.id; step_no = step_no; call_index = call_index }) c tool in
      (record w { db = record w.db { store = r.0 } }, r.1)

  abbrev pub evidence_gap : Option ToolExecution → Option String
  evidence_gap none = none
  evidence_gap (some e) =
      if is_succeeded e.status
      then none
      else some (
          concat "finish blocked: latest tool " (
            concat (quoted e.tool_name) (
              concat " has status "
                (concat (status_text e.status) "; recover or finish with outcome='failed'"))))

  unfoldable pub finish_evidence_error : Work → Fields → Option String
  unfolding latest_execution
  finish_evidence_error w arguments =
      if has_text "outcome" "failed" arguments
      then none
      else evidence_gap (latest_execution w.run.id w.db.store.executions)

  -- `finish`, or `reject_finish` in its place
  abbrev pub guarded_finish : Option String → Tool
  guarded_finish none = finish_tool
  guarded_finish (some error) = record finish_tool { handler = λ n arguments. other_error error }

  abbrev pub completed_by : Work × ExecutionOutcome → Result (Work × Control)
  completed_by (w, o) =
      ok (w, if has "error" o.observation then no_control else completes o.observation)

  abbrev pub asked_by : Work × ExecutionOutcome → Result (Work × Control)
  asked_by (w, o) =
      ok (w, if has "error" o.observation then no_control else asks_user o.observation)

  abbrev pub ignored : Work × ExecutionOutcome → Result (Work × Control)
  ignored (w, o) = ok (w, no_control)

  abbrev pub without_control : Result Work → Result (Work × Control)
  without_control r = and_then r (λ w. ok (w, no_control))

  unfoldable pub unlock : Work → Option String → Result (Work × Control)
  unfolding save_run
  unlock w none = ok (w, no_control)
  unlock w (some name) =
      if any (λ n. n == name) w.run.active_tool_names
      then ok (w, no_control)
      else without_control
          (save_run w none (set_active_tool_names (w.run.active_tool_names ++ name ∷ []) ∷ []))

  -- After `load_tool`: the tool is active from the next turn on.
  unfoldable pub loaded_by : Work × ExecutionOutcome → Result (Work × Control)
  unfolding unlock
  loaded_by (w, o) = unlock w (text_at "name" o.observation)

  -- `uuid.UUID(revision_id)` raises where the text is no id.
  unfoldable pub activate : Work → Items → String → Option ℕ → Result (Work × Control)
  unfolding save_run
  activate w required revision_id none = err (bad_id revision_id)
  activate w required revision_id (some id) = without_control (
      save_run w none (
        set_active_skill_revision_id (some id)
        ∷ set_active_tool_names (add_names w.run.active_tool_names required)
        ∷ []))

  unfoldable pub activate_from : Work → Fields → Option String → Result (Work × Control)
  unfolding activate
  activate_from w observation none = ok (w, no_control)
  activate_from w observation (some revision_id) =
      if has "error" observation
      then ok (w, no_control)
      else activate w (required_of observation) revision_id (parse_id revision_id)

  -- After `use_skill`.
  unfoldable pub used_skill : Work × ExecutionOutcome → Result (Work × Control)
  unfolding activate_from
  used_skill (w, o) = activate_from w o.observation (text_at "revision_id" o.observation)

  abbrev pub failures_of : Work → String → ℕ
  failures_of w name = length (
      where_
        (λ (e : ToolExecution).
          e.key.run_id == w.run.id && (e.tool_name == name && is_invalid_argument e.error))
        w.db.store.executions)

  abbrev pub newest_name : Work → String
  newest_name w = elim (first_of (rows_of w.run.id w.db.store.executions)) [
    | none ↦ ""
    | some e ↦ e.tool_name
  ]

  abbrev pub violated : Work → String → Option Violation → Control
  violated w name none = no_control
  violated w name (some v) = fails (some (reason_text deps w.run name v.reason))

  -- What an executed call of a real tool leads to.
  abbrev pub after_call : ToolCall → Work × ExecutionOutcome → Control
  after_call c (w, o) =
      if o.needs_approval
      then waits_approval 0
      else if o.fatal
      then fails o.fatal_reason
      else if has_text "code" "INVALID_ARGUMENT" o.observation
          && ltb max_argument_repairs (failures_of w c.name)
      then fails (
          some (
            concat "argument repair budget exhausted for " (
              concat (quoted c.name)
                (concat " (" (concat (words.digits max_argument_repairs) ")")))))
      else violated w (newest_name w)
          (check_no_progress code_of repeat_window w.db.store.executions w.run.id)

  abbrev pub not_loaded : Tool → Tool
  not_loaded t = record t {
    handler = λ n arguments. returned (
        obj
          (field "error" (text "tool is not loaded yet; call load_tool with its name first") end));
    risk_tier = read_only;
    idempotent = false;
    mcp_server_id = none;
  }

  -- An MCP tool that the run has not unlocked.
  abbrev pub is_locked : Work → Tool → ToolCall → Bool
  is_locked w t c =
      not (is_none t.mcp_server_id) && not (any (λ n. n == c.name) w.run.active_tool_names)

  -- The tools of the engine need no approval: of the selected calls only these meet one and may raise.
  unfoldable pub call_real : ℕ → Work → ℕ → ℕ → ToolCall → Option Tool → Result (Work × Control)
  unfolding execute_call
  call_real now w step_no position c tool =
      let r = execute_call now w step_no position c tool in
      if r.1.raises then err plain_status else ok (r.0, after_call c r)

  -- A real tool, unless a guardrail stops the run first.
  unfoldable pub call_unless :
      Option Violation → ℕ → Work → ℕ → ℕ → ToolCall → Tool → Result (Work × Control)
  unfolding call_real
  call_unless (some v) now w step_no position c t = ok (w, violated w t.name (some v))
  call_unless none now w step_no position c t = call_real now w step_no position c (some t)

  unfoldable pub call_tool_named :
      ℕ → Work → ℕ → ℕ → ToolCall → Option Tool → Result (Work × Control)
  unfolding call_unless
  call_tool_named now w step_no position c none = call_real now w step_no position c none
  call_tool_named now w step_no position c (some t) =
      if is_locked w t c
      then ignored (execute_call now w step_no position c (some (not_loaded t)))
      else call_unless
          (check_repeated_calls repeat_window w.db.store.executions w.run.id t.name c.arguments) now
          w step_no position c t

  unfoldable pub execute_single_tool_call : ℕ → Work → ℕ → ℕ → ToolCall → Result (Work × Control)
  unfolding call_tool_named finish_evidence_error loaded_by used_skill
  execute_single_tool_call now w step_no position c =
      let call_with : Tool → Work × ExecutionOutcome =
        λ t. execute_call now w step_no position c (some t) in
      let catalogs = catalogs_of w in
      let tenant = w.run.tenant_id in
      if c.name == "finish"
      then completed_by (call_with (guarded_finish (finish_evidence_error w c.arguments)))
      else if c.name == "ask_user"
      then asked_by (call_with ask_user_tool)
      else if c.name == "list_tool_domains"
      then ignored (call_with (list_domains_tool catalogs tenant))
      else if c.name == "list_domain_tools"
      then ignored (call_with (list_domain_tools_tool catalogs tenant))
      else if c.name == "load_tool"
      then loaded_by (call_with (load_tool_tool catalogs tenant))
      else if c.name == "use_skill"
      then used_skill (call_with (use_skill_tool catalogs tenant))
      else call_tool_named now w step_no position c (tools_by_name w.entries c.name)
