-- ===== src/Engine/Kept.antt =====
-- What the tool calls of a step leave alone in the row of their run.
use marcus.Prelude.{
  ℕ, ◌≤◌, refl, Option, none, some, List, any, ◌==◌, String, [], ◌∷◌, nat_eq, string_eq,
  if◌then◌else◌, Bool, true, false, arith,
}
use marcus.Engine.Calls.{
  activate, not_loaded, call_tool_named, unlock, loaded_by, finish_evidence_error, violated,
  execute_call, guarded_finish, catalogs_of, asked_by, without_control, call_unless, is_locked,
  after_call, activate_from, execute_single_tool_call, used_skill, completed_by, call_real,
  newest_name,
}
use marcus.Engine.Control.{asks_user, no_control, required_of, Control, text_at, completes}
use marcus.Engine.Disclosure.{use_skill_tool, load_tool_tool}
use marcus.Engine.Keeping.{
  IsKept, IsKept-refl, Saved-Keeps, Keeps, Keeps-same, counted, Keeps-trans,
}
use marcus.Engine.Meta.{ask_user_tool, tools_by_name}
use marcus.Engine.Saved.{
  Saved, Returning-and_then, save_run-Saved, IsSynced, new_row, Returning, Returning-if,
}
use marcus.Engine.State.{Deps, Work, save_run}
use marcus.Errors.{err, plain_status}
use marcus.Executions.{ToolCall}
use marcus.Guardrails.{Violation}
use marcus.Guardrails.Repeats.{check_no_progress}
use marcus.Prelude.Json.{Fields, has, Items}
use marcus.Run.Row.{FieldUpdate, set_active_tool_names, set_active_skill_revision_id}
use marcus.Run.Status.{tier_eq, status_eq}
use marcus.Tools.{Tool, ExecutionOutcome}

module _ (deps : Deps) where
  -- Where a call leads: the run's counters and status are as before.
  abbrev pub CallSpec : Work → ℕ → Work × Control → Type 0
  CallSpec w n r = Keeps w r.0 × (counted r.1 ≤ n)

  pub execute_call-Keeps :
      (now : ℕ) (w : Work) (step_no i : ℕ) (c : ToolCall) (tool : Option Tool)
      → IsSynced w
      → Keeps w (execute_call deps now w step_no i c tool).0
  unfolding execute_call
  execute_call-Keeps now w step_no i c tool s = record {
    synced = record { keyed = s.keyed; current = s.current };
    kept = IsKept-refl w.run;
  }

  active-IsKept :
      (w : Work) (names : List String)
      → IsKept w.run (new_row w none (set_active_tool_names names ∷ []))
  active-IsKept w names = record {
    id = refl;
    status = refl;
    current_step = refl;
    max_steps = refl;
    max_tool_calls = refl;
    tool_calls_used = refl;
  }

  pub skill-IsKept :
      (w : Work) (id : ℕ) (names : List String)
      → IsKept w.run (
          new_row w none
            (set_active_skill_revision_id (some id) ∷ set_active_tool_names names ∷ []))
  skill-IsKept w id names = record {
    id = refl;
    status = refl;
    current_step = refl;
    max_steps = refl;
    max_tool_calls = refl;
    tool_calls_used = refl;
  }

  save_run-Keeps :
      (w0 w : Work) (updates : List FieldUpdate)
      → Keeps w0 w
      → IsKept w.run (new_row w none updates)
      → Returning (CallSpec w0 0) (without_control deps (save_run w none updates))
  save_run-Keeps w0 w updates before kept =
      Returning-and_then (Saved w (new_row w none updates)) (CallSpec w0 0)
        (save_run w none updates) _ (save_run-Saved w none updates before.synced refl)
        (λ w' saved. (Keeps-trans before (Saved-Keeps w _ w' kept saved), omega arith))

  unlock-Keeps :
      (w0 w : Work) (o : Option String) → Keeps w0 w → Returning (CallSpec w0 0) (unlock deps w o)
  unfolding unlock
  unlock-Keeps w0 w none k = (k, omega arith)
  unlock-Keeps w0 w (some name) k =
      Returning-if (CallSpec w0 0) (any (λ n. n == name) w.run.active_tool_names) _ _
        (k, omega arith) (save_run-Keeps w0 w _ k (active-IsKept w _))

  activate-Keeps :
      (w0 w : Work) (required : Items) (revision_id : String) (o : Option ℕ)
      → Keeps w0 w
      → Returning (CallSpec w0 0) (activate deps w required revision_id o)
  unfolding activate
  activate-Keeps w0 w required revision_id none k = refl
  activate-Keeps w0 w required revision_id (some id) k =
      save_run-Keeps w0 w _ k (skill-IsKept w id _)

  activate_from-Keeps :
      (w0 w : Work) (observation : Fields) (o : Option String)
      → Keeps w0 w
      → Returning (CallSpec w0 0) (activate_from deps w observation o)
  unfolding activate_from
  activate_from-Keeps w0 w observation none k = (k, omega arith)
  activate_from-Keeps w0 w observation (some revision_id) k =
      Returning-if (CallSpec w0 0) (has "error" observation) _ _ (k, omega arith)
        (activate-Keeps w0 w (required_of observation) revision_id (deps.parse_id revision_id) k)

  nothing_counted :
      (b : Bool) (x y : Control) → counted x ≤ 0 → counted y ≤ 0 → counted (if b then x else y) ≤ 0
  nothing_counted true x y h k = h
  nothing_counted false x y h k = k

  completed_by-Keeps :
      (w0 : Work) (r : Work × ExecutionOutcome)
      → Keeps w0 r.0
      → Returning (CallSpec w0 0) (completed_by deps r)
  completed_by-Keeps w0 (w, o) k = (
    k,
    nothing_counted (has "error" o.observation) no_control (completes o.observation) (omega arith)
        (omega arith),
  )

  asked_by-Keeps :
      (w0 : Work) (r : Work × ExecutionOutcome)
      → Keeps w0 r.0
      → Returning (CallSpec w0 0) (asked_by deps r)
  asked_by-Keeps w0 (w, o) k = (
    k,
    nothing_counted (has "error" o.observation) no_control (asks_user o.observation) (omega arith)
        (omega arith),
  )

  counted-violated :
      (w : Work) (name : String) (v : Option Violation) → counted (violated deps w name v) ≤ 0
  counted-violated w name none = omega arith
  counted-violated w name (some v) = omega arith

  counted-after_call :
      (c : ToolCall) (r : Work × ExecutionOutcome) → counted (after_call deps c r) ≤ 0
  counted-after_call c (w, o) = ground (
    arith,
    counted-violated w (newest_name deps w)
        (check_no_progress deps.code_of deps.repeat_window w.db.store.executions w.run.id),
  )

  call_real-Keeps :
      (now : ℕ) (w : Work) (step_no i : ℕ) (c : ToolCall) (tool : Option Tool)
      → IsSynced w
      → Returning (CallSpec w 0) (call_real deps now w step_no i c tool)
  unfolding call_real
  call_real-Keeps now w step_no i c tool s =
      Returning-if (CallSpec w 0) (execute_call deps now w step_no i c tool).1.raises
        (err plain_status) _ refl
        (
          execute_call-Keeps now w step_no i c tool s,
          counted-after_call c (execute_call deps now w step_no i c tool),
        )

  call_unless-Keeps :
      (v : Option Violation) (now : ℕ) (w : Work) (step_no i : ℕ) (c : ToolCall) (t : Tool)
      → IsSynced w
      → Returning (CallSpec w 0) (call_unless deps v now w step_no i c t)
  unfolding call_unless
  call_unless-Keeps (some v) now w step_no i c t s = (Keeps-same w s, omega arith)
  call_unless-Keeps none now w step_no i c t s = call_real-Keeps now w step_no i c (some t) s

  call_tool_named-Keeps :
      (now : ℕ) (w : Work) (step_no i : ℕ) (c : ToolCall) (tool : Option Tool)
      → IsSynced w
      → Returning (CallSpec w 0) (call_tool_named deps now w step_no i c tool)
  unfolding call_tool_named
  call_tool_named-Keeps now w step_no i c none s = call_real-Keeps now w step_no i c none s
  call_tool_named-Keeps now w step_no i c (some t) s =
      Returning-if (CallSpec w 0) (is_locked deps w t c) _ _
        (execute_call-Keeps now w step_no i c (some (not_loaded deps t)) s, omega arith)
        (call_unless-Keeps _ now w step_no i c t s)

  loaded_by-Keeps :
      (w0 : Work) (r : Work × ExecutionOutcome)
      → Keeps w0 r.0
      → Returning (CallSpec w0 0) (loaded_by deps r)
  unfolding loaded_by
  loaded_by-Keeps w0 (w, o) k = unlock-Keeps w0 w (text_at "name" o.observation) k

  used_skill-Keeps :
      (w0 : Work) (r : Work × ExecutionOutcome)
      → Keeps w0 r.0
      → Returning (CallSpec w0 0) (used_skill deps r)
  unfolding used_skill
  used_skill-Keeps w0 (w, o) k =
      activate_from-Keeps w0 w o.observation (text_at "revision_id" o.observation) k

  -- Whatever a tool call does, its run keeps its status and its counters.
  pub execute_single_tool_call-Keeps :
      (now : ℕ) (w : Work) (step_no i : ℕ) (c : ToolCall)
      → IsSynced w
      → Returning (CallSpec w 0) (execute_single_tool_call deps now w step_no i c)
  unfolding execute_single_tool_call
  execute_single_tool_call-Keeps now w step_no i c s =
      let call_with : Tool → Work × ExecutionOutcome =
        λ t. execute_call deps now w step_no i c (some t) in
      let ran : (t : Tool) → Keeps w (call_with t).0 =
        λ t. execute_call-Keeps now w step_no i c (some t) s in
      let finish = guarded_finish deps (finish_evidence_error deps w c.arguments) in
      let load = load_tool_tool (catalogs_of deps w) w.run.tenant_id in
      let use_it = use_skill_tool (catalogs_of deps w) w.run.tenant_id in
      let P = CallSpec w 0 in
      Returning-if P (c.name == "finish") _ _ (completed_by-Keeps w (call_with finish) (ran finish))
        (Returning-if P (c.name == "ask_user") _ _
          (asked_by-Keeps w (call_with ask_user_tool) (ran ask_user_tool))
          (Returning-if P (c.name == "list_tool_domains") _ _ (ran _, omega arith)
            (Returning-if P (c.name == "list_domain_tools") _ _ (ran _, omega arith)
              (Returning-if P (c.name == "load_tool") _ _
                (loaded_by-Keeps w (call_with load) (ran load))
                (Returning-if P (c.name == "use_skill") _ _
                  (used_skill-Keeps w (call_with use_it) (ran use_it))
                  (call_tool_named-Keeps now w step_no i c (tools_by_name w.entries c.name) s))))))
