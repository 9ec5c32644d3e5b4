-- ===== src/Executor/Replay.antt =====
-- Replay: a call that has come to an outcome keeps it.
use mathlib.Core.Option.{some-injective}
use mathlib.Core.Path.{subst}
use marcus.Prelude.{
  length, String, ◌≡◌, refl, false, none, some, arith, Bool-cases, sym, ap, ◌⊎◌, inl, inr, Option,
  ◌||◌,
}
use marcus.Executions.{
  ApprovalRequest, Store, ToolExecution, Key, get_existing, new_execution, add_execution, ToolCall,
  get_approval,
}
use marcus.Executions.Rows.{get_existing-add_self, get_existing-save_self, key-get_existing}
use marcus.Approvals.{decide, Services, denial_text, gate_on, check_approval, refused_by}
use marcus.Executor.{
  reach, Prepared, finalize, write_ahead, after_gate, settled, ready, invoke_and_finalize,
  resolve_existing, recover_started, prepare_tool, run_prepared, crashed_text, resolve_status,
  start_fresh, is_fatal_tier, execute, safe_to_retry, prepare, record_invalid_arguments,
}
use marcus.Executor.Prepare.{is_started}
use marcus.Guardrails.{requires_approval}
use marcus.Prelude.Json.{Fields, end}
use marcus.Run.Status.{
  expired, approved, pending, rejected, ApprovalStatus, succeeded, started, ToolExecutionStatus,
  unknown,
}
use marcus.Tools.{
  ExecutionOutcome, returned, Tool, HandlerResult, success_observation, observed, runtime_error,
  other_error,
}

module _ (services : Services) where
  open services use {id_text}

  abbrev stored_result : ToolExecution → Fields
  stored_result e = elim e.result [ none ↦ end | some r ↦ r ]

  -- The call's row after an outcome that is neither a request for approval nor an exception.
  abbrev pub HasRow : Key → Store → ExecutionOutcome → ToolExecution → Type 0
  HasRow k s o e =
      (get_existing k s.executions ≡ some e)
      × (is_started e.status ≡ false)
      × (e.status ≡ succeeded → o ≡ observed (success_observation id_text (stored_result e) e.id))

  abbrev Finished : Key → Store → ExecutionOutcome → Type 0
  Finished k s o = (o.needs_approval || o.raises) ≡ false → (e : ToolExecution) × HasRow k s o e

  abbrev FinishedSpec : Key → Tool → Prepared → Type 0
  FinishedSpec k t (settled s' o) = Finished k s' o
  FinishedSpec k t (ready s' e) = let r = invoke_and_finalize services s' e t in Finished k r.0 r.1

  finalize-Finished :
      (s : Store) (e : ToolExecution) (t : Tool) (r : HandlerResult)
      → get_existing e.key s.executions ≡ some e
      → let f = finalize services s e t r in Finished e.key f.0 f.1
  unfolding finalize
  finalize-Finished s e t (returned v) found no_gate =
      let e' : ToolExecution = record e {
        status = succeeded;
        result = some (services.truncate v);
      } in
      (e', (get_existing-save_self e' e s.executions found, refl, λ h. refl))
  finalize-Finished s e t (runtime_error m c b) found no_gate =
      let e' : ToolExecution = record e { status = ToolExecutionStatus.failed; error = some m } in
      (e', (get_existing-save_self e' e s.executions found, refl, λ h. ground arith))
  finalize-Finished s e t (other_error m) found no_gate =
      let e' : ToolExecution = record e { status = ToolExecutionStatus.failed; error = some m } in
      (e', (get_existing-save_self e' e s.executions found, refl, λ h. ground arith))

  invoke-Finished :
      (s : Store) (e : ToolExecution) (t : Tool)
      → get_existing e.key s.executions ≡ some e
      → let f = invoke_and_finalize services s e t in Finished e.key f.0 f.1
  unfolding invoke_and_finalize
  invoke-Finished s e t found =
      finalize-Finished (reach services s e) e t (t.handler (length s.invoked) e.args) found

  failed-Finished :
      (s : Store) (k : Key) (t : Tool) (arguments : Fields) (message : String)
      (o : ExecutionOutcome)
      → Finished k
          (add_execution s
            (new_execution s k t arguments ToolExecutionStatus.failed (some message)))
          o
  failed-Finished s k t arguments message o no_gate =
      let e = new_execution s k t arguments ToolExecutionStatus.failed (some message) in
      (e, (get_existing-add_self e s.executions, refl, λ h. ground arith))

  write_ahead-Finished :
      (s : Store) (k : Key) (t : Tool) (arguments : Fields)
      → FinishedSpec k t (write_ahead services s k t arguments)
  unfolding write_ahead
  write_ahead-Finished s k t arguments =
      let e = new_execution s k t arguments started none in
      invoke-Finished (add_execution s e) e t (get_existing-add_self e s.executions)

  refused-Finished :
      (s : Store) (k : Key) (t : Tool) (arguments : Fields) (a : ApprovalRequest)
      (value : Option String)
      → FinishedSpec k t
          (after_gate services k t arguments (refused_by services s k t arguments a value))
  unfolding after_gate
  refused-Finished s k t arguments a none = λ h. cc
  refused-Finished s k t arguments a (some status) =
      failed-Finished s k t arguments (denial_text services a status) _

  decide-Finished :
      (s : Store) (k : Key) (t : Tool) (arguments : Fields) (a : ApprovalRequest)
      (st : ApprovalStatus)
      → FinishedSpec k t (after_gate services k t arguments (decide services s k t arguments a st))
  unfolding decide after_gate
  decide-Finished s k t arguments a pending = λ h. cc
  decide-Finished s k t arguments a approved = write_ahead-Finished s k t arguments
  decide-Finished s k t arguments a rejected =
      refused-Finished s k t arguments a (services.status_value a)
  decide-Finished s k t arguments a expired =
      refused-Finished s k t arguments a (services.status_value a)

  gate_on-Finished :
      (s : Store) (k : Key) (t : Tool) (arguments : Fields) (o : Option ApprovalRequest)
      → FinishedSpec k t (after_gate services k t arguments (gate_on services s k t arguments o))
  unfolding gate_on after_gate
  gate_on-Finished s k t arguments none = λ h. cc
  gate_on-Finished s k t arguments (some a) = decide-Finished s k t arguments a a.status

  start_fresh-Finished :
      (s : Store) (k : Key) (call : ToolCall) (t : Tool) (v : Fields ⊎ String × String)
      → FinishedSpec k t (start_fresh services s k call t v)
  unfolding start_fresh check_approval record_invalid_arguments
  start_fresh-Finished s k call t (inr (code, message)) =
      failed-Finished s k t call.arguments message _
  start_fresh-Finished s k call t (inl arguments) =
      elim (Bool-cases (requires_approval t.risk_tier)) [
        | inl gated ↦ rw gated (gate_on-Finished s k t arguments (get_approval k s.approvals))
        | inr free ↦ rw free (write_ahead-Finished s k t arguments)
      ]

  recover_started-Finished :
      (s : Store) (e : ToolExecution) (t : Tool)
      → get_existing e.key s.executions ≡ some e
      → FinishedSpec e.key t (recover_started services s e)
  unfolding recover_started
  recover_started-Finished s e t found = elim (Bool-cases (safe_to_retry e)) [
    | inl safe ↦ rw safe (invoke-Finished s e t found)
    | inr never ↦ rw never (λ no_gate.
        let e' : ToolExecution = record e {
          status = unknown;
          error = some (crashed_text services (is_fatal_tier services e.risk_tier));
        } in
        (e', (get_existing-save_self e' e s.executions found, refl, λ h. ground arith)))
  ]

  resolve_status-Finished :
      (s : Store) (e : ToolExecution) (t : Tool) (st : ToolExecutionStatus)
      → get_existing e.key s.executions ≡ some e
      → e.status ≡ st
      → FinishedSpec e.key t (resolve_status services st s e)
  unfolding resolve_status
  resolve_status-Finished s e t succeeded found is =
      λ no_gate. (e, (found, ap is_started is, λ h. refl))
  resolve_status-Finished s e t ToolExecutionStatus.failed found is =
      λ no_gate. (e, (found, ap is_started is, λ h. ground arith))
  resolve_status-Finished s e t unknown found is =
      λ no_gate. (e, (found, ap is_started is, λ h. ground arith))
  resolve_status-Finished s e t started found is = recover_started-Finished s e t found

  prepare_tool-Finished :
      (s : Store) (k : Key) (call : ToolCall) (t : Tool) (o : Option ToolExecution)
      → get_existing k s.executions ≡ o
      → FinishedSpec k t (prepare_tool services s k call t o)
  unfolding prepare_tool resolve_existing
  prepare_tool-Finished s k call t none missing =
      start_fresh-Finished s k call t (services.normalize t.parameters call.arguments)
  prepare_tool-Finished s k call t (some e) found =
      let own : e.key ≡ k = key-get_existing k e s.executions found in
      subst (λ j. FinishedSpec j t (resolve_status services e.status s e)) own
        (resolve_status-Finished s e t e.status
          (subst (λ j. get_existing j s.executions ≡ some e) (sym own) found) refl)

  run-Finished :
      (k : Key) (t : Tool) (p : Prepared)
      → FinishedSpec k t p
      → let r = run_prepared services (some t) p in Finished k r.0 r.1
  unfolding run_prepared
  run-Finished k t (settled s' o) spec = spec
  run-Finished k t (ready s' e) spec = spec

  execute-Finished :
      (s : Store) (k : Key) (call : ToolCall) (t : Tool)
      → let r = execute services s k call (some t) in Finished k r.0 r.1
  unfolding execute prepare
  execute-Finished s k call t =
      run-Finished k t (prepare services s k call (some t))
        (prepare_tool-Finished s k call t (get_existing k s.executions) refl)

  resolve_over :
      (s : Store) (e : ToolExecution) (t : Tool) (o : ExecutionOutcome) (st : ToolExecutionStatus)
      → is_started st ≡ false
      → (st ≡ succeeded → o ≡ observed (success_observation id_text (stored_result e) e.id))
      → let r = run_prepared services (some t) (resolve_status services st s e) in
        (r.0 ≡ s) × (st ≡ succeeded → r.1 ≡ o)
  unfolding run_prepared resolve_status
  resolve_over s e t o succeeded over same = (refl, λ h. sym (same h))
  resolve_over s e t o ToolExecutionStatus.failed over same = (refl, λ h. ground arith)
  resolve_over s e t o unknown over same = (refl, λ h. ground arith)
  resolve_over s e t o started over same = cc

  prepare_tool_over :
      (s : Store) (k : Key) (call : ToolCall) (t : Tool) (x : Option ToolExecution)
      (e : ToolExecution)
      → x ≡ some e
      → prepare_tool services s k call t x ≡ resolve_status services e.status s e
  unfolding prepare_tool resolve_existing
  prepare_tool_over s k call t none e h = cc
  prepare_tool_over s k call t (some y) e h =
      ap (λ (z : ToolExecution). resolve_status services z.status s z) (some-injective _ _ h)

  -- A row that is not `started` settles its call for any later attempt.
  settled_row :
      (s : Store) (k : Key) (call : ToolCall) (t : Tool) (o : ExecutionOutcome) (e : ToolExecution)
      → HasRow k s o e
      → ((execute services s k call (some t)).0 ≡ s)
        × (e.status ≡ succeeded → (execute services s k call (some t)).1 ≡ o)
  unfolding execute prepare
  settled_row s k call t o e (found, over, same) =
      rw (prepare_tool_over s k call t (get_existing k s.executions) e found)
        (resolve_over s e t o e.status over same)

  -- Once a call has come to an outcome that is no request for approval, and has not raised, its row is
  -- over; the next attempt at the same key, with whatever call and tool, changes nothing and runs no
  -- handler, and if the call had succeeded it returns the same outcome.
  pub replay_is_silent :
      (s : Store) (k : Key) (call again : ToolCall) (t u : Tool)
      → ((execute services s k call (some t)).1.needs_approval
          || (execute services s k call (some t)).1.raises)
        ≡ false
      → let (s', o) = execute services s k call (some t) in
        (e : ToolExecution) × (get_existing k s'.executions ≡ some e)
        × (is_started e.status ≡ false)
        × ((execute services s' k again (some u)).0 ≡ s')
        × (e.status ≡ succeeded → (execute services s' k again (some u)).1 ≡ o)
  replay_is_silent s k call again t u no_gate =
      let (e, has) = execute-Finished s k call t no_gate in
      let (s', o) = execute services s k call (some t) in
      let later = settled_row s' k again u o e has in (e, has.0, has.1, later.0, later.1)
