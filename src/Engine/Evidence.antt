-- ===== src/Engine/Evidence.antt =====
-- `finish` in harness/runtime/engine.py: no success is claimed over a failure that stands.
-- The most recent real call of a run succeeded, or there is none.
use marcus.Prelude.{
  String, ◌≡◌, ◌⊎◌, true, Option, none, some, Bool-cases, refl, inl, inr, arith, ℕ, false, sym, ◌∙◌,
}
use marcus.Engine.Calls.{
  finish_evidence_error, guarded_finish, completed_by, execute_single_tool_call, evidence_gap,
  execute_call,
}
use marcus.Engine.Control.{latest_execution, completes}
use marcus.Engine.State.{Work, Deps}
use marcus.Errors.{ok}
use marcus.Executions.{Key, get_existing, ToolExecution, Store, ToolCall}
use marcus.Approvals.{Services}
use marcus.Executor.{
  prepare_tool, run_prepared, execute, prepare, start_fresh, write_ahead, invoke_and_finalize,
  finalize, record_invalid_arguments,
}
use marcus.Guardrails.{requires_approval}
use marcus.Prelude.Json.{Fields, has, has_text}
use marcus.Run.Status.{succeeded}
use marcus.Tools.{ExecutionOutcome}

abbrev pub IsResolved : Option ToolExecution → Type 0
IsResolved none = Unit
IsResolved (some e) = e.status ≡ succeeded

abbrev pub HasEvidence : Work → Fields → Type 0
HasEvidence w arguments =
    (has_text "outcome" "failed" arguments ≡ true)
    ⊎ IsResolved (latest_execution w.run.id w.db.store.executions)

module _ (deps : Deps) where
  evidence_gap-IsResolved : (o : Option ToolExecution) → evidence_gap deps o ≡ none → IsResolved o
  evidence_gap-IsResolved none h = tt
  evidence_gap-IsResolved (some e) h = ground (arith, h)

  no_error-HasEvidence :
      (w : Work) (arguments : Fields)
      → finish_evidence_error deps w arguments ≡ none
      → HasEvidence w arguments
  unfolding finish_evidence_error
  no_error-HasEvidence w arguments h = elim (Bool-cases (has_text "outcome" "failed" arguments)) [
    | inl hit ↦ inl hit
    | inr miss ↦ inr (evidence_gap-IsResolved _ (ground (arith, h, miss)))
  ]

  raising_start :
      (services : Services) (s : Store) (k : Key) (c : ToolCall) (message : String)
      (v : Fields ⊎ String × String)
      → let t = guarded_finish deps (some message) in
        has "error" (run_prepared services (some t) (start_fresh services s k c t v)).1.observation
        ≡ true
  unfolding run_prepared start_fresh requires_approval record_invalid_arguments write_ahead
      invoke_and_finalize finalize
  raising_start services s k c message (inr (code, error)) = refl
  raising_start services s k c message (inl arguments) = refl

  -- A handler that raises leaves an error in the observation, when its call has no row yet.
  raising-observation :
      (services : Services) (s : Store) (k : Key) (c : ToolCall) (message : String)
      → get_existing k s.executions ≡ none
      → let t = guarded_finish deps (some message) in
        has "error" (execute services s k c (some t)).1.observation ≡ true
  unfolding execute prepare prepare_tool
  raising-observation services s k c message missing = rw missing (
      raising_start services s k c message
        (services.normalize (guarded_finish deps (some message)).parameters c.arguments))

  completed_by-lem :
      (r : Work × ExecutionOutcome) (w' : Work) (fields : Fields)
      → completed_by deps r ≡ ok (w', completes fields)
      → has "error" r.1.observation ≡ false
  completed_by-lem (w, o) w' fields h = elim (Bool-cases (has "error" o.observation)) [
    | inl hit ↦ ground (arith, h, hit)
    | inr miss ↦ miss
  ]

  guarded-HasEvidence :
      (now : ℕ) (w : Work) (step_no position : ℕ) (c : ToolCall) (o : Option String)
      → get_existing
          (record { run_id = w.run.id; step_no = step_no; call_index = position })
          w.db.store.executions
        ≡ none
      → has "error"
          (execute_call deps now w step_no position c (some (guarded_finish deps o))).1.observation
        ≡ false
      → o ≡ none
  unfolding execute_call
  guarded-HasEvidence now w step_no position c none fresh h = refl
  guarded-HasEvidence now w step_no position c (some message) fresh h =
      let raised =
        raising-observation (record deps.services { now = now }) w.db.store
          (record { run_id = w.run.id; step_no = step_no; call_index = position }) c message
          fresh in
      cc

  -- A call of `finish` that has no row yet, so that it is no replay after a crash, completes its run
  -- only if it says that the outcome is a failure, or if the most recent call of a real tool
  -- succeeded, or if there was none.
  pub finish_needs_evidence :
      (now : ℕ) (w w' : Work) (step_no position : ℕ) (c : ToolCall) (fields : Fields)
      → c.name ≡ "finish"
      → get_existing
          (record { run_id = w.run.id; step_no = step_no; call_index = position })
          w.db.store.executions
        ≡ none
      → execute_single_tool_call deps now w step_no position c ≡ ok (w', completes fields)
      → HasEvidence w c.arguments
  unfolding execute_single_tool_call
  finish_needs_evidence now w w' step_no position c fields named fresh h =
      let finished : execute_single_tool_call deps now w step_no position c
          ≡ completed_by deps (
              execute_call deps now w step_no position c
                (some (guarded_finish deps (finish_evidence_error deps w c.arguments)))) =
        rw named refl in
      let ended : completed_by deps (
            execute_call deps now w step_no position c
              (some (guarded_finish deps (finish_evidence_error deps w c.arguments))))
          ≡ ok (w', completes fields) =
        sym finished ∙ h in
      no_error-HasEvidence w c.arguments (
        guarded-HasEvidence now w step_no position c (finish_evidence_error deps w c.arguments)
          fresh
          (completed_by-lem
            (execute_call deps now w step_no position c
              (some (guarded_finish deps (finish_evidence_error deps w c.arguments))))
            w' fields ended))
