-- ===== src/Executor/Prepare.antt =====
-- What `_execute_inner` does to the tables before a handler runs, for every state of them.
use mathlib.Core.Path.{subst}
use marcus.Prelude.{
  Bool-cases, length, String, ◌≡◌, refl, sym, ap, ◌≢◌, ◌⊎◌, inl, inr, Bool, true, false, Option,
  none, some, ◌∷◌,
}
use marcus.Executions.{
  get_approval, ToolExecution, ToolCall, ApprovalRequest, save_execution, Store, new_execution,
  get_existing, add_execution, Key,
}
use marcus.Executions.Rows.{
  key-get_existing, get_existing-save_self, get_existing-add_self, get_existing-add_ne,
  get_existing-save_ne,
}
use marcus.Approvals.{decide, new_approval, denial_text, Services, gate_on, refused_by}
use marcus.Executor.{
  settled, write_ahead, start_fresh, after_gate, record_unknown_tool, is_fatal_tier, safe_to_retry,
  crashed_text, ready, recover_started, prepare, resolve_existing, resolve_status, prepare_tool,
  Prepared,
}
use marcus.Guardrails.{requires_approval}
use marcus.Prelude.Json.{Fields}
use marcus.Prelude.Texts.{concat}
use marcus.Run.Status.{
  rejected, expired, started, ApprovalStatus, approved, succeeded, read_only, pending,
  ToolExecutionStatus, unknown,
}
use marcus.Tools.{Tool}

abbrev pub is_started : ToolExecutionStatus → Bool
is_started started = true
is_started _ = false

module _ (services : Services) where
  -- An outcome without a handler call: of the call's own row, nothing or a row that is over.
  abbrev pub SettledSpec : Key → Store → Store → Type 0
  SettledSpec k s s' =
      (s'.invoked ≡ s.invoked)
      × ((j : Key) → k ≢ j → get_existing j s'.executions ≡ get_existing j s.executions)
      × ((get_existing k s'.executions ≡ get_existing k s.executions)
          ⊎ ((e : ToolExecution) × (get_existing k s'.executions ≡ some e)
              × (is_started e.status ≡ false)))

  -- What `prepare` may do, for the call with key `k`.
  abbrev pub PrepareSpec : Key → Option Tool → Store → Prepared → Type 0
  PrepareSpec k tool s (settled s' o) = SettledSpec k s s'
  PrepareSpec k tool s (ready s' e) =
      (s'.invoked ≡ s.invoked)
      × (e.key ≡ k)
      × ((j : Key) → k ≢ j → get_existing j s'.executions ≡ get_existing j s.executions)
      × (((get_existing k s.executions ≡ some e)
            × (safe_to_retry e ≡ true)
            × (is_started e.status ≡ true)
            × (s' ≡ s))
          ⊎ ((get_existing k s.executions ≡ none)
              × ((t : Tool) × (tool ≡ some t)
                  × (e.risk_tier ≡ t.risk_tier)
                  × (e.idempotent ≡ t.idempotent)
                  × (get_existing k s'.executions ≡ some e))))

  unchanged_spec :
      (k : Key) (s s' : Store)
      → s'.invoked ≡ s.invoked
      → s'.executions ≡ s.executions
      → SettledSpec k s s'
  unchanged_spec k s s' same_world same_rows =
      (same_world, λ j ne. ap (get_existing j) same_rows, inl (ap (get_existing k) same_rows))

  added_spec :
      (e : ToolExecution) (s : Store)
      → is_started e.status ≡ false
      → SettledSpec e.key s (add_execution s e)
  added_spec e s over = (
    refl,
    λ j ne. get_existing-add_ne j e s.executions ne,
    inr (e, get_existing-add_self e s.executions, over),
  )

  saved_spec :
      (e x : ToolExecution) (s : Store)
      → get_existing e.key s.executions ≡ some x
      → is_started e.status ≡ false
      → SettledSpec e.key s (record s { executions = save_execution e s.executions })
  saved_spec e x s found over = (
    refl,
    λ j ne. get_existing-save_ne j e s.executions ne,
    inr (e, get_existing-save_self e x s.executions found, over),
  )

  failed_spec :
      (s : Store) (k : Key) (t : Tool) (arguments : Fields) (message : String)
      → SettledSpec k s (
          add_execution s (new_execution s k t arguments ToolExecutionStatus.failed (some message)))
  failed_spec s k t arguments message =
      added_spec (new_execution s k t arguments ToolExecutionStatus.failed (some message)) s refl

  record_unknown_tool-spec :
      (s : Store) (k : Key) (call : ToolCall) (o : Option ToolExecution)
      → SettledSpec k s (record_unknown_tool services s k call o).0
  unfolding record_unknown_tool
  record_unknown_tool-spec s k call none =
      added_spec
        (record {
          id = length s.executions;
          key = k;
          tool_name = call.name;
          mcp_server_id = none;
          risk_tier = read_only;
          idempotent = false;
          args = call.arguments;
          status = ToolExecutionStatus.failed;
          result = none;
          error = some (concat "unknown tool: " call.name);
        })
        s refl
  record_unknown_tool-spec s k call (some e) = unchanged_spec k s s refl refl

  recover_started-spec :
      (s : Store) (e : ToolExecution) (tool : Option Tool)
      → get_existing e.key s.executions ≡ some e
      → e.status ≡ started
      → PrepareSpec e.key tool s (recover_started services s e)
  unfolding recover_started
  recover_started-spec s e tool found open' = elim (Bool-cases (safe_to_retry e)) [
    | inl safe ↦ rw safe (refl, refl, λ j ne. refl, inl (found, safe, ap is_started open', refl))
    | inr unsafe ↦ rw unsafe (
        saved_spec
          (record e {
            status = unknown;
            error = some (crashed_text services (is_fatal_tier services e.risk_tier));
          })
          e s found refl)
  ]

  resolve_status-spec :
      (s : Store) (e : ToolExecution) (tool : Option Tool) (st : ToolExecutionStatus)
      → get_existing e.key s.executions ≡ some e
      → e.status ≡ st
      → PrepareSpec e.key tool s (resolve_status services st s e)
  unfolding resolve_status
  resolve_status-spec s e tool succeeded found is = unchanged_spec e.key s s refl refl
  resolve_status-spec s e tool ToolExecutionStatus.failed found is =
      unchanged_spec e.key s s refl refl
  resolve_status-spec s e tool unknown found is = unchanged_spec e.key s s refl refl
  resolve_status-spec s e tool started found is = recover_started-spec s e tool found is

  write_ahead-spec :
      (s : Store) (k : Key) (t : Tool) (arguments : Fields)
      → get_existing k s.executions ≡ none
      → PrepareSpec k (some t) s (write_ahead services s k t arguments)
  unfolding write_ahead
  write_ahead-spec s k t arguments missing =
      let e = new_execution s k t arguments started none in
      (
        refl,
        refl,
        λ j ne. get_existing-add_ne j e s.executions ne,
        inr (missing, (t, refl, refl, refl, get_existing-add_self e s.executions)),
      )

  refused_by-spec :
      (s : Store) (k : Key) (t : Tool) (arguments : Fields) (a : ApprovalRequest)
      (value : Option String)
      → PrepareSpec k
          (some t)
          s
          (after_gate services k t arguments (refused_by services s k t arguments a value))
  unfolding after_gate
  refused_by-spec s k t arguments a none = unchanged_spec k s s refl refl
  refused_by-spec s k t arguments a (some status) =
      failed_spec s k t arguments (denial_text services a status)

  decide-spec :
      (s : Store) (k : Key) (t : Tool) (arguments : Fields) (a : ApprovalRequest)
      (st : ApprovalStatus)
      → get_existing k s.executions ≡ none
      → PrepareSpec k
          (some t)
          s
          (after_gate services k t arguments (decide services s k t arguments a st))
  unfolding decide after_gate
  decide-spec s k t arguments a pending missing = unchanged_spec k s s refl refl
  decide-spec s k t arguments a approved missing = write_ahead-spec s k t arguments missing
  decide-spec s k t arguments a rejected missing =
      refused_by-spec s k t arguments a (services.status_value a)
  decide-spec s k t arguments a expired missing =
      refused_by-spec s k t arguments a (services.status_value a)

  gate_on-spec :
      (s : Store) (k : Key) (t : Tool) (arguments : Fields) (o : Option ApprovalRequest)
      → get_existing k s.executions ≡ none
      → PrepareSpec k
          (some t)
          s
          (after_gate services k t arguments (gate_on services s k t arguments o))
  unfolding gate_on after_gate
  gate_on-spec s k t arguments none missing =
      unchanged_spec k s
        (record s { approvals = new_approval services k t arguments ∷ s.approvals }) refl refl
  gate_on-spec s k t arguments (some a) missing = decide-spec s k t arguments a a.status missing

  start_fresh-spec :
      (s : Store) (k : Key) (call : ToolCall) (t : Tool) (v : Fields ⊎ String × String)
      → get_existing k s.executions ≡ none
      → PrepareSpec k (some t) s (start_fresh services s k call t v)
  unfolding start_fresh
  start_fresh-spec s k call t (inr (code, message)) missing =
      failed_spec s k t call.arguments message
  start_fresh-spec s k call t (inl arguments) missing =
      elim (Bool-cases (requires_approval t.risk_tier)) [
        | inl gated ↦ rw gated (gate_on-spec s k t arguments (get_approval k s.approvals) missing)
        | inr free ↦ rw free (write_ahead-spec s k t arguments missing)
      ]

  prepare_tool-spec :
      (s : Store) (k : Key) (call : ToolCall) (t : Tool) (o : Option ToolExecution)
      → get_existing k s.executions ≡ o
      → PrepareSpec k (some t) s (prepare_tool services s k call t o)
  unfolding prepare_tool
  prepare_tool-spec s k call t none missing =
      start_fresh-spec s k call t (services.normalize t.parameters call.arguments) missing
  prepare_tool-spec s k call t (some e) found =
      let own : e.key ≡ k = key-get_existing k e s.executions found in
      subst (λ j. PrepareSpec j (some t) s (resolve_existing services s e)) own
        (resolve_status-spec s e (some t) e.status
          (subst (λ j. get_existing j s.executions ≡ some e) (sym own) found) refl)

  -- Whatever the tables hold, a call is settled without its handler, or is ready to run it.
  pub prepare-spec :
      (s : Store) (k : Key) (call : ToolCall) (tool : Option Tool)
      → PrepareSpec k tool s (prepare services s k call tool)
  unfolding prepare
  prepare-spec s k call none = record_unknown_tool-spec s k call (get_existing k s.executions)
  prepare-spec s k call (some t) = prepare_tool-spec s k call t (get_existing k s.executions) refl
