-- ===== src/Executor/Approval.antt =====
-- The approval gate: a human decides before a sensitive or destructive handler runs.
use marcus.Prelude.{String, ◌≡◌, refl, ◌⊎◌, inl, inr, true, false, Option, none, some, arith}
use marcus.Executions.{
  ApprovalRequest, get_approval, Store, ToolExecution, ToolCall, Key, get_existing,
}
use marcus.Approvals.{decide, Services, gate_on, check_approval, refused_by}
use marcus.Executor.{
  recover_started, start_fresh, Prepared, write_ahead, prepare_tool, prepare, resolve_status,
  after_gate, resolve_existing, run_prepared, settled, ready, execute, safe_to_retry,
}
use marcus.Guardrails.{requires_approval}
use marcus.Prelude.Json.{Fields}
use marcus.Run.Status.{
  expired, unknown, approved, pending, rejected, ApprovalStatus, succeeded, started,
  ToolExecutionStatus,
}
use marcus.Tools.{Tool}

module _ (services : Services) where
  abbrev IsApproved : Key → Store → Type 0
  IsApproved k s =
      (a : ApprovalRequest) × (get_approval k s.approvals ≡ some a) × (a.status ≡ approved)

  -- Nothing new has reached the world, or the call was approved.
  abbrev GatedSpec : Key → Store → Prepared → Type 0
  GatedSpec k s (settled s' o) = s'.invoked ≡ s.invoked
  GatedSpec k s (ready s' e) = IsApproved k s

  refused_gated :
      (s : Store) (k : Key) (t : Tool) (arguments : Fields) (a : ApprovalRequest)
      (value : Option String)
      → GatedSpec k s
          (after_gate services k t arguments (refused_by services s k t arguments a value))
  unfolding after_gate
  refused_gated s k t arguments a none = refl
  refused_gated s k t arguments a (some status) = refl

  decide_gated :
      (s : Store) (k : Key) (t : Tool) (arguments : Fields) (a : ApprovalRequest)
      (st : ApprovalStatus)
      → get_approval k s.approvals ≡ some a
      → a.status ≡ st
      → GatedSpec k s (after_gate services k t arguments (decide services s k t arguments a st))
  unfolding decide after_gate write_ahead
  decide_gated s k t arguments a pending found is = refl
  decide_gated s k t arguments a approved found is = (a, found, is)
  decide_gated s k t arguments a rejected found is =
      refused_gated s k t arguments a (services.status_value a)
  decide_gated s k t arguments a expired found is =
      refused_gated s k t arguments a (services.status_value a)

  gate_on_gated :
      (s : Store) (k : Key) (t : Tool) (arguments : Fields) (o : Option ApprovalRequest)
      → get_approval k s.approvals ≡ o
      → GatedSpec k s (after_gate services k t arguments (gate_on services s k t arguments o))
  unfolding gate_on after_gate
  gate_on_gated s k t arguments none found = refl
  gate_on_gated s k t arguments (some a) found = decide_gated s k t arguments a a.status found refl

  start_fresh_gated :
      (s : Store) (k : Key) (call : ToolCall) (t : Tool) (v : Fields ⊎ String × String)
      → requires_approval t.risk_tier ≡ true
      → GatedSpec k s (start_fresh services s k call t v)
  unfolding start_fresh check_approval
  start_fresh_gated s k call t (inr (code, message)) gated = refl
  start_fresh_gated s k call t (inl arguments) gated =
      rw gated (gate_on_gated s k t arguments (get_approval k s.approvals) refl)

  -- A gated row in status `started` is not safe to repeat.
  gated_unsafe :
      (e : ToolExecution) → requires_approval e.risk_tier ≡ true → safe_to_retry e ≡ false
  unfolding requires_approval safe_to_retry
  gated_unsafe e h = ground arith

  resolve_gated :
      (s : Store) (k : Key) (e : ToolExecution) (st : ToolExecutionStatus)
      → requires_approval e.risk_tier ≡ true
      → GatedSpec k s (resolve_status services st s e)
  unfolding resolve_status recover_started
  resolve_gated s k e succeeded h = refl
  resolve_gated s k e ToolExecutionStatus.failed h = refl
  resolve_gated s k e unknown h = refl
  resolve_gated s k e started h = rw (gated_unsafe e h)

  prepare_tool_gated :
      (s : Store) (k : Key) (call : ToolCall) (t : Tool) (o : Option ToolExecution)
      → requires_approval t.risk_tier ≡ true
      → ((e : ToolExecution) → o ≡ some e → requires_approval e.risk_tier ≡ true)
      → GatedSpec k s (prepare_tool services s k call t o)
  unfolding prepare_tool resolve_existing
  prepare_tool_gated s k call t none gated rows =
      start_fresh_gated s k call t (services.normalize t.parameters call.arguments) gated
  prepare_tool_gated s k call t (some e) gated rows = resolve_gated s k e e.status (rows e refl)

  run_gated :
      (s : Store) (k : Key) (t : Tool) (p : Prepared)
      → GatedSpec k s p
      → IsApproved k s ⊎ ((run_prepared services (some t) p).0.invoked ≡ s.invoked)
  unfolding run_prepared
  run_gated s k t (settled s' o) spec = inr spec
  run_gated s k t (ready s' e) spec = inl spec

  -- Executing a call of a tool that needs approval, whatever row its key has from before (of a tier
  -- that needs approval too, as it has when it was written for this call): unless an approval request
  -- of the call has been approved, no handler runs.
  pub handler_needs_approval :
      (s : Store) (k : Key) (call : ToolCall) (t : Tool)
      → requires_approval t.risk_tier ≡ true
      → ((e : ToolExecution)
          → get_existing k s.executions ≡ some e
          → requires_approval e.risk_tier ≡ true)
      → IsApproved k s ⊎ ((execute services s k call (some t)).0.invoked ≡ s.invoked)
  unfolding execute prepare
  handler_needs_approval s k call t gated rows =
      run_gated s k t (prepare services s k call (some t))
        (prepare_tool_gated s k call t (get_existing k s.executions) gated rows)
