-- ===== src/Approvals.antt =====
-- harness/runtime/tool_executor.py: the approval gate, what the executor takes from elsewhere, and
-- the outcome of a call that fails.
use marcus.Prelude.{
  ℕ, if◌then◌else◌, ◌==◌, ◌+◌, String, ◌⊎◌, Bool, true, false, Option, none, some, ◌∷◌, nat_eq,
  string_eq,
}
use marcus.Executions.{
  ApprovalRequest, Key, ToolExecution, new_execution, get_approval, add_execution, Store, key_eq,
}
use marcus.Prelude.Json.{Json, Fields, end}
use marcus.Prelude.Texts.{concat}
use marcus.Run.Status.{
  ApprovalStatus, expired, ToolExecutionStatus, rejected, approved, pending, status_eq, tier_eq,
}
use marcus.Tools.{ExecutionOutcome, code_text, Tool, error_observation, approval_denied, observed}

-- What the executor takes from elsewhere: the validation of arguments against a JSON schema (its
-- error has a code and a text), the truncation of results, the clock, and the text of an id. `status_value` is
-- `approval.status.value`, none where it raises: the column is one of texts, so a session that has read
-- the row has a plain text, which has no value, and one that has written it the enum member.
pub record Services : Type 0 where
  pub normalize : Fields → Fields → Fields ⊎ String × String
  pub truncate : Json → Fields
  pub now : ℕ
  pub approval_expiry : ℕ
  pub id_text : ℕ → String
  pub status_value : ApprovalRequest → Option String

module _ (services : Services) where
  open services use {now, approval_expiry, id_text, status_value}

  abbrev pub failed_outcome : ToolExecution → String → String → Bool → ExecutionOutcome
  failed_outcome e message code retryable =
      observed (error_observation id_text message code retryable e.id)

  abbrev pub denial_text : ApprovalRequest → String → String
  denial_text a status =
      let base = concat (concat "tool call was " status) " by approver" in
      elim a.reason [ none ↦ base | some r ↦ if r == "" then base else concat (concat base ": ") r ]

  abbrev pub denied : Store → Key → Tool → Fields → String → Store × ExecutionOutcome
  denied s k tool arguments message =
      let e = new_execution s k tool arguments ToolExecutionStatus.failed (some message) in
      (add_execution s e, failed_outcome e message (code_text approval_denied) false)

  -- A request that is neither pending nor approved, by the value of its status: where that raises, no
  -- row is written.
  abbrev pub refused_by :
      Store
      → Key
      → Tool
      → Fields
      → ApprovalRequest
      → Option String
      → Store × Option ExecutionOutcome
  refused_by s k tool arguments a none = (
    s,
    some (record {
      observation = end;
      fatal = false;
      fatal_reason = none;
      needs_approval = false;
      raises = true;
    }),
  )
  refused_by s k tool arguments a (some status) =
      let (s', o) = denied s k tool arguments (denial_text a status) in (s', some o)

  -- What `_check_approval` does with the request it finds or makes; `none` means approved.
  unfoldable pub decide :
      Store
      → Key
      → Tool
      → Fields
      → ApprovalRequest
      → ApprovalStatus
      → Store × Option ExecutionOutcome
  decide s k tool arguments a pending = (
    s,
    some (record {
      observation = end;
      fatal = false;
      fatal_reason = none;
      needs_approval = true;
      raises = false;
    }),
  )
  decide s k tool arguments a approved = (s, none)
  decide s k tool arguments a rejected = refused_by s k tool arguments a (status_value a)
  decide s k tool arguments a expired = refused_by s k tool arguments a (status_value a)

  abbrev pub new_approval : Key → Tool → Fields → ApprovalRequest
  new_approval k tool arguments = record {
    key = k;
    tool_name = tool.name;
    risk_tier = tool.risk_tier;
    args = arguments;
    status = pending;
    reason = none;
    expires_at = now + approval_expiry;
  }

  unfoldable pub gate_on :
      Store → Key → Tool → Fields → Option ApprovalRequest → Store × Option ExecutionOutcome
  unfolding decide
  gate_on s k tool arguments (some a) = decide s k tool arguments a a.status
  gate_on s k tool arguments none =
      let a = new_approval k tool arguments in
      decide (record s { approvals = a ∷ s.approvals }) k tool arguments a pending

  unfoldable pub check_approval : Store → Key → Tool → Fields → Store × Option ExecutionOutcome
  unfolding gate_on
  check_approval s k tool arguments = gate_on s k tool arguments (get_approval k s.approvals)
