-- ===== src/Coding/Calls/Guarded.antt =====
-- What must be so for a call of the coding agent to reach its handler, and how often it does.
use marcus.Prelude.{
  ℕ, length, ◌==◌, zero, suc, ◌+◌, ◌≤◌, ◌≡◌, refl, ◌≢◌, ◌⊎◌, inl, inr, Bool, true, false, Option,
  none, some, ◌∷◌, arith, string_eq,
}
use marcus.Coding.Calls.{
  allowed_if, refused, AgentTool, retries, asked_if, processed, must_ask, CallDeps, always,
  with_invoked, decided, process_tool_call, invoke_tool_handler, validated, AgentCall, granted,
  Decision, tool_named, AgentState, attempt_handler,
}
use marcus.Coding.Modes.{tool_is_allowed}
use marcus.Prelude.Json.{Fields}
use marcus.Run.Status.{read_only, tier_eq}

module _ (deps : CallDeps) where
  -- The mode allows the tool, its arguments are valid, and the user has been asked where that is
  -- needed and has not refused.
  pub record IsAdmitted (call : AgentCall) (s : AgentState) (t : AgentTool) : Type 0 where
    pub found : tool_named deps call.tool_name ≡ some t
    pub in_mode : tool_is_allowed deps.mode t.tier ≡ true
    pub valid : Fields
    pub is_valid : deps.normalize call.tool_name call.arguments ≡ inl valid
    pub consent :
        (must_ask deps t (record call { arguments = valid }) s ≡ false)
        ⊎ (deps.confirm call.tool_name valid ≢ refused)

  -- No handler has been called; or the call was admitted, and no handler was called more often than
  -- the retries of its tool allow.
  pub IsGuarded : AgentCall → AgentState → AgentState × Fields → Type 0
  IsGuarded call s o =
      (o.0.invoked ≡ s.invoked)
      ⊎ ((t : AgentTool) × IsAdmitted call s t
          × (length o.0.invoked ≤ length s.invoked + retries deps t + 1))

  attempt_handler-bound :
      (left : ℕ) (call : AgentCall) (s : AgentState)
      → length (attempt_handler deps left call s).0.invoked ≤ length s.invoked + left + 1
  unfolding attempt_handler
  attempt_handler-bound zero call s = ground arith
  attempt_handler-bound (suc left) call s =
      ground (arith, attempt_handler-bound left call (with_invoked deps call s))

  -- The handler is called at most so often, if the tool is the one that the call names.
  invoke-bound :
      (call : AgentCall) (s : AgentState) (t : AgentTool)
      → tool_named deps call.tool_name ≡ some t
      → tool_is_allowed deps.mode t.tier ≡ true
      → length (invoke_tool_handler deps call s).0.invoked ≤ length s.invoked + retries deps t + 1
  unfolding invoke_tool_handler
  invoke-bound call s t found in_mode =
      rw (found, in_mode) (attempt_handler-bound (retries deps t) call s)

  decided-IsGuarded :
      (call : AgentCall) (s : AgentState) (t : AgentTool) (valid : Fields) (d : Decision)
      → tool_named deps call.tool_name ≡ some t
      → tool_is_allowed deps.mode t.tier ≡ true
      → deps.normalize call.tool_name call.arguments ≡ inl valid
      → deps.confirm call.tool_name valid ≡ d
      → IsGuarded call s (decided deps (record call { arguments = valid }) s d)
  unfolding IsGuarded
  decided-IsGuarded call s t valid refused found in_mode ok_args said_so = inl refl
  decided-IsGuarded call s t valid always found in_mode ok_args said_so = inr (
    t,
    record {
      found = found;
      in_mode = in_mode;
      valid = valid;
      is_valid = ok_args;
      consent = inr (λ e. ground (arith, said_so, e));
    },
    invoke-bound (record call { arguments = valid })
        (record s { always_allowed = call.tool_name ∷ s.always_allowed }) t found in_mode,
  )
  decided-IsGuarded call s t valid granted found in_mode ok_args said_so = inr (
    t,
    record {
      found = found;
      in_mode = in_mode;
      valid = valid;
      is_valid = ok_args;
      consent = inr (λ e. ground (arith, said_so, e));
    },
    invoke-bound (record call { arguments = valid }) s t found in_mode,
  )

  asked-IsGuarded :
      (call : AgentCall) (s : AgentState) (t : AgentTool) (valid : Fields) (ask : Bool)
      → tool_named deps call.tool_name ≡ some t
      → tool_is_allowed deps.mode t.tier ≡ true
      → deps.normalize call.tool_name call.arguments ≡ inl valid
      → must_ask deps t (record call { arguments = valid }) s ≡ ask
      → IsGuarded call s (asked_if deps (record call { arguments = valid }) s ask)
  unfolding IsGuarded
  asked-IsGuarded call s t valid true found in_mode ok_args asks =
      decided-IsGuarded call s t valid (deps.confirm call.tool_name valid) found in_mode ok_args
        refl
  asked-IsGuarded call s t valid false found in_mode ok_args asks = inr (
    t,
    record {
      found = found;
      in_mode = in_mode;
      valid = valid;
      is_valid = ok_args;
      consent = inl asks;
    },
    invoke-bound (record call { arguments = valid }) s t found in_mode,
  )

  allowed-IsGuarded :
      (call : AgentCall) (s : AgentState) (t : AgentTool) (valid : Fields) (in_mode : Bool)
      → tool_named deps call.tool_name ≡ some t
      → tool_is_allowed deps.mode t.tier ≡ in_mode
      → deps.normalize call.tool_name call.arguments ≡ inl valid
      → IsGuarded call s (allowed_if deps t (record call { arguments = valid }) s in_mode)
  unfolding IsGuarded
  allowed-IsGuarded call s t valid false found allows_it ok_args = inl refl
  allowed-IsGuarded call s t valid true found allows_it ok_args =
      asked-IsGuarded call s t valid (must_ask deps t (record call { arguments = valid }) s) found
        allows_it ok_args refl

  validated-IsGuarded :
      (call : AgentCall) (s : AgentState) (t : AgentTool) (o : Fields ⊎ Fields)
      → tool_named deps call.tool_name ≡ some t
      → deps.normalize call.tool_name call.arguments ≡ o
      → IsGuarded call s (validated deps t call s o)
  unfolding IsGuarded
  validated-IsGuarded call s t (inr refusal) found got_args = inl refl
  validated-IsGuarded call s t (inl valid) found got_args =
      allowed-IsGuarded call s t valid (tool_is_allowed deps.mode t.tier) found refl got_args

  processed-IsGuarded :
      (call : AgentCall) (s : AgentState) (o : Option AgentTool)
      → tool_named deps call.tool_name ≡ o
      → IsGuarded call s (processed deps call s o)
  unfolding IsGuarded
  processed-IsGuarded call s none found = inl refl
  processed-IsGuarded call s (some t) found =
      validated-IsGuarded call s t (deps.normalize call.tool_name call.arguments) found refl

-- A call that `_process_tool_call` runs reaches its handler only if its tool is known and allowed in the mode,
-- its arguments are valid, and the user has not refused it where the mode asks for approval and the
-- user has not allowed the tool for good. Then its handler is called at most once and as often again
-- as the retries of the tool allow; these are 0 for a tool that is neither read-only nor idempotent.
pub process_tool_call-IsGuarded :
    (deps : CallDeps) (call : AgentCall) (s : AgentState)
    → IsGuarded deps call s (process_tool_call deps call s)
      × ((t : AgentTool)
          → (t.tier == read_only) ≡ false
          → t.idempotent ≡ false
          → retries deps t ≡ 0)
unfolding process_tool_call
process_tool_call-IsGuarded deps call s = (
  processed-IsGuarded deps call s (tool_named deps call.tool_name) refl,
  λ t not_read_only not_idempotent. ground (arith, not_read_only, not_idempotent),
)
