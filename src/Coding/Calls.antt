-- ===== src/Coding/Calls.antt =====
-- marcus_code/runtime/agent.py: how `MarcusLoop` runs the tool calls of one response. A handler
-- returns or raises, by the number of handler calls before it; the user's decision, jsonschema's
-- validation and the truncation of a result are parameters. Events are left out.
pub mod Guarded
pub mod Planned
use marcus.Prelude.{
  ℕ, if◌then◌else◌, length, any, first_where, ◌==◌, zero, suc, String, ◌⊎◌, inl, inr, Bool, true,
  false, not, ◌&&◌, ◌||◌, Option, none, some, List, [], ◌∷◌, string_eq,
}
use marcus.Coding.Modes.{AgentMode, tool_requires_approval, Commands, tool_is_allowed}
use marcus.Prelude.Json.{field, text, end, Fields}
use marcus.Prelude.Texts.{concat}
use marcus.Run.Status.{RiskTier, read_only, tier_eq}

pub record AgentTool : Type 0 where
  pub name : String
  pub tier : RiskTier
  pub idempotent : Bool
  pub volatile : Bool

pub record AgentCall : Type 0 where
  pub id : String
  pub tool_name : String
  pub arguments : Fields

-- `"no"`, `"always"`, or any other answer
pub data Decision : Type 0 where
  refused always granted : Decision

pub record CallDeps : Type 0 where
  pub mode : AgentMode
  pub commands : Commands
  pub tools : List AgentTool
  pub handler : ℕ → String → Fields → Fields ⊎ String
  pub confirm : String → Fields → Decision
  pub normalize : String → Fields → Fields ⊎ Fields
  pub truncate : Fields → Fields
  pub max_safe_tool_retries : ℕ
  pub max_parallel_read_only : ℕ

-- `invoked` is no attribute: the handler calls that have been made, newest first.
pub record AgentState : Type 0 where
  pub always_allowed : List String
  pub invoked : List (String × Fields)

abbrev pub error_only : String → Fields
error_only message = field "error" (text message) end

module _ (deps : CallDeps) where
  open deps use {mode, commands, tools, max_safe_tool_retries, max_parallel_read_only}

  -- `self.tools_by_name.get(name)`
  abbrev pub tool_named : String → Option AgentTool
  tool_named name = first_where (λ (t : AgentTool). t.name == name) tools

  abbrev pub with_invoked : AgentCall → AgentState → AgentState
  with_invoked call s = record s { invoked = (call.tool_name, call.arguments) ∷ s.invoked }

  -- The loop over the attempt_handler, with those that may follow this one.
  unfoldable pub attempt_handler : ℕ → AgentCall → AgentState → AgentState × Fields
  attempt_handler zero call s =
      elim (deps.handler (length s.invoked) call.tool_name call.arguments) [
        | inl result ↦ (with_invoked call s, deps.truncate result)
        | inr message ↦ (with_invoked call s, error_only message)
      ]
  attempt_handler (suc left) call s =
      elim (deps.handler (length s.invoked) call.tool_name call.arguments) [
        | inl result ↦ (with_invoked call s, deps.truncate result)
        | inr message ↦ attempt_handler left call (with_invoked call s)
      ]

  abbrev pub is_retryable_tool : AgentTool → Bool
  is_retryable_tool t = (t.tier == read_only || t.idempotent) && not (t.name == "wait_for_http")

  abbrev pub retries : AgentTool → ℕ
  retries t = if is_retryable_tool t then max_safe_tool_retries else 0

  abbrev pub unknown_call : AgentCall → Fields
  unknown_call call = error_only (concat "unknown tool: " call.tool_name)

  -- without the names of the tool and the mode
  abbrev pub not_in_mode : Fields
  not_in_mode = error_only "tool is not available in this mode"

  abbrev pub invoke_in_mode : AgentTool → AgentCall → AgentState → Bool → AgentState × Fields
  invoke_in_mode t call s false = (s, not_in_mode)
  invoke_in_mode t call s true = attempt_handler (retries t) call s

  abbrev pub invoke_found : AgentCall → AgentState → Option AgentTool → AgentState × Fields
  invoke_found call s none = (s, unknown_call call)
  invoke_found call s (some t) = invoke_in_mode t call s (tool_is_allowed mode t.tier)

  -- `_invoke_tool_handler`
  unfoldable pub invoke_tool_handler : AgentCall → AgentState → AgentState × Fields
  unfolding attempt_handler tool_is_allowed
  invoke_tool_handler call s = invoke_found call s (tool_named call.tool_name)

  abbrev pub decided : AgentCall → AgentState → Decision → AgentState × Fields
  decided call s refused = (s, error_only "user declined this tool call")
  decided call s always =
      invoke_tool_handler call (record s { always_allowed = call.tool_name ∷ s.always_allowed })
  decided call s granted = invoke_tool_handler call s

  unfoldable pub must_ask : AgentTool → AgentCall → AgentState → Bool
  must_ask t call s =
      tool_requires_approval commands mode call.tool_name t.tier call.arguments
      && not (any (λ n. n == call.tool_name) s.always_allowed)

  abbrev pub asked_if : AgentCall → AgentState → Bool → AgentState × Fields
  asked_if call s true = decided call s (deps.confirm call.tool_name call.arguments)
  asked_if call s false = invoke_tool_handler call s

  abbrev pub allowed_if : AgentTool → AgentCall → AgentState → Bool → AgentState × Fields
  allowed_if t call s false = (s, not_in_mode)
  allowed_if t call s true = asked_if call s (must_ask t call s)

  -- From the result of the validation on: the call has its new arguments.
  abbrev pub validated : AgentTool → AgentCall → AgentState → Fields ⊎ Fields → AgentState × Fields
  validated t call s (inr refusal) = (s, refusal)
  validated t call s (inl arguments) =
      allowed_if t (record call { arguments = arguments }) s (tool_is_allowed mode t.tier)

  abbrev pub processed : AgentCall → AgentState → Option AgentTool → AgentState × Fields
  processed call s none = (s, unknown_call call)
  processed call s (some t) = validated t call s (deps.normalize call.tool_name call.arguments)

  -- `_process_tool_call`
  unfoldable pub process_tool_call : AgentCall → AgentState → AgentState × Fields
  unfolding invoke_tool_handler must_ask
  process_tool_call call s = processed call s (tool_named call.tool_name)

  abbrev pub is_read_only_call : AgentCall → Bool
  is_read_only_call call = elim (tool_named call.tool_name) [
    | none ↦ false
    | some t ↦ t.tier == read_only
  ]

  abbrev pub add_selected :
      Bool → AgentCall → List AgentCall × List AgentCall → List AgentCall × List AgentCall
  add_selected true call (chosen, left) = (call ∷ chosen, left)
  add_selected false call (chosen, left) = (chosen, call ∷ left)

  -- The loop over a response that begins with a read-only call; the number is what may be selected.
  unfoldable pub select_read_only : ℕ → List AgentCall → List AgentCall × List AgentCall
  select_read_only room [] = ([], [])
  select_read_only zero (call ∷ calls) = add_selected false call (select_read_only zero calls)
  select_read_only (suc room) (call ∷ calls) =
      let chosen = is_read_only_call call in
      let taken = select_read_only room calls in
      let passed = select_read_only (suc room) calls in
      add_selected chosen call (if chosen then taken else passed)

  -- An unknown tool has the tier of the class, which is read-only.
  abbrev pub is_mutation_first : AgentCall → Bool
  is_mutation_first call = elim (tool_named call.tool_name) [
    | none ↦ false
    | some t ↦ not (t.tier == read_only)
  ]

  -- `_plan_tool_calls`
  unfoldable pub plan_calls : List AgentCall → List AgentCall × List AgentCall
  unfolding select_read_only
  plan_calls [] = ([], [])
  plan_calls (call ∷ calls) =
      if is_mutation_first call
      then (call ∷ [], calls)
      else select_read_only max_parallel_read_only (call ∷ calls)
