-- ===== src/Tools.antt =====
-- harness/runtime/tools.py: tools, error codes, and the observations that go back to the model.
-- UUIDs are numbers; `str(uuid)` is the parameter `id_text` of the observations.
use marcus.Prelude.{ℕ, String, Bool, false, Option, none}
use marcus.Prelude.Json.{bool, put, text, field, Fields, end, Json}
use marcus.Run.Status.{RiskTier}

pub data ToolErrorCode : Type 0 where
  invalid_argument unknown_tool approval_denied execution_failed outcome_unknown policy_denied :
      ToolErrorCode

abbrev pub code_text : ToolErrorCode → String
code_text invalid_argument = "INVALID_ARGUMENT"
code_text unknown_tool = "UNKNOWN_TOOL"
code_text approval_denied = "APPROVAL_DENIED"
code_text execution_failed = "EXECUTION_FAILED"
code_text outcome_unknown = "OUTCOME_UNKNOWN"
code_text policy_denied = "POLICY_DENIED"

-- How a handler ends: it returns, raises a `ToolRuntimeError`, or raises any other exception.
pub data HandlerResult : Type 0 where
  returned : Json → HandlerResult
  runtime_error : String → ToolErrorCode → Bool → HandlerResult
  other_error : String → HandlerResult

-- The handler is code that calls the outside world: its result may depend on the number of handler
-- calls that were made before.
pub record Tool : Type 0 where
  pub name : String
  pub parameters : Fields
  pub handler : ℕ → Fields → HandlerResult
  pub risk_tier : RiskTier
  pub idempotent : Bool
  pub mcp_server_id : Option ℕ

-- `raises` is no attribute: in the place of an outcome there is the `AttributeError` of
-- `approval.status.value`.
pub record ExecutionOutcome : Type 0 where
  pub observation : Fields
  pub fatal : Bool
  pub fatal_reason : Option String
  pub needs_approval : Bool
  pub raises : Bool

-- ExecutionOutcome(observation=…) with its defaults
abbrev pub observed : Fields → ExecutionOutcome
observed o = record {
  observation = o;
  fatal = false;
  fatal_reason = none;
  needs_approval = false;
  raises = false;
}

module _ (id_text : ℕ → String) where
  abbrev pub error_observation : String → String → Bool → ℕ → Fields
  error_observation message code retryable evidence_id = field "status" (text "error") (
      field "error" (text message) (
        field "code" (text code) (
          field "retryable" (bool retryable)
            (field "evidence_id" (text (id_text evidence_id)) end))))

  abbrev pub success_observation : Fields → ℕ → Fields
  success_observation result evidence_id =
      put "evidence_id" (text (id_text evidence_id)) (put "status" (text "ok") result)
