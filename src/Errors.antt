-- ===== src/Errors.antt =====
-- The exceptions that the modelled code raises, as values.
use marcus.Prelude.{Bool, true, false, String}

pub data Failure : Type 0 where
  -- harness/runtime/state_machine.py and harness/runtime/repository.py
  invalid_transition stale_run : Failure
  -- `ValueError`: "run … not found" of harness/runtime/engine.py
  run_not_found : Failure
  -- `LLMError` of harness/llm/gateway.py, any other exception of its calls, such as a
  -- `JSONDecodeError`, and the `ValueError` of `uuid.UUID`
  llm_error model_raised bad_id : String → Failure
  -- the `AttributeError` of `approval.status.value` in harness/runtime/tool_executor.py, where the
  -- status is a plain text
  plain_status : Failure

pub data Result {ℓ} (A : Type ℓ) : Type ℓ where
  ok : A → Result A
  err : Failure → Result A

abbrev pub is_ok {ℓ} : {A : Type ℓ} → Result A → Bool
is_ok (ok a) = true
is_ok (err e) = false

abbrev pub and_then {ℓ κ} : {A : Type ℓ} {B : Type κ} → Result A → (A → Result B) → Result B
and_then (ok a) f = f a
and_then (err e) f = err e
