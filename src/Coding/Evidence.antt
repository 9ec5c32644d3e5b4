-- ===== src/Coding/Evidence.antt =====
-- Verification in marcus_code/runtime/task_contract.py: which calls attempt it, and which
-- observations are evidence. Python's `str` of an argument is a parameter.
use marcus.Prelude.{
  leb, if◌then◌else◌, ltb, ◌==◌, String, ◌≡◌, Bool, true, false, not, ◌&&◌, ◌||◌, none, some, arith,
  nat_eq, string_eq,
}
use marcus.Coding.Patterns.{finds, run_cli_verify, Re}
use marcus.Prelude.Json.{
  decimal, null, Fields, end, get, has, nil, negsuc, Json, obj, int, arr, bool, cons, field, text,
  pos,
}

-- `d.get(k)`
abbrev pub get_or_null : String → Fields → Json
get_or_null k d = elim (get k d) [ none ↦ null | some v ↦ v ]

-- `bool(v)`; a decimal is not an integer, so it is not 0
abbrev pub truthy : Json → Bool
truthy null = false
truthy (bool b) = b
truthy (int (pos n)) = ltb 0 n
truthy (int (negsuc n)) = true
truthy (decimal d) = true
truthy (text s) = not (s == "")
truthy (arr nil) = false
truthy (arr (cons x xs)) = true
truthy (obj end) = false
truthy (obj (field k v d)) = true

-- `isinstance(v, int) and 200 <= v < 400`; a Boolean is 0 or 1 there
abbrev pub is_success_status : Json → Bool
is_success_status (int (pos n)) = leb 200 n && ltb n 400
is_success_status _ = false

-- `v == 0`
abbrev pub equals_zero : Json → Bool
equals_zero (int (pos n)) = n == 0
equals_zero (bool b) = not b
equals_zero (decimal s) = s == "0.0" || s == "-0.0"
equals_zero _ = false

abbrev pub is_null : Json → Bool
is_null null = true
is_null _ = false

module _ (re : Re) (str : Json → String) where
  unfoldable pub is_verification_attempt : String → Fields → Bool
  is_verification_attempt tool_name arguments =
      let command_line : Json = elim (get "command" arguments) [ none ↦ text "" | some v ↦ v ] in
      if tool_name == "run_tests"
        || (tool_name == "wait_for_http" || tool_name == "check_url_health")
      then true
      else if tool_name == "run_cli"
      then finds re run_cli_verify (str command_line)
      else false

  unfoldable pub is_verification_evidence : String → Fields → Fields → Bool
  is_verification_evidence tool_name arguments observation =
      let status = get_or_null "status" observation in
      let exited = equals_zero (get_or_null "exit_code" observation) in
      if has "error" observation
      then false
      else if tool_name == "run_tests"
      then exited
      else if tool_name == "wait_for_http"
      then truthy (get_or_null "ready" observation) || is_success_status status
      else if tool_name == "check_url_health"
      then truthy (get_or_null "healthy" observation)
        && (is_null status || is_success_status status)
      else if tool_name == "run_cli"
      then exited && is_verification_attempt tool_name arguments
      else false

  -- Evidence comes only from an attempt at verification, and never from an observation that reports
  -- an error.
  pub evidence_is_attempt :
      (tool_name : String) (arguments observation : Fields)
      → is_verification_evidence tool_name arguments observation ≡ true
      → (is_verification_attempt tool_name arguments ≡ true) × (has "error" observation ≡ false)
  unfolding is_verification_evidence is_verification_attempt
  evidence_is_attempt tool_name arguments observation h = ground arith
