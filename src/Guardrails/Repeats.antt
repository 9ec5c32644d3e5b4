-- ===== src/Guardrails/Repeats.antt =====
-- `check_repeated_calls` and `check_no_progress` of harness/runtime/guardrails.py, over the rows of
-- a run, newest first. What `str.partition` returns before the first ":" is
-- a parameter. A window is at least 1.
use marcus.Prelude.{
  if◌then◌else◌, ltb, where_, all, length, take, ◌==◌, ℕ, ◌-◌, String, Bool, true, false, ◌&&◌,
  Option, none, some, List, [], ◌∷◌, nat_eq, string_eq,
}
use marcus.Executions.{ToolExecution}
use marcus.Guardrails.{Violation, violation, no_progress, repeated_call}
use marcus.Prelude.Json.{obj, json_beq, Fields}
use marcus.Prelude.Texts.{or_text}
use marcus.Run.Status.{failed, succeeded, ToolExecutionStatus, unknown, started, RunStatus}

-- SELECT … WHERE run_id = … ORDER BY started_at DESC
unfoldable pub rows_of : ℕ → List ToolExecution → List ToolExecution
rows_of run_id t = where_ (λ e. e.key.run_id == run_id) t

abbrev pub same_json : Fields → Fields → Bool
same_json a b = json_beq (obj a) (obj b)

abbrev pub same_result : Option Fields → Option Fields → Bool
same_result none none = true
same_result (some a) (some b) = same_json a b
same_result _ _ = false

-- `name == tool_name and args == arguments`
abbrev pub is_call : String → Fields → ToolExecution → Bool
is_call name args e = e.tool_name == name && same_json e.args args

unfoldable pub check_repeated_calls :
    ℕ → List ToolExecution → ℕ → String → Fields → Option Violation
check_repeated_calls window t run_id name args =
    let rows = take (window - 1) (rows_of run_id t) in
    if ltb (length rows) (window - 1)
    then none
    else if all (is_call name args) rows
    then violation repeated_call RunStatus.failed
    else none

abbrev pub same_state : ToolExecutionStatus → ToolExecutionStatus → Bool
same_state started started = true
same_state succeeded succeeded = true
same_state failed failed = true
same_state unknown unknown = true
same_state _ _ = false

module _ (code_of : String → String) where
  -- `signature(row) == signature(other)`
  abbrev pub same_signature : ToolExecution → ToolExecution → Bool
  same_signature a b =
      a.tool_name == b.tool_name
      && (same_state a.status b.status
          && (code_of (or_text a.error "") == code_of (or_text b.error "")
              && same_result a.result b.result))

  abbrev pub unchanged : List ToolExecution → Option Violation
  unchanged [] = none
  unchanged (first ∷ rest) =
      if all (λ e. same_signature e first) rest
      then violation no_progress RunStatus.failed
      else none

  unfoldable pub check_no_progress : ℕ → List ToolExecution → ℕ → Option Violation
  check_no_progress window t run_id =
      let rows = take window (rows_of run_id t) in
      if ltb (length rows) window then none else unchanged rows
