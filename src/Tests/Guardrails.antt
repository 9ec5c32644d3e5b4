-- ===== src/Tests/Guardrails.antt =====
-- harness/runtime/guardrails.py on a short history of calls.
use marcus.Prelude.{ℕ, String, ◌≡◌, refl, true, none, List, [], ◌∷◌}
use marcus.Executions.{ToolExecution}
use marcus.Guardrails.{violation, repeated_call}
use marcus.Guardrails.Repeats.{rows_of, check_repeated_calls}
use marcus.Guardrails.Streaks.{own_call, no_streak, no_calls, IsStreakFree, other_call, Guarded}
use marcus.Prelude.Json.{end, json_beq, fields_in, field, text}
use marcus.Run.Status.{succeeded, read_only, failed}

abbrev ran : ℕ → ℕ → String → ToolExecution
ran run_id step name = record {
  id = step;
  key = record { run_id = run_id; step_no = step; call_index = 0 };
  tool_name = name;
  mcp_server_id = none;
  risk_tier = read_only;
  idempotent = true;
  args = field "path" (text "README.md") end;
  status = succeeded;
  result = none;
  error = none;
}

-- Two equal calls of run 1, one of run 2, and then another call of run 1.
abbrev history : List ToolExecution
history = ran 1 2 "list" ∷ ran 2 0 "look" ∷ ran 1 1 "look" ∷ ran 1 0 "look" ∷ []

history-Guarded : Guarded 3 1 history
unfolding check_repeated_calls rows_of
history-Guarded =
    own_call refl refl (other_call refl (own_call refl refl (own_call refl refl no_calls)))

third_is_refused :
    check_repeated_calls 3
      (ran 1 1 "look" ∷ ran 1 0 "look" ∷ [])
      1
      "look"
      (field "path" (text "README.md") end)
    ≡ violation repeated_call failed
unfolding check_repeated_calls rows_of json_beq fields_in
third_is_refused = refl

no_streak_example : IsStreakFree 3 (rows_of 1 history)
no_streak_example = no_streak 3 1 history history-Guarded
