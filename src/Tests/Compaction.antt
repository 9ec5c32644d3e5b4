-- ===== src/Tests/Compaction.antt =====
-- harness/runtime/compaction.py on a run with more steps than it keeps.
use marcus.Prelude.{if◌then◌else◌, ℕ, zero, suc, ◌≡◌, refl, inl, inr, some, List, [], ◌∷◌}
use marcus.Coding.Trimmed.{not_tool, assistant_is_no_tool}
use marcus.Compaction.{llm_refused, Model, maybe_compact, LlmResponse, Printing}
use marcus.Compaction.Asked.{maybe_compact_asks_paired}
use marcus.Context.{AgentStep, llm_call}
use marcus.Llm.{same_role, LlmMessage, tool_role}
use marcus.Llm.Paired.{silence, plain, exchange, IsPaired}
use marcus.Prelude.Json.{end, pos}
use marcus.Run.Status.{running}
use marcus.Tests.Fixtures.{fresh_run, call_of}

abbrev step_at : ℕ → AgentStep
step_at n = record {
  run_id = 1;
  step_no = pos n;
  body = llm_call (some "looking") (call_of "look" ∷ []) end;
  created_at = n;
}

abbrev steps_to : ℕ → List AgentStep
steps_to zero = []
steps_to (suc n) = step_at n ∷ steps_to n

abbrev terse : LlmResponse
terse = record {
  content = some "looked around";
  tool_calls = [];
  provider_fields = end;
  total_tokens = 5;
}

abbrev lenient : Model
lenient n ms = inl terse

-- Refuses a conversation that starts with a tool's answer.
abbrev strict : Model
strict n [] = inl terse
strict n (m ∷ ms) =
    if same_role m.role tool_role then inr (llm_refused "orphaned tool result") else inl terse

strict_is_lenient : (n : ℕ) (ms : List LlmMessage) → IsPaired ms → strict n ms ≡ lenient n ms
strict_is_lenient n [] silence = refl
strict_is_lenient n (m ∷ ms) (plain bare role p) = rw (not_tool m.role role) refl
strict_is_lenient n (m ∷ ms) (exchange role ans p) = rw (assistant_is_no_tool m.role role) refl

abbrev short_printing : Printing
short_printing = record { dumps = λ fs. "{}"; str = λ fs. "{}"; len = λ s. 40 }

maybe_compact_asks_paired_example :
    maybe_compact short_printing strict 0 99 (fresh_run 1 running 0) (steps_to 12) [] (some 100) 70
    ≡ maybe_compact short_printing lenient 0 99
        (fresh_run 1 running 0)
        (steps_to 12)
        []
        (some 100)
        70
maybe_compact_asks_paired_example =
    maybe_compact_asks_paired short_printing strict lenient 0 99 (fresh_run 1 running 0)
      (steps_to 12) [] (some 100) 70 strict_is_lenient
