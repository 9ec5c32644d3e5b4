-- ===== src/Tests/Coding.antt =====
-- marcus_code/runtime at a concrete request.
use marcus.Prelude.{
  ◌==◌, ◌≤◌, String, ◌≡◌, refl, ◌↔◌, true, false, some, arith, nat_eq, string_eq, ◌&&◌, ◌||◌, [],
  ◌∷◌, ◌++◌,
}
use marcus.Coding.Coherent.{IsCoherent, derive_task_contract-IsCoherent}
use marcus.Coding.Contract.{derive_task_contract, Capability, allows}
use marcus.Coding.Effort.{low, effort_never_rises, rank, high, auto_effort}
use marcus.Coding.Evidence.{is_verification_evidence, evidence_is_attempt, is_verification_attempt}
use marcus.Coding.Modes.{Commands, AgentMode, runs_unasked, modes_are_ordered}
use marcus.Coding.Patterns.{verify_words, run_cli_verify, change_words, Re, pattern_text}
use marcus.Coding.Tracker.{
  advance, TodoTracker, is_done, tracker_moves_on, is_active, reset, finish, Phase,
}
use marcus.Guardrails.{requires_approval}
use marcus.Prelude.Json.{pos, text, Json, end, Fields, int, field, has}
use marcus.Run.Status.{sensitive_write, tier_eq}

-- An engine of regular expressions that finds three phrases, each for its expression.
abbrev phrases : Re
phrases = record {
  search = λ p s.
      (p == pattern_text change_words && s == "fix the parser")
      || ((p == pattern_text verify_words && s == "run the tests")
          || (p == pattern_text run_cli_verify && s == "pytest"));
  sub = λ p replacement s. s;
}

abbrev python_str : Json → String
python_str (text s) = s
python_str _ = ""

abbrev shell : Commands
shell = record { search = λ p s. s == "git push"; lower = λ s. s; str = python_str }

derive_task_contract-IsCoherent_example : IsCoherent (derive_task_contract phrases "fix the parser")
derive_task_contract-IsCoherent_example = derive_task_contract-IsCoherent phrases "fix the parser"

abbrev pytest : Fields
pytest = field "command" (text "pytest") end

abbrev exited : Fields
exited = field "exit_code" (int (pos 0)) end

pytest_is_evidence : is_verification_evidence phrases python_str "run_cli" pytest exited ≡ true
unfolding is_verification_evidence is_verification_attempt pattern_text
pytest_is_evidence = refl

evidence_is_attempt_example :
    (is_verification_attempt phrases python_str "run_cli" pytest ≡ true)
    × (has "error" exited ≡ false)
evidence_is_attempt_example =
    evidence_is_attempt phrases python_str "run_cli" pytest exited pytest_is_evidence

abbrev push : Fields
push = field "command" (text "git push") end

modes_are_ordered_example :
    (runs_unasked shell AgentMode.ask "run_cli" sensitive_write push ≡ true
      → runs_unasked shell AgentMode.agent "run_cli" sensitive_write push ≡ true)
    × (runs_unasked shell AgentMode.auto "run_cli" sensitive_write push ≡ true
        → runs_unasked shell AgentMode.yolo "run_cli" sensitive_write push ≡ true)
    × ((runs_unasked shell AgentMode.agent "run_cli" sensitive_write push ≡ true)
        ↔ (requires_approval sensitive_write ≡ false))
modes_are_ordered_example = modes_are_ordered shell AgentMode.auto "run_cli" sensitive_write push

effort_never_rises_example :
    let c = derive_task_contract phrases "fix the parser" in
    (rank (auto_effort c (some 100) 90) ≤ rank (auto_effort c (some 100) 10))
    × (c.requires_plan ≡ false → auto_effort c (some 100) 10 ≡ low)
    × (auto_effort c (some 100) 10 ≡ high → allows c Capability.command ≡ true)
effort_never_rises_example =
    effort_never_rises phrases "fix the parser" (some 100) 10 90 (omega arith)

-- A tracker that has come to the plan.
abbrev planning : TodoTracker
planning = record { current = Phase.plan; steps = (Phase.plan, "two files") ∷ []; finished = false }

tracker_moves_on_example :
    (is_done planning Phase.receive ≡ true
      → is_done (advance planning Phase.implement "") Phase.receive ≡ true)
    × (is_done (advance planning Phase.implement "") Phase.implement ≡ true)
    × ((is_done (finish planning "") Phase.receive ≡ true)
        × (is_active (finish planning "") Phase.receive ≡ false))
    × ((last_note : String) × ((finish planning "").steps
          ≡ planning.steps ++ (Phase.deliver, last_note) ∷ []))
    × ((is_active (reset planning) Phase.receive ≡ true) ↔ (Phase.receive ≡ Phase.receive))
    × ((is_done (reset planning) Phase.receive ≡ true) ↔ (Phase.receive ≡ Phase.receive))
tracker_moves_on_example = tracker_moves_on planning Phase.implement Phase.receive "" (omega arith)
