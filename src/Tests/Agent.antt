-- ===== src/Tests/Agent.antt =====
-- marcus_code/runtime/agent.py: a turn that changes a file and runs its tests, and a destructive call.
use marcus.Prelude.{
  length, ◌==◌, String, ◌≡◌, refl, inl, inr, Bool, true, false, none, some, List, [], ◌∷◌, nat_eq,
  string_eq,
}
use marcus.Coding.Calls.{
  AgentCall, process_tool_call, AgentState, retries, CallDeps, AgentTool, granted, plan_calls,
}
use marcus.Coding.Calls.Guarded.{IsGuarded, process_tool_call-IsGuarded}
use marcus.Coding.Calls.Planned.{plan_calls-IsPlan, IsPlan}
use marcus.Coding.Contract.{after_mutation, requested}
use marcus.Coding.Evidence.{is_verification_attempt, is_verification_evidence}
use marcus.Coding.Finish.{
  delivered, Observed, Session, session_after, AgentTexts, begin_turn, is_current, finish_turn,
}
use marcus.Coding.Finish.Verified.{is_proven, final_answer_verified, is_pending}
use marcus.Coding.Modes.{tool_requires_approval, agent}
use marcus.Coding.Patterns.{Re}
use marcus.Prelude.Json.{int, field, end, pos}
use marcus.Run.Status.{read_only, destructive, tier_eq}

abbrev plain_re : Re
plain_re = record { search = λ pattern s. false; sub = λ pattern new s. s }

abbrev plain_texts : AgentTexts
plain_texts = record {
  str = λ v. "1 passed";
  last_line = λ s. some s;
  casefold = λ s. s;
  rstrip = λ s. s;
  is_in = λ a b. a == b;
}

abbrev writes : String → Bool
writes name = name == "write_file"

abbrev quiet_session : Session
quiet_session = record {
  workspace_revision = 4;
  unverified_revision = none;
  verification_evidence = none;
  active_process_ids = [];
}

abbrev wrote_and_tested : List Observed
wrote_and_tested =
    record {
      called_name = "run_tests";
      call_arguments = end;
      observation = field "exit_code" (int (pos 0)) end;
    }
    ∷ record { called_name = "write_file"; call_arguments = end; observation = end }
    ∷ []

turn_is_delivered :
    finish_turn requested
      (session_after plain_re plain_texts writes (begin_turn false quiet_session) wrote_and_tested)
      0
      2
    ≡ delivered
unfolding finish_turn session_after is_verification_attempt is_verification_evidence
turn_is_delivered = refl

final_answer_verified_example :
    let end_of_turn =
      session_after plain_re plain_texts writes (begin_turn false quiet_session) wrote_and_tested in
    (end_of_turn.active_process_ids ≡ [])
    × (is_current end_of_turn ≡ is_proven plain_re plain_texts writes wrote_and_tested)
    × (requested ≡ requested → is_proven plain_re plain_texts writes wrote_and_tested ≡ true)
    × (requested ≡ after_mutation → is_pending plain_re plain_texts writes wrote_and_tested ≡ false)
final_answer_verified_example =
    final_answer_verified plain_re plain_texts writes requested quiet_session wrote_and_tested 0 2
      refl turn_is_delivered

-- After a change, tests that pass and then tests that fail, the turn may end without evidence.
failed_after_passing :
    finish_turn after_mutation
      (session_after plain_re plain_texts writes (begin_turn false quiet_session) (
        record {
          called_name = "run_tests";
          call_arguments = end;
          observation = field "exit_code" (int (pos 1)) end;
        }
        ∷ wrote_and_tested))
      0
      2
    ≡ delivered
unfolding finish_turn session_after is_verification_attempt is_verification_evidence
failed_after_passing = refl

abbrev remover : AgentTool
remover = record { name = "remove"; tier = destructive; idempotent = false; volatile = false }

abbrev remove_call : AgentCall
remove_call = record { id = "c1"; tool_name = "remove"; arguments = end }

abbrev call_deps : CallDeps
call_deps = record {
  mode = agent;
  commands = record { search = λ pattern s. false; lower = λ s. s; str = λ v. "" };
  tools = remover ∷ [];
  handler = λ n name arguments. inr "busy";
  confirm = λ name arguments. granted;
  normalize = λ name arguments. inl arguments;
  truncate = λ result. result;
  max_safe_tool_retries = 2;
  max_parallel_read_only = 3;
}

abbrev fresh_state : AgentState
fresh_state = record { always_allowed = []; invoked = [] }

process_tool_call-IsGuarded_example :
    IsGuarded call_deps remove_call fresh_state
      (process_tool_call call_deps remove_call fresh_state)
    × ((t : AgentTool)
        → (t.tier == read_only) ≡ false
        → t.idempotent ≡ false
        → retries call_deps t ≡ 0)
process_tool_call-IsGuarded_example = process_tool_call-IsGuarded call_deps remove_call fresh_state

-- The handler has failed, and is not called again.
called_once : length (process_tool_call call_deps remove_call fresh_state).0.invoked ≡ 1
unfolding process_tool_call tool_requires_approval
called_once = refl

abbrev reader : AgentTool
reader = record { name = "read"; tier = read_only; idempotent = true; volatile = false }

abbrev read_call : AgentCall
read_call = record { id = "c2"; tool_name = "read"; arguments = end }

abbrev plan_deps : CallDeps
plan_deps = record call_deps { tools = reader ∷ remover ∷ []; max_parallel_read_only = 1 }

-- One call at a time, and nothing that changes a file after a call that reads.
abbrev planned : List AgentCall
planned = read_call ∷ remove_call ∷ read_call ∷ []

plan_calls-IsPlan_example : IsPlan plan_deps planned (plan_calls plan_deps planned)
plan_calls-IsPlan_example = plan_calls-IsPlan plan_deps planned

one_is_planned : plan_calls plan_deps planned ≡ (read_call ∷ [], remove_call ∷ read_call ∷ [])
unfolding plan_calls
one_is_planned = refl
