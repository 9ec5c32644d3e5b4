-- ===== src/Tests/Trimming.antt =====
-- marcus_code/runtime/token_utils.py on a conversation with one exchange.
use marcus.Prelude.{refl, true, false, none, some, List, [], ◌∷◌}
use marcus.Coding.Trimmed.{trimming-IsPaired}
use marcus.Coding.Trimming.{trim_messages_to_count, trim_messages_to_budget, Reading}
use marcus.Llm.{LlmMessage, system_role, assistant_role, tool_role, user_role, said}
use marcus.Llm.Paired.{all_answered, answered, silence, plain, exchange, IsPaired}
use marcus.Tests.Fixtures.{call_of}

abbrev sample_reading : Reading
sample_reading = record {
  loads = λ s. none;
  calls_text = λ calls. "[]";
  mentions_verification = λ v. false;
}

abbrev request : LlmMessage
request = record (said assistant_role none) { tool_calls = call_of "look" ∷ [] }

abbrev reply : LlmMessage
reply = record (said tool_role (some "{}")) { tool_call_id = some "c1" }

abbrev chat : List LlmMessage
chat = said system_role (some "be brief") ∷ request ∷ reply ∷ said user_role (some "go on") ∷ []

chat-IsPaired : IsPaired chat
chat-IsPaired =
    plain refl (λ e. cc e)
      (exchange {m = request} {rs = reply ∷ []} refl (answered refl refl all_answered)
        (plain refl (λ e. cc e) silence))

trimming-IsPaired_example :
    IsPaired (trim_messages_to_count sample_reading 3 true true chat)
    × IsPaired (trim_messages_to_budget sample_reading 3 true true chat)
trimming-IsPaired_example = trimming-IsPaired sample_reading 3 true true chat chat-IsPaired
