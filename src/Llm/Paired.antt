-- ===== src/Llm/Paired.antt =====
-- Conversations that an OpenAI-compatible model accepts: each tool result answers a call of the
-- assistant's message before it, and each call is answered.
use mathlib.Core.List.{append_assoc}
use mathlib.Core.Path.{subst}
use marcus.Prelude.{◌≡◌, sym, ap, ◌≢◌, some, List, [], ◌∷◌, ◌++◌}
use marcus.Executions.{ToolCall}
use marcus.Llm.{LlmMessage, tool_role, assistant_role}

-- These messages answer the calls, one each, in their order.
pub data Answers : List ToolCall → List LlmMessage → Type 0 where
  all_answered : Answers [] []
  answered :
      {c : ToolCall} {m : LlmMessage} {cs : List ToolCall} {ms : List LlmMessage}
      → m.role ≡ tool_role
      → m.tool_call_id ≡ some c.id
      → Answers cs ms
      → Answers (c ∷ cs) (m ∷ ms)

pub data IsPaired : List LlmMessage → Type 0 where
  silence : IsPaired []
  plain :
      {m : LlmMessage} {ms : List LlmMessage}
      → m.tool_calls ≡ []
      → m.role ≢ tool_role
      → IsPaired ms
      → IsPaired (m ∷ ms)
  exchange :
      {m : LlmMessage} {rs ms : List LlmMessage}
      → m.role ≡ assistant_role
      → Answers m.tool_calls rs
      → IsPaired ms
      → IsPaired (m ∷ (rs ++ ms))

pub IsPaired-append : {xs ys : List LlmMessage} → IsPaired xs → IsPaired ys → IsPaired (xs ++ ys)
IsPaired-append silence q = q
IsPaired-append (plain bare role p) q = plain bare role (IsPaired-append p q)
IsPaired-append {ys} (exchange {m} {rs} {ms} role ans p) q =
    subst IsPaired (ap (λ l. m ∷ l) (sym (append_assoc rs ms ys)))
      (exchange role ans (IsPaired-append p q))
