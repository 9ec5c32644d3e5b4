-- ===== src/Llm.antt =====
-- harness/llm/types.py: the messages that go to a model.
pub mod Paired
use marcus.Prelude.{String, Bool, true, false, Option, none, List, []}
use marcus.Executions.{ToolCall}
use marcus.Prelude.Json.{Fields, end}

pub data Role : Type 0 where
  system_role user_role assistant_role tool_role : Role

abbrev pub same_role : Role → Role → Bool
same_role system_role system_role = true
same_role user_role user_role = true
same_role assistant_role assistant_role = true
same_role tool_role tool_role = true
same_role _ _ = false

pub record LlmMessage : Type 0 where
  pub role : Role
  pub content : Option String
  pub tool_calls : List ToolCall
  pub tool_call_id : Option String
  pub name : Option String
  pub provider_fields : Fields

-- LLMMessage(role=…, content=…) with its defaults
abbrev pub said : Role → Option String → LlmMessage
said role content = record {
  role = role;
  content = content;
  tool_calls = [];
  tool_call_id = none;
  name = none;
  provider_fields = end;
}
