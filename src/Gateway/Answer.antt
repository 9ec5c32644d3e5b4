-- ===== src/Gateway/Answer.antt =====
-- harness/llm/types.py and harness/llm/gateway.py: `_parse_response`, `_reasoning_tokens` and
-- `_ensure_usage`. What a server sends in the place of a text or a number is kept as it is.
use marcus.Prelude.{
  ltb, if◌then◌else◌, ℕ, ◌+◌, ◌/◌, max, String, Bool, true, false, none, some, List, [], ◌∷◌,
}
use marcus.Coding.Evidence.{get_or_null, truthy}
use marcus.Gateway.{
  Codec, got, text_of, get_default, get_of, malformed, or_json, item, elements, ◌>>=◌, threw,
  head_of, Trial,
}
use marcus.Intake.{total}
use marcus.Prelude.Json.{
  Fields, end, obj, int, get, arr, pos, text, Json, ℤ, nil, null, field, bool, decimal, negsuc,
}
use marcus.Results.{content}

pub data UsageSource : Type 0 where
  by_provider estimated : UsageSource

pub record Usage : Type 0 where
  pub prompt_tokens : Json
  pub completion_tokens : Json
  pub total_tokens : Json
  pub source : UsageSource
  pub reasoning_tokens : ℤ

-- `ToolCall`
pub record AnswerCall : Type 0 where
  pub call_id : Json
  pub called : Json
  pub arguments : Json

-- `LLMResponse`
pub record ModelAnswer : Type 0 where
  pub answer_content : Json
  pub answer_calls : List AnswerCall
  pub finish_reason : Json
  pub usage : Usage
  pub model : Json
  pub raw : Json
  pub provided : Fields

-- `isinstance(value, int) and value >= 0`, where a Boolean is an int
abbrev pub natural : Json → ℤ
natural (int (pos n)) = pos n
natural (bool true) = pos 1
natural _ = pos 0

-- `details.get("reasoning_tokens", 0)`, or 0 where `details` is no dictionary
abbrev pub reasoning_count : Json → ℤ
reasoning_count (obj fields) = natural (get_or_null "reasoning_tokens" fields)
reasoning_count _ = pos 0

unfoldable pub reasoning_tokens_of : Json → Trial ℤ
reasoning_tokens_of usage_raw = get_of "completion_tokens_details" usage_raw >>= λ details.
    got (reasoning_count (or_json details (obj end)))

unfoldable pub usage_of : Json → Trial Usage
usage_of usage_raw = do
  prompt ← get_default "prompt_tokens" (int (pos 0)) usage_raw
  completion ← get_default "completion_tokens" (int (pos 0)) usage_raw
  total ← get_default "total_tokens" (int (pos 0)) usage_raw
  reasoning ← reasoning_tokens_of usage_raw
  got (record {
    prompt_tokens = prompt;
    completion_tokens = completion;
    total_tokens = total;
    source = by_provider;
    reasoning_tokens = reasoning;
  })

-- `{key: message[key] for key in … if message.get(key) is not None}`
abbrev pub kept_fields : List String → Fields → Fields
kept_fields [] message = end
kept_fields (key ∷ keys) message =
    let rest = kept_fields keys message in
    elim (get_or_null key message) [ null ↦ rest | v ↦ field key v rest ]

abbrev pub provided_by : Json → Trial Fields
provided_by (obj message) =
    got (kept_fields ("reasoning" ∷ "reasoning_content" ∷ "reasoning_details" ∷ []) message)
provided_by _ = threw malformed

-- max(1, (n + 3) // 4)
abbrev pub tokens_for : ℕ → ℕ
tokens_for n = max 1 ((n + 3) / 4)

abbrev pub estimated_usage : ℕ → ℕ → Usage
estimated_usage prompt completion = record {
  prompt_tokens = int (pos (tokens_for prompt));
  completion_tokens = int (pos (tokens_for completion));
  total_tokens = int (pos (tokens_for prompt + tokens_for completion));
  source = estimated;
  reasoning_tokens = pos 0;
}

module _ (codec : Codec) where
  -- orjson.loads
  unfoldable pub loaded : Json → Trial Json
  loaded (text s) = elim (codec.loads s) [ none ↦ threw malformed | some v ↦ got v ]
  loaded _ = threw malformed

  unfoldable pub parse_call : Json → Trial AnswerCall
  parse_call call = do
    call_id ← item "id" call
    function ← item "function" call
    name ← item "name" function
    encoded ← item "arguments" function
    arguments ← loaded (or_json encoded (text "{}"))
    got (record { call_id = call_id; called = name; arguments = arguments })

  unfoldable pub parse_calls : List Json → Trial (List AnswerCall)
  parse_calls [] = got []
  parse_calls (call ∷ calls) = do
    first ← parse_call call
    rest ← parse_calls calls
    got (first ∷ rest)

  unfoldable pub parse_response : Json → Trial ModelAnswer
  unfolding usage_of
  parse_response body = do
    choices ← item "choices" body
    choice ← head_of choices
    message ← item "message" choice
    listed ← get_of "tool_calls" message
    calls ← elements (or_json listed (arr nil)) >>= parse_calls
    usage_raw ← get_of "usage" body
    usage ← usage_of (or_json usage_raw (obj end))
    provided ← provided_by message
    content ← get_of "content" message
    reason ← get_default "finish_reason" (text "stop") choice
    model ← get_default "model" (text "") body
    got (record {
      answer_content = content;
      answer_calls = calls;
      finish_reason = reason;
      usage = usage;
      model = model;
      raw = body;
      provided = provided;
    })

  -- `total_tokens > 0`
  unfoldable pub is_counted : Json → Trial Bool
  is_counted (int (pos n)) = got (ltb 0 n)
  is_counted (int (negsuc n)) = got false
  is_counted (bool b) = got b
  is_counted (decimal d) = got (codec.is_positive d)
  is_counted _ = threw malformed

  abbrev pub call_bytes : List AnswerCall → Trial ℕ
  call_bytes [] = got 0
  call_bytes (call ∷ calls) = do
    name ← text_of call.called
    rest ← call_bytes calls
    got (codec.encoded_bytes name + codec.dumped_bytes call.arguments + rest)

  abbrev pub prompt_bytes : Fields → ℕ
  prompt_bytes payload =
      codec.dumped_bytes (elim (get "messages" payload) [ none ↦ arr nil | some v ↦ v ])
      + (if truthy (get_or_null "tools" payload)
          then codec.dumped_bytes (get_or_null "tools" payload)
          else 0)

  abbrev pub estimated_for : ModelAnswer → Fields → Trial ModelAnswer
  estimated_for answer payload = do
    content ← text_of (or_json answer.answer_content (text ""))
    calls ← call_bytes answer.answer_calls
    got (record answer {
      usage = estimated_usage (prompt_bytes payload) (codec.encoded_bytes content + calls);
    })

  abbrev pub unless_counted : ModelAnswer → Fields → Trial Bool → Trial ModelAnswer
  unless_counted answer payload (threw e) = threw e
  unless_counted answer payload (got true) = got answer
  unless_counted answer payload (got false) = estimated_for answer payload

  unfoldable pub ensure_usage : ModelAnswer → Fields → Trial ModelAnswer
  unfolding is_counted
  ensure_usage answer payload = unless_counted answer payload (is_counted answer.usage.total_tokens)
