-- ===== src/Tests/Gateway.antt =====
-- The gateway on a server that is busy once, on a provider, and on an answer in chunks.
use marcus.Prelude.{
  if◌then◌else◌, ◌==◌, String, ◌≡◌, refl, true, false, Option, none, some, List, [], ◌∷◌, nat_eq,
  string_eq, ◌&&◌, ◌||◌, ◌+◌, ◌≤◌, ◌<◌, ◌≢◌, not,
}
use marcus.Gateway.{Codec, looks_like_reasoning_unsupported, reasoning_not_supported, threw}
use marcus.Gateway.Adapt.{adapt_request}
use marcus.Gateway.Answered.{complete-IsComplete, IsComplete}
use marcus.Gateway.Bounded.{IsSettled, post_with_retry-IsSettled}
use marcus.Gateway.Client.{complete}
use marcus.Gateway.Cut.{
  piece_chunk, CutAnswer, body_of, text_chunk, nothing_sent, piece_sent, reason_chunk, usage_chunk,
  text_sent,
}
use marcus.Gateway.Fallback.{IsAdapted, adapt_request-IsAdapted}
use marcus.Gateway.Post.{GatewayState, responded, Server, post_with_retry}
use marcus.Gateway.Providers.{ModelOptions, Names}
use marcus.Gateway.Request.{GatewaySettings, Question}
use marcus.Gateway.Stream.{opened, unopened, skipped, CallEntry}
use marcus.Gateway.Streamed.{complete_stream-bounded}
use marcus.Gateway.Streaming.{complete_stream, StreamServer}
use marcus.Llm.{said, user_role}
use marcus.Prelude.Json.{int, pos, end, field, Json, null, obj, text}

abbrev first_piece : CallEntry
first_piece = record { entry_id = "c1"; entry_name = "find"; entry_arguments = "" }

abbrev second_piece : CallEntry
second_piece = record { entry_id = ""; entry_name = ""; entry_arguments = "{}" }

-- A text between the two pieces of a call, empty lines, and the usage apart.
abbrev two_texts : CutAnswer
two_texts = record {
  sent =
      text_sent "He"
      ∷ nothing_sent
      ∷ text_sent ""
      ∷ piece_sent 0 first_piece
      ∷ nothing_sent
      ∷ text_sent "llo"
      ∷ piece_sent 0 second_piece
      ∷ [];
  cut_calls = (first_piece, second_piece ∷ []) ∷ [];
  cut_reason = text "tool_calls";
  cut_usage = null;
  is_usage_apart = true;
  pauses = 1;
  trailing = skipped ∷ [];
}

-- The stream of `two_texts`.
abbrev sample_lines : List String
sample_lines =
    "t0" ∷ "" ∷ "t1" ∷ "c0" ∷ "" ∷ "t2" ∷ "c1" ∷ "end" ∷ "" ∷ "usage" ∷ "" ∷ "[DONE]" ∷ "" ∷ []

abbrev sample_loads : String → Option Json
sample_loads s =
    if s == "t0"
    then some (text_chunk "He")
    else if s == "t1"
    then some (text_chunk "")
    else if s == "t2"
    then some (text_chunk "llo")
    else if s == "c0"
    then some (piece_chunk 0 first_piece)
    else if s == "c1"
    then some (piece_chunk 0 second_piece)
    else if s == "end"
    then some (reason_chunk (text "tool_calls"))
    else if s == "usage"
    then some (usage_chunk null)
    else if s == "{}"
    then some (obj end)
    else if s == "body"
    then some (body_of two_texts)
    else none

abbrev sample_codec : Codec
sample_codec = record {
  loads = sample_loads;
  dumped_bytes = λ v. 2;
  encoded_bytes = λ s. 5;
  is_positive = λ s. true;
  lower = λ s. s;
  contains =
      λ s part. s == "unsupported reasoning" && (part == "unsupported" || part == "reasoning");
  dumps = λ fields. "{}";
  starts_with = λ s part. not (s == "");
  from_position = λ n s. s;
  strip = λ s. s;
}

abbrev sample_names : Names
sample_names = record {
  host = λ url. "api.openai.com";
  port = λ url. none;
  lower = λ s. s;
  contains = λ s part. false;
  ends_with = λ s part. false;
  last_part = λ s. s;
  is_reasoning_model = λ s. true;
  gpt_version = λ s. some (5, 1);
}

abbrev sample_settings : GatewaySettings
sample_settings = record {
  llm_base_url = "https://api.openai.com";
  llm_model = "gpt-5.1";
  llm_provider = none;
}

-- Busy at first, then a refusal of the reasoning fields, then an answer.
abbrev busy_server : Server
busy_server n payload =
    if n == 0
    then responded 503 "busy"
    else if n == 1
    then responded 400 "unsupported reasoning"
    else responded 200 "body"

abbrev sample_options : ModelOptions
sample_options = record {
  reasoning_effort = some "high";
  thinking_enabled = none;
  max_completion_tokens = some 100;
  reasoning_budget_tokens = none;
  extra_body = field "model" (text "other") (field "seed" (int (pos 7)) end);
}

abbrev sample_question : Question
sample_question = record {
  asked_messages = said user_role (some "hi") ∷ [];
  asked_tools = [];
  asked_model = none;
  asked_options = some sample_options;
  temperature = int (pos 0);
  max_retries = 3;
}

abbrev new_gateway : GatewayState
new_gateway = record { posts = 0; tool_capable = none; reasoning_capable = []; deltas = [] }

post_with_retry-IsSettled_example :
    let o = post_with_retry sample_codec busy_server 3 end [] new_gateway in
    IsSettled busy_server 3 end [] new_gateway o.0 o.1
post_with_retry-IsSettled_example =
    post_with_retry-IsSettled sample_codec busy_server end [] 3 new_gateway

complete-IsComplete_example :
    let o =
      complete sample_codec sample_names sample_settings busy_server new_gateway sample_question in
    IsComplete sample_codec busy_server 3 new_gateway o.0 o.1
complete-IsComplete_example =
    complete-IsComplete sample_codec sample_names sample_settings busy_server new_gateway
      sample_question

adapt_request-IsAdapted_example : IsAdapted (field "model" (text "gpt-5.1") end) (
    adapt_request sample_names "https://api.openai.com" "gpt-5.1" none
      (some sample_options)
      (field "model" (text "gpt-5.1") end))
adapt_request-IsAdapted_example =
    adapt_request-IsAdapted sample_names "https://api.openai.com" "gpt-5.1" none
      (some sample_options) (field "model" (text "gpt-5.1") end)

-- No connection at first, then the chunks.
abbrev late_streams : StreamServer
late_streams n payload = if n == 0 then unopened else opened 200 "" sample_lines false

complete_stream-bounded_example :
    let o =
      complete_stream sample_codec sample_names sample_settings late_streams new_gateway
        sample_question in
    (new_gateway.posts < o.0.posts)
    × (o.0.posts ≤ new_gateway.posts + (sample_question.max_retries + 2))
    × (o.1 ≢ threw reasoning_not_supported)
complete_stream-bounded_example =
    complete_stream-bounded sample_codec sample_names sample_settings late_streams new_gateway
      sample_question

-- The third post, without the reasoning effort, is answered.
three_posts :
    (complete sample_codec sample_names sample_settings busy_server new_gateway
      sample_question).0.posts
    ≡ 3
unfolding complete looks_like_reasoning_unsupported
three_posts = refl
