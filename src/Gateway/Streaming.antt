-- ===== src/Gateway/Streaming.antt =====
-- harness/llm/gateway.py: the end of `LLMGateway._complete_stream_once`, and the retries of
-- `LLMGateway.complete_stream`. Each opening of a stream counts as a post.
use marcus.Prelude.{
  ℕ, if◌then◌else◌, ◌==◌, zero, suc, String, true, false, not, Option, none, some, List, [], ◌∷◌,
  ◌++◌, nat_eq, string_eq, Bool,
}
use marcus.Gateway.{
  text_of, is_retryable, got, threw, transient, reasoning_not_supported, Codec, llm_failure, Raised,
  Trial, or_json, looks_like_reasoning_unsupported, ◌>>=◌,
}
use marcus.Gateway.Adapt.{AdaptedRequest}
use marcus.Gateway.Answer.{ModelAnswer, loaded, AnswerCall, ensure_usage}
use marcus.Gateway.Client.{select_adapted_payload, supported, reasoning_cache_key, remember}
use marcus.Gateway.Post.{GatewayState, CapabilityKey}
use marcus.Gateway.Providers.{Names}
use marcus.Gateway.Request.{model_name, GatewaySettings, is_nil, adapted_for, items_from, Question}
use marcus.Gateway.Stream.{opened, Opened, read_lines, Assembly, unopened, CallEntry, no_answer_yet}
use marcus.Prelude.Json.{bool, obj, Json, arr, text, Fields, field, put, end, null, decimal}
use marcus.Prelude.Texts.{concat}

-- What the server sends on a stream, by the number of posts before it.
abbrev pub StreamServer : Type 0
StreamServer = ℕ → Fields → Opened

-- `"".join(parts)`
abbrev pub join_parts : List Json → Trial String
join_parts [] = got ""
join_parts (part ∷ parts) =
    text_of part >>= λ first. join_parts parts >>= λ rest. got (concat first rest)

abbrev pub join_texts : List String → String
join_texts [] = ""
join_texts (s ∷ rest) = concat s (join_texts rest)

-- `"".join(content_parts) or None`
abbrev pub text_or_null : String → Json
text_or_null s = if s == "" then null else text s

-- `{field: "".join(parts) for … if parts}`, and the details
abbrev pub put_parts : String → List String → Fields → Fields
put_parts key [] fields = fields
put_parts key (part ∷ parts) fields = put key (text (join_texts (part ∷ parts))) fields

abbrev pub put_details : List Json → Fields → Fields
put_details [] fields = fields
put_details (v ∷ vs) fields = put "reasoning_details" (arr (items_from (λ w. w) (v ∷ vs))) fields

abbrev pub streamed_fields : Assembly → Fields
streamed_fields a =
    put_details a.reasoning_details
      (put_parts "reasoning_content" a.reasoning_content (put_parts "reasoning" a.reasoning end))

module _ (codec : Codec) where
  unfoldable pub finished_calls : List (Json × CallEntry) → Trial (List AnswerCall)
  unfolding loaded
  finished_calls [] = got []
  finished_calls ((k, e) ∷ rest) = do
    arguments ← loaded codec (or_json (text e.entry_arguments) (text "{}"))
    later ← finished_calls rest
    got (
        record { call_id = text e.entry_id; called = text e.entry_name; arguments = arguments }
        ∷ later)

  abbrev pub streamed_answer : String → Assembly → String → List AnswerCall → ModelAnswer
  streamed_answer model a answer calls = record {
    answer_content = text_or_null answer;
    answer_calls = calls;
    finish_reason = a.stream_reason;
    usage = a.stream_usage;
    model = text model;
    raw = obj end;
    provided = streamed_fields a;
  }

  -- What follows the loop over the lines.
  unfoldable pub finish_stream : String → Fields → Assembly → Trial ModelAnswer
  unfolding finished_calls ensure_usage
  finish_stream model payload a = finished_calls a.entries >>= λ calls.
      join_parts a.content_parts >>= λ answer.
      ensure_usage codec (streamed_answer model a answer calls) payload

  abbrev pub after_lines :
      String → Fields → Assembly × Option Raised → List Json × Trial ModelAnswer
  after_lines model payload (a, some e) = (a.content_parts, threw e)
  after_lines model payload (a, none) = (a.content_parts, finish_stream model payload a)

  -- The exception for a status other than 200.
  unfoldable pub refused_stream : ℕ → String → List String → Raised
  refused_stream status body reasoning_fields =
      if is_retryable status
      then transient
      else if looks_like_reasoning_unsupported codec status body reasoning_fields
      then reasoning_not_supported
      else llm_failure

  -- What `on_delta` is given, and the answer.
  unfoldable pub stream_once :
      String → Fields → List String → Opened → List Json × Trial ModelAnswer
  unfolding read_lines finish_stream refused_stream
  stream_once model payload reasoning_fields unopened = ([], threw transient)
  stream_once model payload reasoning_fields (opened status body lines breaks) =
      if status == 200
      then after_lines model payload (read_lines codec breaks lines no_answer_yet)
      else ([], threw (refused_stream status body reasoning_fields))

-- A stream has been opened, and its deltas handed on.
abbrev pub streamed : List Json → GatewayState → GatewayState
streamed deltas s = record s { posts = suc s.posts; deltas = s.deltas ++ deltas }

module _ (codec : Codec) (model : String) (server : StreamServer) where
  -- A round of the loop that is the last one, unless it asks for another.
  abbrev pub last_round :
      List String
      → CapabilityKey
      → GatewayState
      → List Json × Trial ModelAnswer
      → GatewayState × Trial ModelAnswer
  last_round reasoning_fields key s (deltas, got answer) =
      (supported key reasoning_fields (streamed deltas s), got answer)
  last_round reasoning_fields key s (deltas, threw e) = (streamed deltas s, threw e)

  -- The loop once it has fallen back; the first argument is `max_retries - attempt`.
  unfoldable pub stream_fallen :
      ℕ → Fields → List String → CapabilityKey → GatewayState → GatewayState × Trial ModelAnswer
  unfolding stream_once
  stream_fallen zero payload reasoning_fields key s =
      last_round reasoning_fields key s
        (stream_once codec model payload reasoning_fields (server s.posts payload))
  stream_fallen (suc left) payload reasoning_fields key s =
      let (deltas, r) = stream_once codec model payload reasoning_fields (server s.posts payload) in
      elim r [
        | threw transient ↦ stream_fallen left payload reasoning_fields key (streamed deltas s)
        | r' ↦ last_round reasoning_fields key s (deltas, r')
      ]

  -- The loop before it has.
  unfoldable pub stream_first :
      ℕ
      → Fields
      → Fields
      → List String
      → CapabilityKey
      → GatewayState
      → GatewayState × Trial ModelAnswer
  unfolding stream_fallen
  stream_first zero payload fallback reasoning_fields key s =
      let (deltas, r) = stream_once codec model payload reasoning_fields (server s.posts payload) in
      elim r [
        | threw reasoning_not_supported ↦
            stream_fallen zero fallback [] key (remember key false (streamed deltas s))
        | r' ↦ last_round reasoning_fields key s (deltas, r')
      ]
  stream_first (suc left) payload fallback reasoning_fields key s =
      let (deltas, r) = stream_once codec model payload reasoning_fields (server s.posts payload) in
      elim r [
        | threw reasoning_not_supported ↦
            stream_fallen (suc left) fallback [] key (remember key false (streamed deltas s))
        | threw transient ↦
            stream_first left payload fallback reasoning_fields key (streamed deltas s)
        | r' ↦ last_round reasoning_fields key s (deltas, r')
      ]

module _ (codec : Codec) (names : Names) (settings : GatewaySettings) (server : StreamServer) where
  -- The request has fallen back already if its fields have been given up before; the Boolean tells
  -- whether the adapter has set any.
  unfoldable pub stream_selected :
      Question
      → AdaptedRequest
      → CapabilityKey
      → GatewayState
      → Fields
      → List String
      → Bool
      → GatewayState × Trial ModelAnswer
  unfolding stream_first
  stream_selected q adapted key s payload [] true =
      stream_fallen codec (model_name settings q) server q.max_retries payload [] key s
  stream_selected q adapted key s payload fields _ =
      stream_first codec (model_name settings q) server q.max_retries payload
        adapted.fallback_payload fields key s

  unfoldable pub stream_request :
      GatewayState → Question → AdaptedRequest → GatewayState × Trial ModelAnswer
  unfolding stream_selected select_adapted_payload
  stream_request s q adapted =
      let model = model_name settings q in
      let selected = select_adapted_payload s adapted model in
      stream_selected q adapted (reasoning_cache_key adapted model) s selected.0 selected.1
        (not (is_nil adapted.reasoning_fields))

  unfoldable pub complete_stream : GatewayState → Question → GatewayState × Trial ModelAnswer
  unfolding stream_request adapted_for
  complete_stream s q = stream_request s q (
      adapted_for codec names settings (decimal "0.0")
        (field "stream" (bool true)
          (field "stream_options" (obj (field "include_usage" (bool true) end)) end))
        q)
