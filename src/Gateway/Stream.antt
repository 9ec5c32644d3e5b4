-- ===== src/Gateway/Stream.antt =====
-- harness/llm/gateway.py: `LLMGateway._complete_stream_once`. What the server sends on a stream is a
-- parameter; `httpx.TransportError` and `LLMTransientError`, which the caller treats alike, are both
-- `transient`.
use marcus.Prelude.{
  ℕ, if◌then◌else◌, ◌==◌, String, Bool, true, false, Option, none, some, List, [], ◌∷◌, ◌++◌,
  string_eq, map,
}
use marcus.Coding.Evidence.{truthy}
use marcus.Gateway.{
  Codec, ◌>>=◌, text_of, transient, Trial, threw, got, malformed, Raised, head_of, list_of, get_of,
  elements, get_default, or_json,
}
use marcus.Gateway.Answer.{by_provider, usage_of, Usage}
use marcus.Prelude.Json.{arr, pos, text, json_beq, cons, obj, nil, Json, int, end}
use marcus.Prelude.Texts.{concat}

-- No connection; or a status with the text of the response, the lines of the stream, and whether the
-- connection breaks after them.
pub data Opened : Type 0 where
  unopened : Opened
  opened : ℕ → String → List String → Bool → Opened

pub record CallEntry : Type 0 where
  pub entry_id : String
  pub entry_name : String
  pub entry_arguments : String

abbrev pub no_entry : CallEntry
no_entry = record { entry_id = ""; entry_name = ""; entry_arguments = "" }

-- The local variables of the method. The content parts are also what `on_delta` has been given.
pub record Assembly : Type 0 where
  pub content_parts : List Json
  pub reasoning : List String
  pub reasoning_content : List String
  pub reasoning_details : List Json
  pub entries : List (Json × CallEntry)
  pub stream_usage : Usage
  pub stream_reason : Json

abbrev pub zero_usage : Usage
zero_usage = record {
  prompt_tokens = int (pos 0);
  completion_tokens = int (pos 0);
  total_tokens = int (pos 0);
  source = by_provider;
  reasoning_tokens = pos 0;
}

abbrev pub no_answer_yet : Assembly
no_answer_yet = record {
  content_parts = [];
  reasoning = [];
  reasoning_content = [];
  reasoning_details = [];
  entries = [];
  stream_usage = zero_usage;
  stream_reason = text "stop";
}

pub data Line : Type 0 where
  skipped done garbled : Line
  chunk : Json → Line

unfoldable pub read_line : Codec → String → Line
read_line codec line =
    if codec.starts_with line "data:"
    then (let encoded = codec.strip (codec.from_position 5 line) in
        if encoded == "[DONE]"
        then done
        else elim (codec.loads encoded) [ none ↦ garbled | some v ↦ chunk v ])
    else skipped

abbrev pub is_hashable : Json → Bool
is_hashable (arr vs) = false
is_hashable (obj fields) = false
is_hashable _ = true

-- `calls.setdefault(index, …)`, and `+=` on the three fields of the entry
abbrev pub extended : CallEntry → CallEntry → CallEntry
extended e more = record {
  entry_id = concat e.entry_id more.entry_id;
  entry_name = concat e.entry_name more.entry_name;
  entry_arguments = concat e.entry_arguments more.entry_arguments;
}

unfoldable pub add_piece : Json → CallEntry → List (Json × CallEntry) → List (Json × CallEntry)
unfolding json_beq
add_piece index more [] = (index, extended no_entry more) ∷ []
add_piece index more ((k, e) ∷ rest) =
    let later = add_piece index more rest in
    if json_beq k index then (k, extended e more) ∷ rest else (k, e) ∷ later

-- `d.get(key) or ""`, added to a text
abbrev pub text_field : String → Json → Trial String
text_field key value = do v ← get_of key value; text_of (or_json v (text ""))

abbrev pub add_entry : Json → CallEntry → List (Json × CallEntry) → Trial (List (Json × CallEntry))
add_entry index more entries =
    if is_hashable index then got (add_piece index more entries) else threw malformed

unfoldable pub add_fragment : Json → List (Json × CallEntry) → Trial (List (Json × CallEntry))
unfolding add_piece
add_fragment fragment entries = do
  index ← get_default "index" (int (pos 0)) fragment
  call_id ← text_field "id" fragment
  function ← get_of "function" fragment
  name ← text_field "name" (or_json function (obj end))
  arguments ← text_field "arguments" (or_json function (obj end))
  add_entry index (record { entry_id = call_id; entry_name = name; entry_arguments = arguments })
      entries

unfoldable pub add_fragments : List Json → List (Json × CallEntry) → Trial (List (Json × CallEntry))
add_fragments [] entries = got entries
add_fragments (fragment ∷ fragments) entries =
    add_fragment fragment entries >>= λ more. add_fragments fragments more

-- What a field of `reasoning_parts` gains: only a text that is not empty.
abbrev pub reasoning_part : Json → List String
reasoning_part (text s) = if s == "" then [] else s ∷ []
reasoning_part _ = []

abbrev pub details_in : Json → List Json
details_in (arr vs) = list_of vs
details_in _ = []

abbrev pub part_of : Json → List Json
part_of v = if truthy v then v ∷ [] else []

-- The first part of the body of the loop, up to `on_delta`, with the delta.
unfoldable pub take_text : Json → Assembly → Trial (Assembly × Json)
take_text value a = do
  choices ← get_of "choices" value
  choice ← head_of (or_json choices (arr (cons (obj end) nil)))
  reason ← get_of "finish_reason" choice
  found ← get_of "delta" choice
  part ← get_of "content" (or_json found (obj end))
  got (
    record a {
      content_parts = a.content_parts ++ part_of part;
      stream_reason = or_json reason a.stream_reason;
    },
    or_json found (obj end),
  )

unfoldable pub usage_after : Json → Usage → Trial Usage
unfolding usage_of
usage_after usage_raw usage = if truthy usage_raw then usage_of usage_raw else got usage

-- The rest of it.
unfoldable pub take_rest : Json → Json → Assembly → Trial Assembly
take_rest value delta a = do
  thought ← get_of "reasoning" delta
  thought_content ← get_of "reasoning_content" delta
  details ← get_of "reasoning_details" delta
  listed ← get_of "tool_calls" delta
  entries ← elements (or_json listed (arr nil)) >>= λ fragments. add_fragments fragments a.entries
  usage_raw ← get_of "usage" value
  usage ← usage_after usage_raw a.stream_usage
  got (record a {
    reasoning = a.reasoning ++ reasoning_part thought;
    reasoning_content = a.reasoning_content ++ reasoning_part thought_content;
    reasoning_details = a.reasoning_details ++ details_in details;
    entries = entries;
    stream_usage = usage;
  })

-- What has been assembled, and the exception if there is one.
abbrev pub rest_taken : Assembly → Trial Assembly → Assembly × Option Raised
rest_taken a (got b) = (b, none)
rest_taken a (threw e) = (a, some e)

abbrev pub text_taken : Json → Assembly → Trial (Assembly × Json) → Assembly × Option Raised
text_taken value a (threw e) = (a, some e)
text_taken value a (got (b, delta)) = rest_taken b (take_rest value delta b)

unfoldable pub take_chunk : Json → Assembly → Assembly × Option Raised
unfolding take_text take_rest
take_chunk value a = text_taken value a (take_text value a)

-- The loop over the lines, each of them decoded when it is reached.
unfoldable pub follow : Bool → List Line → Assembly → Assembly × Option Raised
unfolding take_chunk
follow breaks [] a = (a, if breaks then some transient else none)
follow breaks (skipped ∷ lines) a = follow breaks lines a
follow breaks (done ∷ lines) a = (a, none)
follow breaks (garbled ∷ lines) a = (a, some transient)
follow breaks (chunk value ∷ lines) a =
    let (b, stopped) = take_chunk value a in
    elim stopped [ none ↦ follow breaks lines b | some e ↦ (b, some e) ]

-- The loop over `response.aiter_lines()`.
unfoldable pub read_lines : Codec → Bool → List String → Assembly → Assembly × Option Raised
unfolding read_line follow
read_lines codec breaks lines a = follow breaks (map (read_line codec) lines) a
