-- ===== src/Gateway/Cut.antt =====
-- An answer of a model as its server sends it: in one body, or cut into the chunks of a stream.
use marcus.Prelude.{ℕ, suc, String, List, [], ◌∷◌, ◌++◌, map, zero, Bool, true, false}
use marcus.Gateway.{got, threw, Trial}
use marcus.Gateway.Answer.{ModelAnswer}
use marcus.Gateway.Stream.{done, chunk, CallEntry, Line, skipped}
use marcus.Gateway.Streaming.{text_or_null, join_texts}
use marcus.Prelude.Json.{obj, arr, text, pos, int, cons, end, Fields, null, field, Items, Json, nil}
use marcus.Prelude.Texts.{concat}

-- A line before the answer is over: a piece of the content, a piece of the call of a number, or a
-- line that carries nothing, as the empty lines between two chunks and the comments do.
pub data Event : Type 0 where
  text_sent : String → Event
  piece_sent : ℕ → CallEntry → Event
  nothing_sent : Event

-- The lines before the answer is over; the calls that they carry, each of at least one piece; why the
-- model stopped, and its usage, in the same chunk or in one of its own without choices; how many lines
-- carry nothing before the end and after each of these chunks; and what is sent after the end.
pub record CutAnswer : Type 0 where
  pub sent : List Event
  pub cut_calls : List (CallEntry × List CallEntry)
  pub cut_reason : Json
  pub cut_usage : Json
  pub is_usage_apart : Bool
  pub pauses : ℕ
  pub trailing : List Line

abbrev pub texts_of : List Event → List String
texts_of [] = []
texts_of (text_sent s ∷ events) = s ∷ texts_of events
texts_of (piece_sent i p ∷ events) = texts_of events
texts_of (nothing_sent ∷ events) = texts_of events

abbrev pub pieces_of : List Event → List (ℕ × CallEntry)
pieces_of [] = []
pieces_of (text_sent s ∷ events) = pieces_of events
pieces_of (piece_sent i p ∷ events) = (i, p) ∷ pieces_of events
pieces_of (nothing_sent ∷ events) = pieces_of events

abbrev pub sent_texts : CutAnswer → List String
sent_texts cut = texts_of cut.sent

abbrev pub one : Json → Json
one v = arr (cons v nil)

abbrev pub delta_chunk : Fields → Json
delta_chunk delta = obj (field "choices" (one (obj (field "delta" (obj delta) end))) end)

abbrev pub text_chunk : String → Json
text_chunk s = delta_chunk (field "content" (text s) end)

abbrev pub function_json : CallEntry → Json
function_json p =
    obj (field "name" (text p.entry_name) (field "arguments" (text p.entry_arguments) end))

abbrev pub piece_chunk : ℕ → CallEntry → Json
piece_chunk i p = delta_chunk (
    field "tool_calls"
      (one (
        obj (
          field "index" (int (pos i))
            (field "id" (text p.entry_id) (field "function" (function_json p) end)))))
      end)

abbrev pub last_chunk : Json → Json → Json
last_chunk reason usage = obj (
    field "choices" (one (obj (field "delta" (obj end) (field "finish_reason" reason end))))
      (field "usage" usage end))

abbrev pub reason_chunk : Json → Json
reason_chunk reason =
    obj
      (field "choices" (one (obj (field "delta" (obj end) (field "finish_reason" reason end)))) end)

abbrev pub usage_chunk : Json → Json
usage_chunk usage = obj (field "choices" (arr nil) (field "usage" usage end))

-- The pieces of the calls, numbered from `i`, one call after the other.
abbrev pub numbered_pieces : ℕ → List CallEntry → List (ℕ × CallEntry)
numbered_pieces i [] = []
numbered_pieces i (p ∷ ps) = (i, p) ∷ numbered_pieces i ps

abbrev pub numbered_calls : ℕ → List (CallEntry × List CallEntry) → List (ℕ × CallEntry)
numbered_calls i [] = []
numbered_calls i ((p, ps) ∷ cs) = (i, p) ∷ numbered_pieces i ps ++ numbered_calls (suc i) cs

abbrev pub line_of : Event → Line
line_of (text_sent s) = chunk (text_chunk s)
line_of (piece_sent i p) = chunk (piece_chunk i p)
line_of nothing_sent = skipped

abbrev pub pause : ℕ → List Line → List Line
pause zero lines = lines
pause (suc n) lines = skipped ∷ pause n lines

abbrev pub ending : CutAnswer → Bool → List Line
ending cut true =
    chunk (reason_chunk cut.cut_reason)
    ∷ pause cut.pauses (chunk (usage_chunk cut.cut_usage) ∷ pause cut.pauses (done ∷ cut.trailing))
ending cut false =
    chunk (last_chunk cut.cut_reason cut.cut_usage) ∷ pause cut.pauses (done ∷ cut.trailing)

-- The whole stream.
abbrev pub stream_of : CutAnswer → List Line
stream_of cut = map line_of cut.sent ++ ending cut cut.is_usage_apart

-- A call is its pieces, put together.
abbrev pub whole_call : CallEntry × List CallEntry → CallEntry
whole_call (p, ps) = record {
  entry_id = concat p.entry_id (join_texts (map (λ q. q.entry_id) ps));
  entry_name = concat p.entry_name (join_texts (map (λ q. q.entry_name) ps));
  entry_arguments = concat p.entry_arguments (join_texts (map (λ q. q.entry_arguments) ps));
}

abbrev pub whole_json : CallEntry → Json
whole_json e = obj (
    field "id" (text e.entry_id)
      (field "type" (text "function") (field "function" (function_json e) end)))

abbrev pub whole_calls : List (CallEntry × List CallEntry) → Items
whole_calls [] = nil
whole_calls (c ∷ cs) = cons (whole_json (whole_call c)) (whole_calls cs)

-- The body.
abbrev pub body_of : CutAnswer → Json
body_of cut = obj (
    field "choices"
      (one (
        obj (
          field "message"
            (obj (
              field "content" (text_or_null (join_texts (sent_texts cut)))
                (field "tool_calls" (arr (whole_calls cut.cut_calls)) end)))
            (field "finish_reason" cut.cut_reason end))))
      (field "usage" cut.cut_usage end))

-- An answer without the body that it was read from and the model's name, which a stream has not.
abbrev pub view : Trial ModelAnswer → Trial ModelAnswer
view (threw e) = threw e
view (got a) = got (record a { raw = null; model = null })
