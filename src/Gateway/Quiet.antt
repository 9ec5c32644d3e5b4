-- ===== src/Gateway/Quiet.antt =====
-- What a stream of `LLMGateway._complete_stream_once` raises when its request has no reasoning fields.
use marcus.Prelude.{
  ℕ, if◌then◌else◌, ◌==◌, String, refl, ◌≢◌, Bool, true, false, Option, none, some, List, [], ◌∷◌,
  map, arith, nat_eq, string_eq,
}
use marcus.Coding.Evidence.{truthy}
use marcus.Gateway.{
  get_default, text_of, head_of, Raised, Codec, got, Trial, get_of, reasoning_not_supported,
  elements, malformed, threw, or_json, looks_like_reasoning_unsupported,
}
use marcus.Gateway.Answer.{loaded, usage_of, Usage}
use marcus.Gateway.Malformed.{
  ensure_usage-OnlyMalformed, head_of-OnlyMalformed, text_of-OnlyMalformed, bind-OnlyMalformed,
  get_of-OnlyMalformed, usage_of-OnlyMalformed, get_default-OnlyMalformed, loaded-OnlyMalformed,
  elements-OnlyMalformed, OnlyMalformed,
}
use marcus.Gateway.Stream.{
  Line, text_taken, opened, is_hashable, garbled, no_answer_yet, add_fragment, Opened, CallEntry,
  take_chunk, chunk, take_text, follow, text_field, add_piece, usage_after, take_rest, read_lines,
  skipped, rest_taken, Assembly, read_line, unopened, add_fragments, done,
}
use marcus.Gateway.Streaming.{
  refused_stream, finish_stream, after_lines, streamed_answer, join_parts, finished_calls,
  stream_once,
}
use marcus.Prelude.Json.{int, pos, Fields, arr, nil, text, cons, Json, obj, end}

-- No exception is the signal that the reasoning fields are not supported.
abbrev pub Quiet : Option Raised → Type 0
Quiet none = Unit
Quiet (some e) = e ≢ reasoning_not_supported

abbrev pub QuietTrial {ℓ} : {A : Type ℓ} → Trial A → Type 0
QuietTrial (got a) = Unit
QuietTrial (threw e) = e ≢ reasoning_not_supported

malformed-QuietTrial {ℓ} : {A : Type ℓ} (t : Trial A) → OnlyMalformed t → QuietTrial t
malformed-QuietTrial (got a) h = tt
malformed-QuietTrial (threw e) h = λ same. ground (arith, h, same)

text_field-OnlyMalformed : (key : String) (v : Json) → OnlyMalformed (text_field key v)
text_field-OnlyMalformed key v =
    bind-OnlyMalformed (get_of key v) _ (get_of-OnlyMalformed key v)
      (λ w. text_of-OnlyMalformed (or_json w (text "")))

add_entry-OnlyMalformed :
    (v : Json) (more : CallEntry) (entries : List (Json × CallEntry)) (b : Bool)
    → OnlyMalformed (if b then got (add_piece v more entries) else threw malformed)
add_entry-OnlyMalformed v more entries true = tt
add_entry-OnlyMalformed v more entries false = refl

add_fragment-OnlyMalformed :
    (v : Json) (entries : List (Json × CallEntry)) → OnlyMalformed (add_fragment v entries)
unfolding add_fragment
add_fragment-OnlyMalformed v entries =
    bind-OnlyMalformed (get_default "index" (int (pos 0)) v) _ (get_default-OnlyMalformed _ _ v)
      (λ i. bind-OnlyMalformed (text_field "id" v) _ (text_field-OnlyMalformed _ v) (λ c.
        bind-OnlyMalformed (get_of "function" v) _ (get_of-OnlyMalformed _ v) (λ f.
          bind-OnlyMalformed (text_field "name" (or_json f (obj end))) _
            (text_field-OnlyMalformed _ (or_json f (obj end)))
            (λ n.
              bind-OnlyMalformed (text_field "arguments" (or_json f (obj end))) _
                (text_field-OnlyMalformed _ (or_json f (obj end)))
                (λ a. add_entry-OnlyMalformed i _ entries (is_hashable i))))))

add_fragments-OnlyMalformed :
    (vs : List Json) (entries : List (Json × CallEntry)) → OnlyMalformed (add_fragments vs entries)
unfolding add_fragments
add_fragments-OnlyMalformed [] entries = tt
add_fragments-OnlyMalformed (v ∷ vs) entries =
    bind-OnlyMalformed (add_fragment v entries) _ (add_fragment-OnlyMalformed v entries)
      (add_fragments-OnlyMalformed vs)

usage_after-OnlyMalformed : (v : Json) (u : Usage) → OnlyMalformed (usage_after v u)
unfolding usage_after
usage_after-OnlyMalformed v u =
    elim (truthy v) as (λ b. OnlyMalformed (if b then usage_of v else got u)) [
      | true ↦ usage_of-OnlyMalformed v
      | false ↦ tt
    ]

take_text-OnlyMalformed : (v : Json) (a : Assembly) → OnlyMalformed (take_text v a)
unfolding take_text
take_text-OnlyMalformed v a =
    bind-OnlyMalformed (get_of "choices" v) _ (get_of-OnlyMalformed _ v) (λ cs.
      bind-OnlyMalformed (head_of (or_json cs (arr (cons (obj end) nil)))) _
        (head_of-OnlyMalformed (or_json cs (arr (cons (obj end) nil))))
        (λ c. bind-OnlyMalformed (get_of "finish_reason" c) _ (get_of-OnlyMalformed _ c) (λ r.
          bind-OnlyMalformed (get_of "delta" c) _ (get_of-OnlyMalformed _ c) (λ d.
            bind-OnlyMalformed (get_of "content" (or_json d (obj end))) _
              (get_of-OnlyMalformed _ (or_json d (obj end))) (λ p. tt)))))

take_rest-OnlyMalformed : (v d : Json) (a : Assembly) → OnlyMalformed (take_rest v d a)
unfolding take_rest
take_rest-OnlyMalformed v d a =
    bind-OnlyMalformed (get_of "reasoning" d) _ (get_of-OnlyMalformed _ d) (λ x.
      bind-OnlyMalformed (get_of "reasoning_content" d) _ (get_of-OnlyMalformed _ d) (λ y.
        bind-OnlyMalformed (get_of "reasoning_details" d) _ (get_of-OnlyMalformed _ d) (λ z.
          bind-OnlyMalformed (get_of "tool_calls" d) _ (get_of-OnlyMalformed _ d) (λ l.
            bind-OnlyMalformed _ _
              (bind-OnlyMalformed (elements (or_json l (arr nil)))
                (λ fs. add_fragments fs a.entries) (elements-OnlyMalformed (or_json l (arr nil)))
                (λ fs. add_fragments-OnlyMalformed fs a.entries))
              (λ es. bind-OnlyMalformed (get_of "usage" v) _ (get_of-OnlyMalformed _ v) (λ u.
                bind-OnlyMalformed (usage_after u a.stream_usage) _
                  (usage_after-OnlyMalformed u a.stream_usage) (λ w. tt)))))))

rest-Quiet : (a : Assembly) (t : Trial Assembly) → OnlyMalformed t → Quiet (rest_taken a t).1
rest-Quiet a (got b) h = tt
rest-Quiet a (threw e) h = malformed-QuietTrial {A = Assembly} (threw e) h

text-Quiet :
    (v : Json) (a : Assembly) (t : Trial (Assembly × Json))
    → OnlyMalformed t
    → Quiet (text_taken v a t).1
text-Quiet v a (threw e) h = malformed-QuietTrial {A = Assembly} (threw e) h
text-Quiet v a (got (b, d)) h = rest-Quiet b (take_rest v d b) (take_rest-OnlyMalformed v d b)

next-Quiet :
    (stopped : Option Raised) (b : Assembly) (later : Assembly × Option Raised)
    → Quiet stopped
    → Quiet later.1
    → Quiet
        (elim stopped as (λ x. Assembly × Option Raised) [ none ↦ later | some e ↦ (b, some e) ]).1
next-Quiet none b later h k = k
next-Quiet (some e) b later h k = h

follow-Quiet : (breaks : Bool) (lines : List Line) (a : Assembly) → Quiet (follow breaks lines a).1
unfolding follow take_chunk
follow-Quiet true [] a = λ e. ground (arith, e)
follow-Quiet false [] a = tt
follow-Quiet breaks (skipped ∷ lines) a = follow-Quiet breaks lines a
follow-Quiet breaks (done ∷ lines) a = tt
follow-Quiet breaks (garbled ∷ lines) a = λ e. ground (arith, e)
follow-Quiet breaks (chunk v ∷ lines) a =
    next-Quiet (take_chunk v a).1 (take_chunk v a).0 (follow breaks lines (take_chunk v a).0)
      (text-Quiet v a (take_text v a) (take_text-OnlyMalformed v a))
      (follow-Quiet breaks lines (take_chunk v a).0)

join_parts-OnlyMalformed : (parts : List Json) → OnlyMalformed (join_parts parts)
join_parts-OnlyMalformed [] = tt
join_parts-OnlyMalformed (p ∷ ps) =
    bind-OnlyMalformed (text_of p) _ (text_of-OnlyMalformed p)
      (λ s. bind-OnlyMalformed (join_parts ps) _ (join_parts-OnlyMalformed ps) (λ t. tt))

module _ (codec : Codec) where
  finished_calls-OnlyMalformed :
      (entries : List (Json × CallEntry)) → OnlyMalformed (finished_calls codec entries)
  unfolding finished_calls
  finished_calls-OnlyMalformed [] = tt
  finished_calls-OnlyMalformed ((k, e) ∷ rest) =
      bind-OnlyMalformed (loaded codec (or_json (text e.entry_arguments) (text "{}"))) _
        (loaded-OnlyMalformed codec (or_json (text e.entry_arguments) (text "{}")))
        (λ a.
          bind-OnlyMalformed (finished_calls codec rest) _ (finished_calls-OnlyMalformed rest)
            (λ cs. tt))

  finish-OnlyMalformed :
      (model : String) (payload : Fields) (a : Assembly)
      → OnlyMalformed (finish_stream codec model payload a)
  unfolding finish_stream
  finish-OnlyMalformed model payload a =
      bind-OnlyMalformed (finished_calls codec a.entries) _ (finished_calls-OnlyMalformed a.entries)
        (λ cs.
          bind-OnlyMalformed (join_parts a.content_parts) _
            (join_parts-OnlyMalformed a.content_parts)
            (λ t. ensure_usage-OnlyMalformed codec (streamed_answer codec model a t cs) payload))

  lines-Quiet :
      (model : String) (payload : Fields) (o : Assembly × Option Raised)
      → Quiet o.1
      → QuietTrial (after_lines codec model payload o).1
  lines-Quiet model payload (a, some e) h = h
  lines-Quiet model payload (a, none) h =
      malformed-QuietTrial (finish_stream codec model payload a)
        (finish-OnlyMalformed model payload a)

  status-Quiet :
      (model : String) (payload : Fields) (status : ℕ) (body : String) (lines : List String)
      (breaks ok : Bool)
      → QuietTrial
          (if ok
            then after_lines codec model payload (read_lines codec breaks lines no_answer_yet)
            else ([], threw (refused_stream codec status body []))).1
  unfolding read_lines refused_stream looks_like_reasoning_unsupported
  status-Quiet model payload status body lines breaks true =
      lines-Quiet model payload (read_lines codec breaks lines no_answer_yet)
        (follow-Quiet breaks (map (read_line codec) lines) no_answer_yet)
  status-Quiet model payload status body lines breaks false = λ e. ground (arith, e)

  -- Without reasoning fields there is no signal.
  pub once-Quiet :
      (model : String) (payload : Fields) (o : Opened)
      → QuietTrial (stream_once codec model payload [] o).1
  unfolding stream_once
  once-Quiet model payload unopened = λ e. ground (arith, e)
  once-Quiet model payload (opened status body lines breaks) =
      status-Quiet model payload status body lines breaks (status == 200)
