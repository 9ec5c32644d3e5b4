-- ===== src/Gateway/Malformed.antt =====
-- What reading a body with status 200 may raise.
use marcus.Prelude.{String, ◌≡◌, refl, Option, none, some, Bool, true, false, List, [], ◌∷◌}
use marcus.Gateway.{
  get_default, ◌>>=◌, malformed, Trial, text_of, elements, get_of, item, head_of, threw, got, Codec,
  or_json,
}
use marcus.Gateway.Answer.{
  usage_of, reasoning_tokens_of, AnswerCall, loaded, provided_by, parse_response, call_bytes,
  unless_counted, parse_calls, parse_call, ensure_usage, ModelAnswer, is_counted,
}
use marcus.Prelude.Json.{
  decimal, int, null, Json, arr, pos, nil, obj, cons, get, bool, text, negsuc, end, Fields,
}

-- Nothing is raised but what is no `LLMError`.
abbrev pub OnlyMalformed {ℓ} : {A : Type ℓ} → Trial A → Type 0
OnlyMalformed (got a) = Unit
OnlyMalformed (threw e) = e ≡ malformed

pub bind-OnlyMalformed {ℓ κ} :
    {A : Type ℓ} {B : Type κ} (m : Trial A) (f : A → Trial B)
    → OnlyMalformed m
    → ((a : A) → OnlyMalformed (f a))
    → OnlyMalformed (m >>= f)
bind-OnlyMalformed (got a) f h k = k a
bind-OnlyMalformed (threw e) f h k = h

pub get_of-OnlyMalformed : (key : String) (v : Json) → OnlyMalformed (get_of key v)
get_of-OnlyMalformed key (obj fields) = tt
get_of-OnlyMalformed key null = refl
get_of-OnlyMalformed key (bool b) = refl
get_of-OnlyMalformed key (int n) = refl
get_of-OnlyMalformed key (decimal d) = refl
get_of-OnlyMalformed key (text s) = refl
get_of-OnlyMalformed key (arr vs) = refl

pub get_default-OnlyMalformed : (key : String) (d v : Json) → OnlyMalformed (get_default key d v)
get_default-OnlyMalformed key d (obj fields) = tt
get_default-OnlyMalformed key d null = refl
get_default-OnlyMalformed key d (bool b) = refl
get_default-OnlyMalformed key d (int n) = refl
get_default-OnlyMalformed key d (decimal s) = refl
get_default-OnlyMalformed key d (text s) = refl
get_default-OnlyMalformed key d (arr vs) = refl

found-OnlyMalformed :
    (o : Option Json) → OnlyMalformed (elim o [ none ↦ threw malformed | some v ↦ got v ])
found-OnlyMalformed none = refl
found-OnlyMalformed (some v) = tt

item-OnlyMalformed : (key : String) (v : Json) → OnlyMalformed (item key v)
item-OnlyMalformed key (obj fields) = found-OnlyMalformed (get key fields)
item-OnlyMalformed key null = refl
item-OnlyMalformed key (bool b) = refl
item-OnlyMalformed key (int n) = refl
item-OnlyMalformed key (decimal s) = refl
item-OnlyMalformed key (text s) = refl
item-OnlyMalformed key (arr vs) = refl

pub head_of-OnlyMalformed : (v : Json) → OnlyMalformed (head_of v)
head_of-OnlyMalformed (arr (cons v rest)) = tt
head_of-OnlyMalformed (arr nil) = refl
head_of-OnlyMalformed (obj fields) = refl
head_of-OnlyMalformed null = refl
head_of-OnlyMalformed (bool b) = refl
head_of-OnlyMalformed (int n) = refl
head_of-OnlyMalformed (decimal s) = refl
head_of-OnlyMalformed (text s) = refl

pub elements-OnlyMalformed : (v : Json) → OnlyMalformed (elements v)
elements-OnlyMalformed (arr vs) = tt
elements-OnlyMalformed (obj fields) = refl
elements-OnlyMalformed null = refl
elements-OnlyMalformed (bool b) = refl
elements-OnlyMalformed (int n) = refl
elements-OnlyMalformed (decimal s) = refl
elements-OnlyMalformed (text s) = refl

pub text_of-OnlyMalformed : (v : Json) → OnlyMalformed (text_of v)
text_of-OnlyMalformed (text s) = tt
text_of-OnlyMalformed (arr vs) = refl
text_of-OnlyMalformed (obj fields) = refl
text_of-OnlyMalformed null = refl
text_of-OnlyMalformed (bool b) = refl
text_of-OnlyMalformed (int n) = refl
text_of-OnlyMalformed (decimal s) = refl

reasoning_tokens_of-OnlyMalformed : (v : Json) → OnlyMalformed (reasoning_tokens_of v)
unfolding reasoning_tokens_of
reasoning_tokens_of-OnlyMalformed v =
    bind-OnlyMalformed (get_of "completion_tokens_details" v) _ (get_of-OnlyMalformed _ v) (λ d. tt)

pub usage_of-OnlyMalformed : (v : Json) → OnlyMalformed (usage_of v)
unfolding usage_of
usage_of-OnlyMalformed v =
    bind-OnlyMalformed (get_default "prompt_tokens" (int (pos 0)) v) _
      (get_default-OnlyMalformed _ _ v)
      (λ p.
        bind-OnlyMalformed (get_default "completion_tokens" (int (pos 0)) v) _
          (get_default-OnlyMalformed _ _ v)
          (λ c.
            bind-OnlyMalformed (get_default "total_tokens" (int (pos 0)) v) _
              (get_default-OnlyMalformed _ _ v)
              (λ t.
                bind-OnlyMalformed (reasoning_tokens_of v) _ (reasoning_tokens_of-OnlyMalformed v)
                  (λ r. tt))))

provided_by-OnlyMalformed : (v : Json) → OnlyMalformed (provided_by v)
provided_by-OnlyMalformed (obj fields) = tt
provided_by-OnlyMalformed (arr vs) = refl
provided_by-OnlyMalformed null = refl
provided_by-OnlyMalformed (bool b) = refl
provided_by-OnlyMalformed (int n) = refl
provided_by-OnlyMalformed (decimal s) = refl
provided_by-OnlyMalformed (text s) = refl

module _ (codec : Codec) where
  pub loaded-OnlyMalformed : (v : Json) → OnlyMalformed (loaded codec v)
  unfolding loaded
  loaded-OnlyMalformed (text s) = found-OnlyMalformed (codec.loads s)
  loaded-OnlyMalformed (obj fields) = refl
  loaded-OnlyMalformed (arr vs) = refl
  loaded-OnlyMalformed null = refl
  loaded-OnlyMalformed (bool b) = refl
  loaded-OnlyMalformed (int n) = refl
  loaded-OnlyMalformed (decimal s) = refl

  parse_call-OnlyMalformed : (v : Json) → OnlyMalformed (parse_call codec v)
  unfolding parse_call
  parse_call-OnlyMalformed v = bind-OnlyMalformed (item "id" v) _ (item-OnlyMalformed _ v) (λ i.
      bind-OnlyMalformed (item "function" v) _ (item-OnlyMalformed _ v) (λ f.
        bind-OnlyMalformed (item "name" f) _ (item-OnlyMalformed _ f) (λ n.
          bind-OnlyMalformed (item "arguments" f) _ (item-OnlyMalformed _ f) (λ a.
            bind-OnlyMalformed (loaded codec (or_json a (text "{}"))) _
              (loaded-OnlyMalformed (or_json a (text "{}"))) (λ x. tt)))))

  pub parse_calls-OnlyMalformed : (vs : List Json) → OnlyMalformed (parse_calls codec vs)
  unfolding parse_calls
  parse_calls-OnlyMalformed [] = tt
  parse_calls-OnlyMalformed (v ∷ vs) =
      bind-OnlyMalformed (parse_call codec v) _ (parse_call-OnlyMalformed v)
        (λ c. bind-OnlyMalformed (parse_calls codec vs) _ (parse_calls-OnlyMalformed vs) (λ x. tt))

  pub parse_response-OnlyMalformed : (body : Json) → OnlyMalformed (parse_response codec body)
  unfolding parse_response
  parse_response-OnlyMalformed body =
      bind-OnlyMalformed (item "choices" body) _ (item-OnlyMalformed _ body) λ cs.
        bind-OnlyMalformed (head_of cs) _ (head_of-OnlyMalformed cs) λ c.
          bind-OnlyMalformed (item "message" c) _ (item-OnlyMalformed _ c) λ m.
            bind-OnlyMalformed (get_of "tool_calls" m) _ (get_of-OnlyMalformed _ m) λ l.
              bind-OnlyMalformed (elements (or_json l (arr nil)) >>= parse_calls codec) _
                (bind-OnlyMalformed (elements (or_json l (arr nil))) _
                  (elements-OnlyMalformed (or_json l (arr nil))) parse_calls-OnlyMalformed)
                λ calls.
                  bind-OnlyMalformed (get_of "usage" body) _ (get_of-OnlyMalformed _ body) λ u.
                    bind-OnlyMalformed (usage_of (or_json u (obj end))) _
                      (usage_of-OnlyMalformed (or_json u (obj end)))
                      λ w. bind-OnlyMalformed (provided_by m) _ (provided_by-OnlyMalformed m) λ p.
                        bind-OnlyMalformed (get_of "content" m) _ (get_of-OnlyMalformed _ m) λ t.
                          bind-OnlyMalformed (get_default "finish_reason" (text "stop") c) _
                            (get_default-OnlyMalformed _ _ c)
                            λ r.
                              bind-OnlyMalformed (get_default "model" (text "") body) _
                                (get_default-OnlyMalformed _ _ body) λ x. tt

  call_bytes-OnlyMalformed : (calls : List AnswerCall) → OnlyMalformed (call_bytes codec calls)
  call_bytes-OnlyMalformed [] = tt
  call_bytes-OnlyMalformed (call ∷ calls) =
      bind-OnlyMalformed (text_of call.called) _ (text_of-OnlyMalformed call.called) (λ n.
        bind-OnlyMalformed (call_bytes codec calls) _ (call_bytes-OnlyMalformed calls) (λ x. tt))

  is_counted-OnlyMalformed : (v : Json) → OnlyMalformed (is_counted codec v)
  unfolding is_counted
  is_counted-OnlyMalformed (int (pos n)) = tt
  is_counted-OnlyMalformed (int (negsuc n)) = tt
  is_counted-OnlyMalformed (bool b) = tt
  is_counted-OnlyMalformed (decimal d) = tt
  is_counted-OnlyMalformed null = refl
  is_counted-OnlyMalformed (text s) = refl
  is_counted-OnlyMalformed (arr vs) = refl
  is_counted-OnlyMalformed (obj fields) = refl

  unless_counted-OnlyMalformed :
      (answer : ModelAnswer) (payload : Fields) (c : Trial Bool)
      → OnlyMalformed c
      → OnlyMalformed (unless_counted codec answer payload c)
  unless_counted-OnlyMalformed answer payload (threw e) h = h
  unless_counted-OnlyMalformed answer payload (got true) h = tt
  unless_counted-OnlyMalformed answer payload (got false) h =
      bind-OnlyMalformed (text_of (or_json answer.answer_content (text ""))) _
        (text_of-OnlyMalformed (or_json answer.answer_content (text "")))
        (λ t.
          bind-OnlyMalformed (call_bytes codec answer.answer_calls) _
            (call_bytes-OnlyMalformed answer.answer_calls) (λ x. tt))

  pub ensure_usage-OnlyMalformed :
      (answer : ModelAnswer) (payload : Fields) → OnlyMalformed (ensure_usage codec answer payload)
  unfolding ensure_usage
  ensure_usage-OnlyMalformed answer payload =
      unless_counted-OnlyMalformed answer payload (is_counted codec answer.usage.total_tokens)
        (is_counted-OnlyMalformed answer.usage.total_tokens)
