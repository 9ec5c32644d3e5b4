-- ===== src/Gateway/Answered.antt =====
-- What `LLMGateway.complete` answers: its requests, its exceptions and the usage it reports.
use marcus.Prelude.{
  ℕ, ◌+◌, ◌*◌, ◌≤◌, String, ◌≡◌, ◌≢◌, true, ◌<◌, Bool, false, arith, refl, List, [], ◌∷◌, ◌∙◌,
  Option, none, some, ap, ◌&&◌,
}
use marcus.Gateway.{
  threw, reasoning_not_supported, Trial, Codec, got, malformed, text_of, ◌>>=◌, or_json, Raised,
  transient, is_llm_error, llm_failure, tools_not_supported,
}
use marcus.Gateway.Adapt.{AdaptedRequest}
use marcus.Gateway.Answer.{
  is_counted, ModelAnswer, prompt_bytes, estimated_usage, tokens_for, unless_counted, call_bytes,
  ensure_usage, parse_response,
}
use marcus.Gateway.Bounded.{IsAccepted, IsSettled, post_with_retry-IsSettled}
use marcus.Gateway.Client.{
  supported, found_tools, read_value, read_response, or_fall_back, after_post, remember, complete,
  send_request, select_adapted_payload, unless_refused, is_false,
}
use marcus.Gateway.Malformed.{
  OnlyMalformed, parse_response-OnlyMalformed, ensure_usage-OnlyMalformed, bind-OnlyMalformed,
}
use marcus.Gateway.Post.{GatewayState, Server, CapabilityKey}
use marcus.Gateway.Providers.{Names}
use marcus.Gateway.Request.{Question, GatewaySettings, model_name, has_tools, adapted_for}
use marcus.Prelude.Json.{Fields, text, Json, end}

-- An outcome of `complete` from `s`. An exception that is no `LLMError` comes only after a response
-- with status 200, and an answer reports more than 0 tokens.
pub record IsComplete (codec : Codec) (server : Server) (retries : ℕ) (s s' : GatewayState)
    (r : Trial ModelAnswer) : Type 0 where
  pub bounded : s'.posts ≤ s.posts + 2 * (retries + 1)
  pub no_signal : r ≢ threw reasoning_not_supported
  pub only_after_success :
      r ≡ threw malformed → (payload : Fields) × (body : String) × IsAccepted server payload s' body
  pub reports_usage :
      (answer : ModelAnswer)
      → r ≡ got answer
      → is_counted codec answer.usage.total_tokens ≡ got true

module _ (codec : Codec) where
  tokens_for_positive : (n m : ℕ) → 0 < tokens_for n + tokens_for m
  tokens_for_positive n m = omega arith

  estimated_counted :
      (answer : ModelAnswer) (payload : Fields) (words : Trial String) (bytes : Trial ℕ)
      (answer' : ModelAnswer)
      → (words >>= λ content_text. bytes >>= λ calls. got (record answer {
        usage =
            estimated_usage (prompt_bytes codec payload) (codec.encoded_bytes content_text + calls);
      }))
        ≡ got answer'
      → is_counted codec answer'.usage.total_tokens ≡ got true
  unfolding is_counted
  estimated_counted answer payload (threw e) bytes answer' h = ground (arith, h)
  estimated_counted answer payload (got t) (threw e) answer' h = ground (arith, h)
  estimated_counted answer payload (got t) (got n) answer' h =
      ground
        (arith, h, tokens_for_positive (prompt_bytes codec payload) (codec.encoded_bytes t + n))

  pub ensured_usage :
      (answer : ModelAnswer) (payload : Fields) (test : Trial Bool) (answer' : ModelAnswer)
      → is_counted codec answer.usage.total_tokens ≡ test
      → unless_counted codec answer payload test ≡ got answer'
      → is_counted codec answer'.usage.total_tokens ≡ got true
  unfolding is_counted
  ensured_usage answer payload (threw e) answer' c h = ground (arith, h)
  ensured_usage answer payload (got true) answer' c h = cc
  ensured_usage answer payload (got false) answer' c h =
      estimated_counted answer payload (text_of (or_json answer.answer_content (text "")))
        (call_bytes codec answer.answer_calls) answer' h

  supported-posts :
      (key : CapabilityKey) (fields : List String) (s : GatewayState)
      → (supported key fields s).posts ≡ s.posts
  supported-posts key [] s = refl
  supported-posts key (f ∷ fields) s = refl

  no_signal_of : (r : Trial ModelAnswer) → OnlyMalformed r → r ≢ threw reasoning_not_supported
  no_signal_of (got answer) h e = ground (arith, e)
  no_signal_of (threw e') h e = ground (arith, h, e)

  module _ (server : Server) (q : Question) where
    found_tools-posts : (s : GatewayState) → (found_tools q s).posts ≡ s.posts
    found_tools-posts s = ground arith

    answer_usage :
        (payload : Fields) (parsed : Trial ModelAnswer) (answer : ModelAnswer)
        → (parsed >>= λ a. ensure_usage codec a payload) ≡ got answer
        → is_counted codec answer.usage.total_tokens ≡ got true
    unfolding ensure_usage
    answer_usage payload (threw e) answer h = ground (arith, h)
    answer_usage payload (got a) answer h =
        ensured_usage a payload (is_counted codec a.usage.total_tokens) answer refl h

    -- A response with status 200 is read.
    read_value-IsComplete :
        (payload : Fields) (s s' : GatewayState) (body : String) (o : Option Json)
        → s'.posts ≤ s.posts + 2 * (q.max_retries + 1)
        → IsAccepted server payload s' body
        → let out = read_value codec q payload s' o in
          IsComplete codec server q.max_retries s out.0 out.1
    read_value-IsComplete payload s s' body none bound accepted_now = record {
      bounded = bound;
      no_signal = λ e. ground (arith, e);
      only_after_success = λ _. (payload, body, accepted_now);
      reports_usage = λ answer e. ground (arith, e);
    }
    read_value-IsComplete payload s s' body (some value) bound accepted_now = record {
      bounded = omega (arith, bound, found_tools-posts s');
      no_signal = no_signal_of (parse_response codec value >>= λ a. ensure_usage codec a payload) (
          bind-OnlyMalformed (parse_response codec value) _
            (parse_response-OnlyMalformed codec value)
            (λ a. ensure_usage-OnlyMalformed codec a payload));
      only_after_success = λ _. (
        payload,
        body,
        record {
          before = accepted_now.before;
          then_posted = found_tools-posts s' ∙ accepted_now.then_posted;
          the_response = accepted_now.the_response;
        },
      );
      reports_usage = answer_usage payload (parse_response codec value);
    }

    -- The first send_request, or the second, has ended in `e`, no signal.
    failed-IsComplete :
        (s s' : GatewayState) (e : Raised)
        → s'.posts ≤ s.posts + 2 * (q.max_retries + 1)
        → is_llm_error e ≡ true
        → e ≢ reasoning_not_supported
        → IsComplete codec server q.max_retries s s' (threw e)
    failed-IsComplete s s' e bound known no_signal = record {
      bounded = bound;
      no_signal = λ same. no_signal (ground (arith, same));
      only_after_success = λ same. ground (arith, same, known);
      reports_usage = λ answer same. ground (arith, same);
    }

    second-IsComplete :
        (payload : Fields) (s s₁ s₂ : GatewayState) (r : Trial String)
        → s₁.posts ≤ s.posts + (q.max_retries + 1)
        → IsSettled server q.max_retries payload [] s₁ s₂ r
        → let out = after_post codec q payload (s₂, r) in
          IsComplete codec server q.max_retries s out.0 out.1
    unfolding read_response
    second-IsComplete payload s s₁ s₂ (threw e) start h =
        failed-IsComplete s s₂ e (omega (arith, start, h.bounded)) (h.no_other_error e refl)
          (λ same. h.asked_reasoning (ap threw same) refl)
    second-IsComplete payload s s₁ s₂ (got body) start h =
        read_value-IsComplete payload s s₂ body (codec.loads body) (omega (arith, start, h.bounded))
          (h.accepted_last body refl)

    first-IsComplete :
        (names : Names) (settings : GatewaySettings) (adapted : AdaptedRequest)
        (key : CapabilityKey) (selected : Fields × List String) (s s' : GatewayState)
        (r : Trial String)
        → IsSettled server q.max_retries selected.0 selected.1 s s' r
        → let out = or_fall_back codec names settings server q adapted key selected (s', r) in
          IsComplete codec server q.max_retries s out.0 out.1
    unfolding or_fall_back
    first-IsComplete names settings adapted key selected s s' (threw reasoning_not_supported) h =
        second-IsComplete adapted.fallback_payload s (remember key false s') _ _
          (omega (arith, h.bounded))
          (post_with_retry-IsSettled codec server adapted.fallback_payload [] q.max_retries
            (remember key false s'))
    first-IsComplete names settings adapted key selected s s' (threw llm_failure) h =
        failed-IsComplete s s' llm_failure (omega (arith, h.bounded)) refl (λ e. ground (arith, e))
    first-IsComplete names settings adapted key selected s s' (threw tools_not_supported) h =
        failed-IsComplete s s' tools_not_supported (omega (arith, h.bounded)) refl
          (λ e. ground (arith, e))
    first-IsComplete names settings adapted key selected s s' (threw transient) h =
        failed-IsComplete s s' transient (omega (arith, h.bounded)) refl (λ e. ground (arith, e))
    first-IsComplete names settings adapted key selected s s' (threw malformed) h =
        absurd (ground (arith, h.no_other_error malformed refl))
    first-IsComplete names settings adapted key selected s s' (got body) h =
        read_value-IsComplete selected.0 s (supported key selected.1 s') body (codec.loads body)
          (omega (arith, h.bounded, supported-posts key selected.1 s'))
          (record {
            before = (h.accepted_last body refl).before;
            then_posted =
                supported-posts key selected.1 s' ∙ (h.accepted_last body refl).then_posted;
            the_response = (h.accepted_last body refl).the_response;
          })

    send_request-IsComplete :
        (names : Names) (settings : GatewaySettings) (s : GatewayState) (adapted : AdaptedRequest)
        → let o = send_request codec names settings server s q adapted in
          IsComplete codec server q.max_retries s o.0 o.1
    unfolding send_request
    send_request-IsComplete names settings s adapted =
        first-IsComplete names settings adapted _ selected s _ _
          (post_with_retry-IsSettled codec server selected.0 selected.1 q.max_retries s)
      where
        selected : Fields × List String
        selected = select_adapted_payload s adapted (model_name settings q)

    unless_refused-IsComplete :
        (names : Names) (settings : GatewaySettings) (s : GatewayState) (refused : Bool)
        → let o = unless_refused codec names settings server s q refused in
          IsComplete codec server q.max_retries s o.0 o.1
    unless_refused-IsComplete names settings s true =
        failed-IsComplete s s tools_not_supported (omega arith) refl (λ e. ground (arith, e))
    unless_refused-IsComplete names settings s false =
        send_request-IsComplete names settings s
          (adapted_for codec names settings q.temperature end q)

-- `complete` sends at most twice as many requests as one call may, `max_retries + 1`. The signal
-- that reasoning fields are not supported never leaves it; an exception that is no `LLMError` leaves
-- it only when the last response had status 200; and what it answers reports more than 0 tokens,
-- by its provider or estimated.
pub complete-IsComplete :
    (codec : Codec) (names : Names) (settings : GatewaySettings) (server : Server)
    (s : GatewayState) (q : Question)
    → let o = complete codec names settings server s q in
      IsComplete codec server q.max_retries s o.0 o.1
unfolding complete
complete-IsComplete codec names settings server s q =
    unless_refused-IsComplete codec server q names settings s
      (has_tools q && is_false s.tool_capable)
