-- ===== src/Gateway/Streamed.antt =====
-- How often `LLMGateway.complete_stream` opens a stream, and what it raises.
use marcus.Prelude.{
  ℕ, zero, suc, ◌+◌, ◌≤◌, ◌<◌, String, ◌≡◌, refl, ◌≢◌, Bool, true, false, not, List, [], ◌∷◌, arith,
}
use marcus.Gateway.{
  tools_not_supported, transient, Codec, got, llm_failure, Trial, reasoning_not_supported,
  malformed, threw,
}
use marcus.Gateway.Adapt.{AdaptedRequest}
use marcus.Gateway.Answer.{ModelAnswer}
use marcus.Gateway.Client.{remember}
use marcus.Gateway.Post.{CapabilityKey, GatewayState}
use marcus.Gateway.Providers.{Names}
use marcus.Gateway.Quiet.{once-Quiet, QuietTrial}
use marcus.Gateway.Request.{is_nil, Question, model_name, adapted_for, GatewaySettings}
use marcus.Gateway.Streaming.{
  last_round, complete_stream, StreamServer, stream_once, stream_fallen, stream_selected,
  stream_request, streamed, stream_first,
}
use marcus.Prelude.Json.{Fields, bool, field, decimal, Json, obj, end}

module _ (codec : Codec) where
  -- From `s`, at most so many streams are opened, at least one, and no signal leaves.
  abbrev Opens : ℕ → GatewayState → GatewayState × Trial ModelAnswer → Type 0
  Opens most s o = (s.posts < o.0.posts) × (o.0.posts ≤ s.posts + most) × QuietTrial o.1

  module _ (model : String) (server : StreamServer) where
    last-Opens :
        (most : ℕ) (fields : List String) (key : CapabilityKey) (s : GatewayState)
        (deltas : List Json) (r : Trial ModelAnswer)
        → 0 < most
        → QuietTrial r
        → Opens most s (last_round codec model server fields key s (deltas, r))
    last-Opens most [] key s deltas (got a) h q = (omega arith, omega (arith, h), tt)
    last-Opens most (f ∷ fields) key s deltas (got a) h q = (omega arith, omega (arith, h), tt)
    last-Opens most fields key s deltas (threw e) h q = (omega arith, omega (arith, h), q)

    later-Opens :
        (most : ℕ) (s s' : GatewayState) (o : GatewayState × Trial ModelAnswer)
        → s'.posts ≡ s.posts + 1
        → Opens most s' o
        → Opens (suc most) s o
    later-Opens most s s' o e (a, b, q) = (omega (arith, e, a), omega (arith, e, b), q)

    fallen_next-Opens :
        (left : ℕ) (payload : Fields) (key : CapabilityKey) (s : GatewayState) (deltas : List Json)
        (r : Trial ModelAnswer)
        → QuietTrial r
        → Opens
            (suc left)
            (streamed deltas s)
            (stream_fallen codec model server left payload [] key (streamed deltas s))
        → Opens (suc (suc left)) s (elim r as (λ x. GatewayState × Trial ModelAnswer) [
          | threw transient ↦
              stream_fallen codec model server left payload [] key (streamed deltas s)
          | r' ↦ last_round codec model server [] key s (deltas, r')
        ])
    fallen_next-Opens left payload key s deltas (got a) q later =
        last-Opens (suc (suc left)) [] key s deltas (got a) (omega arith) q
    fallen_next-Opens left payload key s deltas (threw transient) q later =
        later-Opens (suc left) s (streamed deltas s)
          (stream_fallen codec model server left payload [] key (streamed deltas s)) (omega arith)
          later
    fallen_next-Opens left payload key s deltas (threw llm_failure) q later =
        last-Opens (suc (suc left)) [] key s deltas (threw llm_failure) (omega arith) q
    fallen_next-Opens left payload key s deltas (threw tools_not_supported) q later =
        last-Opens (suc (suc left)) [] key s deltas (threw tools_not_supported) (omega arith) q
    fallen_next-Opens left payload key s deltas (threw reasoning_not_supported) q later =
        absurd (q refl)
    fallen_next-Opens left payload key s deltas (threw malformed) q later =
        last-Opens (suc (suc left)) [] key s deltas (threw malformed) (omega arith) q

    fallen-Opens :
        (left : ℕ) (payload : Fields) (key : CapabilityKey) (s : GatewayState)
        → Opens (suc left) s (stream_fallen codec model server left payload [] key s)
    unfolding stream_fallen
    fallen-Opens zero payload key s =
        last-Opens 1 [] key s _ _ (omega arith)
          (once-Quiet codec model payload (server s.posts payload))
    fallen-Opens (suc left) payload key s =
        fallen_next-Opens left payload key s
          (stream_once codec model payload [] (server s.posts payload)).0
          (stream_once codec model payload [] (server s.posts payload)).1
          (once-Quiet codec model payload (server s.posts payload))
          (fallen-Opens left payload key _)

    -- The rounds before the fields have been given up, by the end of the first.
    first_next-Opens :
        (most : ℕ) (fields : List String) (key : CapabilityKey) (s : GatewayState)
        (deltas : List Json) (r : Trial ModelAnswer)
        (fallen again : GatewayState × Trial ModelAnswer)
        → Opens most (remember key false (streamed deltas s)) fallen
        → Opens most (streamed deltas s) again
        → Opens (suc most) s (elim r as (λ x. GatewayState × Trial ModelAnswer) [
          | threw reasoning_not_supported ↦ fallen
          | threw transient ↦ again
          | r' ↦ last_round codec model server fields key s (deltas, r')
        ])
    first_next-Opens most fields key s deltas (got a) fallen again f k =
        last-Opens (suc most) fields key s deltas (got a) (omega arith) tt
    first_next-Opens most fields key s deltas (threw reasoning_not_supported) fallen again f k =
        later-Opens most s (remember key false (streamed deltas s)) fallen (omega arith) f
    first_next-Opens most fields key s deltas (threw transient) fallen again f k =
        later-Opens most s (streamed deltas s) again (omega arith) k
    first_next-Opens most fields key s deltas (threw llm_failure) fallen again f k =
        last-Opens (suc most) fields key s deltas (threw llm_failure) (omega arith)
          (λ e. ground (arith, e))
    first_next-Opens most fields key s deltas (threw tools_not_supported) fallen again f k =
        last-Opens (suc most) fields key s deltas (threw tools_not_supported) (omega arith)
          (λ e. ground (arith, e))
    first_next-Opens most fields key s deltas (threw malformed) fallen again f k =
        last-Opens (suc most) fields key s deltas (threw malformed) (omega arith)
          (λ e. ground (arith, e))

    first_last-Opens :
        (fields : List String) (key : CapabilityKey) (s : GatewayState) (deltas : List Json)
        (r : Trial ModelAnswer) (fallen : GatewayState × Trial ModelAnswer)
        → Opens 1 (remember key false (streamed deltas s)) fallen
        → Opens 2 s (elim r as (λ x. GatewayState × Trial ModelAnswer) [
          | threw reasoning_not_supported ↦ fallen
          | r' ↦ last_round codec model server fields key s (deltas, r')
        ])
    first_last-Opens fields key s deltas (got a) fallen f =
        last-Opens 2 fields key s deltas (got a) (omega arith) tt
    first_last-Opens fields key s deltas (threw reasoning_not_supported) fallen f =
        later-Opens 1 s (remember key false (streamed deltas s)) fallen (omega arith) f
    first_last-Opens fields key s deltas (threw transient) fallen f =
        last-Opens 2 fields key s deltas (threw transient) (omega arith) (λ e. ground (arith, e))
    first_last-Opens fields key s deltas (threw llm_failure) fallen f =
        last-Opens 2 fields key s deltas (threw llm_failure) (omega arith) (λ e. ground (arith, e))
    first_last-Opens fields key s deltas (threw tools_not_supported) fallen f =
        last-Opens 2 fields key s deltas (threw tools_not_supported) (omega arith)
          (λ e. ground (arith, e))
    first_last-Opens fields key s deltas (threw malformed) fallen f =
        last-Opens 2 fields key s deltas (threw malformed) (omega arith) (λ e. ground (arith, e))

    first-Opens :
        (left : ℕ) (payload fallback : Fields) (fields : List String) (key : CapabilityKey)
        (s : GatewayState)
        → Opens
            (suc (suc left))
            s
            (stream_first codec model server left payload fallback fields key s)
    unfolding stream_first
    first-Opens zero payload fallback fields key s =
        first_last-Opens fields key s
          (stream_once codec model payload fields (server s.posts payload)).0
          (stream_once codec model payload fields (server s.posts payload)).1 _
          (fallen-Opens zero fallback key _)
    first-Opens (suc left) payload fallback fields key s =
        first_next-Opens (suc (suc left)) fields key s
          (stream_once codec model payload fields (server s.posts payload)).0
          (stream_once codec model payload fields (server s.posts payload)).1 _ _
          (fallen-Opens (suc left) fallback key _) (first-Opens left payload fallback fields key _)

quiet_no_signal : (r : Trial ModelAnswer) → QuietTrial r → r ≢ threw reasoning_not_supported
quiet_no_signal (got a) h e = ground (arith, e)
quiet_no_signal (threw e') h e = h (ground (arith, e))

module _ (codec : Codec) (names : Names) (settings : GatewaySettings) (server : StreamServer)
    (q : Question) where
  selected-Opens :
      (adapted : AdaptedRequest) (key : CapabilityKey) (s : GatewayState) (payload : Fields)
      (fields : List String) (b : Bool)
      → Opens codec
          (suc (suc q.max_retries))
          s
          (stream_selected codec names settings server q adapted key s payload fields b)
  unfolding stream_selected
  selected-Opens adapted key s payload [] true =
      let (a, b, quiet) =
        fallen-Opens codec (model_name settings q) server q.max_retries payload key s in
      (a, omega (arith, b), quiet)
  selected-Opens adapted key s payload [] false =
      first-Opens codec (model_name settings q) server q.max_retries payload
        adapted.fallback_payload [] key s
  selected-Opens adapted key s payload (f ∷ fields) b =
      first-Opens codec (model_name settings q) server q.max_retries payload
        adapted.fallback_payload (f ∷ fields) key s

  request-Opens :
      (s : GatewayState) (adapted : AdaptedRequest)
      → Opens codec
          (suc (suc q.max_retries))
          s
          (stream_request codec names settings server s q adapted)
  unfolding stream_request
  request-Opens s adapted = selected-Opens adapted _ s _ _ (not (is_nil adapted.reasoning_fields))

-- `complete_stream` opens at least one stream and at most two more than it may retry: a broken or
-- malformed stream is opened again, and once the request is sent without its reasoning fields. The
-- signal that these are not supported never leaves it.
pub complete_stream-bounded :
    (codec : Codec) (names : Names) (settings : GatewaySettings) (server : StreamServer)
    (s : GatewayState) (q : Question)
    → let o = complete_stream codec names settings server s q in
      (s.posts < o.0.posts)
      × (o.0.posts ≤ s.posts + (q.max_retries + 2))
      × (o.1 ≢ threw reasoning_not_supported)
unfolding complete_stream
complete_stream-bounded codec names settings server s q =
    let (a, b, quiet) = request-Opens codec names settings server q s (
      adapted_for codec names settings (decimal "0.0")
        (field "stream" (bool true)
          (field "stream_options" (obj (field "include_usage" (bool true) end)) end))
        q) in
    (a, omega (arith, b), quiet_no_signal _ quiet)
