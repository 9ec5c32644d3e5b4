-- ===== src/Gateway/Client.antt =====
-- harness/llm/gateway.py: `LLMGateway.complete` and the memory of what a model supports.
use marcus.Prelude.{
  if◌then◌else◌, any, all, ◌==◌, String, Bool, true, false, not, ◌&&◌, Option, none, some, List, [],
  ◌∷◌, nat_eq, string_eq,
}
use marcus.Gateway.{
  malformed, ◌>>=◌, got, threw, reasoning_not_supported, Codec, tools_not_supported, Trial,
}
use marcus.Gateway.Adapt.{AdaptedRequest}
use marcus.Gateway.Answer.{ModelAnswer, parse_response, ensure_usage}
use marcus.Gateway.Post.{post_with_retry, GatewayState, CapabilityKey, Server}
use marcus.Gateway.Providers.{compatible, Provider, openrouter, Names, openai, ollama, nvidia}
use marcus.Gateway.Request.{model_name, GatewaySettings, has_tools, adapted_for, Question}
use marcus.Prelude.Json.{Fields, end, Json}

abbrev pub reasoning_cache_key : AdaptedRequest → String → CapabilityKey
reasoning_cache_key adapted model = record {
  key_provider = adapted.provider;
  key_model = model;
  key_fields = adapted.reasoning_fields;
  key_effort = adapted.effective_effort;
}

abbrev pub same_provider : Provider → Provider → Bool
same_provider compatible compatible = true
same_provider openai openai = true
same_provider openrouter openrouter = true
same_provider ollama ollama = true
same_provider nvidia nvidia = true
same_provider _ _ = false

abbrev pub same_effort : Option String → Option String → Bool
same_effort none none = true
same_effort (some a) (some b) = a == b
same_effort _ _ = false

-- Two frozensets of field names.
abbrev pub same_fields : List String → List String → Bool
same_fields xs ys = all (λ x. any (λ y. y == x) ys) xs && all (λ y. any (λ x. x == y) xs) ys

unfoldable pub same_capability_key : CapabilityKey → CapabilityKey → Bool
same_capability_key a b =
    same_provider a.key_provider b.key_provider
    && (a.key_model == b.key_model
        && (same_fields a.key_fields b.key_fields && same_effort a.key_effort b.key_effort))

-- `self._reasoning_capable.get(key)`, where the newest entry stands first
unfoldable pub known_capability : CapabilityKey → List (CapabilityKey × Bool) → Option Bool
unfolding same_capability_key
known_capability key [] = none
known_capability key ((k, b) ∷ rest) =
    if same_capability_key k key then some b else known_capability key rest

abbrev pub remember : CapabilityKey → Bool → GatewayState → GatewayState
remember key b s = record s { reasoning_capable = (key, b) ∷ s.reasoning_capable }

abbrev pub is_false : Option Bool → Bool
is_false (some b) = not b
is_false none = false

unfoldable pub select_adapted_payload :
    GatewayState → AdaptedRequest → String → Fields × List String
unfolding known_capability
select_adapted_payload s adapted model =
    if is_false (known_capability (reasoning_cache_key adapted model) s.reasoning_capable)
    then (adapted.fallback_payload, [])
    else (adapted.payload, adapted.reasoning_fields)

-- `self._reasoning_capable[capability_key] = True` if there are reasoning fields
abbrev pub supported : CapabilityKey → List String → GatewayState → GatewayState
supported key [] s = s
supported key (name ∷ names) s = remember key true s

abbrev pub found_tools : Question → GatewayState → GatewayState
found_tools q s = if has_tools q then record s { tool_capable = some true } else s

module _ (codec : Codec) where
  abbrev pub read_value :
      Question → Fields → GatewayState → Option Json → GatewayState × Trial ModelAnswer
  read_value q payload s none = (s, threw malformed)
  read_value q payload s (some value) =
      (found_tools q s, parse_response codec value >>= λ answer. ensure_usage codec answer payload)

  -- From `body = response.json()` to the end.
  unfoldable pub read_response :
      Question → Fields → GatewayState → String → GatewayState × Trial ModelAnswer
  unfolding parse_response ensure_usage
  read_response q payload s body = read_value q payload s (codec.loads body)

  abbrev pub after_post :
      Question → Fields → GatewayState × Trial String → GatewayState × Trial ModelAnswer
  after_post q payload (s, threw e) = (s, threw e)
  after_post q payload (s, got body) = read_response q payload s body

module _ (codec : Codec) (names : Names) (settings : GatewaySettings) (server : Server) where
  -- The `try` around the first send_request.
  unfoldable pub or_fall_back :
      Question
      → AdaptedRequest
      → CapabilityKey
      → Fields × List String
      → GatewayState × Trial String
      → GatewayState × Trial ModelAnswer
  unfolding post_with_retry read_response
  or_fall_back q adapted key selected (s, threw reasoning_not_supported) =
      after_post codec q adapted.fallback_payload (
        post_with_retry codec server q.max_retries adapted.fallback_payload []
          (remember key false s))
  or_fall_back q adapted key selected (s, threw e) = (s, threw e)
  or_fall_back q adapted key selected (s, got body) =
      read_response codec q selected.0 (supported key selected.1 s) body

  -- What follows the test of `self._tool_capable`.
  unfoldable pub send_request :
      GatewayState → Question → AdaptedRequest → GatewayState × Trial ModelAnswer
  unfolding or_fall_back select_adapted_payload
  send_request s q adapted =
      let model = model_name settings q in
      let selected = select_adapted_payload s adapted model in
      or_fall_back q adapted (reasoning_cache_key adapted model) selected
        (post_with_retry codec server q.max_retries selected.0 selected.1 s)

  abbrev pub unless_refused : GatewayState → Question → Bool → GatewayState × Trial ModelAnswer
  unless_refused s q true = (s, threw tools_not_supported)
  unless_refused s q false = send_request s q (adapted_for codec names settings q.temperature end q)

  unfoldable pub complete : GatewayState → Question → GatewayState × Trial ModelAnswer
  unfolding send_request adapted_for
  complete s q = unless_refused s q (has_tools q && is_false s.tool_capable)
