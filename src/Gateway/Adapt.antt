-- ===== src/Gateway/Adapt.antt =====
-- harness/llm/providers.py: `NvidiaAdapter`, `resolve_provider` and `adapt_request`.
use marcus.Prelude.{
  ℕ, if◌then◌else◌, any, ◌==◌, String, Bool, true, false, ◌&&◌, ◌||◌, Option, none, some, List, [],
  ◌∷◌, nat_eq, string_eq,
}
use marcus.Gateway.Providers.{
  core_request_fields, pop, mapping, Applied, ollama, openai, requested_effort, number,
  ollama_reasoning, openai_reasoning, compatible, Provider, nvidia, apply_output_limit,
  openrouter_reasoning, untouched_by, openrouter, ModelOptions, Names,
}
use marcus.Prelude.Json.{field, end, bool, has, Fields, put, obj}
use marcus.Repository.{is_none}

abbrev pub with_key : Bool → String → List String → List String
with_key true key keys = key ∷ keys
with_key false key keys = keys

abbrev pub present : List String → Fields → List String
present [] payload = []
present (key ∷ keys) payload = with_key (has key payload) key (present keys payload)

-- The payload and the template that `_apply_nemotron_budget` leaves.
unfoldable pub apply_nemotron_budget : Names → String → ℕ → Fields → Fields → Fields × Fields
apply_nemotron_budget names model budget payload template =
    let name = names.lower model in
    if names.contains name "9b-v2"
    then (
      put "nvext" (obj (put "max_thinking_tokens" (number budget) (mapping "nvext" payload)))
          payload,
      template,
    )
    else if names.contains name "ultra" || names.contains name "omni"
    then (put "thinking_token_budget" (number budget) payload, template)
    else if names.contains name "nano-30b"
    then (put "max_thinking_tokens" (number budget) payload, template)
    else (payload, put "reasoning_budget" (number budget) template)

abbrev pub budget_keys : List String
budget_keys = "thinking_token_budget" ∷ "max_thinking_tokens" ∷ "nvext" ∷ []

-- `fields = {"chat_template_kwargs"}` with the keys that are in the payload
abbrev pub nvidia_fields : Fields → List String
nvidia_fields payload = "chat_template_kwargs" ∷ present budget_keys payload

abbrev pub with_template : Option String → Fields × Fields → Applied
with_template effort (payload, template) =
    let p = put "chat_template_kwargs" (obj template) payload in
    record { applied_payload = p; applied_fields = nvidia_fields p; applied_effort = effort }

abbrev pub thinking_on : Option String → Fields → Fields
thinking_on effort template =
    put "low_effort" (bool (elim effort [ none ↦ false | some e ↦ e == "low" ]))
      (put "enable_thinking" (bool true) template)

abbrev pub thinking_off : Fields → Fields
thinking_off template = pop "low_effort" (put "enable_thinking" (bool false) template)

module _ (names : Names) where
  -- The budget is applied only where there is one.
  abbrev pub with_thinking : String → Option String → Fields → Option ℕ → Fields × Fields
  with_thinking model effort payload none =
      (payload, thinking_on effort (mapping "chat_template_kwargs" payload))
  with_thinking model effort payload (some budget) =
      apply_nemotron_budget names model budget payload
        (thinking_on effort (mapping "chat_template_kwargs" payload))

  unfoldable pub nvidia_template : String → ModelOptions → Option String → Fields → Fields × Fields
  unfolding apply_nemotron_budget
  nvidia_template model options effort payload =
      if elim effort [ none ↦ false | some e ↦ e == "off" ]
      then (payload, thinking_off (mapping "chat_template_kwargs" payload))
      else with_thinking model effort payload options.reasoning_budget_tokens

  unfoldable pub nvidia_reasoning : String → ModelOptions → Fields → Applied
  unfolding nvidia_template requested_effort
  nvidia_reasoning model options payload =
      if names.contains (names.lower model) "nemotron"
      then (let effort = requested_effort options in
          if is_none effort && is_none options.reasoning_budget_tokens
          then untouched_by payload
          else with_template effort (nvidia_template model options effort payload))
      else untouched_by payload

  unfoldable pub apply_reasoning : Provider → String → ModelOptions → Fields → Applied
  unfolding openai_reasoning openrouter_reasoning ollama_reasoning nvidia_reasoning
  apply_reasoning compatible model options payload = untouched_by payload
  apply_reasoning openai model options payload = openai_reasoning names model options payload
  apply_reasoning openrouter model options payload = openrouter_reasoning options payload
  apply_reasoning ollama model options payload = ollama_reasoning names model options payload
  apply_reasoning nvidia model options payload = nvidia_reasoning model options payload

  abbrev pub is_local : String → Bool
  is_local host = host == "localhost" || (host == "127.0.0.1" || host == "::1")

  -- `configured` is none for "auto".
  unfoldable pub resolve_provider : String → String → Option Provider → Provider
  resolve_provider base_url model (some provider) = provider
  resolve_provider base_url model none =
      let host = names.host base_url in
      if host == "openrouter.ai" || names.ends_with host ".openrouter.ai"
      then openrouter
      else if host == "ollama.com" || names.ends_with host ".ollama.com"
      then ollama
      else if is_local host && elim (names.port base_url) [ none ↦ false | some p ↦ p == 11434 ]
      then ollama
      else if host == "api.openai.com" || names.ends_with host ".openai.com"
      then openai
      else if names.contains host "nvidia"
          || (names.ends_with host ".nvcf.nvidia.com"
              || names.contains (names.lower model) "nemotron")
      then nvidia
      else compatible

-- `AdaptedRequest`
pub record AdaptedRequest : Type 0 where
  pub payload : Fields
  pub fallback_payload : Fields
  pub provider : Provider
  pub reasoning_fields : List String
  pub effective_effort : Option String

-- The loop over `options.extra_body.items()`.
unfoldable pub add_extra : Fields → Fields → Fields
add_extra end adapted = adapted
add_extra (field key value rest) adapted =
    add_extra rest
      (if any (λ k. k == key) core_request_fields then adapted else put key value adapted)

unfoldable pub limited : Provider → Option ℕ → Fields → Fields
unfolding apply_output_limit
limited provider none adapted = adapted
limited provider (some value) adapted = apply_output_limit provider value adapted

unfoldable pub adapt_request :
    Names → String → String → Option Provider → Option ModelOptions → Fields → AdaptedRequest
unfolding apply_reasoning add_extra limited resolve_provider
adapt_request names base_url model configured none payload = record {
  payload = payload;
  fallback_payload = payload;
  provider = resolve_provider names base_url model configured;
  reasoning_fields = [];
  effective_effort = none;
}
adapt_request names base_url model configured (some options) payload =
    let provider = resolve_provider names base_url model configured in
    let adapted =
      limited provider options.max_completion_tokens (add_extra options.extra_body payload) in
    let applied = apply_reasoning names provider model options adapted in
    record {
      payload = applied.applied_payload;
      fallback_payload = adapted;
      provider = provider;
      reasoning_fields = applied.applied_fields;
      effective_effort = applied.applied_effort;
    }
