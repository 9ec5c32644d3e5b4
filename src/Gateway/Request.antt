-- ===== src/Gateway/Request.antt =====
-- harness/llm/gateway.py and harness/llm/types.py: the requests that
-- `LLMGateway.complete` and `LLMGateway.complete_stream` build.
use marcus.Prelude.{
  ℕ, if◌then◌else◌, any, ◌==◌, String, Bool, true, false, not, Option, none, some, List, [], ◌∷◌,
  nat_eq, string_eq,
}
use marcus.Executions.{ToolCall}
use marcus.Gateway.{Codec}
use marcus.Gateway.Adapt.{resolve_provider, AdaptedRequest, adapt_request}
use marcus.Gateway.Providers.{Provider, Names, ModelOptions, message_fields}
use marcus.Llm.{tool_role, LlmMessage, system_role, user_role, assistant_role, Role}
use marcus.Prelude.Json.{obj, Json, arr, text, Fields, Items, cons, nil, field, put, end}
use marcus.Prelude.Texts.{or_text}

-- `ToolSpec`
pub record ToolSpec : Type 0 where
  pub spec_name : String
  pub spec_description : String
  pub spec_parameters : Fields

abbrev pub items_from {ℓ} : {A : Type ℓ} → (A → Json) → List A → Items
items_from f [] = nil
items_from f (x ∷ xs) = cons (f x) (items_from f xs)

abbrev pub spec_json : ToolSpec → Json
spec_json spec = obj (
    field "type" (text "function") (
      field "function"
        (obj (
          field "name" (text spec.spec_name) (
            field "description" (text spec.spec_description)
              (field "parameters" (obj spec.spec_parameters) end))))
        end))

abbrev pub role_text : Role → String
role_text system_role = "system"
role_text user_role = "user"
role_text assistant_role = "assistant"
role_text tool_role = "tool"

-- `message[key] = value`, where the value is not None
abbrev pub put_some : String → Option String → Fields → Fields
put_some key none message = message
put_some key (some s) message = put key (text s) message

abbrev pub put_allowed : List String → Fields → Fields → Fields
put_allowed allowed end message = message
put_allowed allowed (field key value rest) message =
    put_allowed allowed rest
      (if any (λ k. k == key) allowed then put key value message else message)

module _ (codec : Codec) where
  abbrev pub call_json : ToolCall → Json
  call_json call = obj (
      field "id" (text call.id) (
        field "type" (text "function") (
          field "function"
            (obj (
              field "name" (text call.name)
                (field "arguments" (text (codec.dumps call.arguments)) end)))
            end)))

  abbrev pub put_calls : List ToolCall → Fields → Fields
  put_calls [] message = message
  put_calls (call ∷ calls) message =
      put "tool_calls" (arr (items_from call_json (call ∷ calls))) message

  -- `LLMMessage.to_openai`
  unfoldable pub message_json : List String → LlmMessage → Json
  message_json allowed m = obj (
      put_allowed allowed m.provider_fields (
        put_some "name" m.name (
          put_some "tool_call_id" m.tool_call_id (
            put_calls m.tool_calls
              (put_some "content" m.content (field "role" (text (role_text m.role)) end))))))

pub record GatewaySettings : Type 0 where
  pub llm_base_url : String
  pub llm_model : String
  pub llm_provider : Option Provider

-- The arguments of a call.
pub record Question : Type 0 where
  pub asked_messages : List LlmMessage
  pub asked_tools : List ToolSpec
  pub asked_model : Option String
  pub asked_options : Option ModelOptions
  pub temperature : Json
  pub max_retries : ℕ

abbrev pub model_name : GatewaySettings → Question → String
model_name settings q = or_text q.asked_model settings.llm_model

abbrev pub put_tools : List ToolSpec → Fields → Fields
put_tools [] payload = payload
put_tools (spec ∷ specs) payload = put "tools" (arr (items_from spec_json (spec ∷ specs))) payload

abbrev pub is_nil {ℓ} : {A : Type ℓ} → List A → Bool
is_nil [] = true
is_nil (x ∷ xs) = false

abbrev pub has_tools : Question → Bool
has_tools q = not (is_nil q.asked_tools)

module _ (codec : Codec) (names : Names) (settings : GatewaySettings) where
  abbrev pub allowed_fields : Question → List String
  allowed_fields q =
      message_fields
        (resolve_provider names settings.llm_base_url (model_name settings q) settings.llm_provider)

  abbrev pub base_payload : Json → Fields → Question → Fields
  base_payload temperature more q = put_tools q.asked_tools (
      field "model" (text (model_name settings q)) (
        field "messages" (arr (items_from (message_json codec (allowed_fields q)) q.asked_messages))
          (field "temperature" temperature more)))

  unfoldable pub adapted_for : Json → Fields → Question → AdaptedRequest
  unfolding adapt_request resolve_provider message_json
  adapted_for temperature more q =
      adapt_request names settings.llm_base_url (model_name settings q) settings.llm_provider
        q.asked_options (base_payload temperature more q)
