-- ===== src/Gateway/Providers.antt =====
-- harness/llm/providers.py: what each provider wants in a request. Regular expressions and
-- `urlparse` are parameters.
use mathlib.Core.Option
use marcus.Prelude.{
  ℕ, leb, ltb, if◌then◌else◌, ◌==◌, String, Bool, true, false, not, ◌&&◌, ◌||◌, Option, none, some,
  List, [], ◌∷◌, nat_eq, string_eq,
}
use marcus.Prelude.Json.{field, put, end, pos, obj, int, text, Json, Fields, get}

pub data Provider : Type 0 where
  compatible openai openrouter ollama nvidia : Provider

-- `LLMOptions`
pub record ModelOptions : Type 0 where
  pub reasoning_effort : Option String
  pub thinking_enabled : Option Bool
  pub max_completion_tokens : Option ℕ
  pub reasoning_budget_tokens : Option ℕ
  pub extra_body : Fields

-- `host` and `port` are those of `urlparse(base_url)`, the host in lower case and "" for none;
-- `ends_with` is `str.endswith`, `last_part` is `s.rsplit("/", 1)[-1]`, `is_reasoning_model` is the
-- match in `_is_openai_reasoning_model`, and `gpt_version` the one in `_openai_effort`.
pub record Names : Type 0 where
  pub host : String → String
  pub port : String → Option ℕ
  pub lower : String → String
  pub contains : String → String → Bool
  pub ends_with : String → String → Bool
  pub last_part : String → String
  pub is_reasoning_model : String → Bool
  pub gpt_version : String → Option (ℕ × ℕ)

abbrev pub core_request_fields : List String
core_request_fields =
    "model" ∷ "messages" ∷ "tools" ∷ "stream" ∷ "stream_options" ∷ "temperature" ∷ []

-- `message_fields` of an adapter
abbrev pub message_fields : Provider → List String
message_fields openrouter = "reasoning" ∷ "reasoning_content" ∷ "reasoning_details" ∷ []
message_fields nvidia = "reasoning" ∷ "reasoning_content" ∷ []
message_fields _ = []

abbrev pub number : ℕ → Json
number n = int (pos n)

unfoldable pub apply_output_limit : Provider → ℕ → Fields → Fields
apply_output_limit openai value payload = put "max_completion_tokens" (number value) payload
apply_output_limit _ value payload = put "max_tokens" (number value) payload

-- The effort that is asked for; none stands for "auto" in the option, and for None in the result.
unfoldable pub requested_effort : ModelOptions → Option String
requested_effort options = elim options.thinking_enabled [
  | some false ↦ some "off"
  | some true ↦ elim options.reasoning_effort [ none ↦ some "medium" | some e ↦ some e ]
  | none ↦ options.reasoning_effort
]

-- `_mapping(payload.get(key))`
abbrev pub mapping : String → Fields → Fields
mapping key payload = elim (get key payload) [ some (obj fields) ↦ fields | _ ↦ end ]

-- `d.pop(key, None)`
abbrev pub pop : String → Fields → Fields
pop k end = end
pop k (field j v rest) = let less = pop k rest in if j == k then less else field j v less

-- What `apply_reasoning` leaves: the payload, the fields it has set, and the effort.
pub record Applied : Type 0 where
  pub applied_payload : Fields
  pub applied_fields : List String
  pub applied_effort : Option String

abbrev pub untouched_by : Fields → Applied
untouched_by payload = record {
  applied_payload = payload;
  applied_fields = [];
  applied_effort = none;
}

abbrev pub with_field : String → Json → Option String → Fields → Applied
with_field key value effort payload = record {
  applied_payload = put key value payload;
  applied_fields = key ∷ [];
  applied_effort = effort;
}

abbrev pub off_as_none : String → String
off_as_none effort = if effort == "off" then "none" else effort

abbrev pub with_budget : ℕ → Fields → Applied
with_budget budget payload =
    with_field "reasoning"
      (obj (put "max_tokens" (number budget) (pop "effort" (mapping "reasoning" payload)))) none
      payload

abbrev pub with_effort : String → Fields → Applied
with_effort effort payload =
    with_field "reasoning" (obj (put "effort" (text effort) (mapping "reasoning" payload)))
      (some effort) payload

-- By the effort that is asked for and the budget.
abbrev pub openrouter_chosen : Option String → Option ℕ → Fields → Applied
openrouter_chosen none none payload = untouched_by payload
openrouter_chosen none (some budget) payload = with_budget budget payload
openrouter_chosen (some effort) none payload = with_effort (off_as_none effort) payload
openrouter_chosen (some effort) (some budget) payload =
    if effort == "off" then with_effort "none" payload else with_budget budget payload

unfoldable pub openrouter_reasoning : ModelOptions → Fields → Applied
unfolding requested_effort
openrouter_reasoning options payload =
    openrouter_chosen (requested_effort options) options.reasoning_budget_tokens payload

-- `payload["reasoning_effort"] = effective`, if there is one
abbrev pub set_effort : Option String → Fields → Applied
set_effort none payload = untouched_by payload
set_effort (some effective) payload =
    with_field "reasoning_effort" (text effective) (some effective) payload

module _ (names : Names) where
  unfoldable pub openai_effort : String → String → Option String
  openai_effort model effort =
      let name = names.last_part (names.lower model) in
      if names.contains name "-pro"
      then (if effort == "high" then some "high" else none)
      else if not (effort == "off")
      then some effort
      else elim (names.gpt_version name) [
        | none ↦ some "low"
        | some (major, minor) ↦
            if ltb 5 major || (major == 5 && leb 1 minor) then some "none" else some "minimal"
      ]

  unfoldable pub openai_reasoning : String → ModelOptions → Fields → Applied
  unfolding openai_effort requested_effort
  openai_reasoning model options payload =
      set_effort
        (elim (requested_effort options) [
          | none ↦ none
          | some effort ↦
              if names.is_reasoning_model (names.last_part (names.lower model))
              then openai_effort model effort
              else none
        ])
        payload

  abbrev pub ollama_effort : String → String → String
  ollama_effort model effort =
      off_as_none
        (if effort == "off" && names.contains (names.lower model) "gpt-oss" then "low" else effort)

  unfoldable pub ollama_reasoning : String → ModelOptions → Fields → Applied
  unfolding requested_effort
  ollama_reasoning model options payload =
      set_effort (Option.map (ollama_effort model) (requested_effort options)) payload
