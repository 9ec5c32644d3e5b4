-- ===== src/Gateway.antt =====
-- harness/llm/gateway.py: its exceptions, its tests on the replies of a server, and what Python does
-- with a JSON value that has not the expected shape. A decimal counts as true, also 0.0.
pub mod Answer
pub mod Providers
pub mod Adapt
pub mod Post
pub mod Stream
pub mod Request
pub mod Client
pub mod Streaming
pub mod Cut
pub mod Recut
pub mod Viewed
pub mod Roundtrip
pub mod Bounded
pub mod Malformed
pub mod Reasoning
pub mod Grown
pub mod Fallback
pub mod Quiet
pub mod Streamed
pub mod Answered
use marcus.Prelude.{
  ℕ, if◌then◌else◌, any, ◌==◌, String, Bool, true, false, ◌&&◌, ◌||◌, Option, none, some, List, [],
  ◌∷◌, map, nat_eq, string_eq,
}
use marcus.Coding.Evidence.{get_or_null, truthy}
use marcus.Prelude.Json.{obj, Items, get, arr, text, Json, nil, cons, Fields}

-- The exceptions that leave the gateway, without their texts. `malformed` stands for every exception
-- that is no `LLMError`: a `KeyError`, a `TypeError`, an `AttributeError` or a `JSONDecodeError`.
pub data Raised : Type 0 where
  llm_failure tools_not_supported transient reasoning_not_supported malformed : Raised

-- isinstance(exc, LLMError)
abbrev pub is_llm_error : Raised → Bool
is_llm_error malformed = false
is_llm_error _ = true

pub data Trial {ℓ} (A : Type ℓ) : Type ℓ where
  got : A → Trial A
  threw : Raised → Trial A

infixl 5 ◌>>=◌
abbrev pub ◌>>=◌ {ℓ κ} : {A : Type ℓ} {B : Type κ} → Trial A → (A → Trial B) → Trial B
got a >>= f = f a
threw e >>= f = threw e

-- What the gateway takes from orjson and from Python's texts. `loads` is none where orjson raises;
-- `from_position n s` is `s[n:]`.
pub record Codec : Type 0 where
  pub loads : String → Option Json
  pub dumped_bytes : Json → ℕ
  pub encoded_bytes : String → ℕ
  pub is_positive : String → Bool
  pub lower : String → String
  pub contains : String → String → Bool
  pub dumps : Fields → String
  pub starts_with : String → String → Bool
  pub from_position : ℕ → String → String
  pub strip : String → String

abbrev pub retryable_status_codes : List ℕ
retryable_status_codes = 429 ∷ 500 ∷ 502 ∷ 503 ∷ 504 ∷ []

abbrev pub is_retryable : ℕ → Bool
is_retryable status = any (λ code. code == status) retryable_status_codes

abbrev pub tool_phrases : List String
tool_phrases =
    "does not support tools" ∷ "tools are not supported" ∷ "tool calling is not supported"
    ∷ "function calling" ∷ "function_call" ∷ []

abbrev pub reasoning_phrases : List String
reasoning_phrases = "reasoning" ∷ "thinking" ∷ "chat_template_kwargs" ∷ "nvext" ∷ []

abbrev pub rejection_phrases : List String
rejection_phrases =
    "unknown" ∷ "unsupported" ∷ "unrecognized" ∷ "not permitted" ∷ "extra inputs"
    ∷ "invalid parameter" ∷ "unexpected keyword" ∷ []

module _ (codec : Codec) where
  -- any(phrase in lowered for phrase in phrases)
  abbrev pub mentions : List String → String → Bool
  mentions phrases body = any (λ phrase. codec.contains (codec.lower body) phrase) phrases

  unfoldable pub looks_like_tool_unsupported : ℕ → String → Bool
  looks_like_tool_unsupported status body =
      if status == 400 then mentions tool_phrases body else false

  unfoldable pub looks_like_reasoning_unsupported : ℕ → String → List String → Bool
  looks_like_reasoning_unsupported status body [] = false
  looks_like_reasoning_unsupported status body (name ∷ names) =
      if status == 400 || status == 422
      then mentions rejection_phrases body
        && (mentions (map codec.lower (name ∷ names)) body || mentions reasoning_phrases body)
      else false

-- `d.get(key)`, with None for a missing key
abbrev pub get_of : String → Json → Trial Json
get_of key (obj fields) = got (get_or_null key fields)
get_of key _ = threw malformed

-- `d.get(key, default)`
abbrev pub get_default : String → Json → Json → Trial Json
get_default key default (obj fields) = got (elim (get key fields) [ none ↦ default | some v ↦ v ])
get_default key default _ = threw malformed

-- `d[key]`
abbrev pub item : String → Json → Trial Json
item key (obj fields) = elim (get key fields) [ none ↦ threw malformed | some v ↦ got v ]
item key _ = threw malformed

-- `values[0]`, where the value is used as a dictionary next: a character of a text is none.
abbrev pub head_of : Json → Trial Json
head_of (arr (cons v rest)) = got v
head_of _ = threw malformed

-- `a or b`
abbrev pub or_json : Json → Json → Json
or_json a b = if truthy a then a else b

-- A text, where Python fails on anything else.
abbrev pub text_of : Json → Trial String
text_of (text s) = got s
text_of _ = threw malformed

-- The elements that a loop visits, where its body uses them as dictionaries.
abbrev pub list_of : Items → List Json
list_of nil = []
list_of (cons v rest) = v ∷ list_of rest

abbrev pub elements : Json → Trial (List Json)
elements (arr items) = got (list_of items)
elements _ = threw malformed
