-- ===== src/Gateway/Fallback.antt =====
-- What `adapt_request` of harness/llm/providers.py may change in a request.
use marcus.Prelude.{
  ℕ, Bool-cases, if◌then◌else◌, ◌==◌, ==-true, String, ◌≡◌, refl, ◌∙◌, inl, inr, Bool, true, false,
  Option, none, some, List, [], ◌∷◌, arith, nat_eq, string_eq,
}
use marcus.Gateway.Adapt.{
  AdaptedRequest, limited, adapt_request, apply_reasoning, resolve_provider, add_extra,
}
use marcus.Gateway.Grown.{apply_reasoning-Only}
use marcus.Gateway.Providers.{
  ModelOptions, openai, compatible, Provider, openrouter, nvidia, Names, core_request_fields,
  apply_output_limit, ollama,
}
use marcus.Gateway.Reasoning.{is_no_core, get-put, Only, is_among}
use marcus.Prelude.Json.{put, end, field, Json, get, Fields}

-- The fields of every request are those of the base payload, and the two payloads differ only in the
-- reasoning fields.
pub record IsAdapted (base : Fields) (a : AdaptedRequest) : Type 0 where
  pub core_kept :
      (key : String)
      → is_among key core_request_fields ≡ true
      → (get key a.payload ≡ get key base) × (get key a.fallback_payload ≡ get key base)
  pub differs_only :
      (key : String)
      → is_among key a.reasoning_fields ≡ false
      → get key a.payload ≡ get key a.fallback_payload

-- A core key differs from every other.
core_apart :
    (a key : String)
    → is_among a core_request_fields ≡ false
    → is_among key core_request_fields ≡ true
    → (a == key) ≡ false
core_apart a key h k = elim (Bool-cases (a == key)) [
  | inl hit ↦ let e = ==-true a key hit in absurd (ground (arith, h, k, e))
  | inr miss ↦ miss
]

put-core :
    (a key : String) (v : Json) (d : Fields)
    → is_among a core_request_fields ≡ false
    → is_among key core_request_fields ≡ true
    → get key (put a v d) ≡ get key d
put-core a key v d h k = ground (arith, get-put key a v d, core_apart a key h k)

extra_step :
    (key name : String) (v : Json) (d : Fields) (b : Bool)
    → is_among key core_request_fields ≡ true
    → is_among name core_request_fields ≡ b
    → get key (if b then d else put name v d) ≡ get key d
extra_step key name v d true k h = refl
extra_step key name v d false k h = put-core name key v d h k

add_extra-core :
    (key : String) (extra d : Fields)
    → is_among key core_request_fields ≡ true
    → get key (add_extra extra d) ≡ get key d
unfolding add_extra
add_extra-core key end d k = refl
add_extra-core key (field name v rest) d k =
    add_extra-core key rest _ k ∙ extra_step key name v d (is_among name core_request_fields) k refl

limited-core :
    (provider : Provider) (limit : Option ℕ) (key : String) (d : Fields)
    → is_among key core_request_fields ≡ true
    → get key (limited provider limit d) ≡ get key d
unfolding limited apply_output_limit
limited-core provider none key d k = refl
limited-core openai (some n) key d k = put-core _ key _ d refl k
limited-core compatible (some n) key d k = put-core _ key _ d refl k
limited-core openrouter (some n) key d k = put-core _ key _ d refl k
limited-core ollama (some n) key d k = put-core _ key _ d refl k
limited-core nvidia (some n) key d k = put-core _ key _ d refl k

no_core_apart :
    (key : String) (fields : List String)
    → is_no_core fields ≡ true
    → is_among key core_request_fields ≡ true
    → is_among key fields ≡ false
no_core_apart key [] h k = refl
no_core_apart key (f ∷ fields) h k =
    ground (
      arith,
      core_apart f key (ground (arith, h)) k,
      no_core_apart key fields (ground (arith, h)) k,
    )

-- Whatever the provider, the model and the options are, the model, the messages, the tools, the
-- streaming and the temperature of a request are those that the gateway asked for, in the payload
-- and in the one without reasoning; and the two differ in the reasoning fields only.
pub adapt_request-IsAdapted :
    (names : Names) (base_url model : String) (configured : Option Provider)
    (options : Option ModelOptions) (payload : Fields)
    → IsAdapted payload (adapt_request names base_url model configured options payload)
unfolding adapt_request
adapt_request-IsAdapted names base_url model configured none payload = record {
  core_kept = λ key k. (refl, refl);
  differs_only = λ key k. refl;
}
adapt_request-IsAdapted names base_url model configured (some options) payload = record {
  core_kept = λ key k.
      (only.0 key (no_core_apart key _ only.1 k) ∙ fallback_kept key k, fallback_kept key k);
  differs_only = only.0;
}
  where
    provider : Provider
    provider = resolve_provider names base_url model configured

    extra : Fields
    extra = add_extra options.extra_body payload

    fallback : Fields
    fallback = limited provider options.max_completion_tokens extra

    only : Only fallback (apply_reasoning names provider model options fallback)
    only = apply_reasoning-Only names provider model options fallback

    fallback_kept :
        (key : String)
        → is_among key core_request_fields ≡ true
        → get key fallback ≡ get key payload
    fallback_kept key k =
        limited-core provider options.max_completion_tokens key extra k
        ∙ add_extra-core key options.extra_body payload k
