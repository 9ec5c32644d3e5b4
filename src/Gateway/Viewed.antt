-- ===== src/Gateway/Viewed.antt =====
-- What `_ensure_usage` leaves of an answer, and steps that change places.
use marcus.Prelude.{ℕ, ◌+◌, String, ◌≡◌, refl, sym, ap, ◌∙◌, ◌⊎◌, inl, inr, Bool, true, false}
use marcus.Gateway.{got, list_of, Codec, Trial, threw, elements, ◌>>=◌, Raised, text_of, or_json}
use marcus.Gateway.Answer.{
  estimated_usage, prompt_bytes, call_bytes, unless_counted, is_counted, ensure_usage, ModelAnswer,
}
use marcus.Gateway.Cut.{view}
use marcus.Gateway.Malformed.{OnlyMalformed}
use marcus.Prelude.Json.{arr, cons, Fields, text, null, nil, Items}

pub bind_assoc {ℓ κ μ} :
    {A : Type ℓ} {B : Type κ} {C : Type μ} (m : Trial A) (f : A → Trial B) (g : B → Trial C)
    → (m >>= f >>= g) ≡ (m >>= λ a. f a >>= g)
bind_assoc (got a) f g = refl
bind_assoc (threw e) f g = refl

-- Two steps that raise nothing but `malformed` may change places.
pub swap {ℓ κ μ} :
    {A : Type ℓ} {B : Type κ} {C : Type μ} (m : Trial A) (n : Trial B) (f : A → B → Trial C)
    → OnlyMalformed m
    → OnlyMalformed n
    → (m >>= λ a. n >>= λ b. f a b) ≡ (n >>= λ b. m >>= λ a. f a b)
swap (got a) n f h k = refl
swap (threw e) (got b) f h k = refl
swap (threw e) (threw e') f h k = ap threw (h ∙ sym k)

pub Trial-cases {ℓ} :
    {A : Type ℓ} (m : Trial A) → ((a : A) × (m ≡ got a)) ⊎ ((e : Raised) × (m ≡ threw e))
Trial-cases (got a) = inl (a, refl)
Trial-cases (threw e) = inr (e, refl)

pub listed : (calls : Items) → elements (or_json (arr calls) (arr nil)) ≡ got (list_of calls)
listed nil = refl
listed (cons v rest) = refl

module _ (codec : Codec) where
  abbrev pub hidden : ModelAnswer → ModelAnswer
  hidden a = record a { raw = null; model = null }

  view-estimated :
      (a : ModelAnswer) (bytes : ℕ) (t : Trial String) (n : Trial ℕ)
      → view (
          t >>= λ s. n >>= λ calls.
          got (record a { usage = estimated_usage bytes (codec.encoded_bytes s + calls) }))
        ≡ view (
            t >>= λ s. n >>= λ calls.
            got
              (record (hidden a) { usage = estimated_usage bytes (codec.encoded_bytes s + calls) }))
  view-estimated a bytes (threw e) n = refl
  view-estimated a bytes (got s) (threw e) = refl
  view-estimated a bytes (got s) (got calls) = refl

  view-unless_counted :
      (a : ModelAnswer) (payload : Fields) (c : Trial Bool)
      → view (unless_counted codec a payload c) ≡ view (unless_counted codec (hidden a) payload c)
  view-unless_counted a payload (threw e) = refl
  view-unless_counted a payload (got true) = refl
  view-unless_counted a payload (got false) =
      view-estimated a (prompt_bytes codec payload) (text_of (or_json a.answer_content (text "")))
        (call_bytes codec a.answer_calls)

  -- The estimate looks neither at the model nor at the body.
  pub view-ensure_usage :
      (a : ModelAnswer) (payload : Fields)
      → view (ensure_usage codec a payload) ≡ view (ensure_usage codec (hidden a) payload)
  unfolding ensure_usage
  view-ensure_usage a payload =
      view-unless_counted a payload (is_counted codec a.usage.total_tokens)
