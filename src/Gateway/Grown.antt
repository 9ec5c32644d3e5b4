-- ===== src/Gateway/Grown.antt =====
-- What `apply_reasoning` leaves of a request, for every provider.
use marcus.Prelude.{
  ℕ, if◌then◌else◌, ◌==◌, String, refl, Bool, true, false, ◌&&◌, ◌||◌, Option, none, some, nat_eq,
  string_eq,
}
use marcus.Gateway.Adapt.{
  nvidia_reasoning, with_thinking, nvidia_template, thinking_on, apply_nemotron_budget,
  apply_reasoning,
}
use marcus.Gateway.Providers.{
  openrouter_reasoning, openrouter, mapping, compatible, ModelOptions, openai, Provider, nvidia,
  openai_reasoning, Names, requested_effort, ollama, ollama_reasoning,
}
use marcus.Gateway.Reasoning.{
  with_template-Only, put-Grown, Only, set_effort-Only, chosen-Only, Grown, untouched-Only,
}
use marcus.Prelude.Json.{Fields}
use marcus.Repository.{is_none}

if_both {ℓ κ} :
    {A : Type ℓ} (P : A → Type κ) (b : Bool) {x y : A} → P x → P y → P (if b then x else y)
if_both P true p q = p
if_both P false p q = q

module _ (names : Names) where
  same-Grown : (d : Fields) → Grown d d
  same-Grown d = (λ key h. refl, λ key h. h)

  budget-Grown :
      (model : String) (budget : ℕ) (payload template : Fields)
      → Grown payload (apply_nemotron_budget names model budget payload template).0
  unfolding apply_nemotron_budget
  budget-Grown model budget payload template =
      if_both fits (names.contains name "9b-v2") (put-Grown _ _ payload refl) (
        if_both fits (names.contains name "ultra" || names.contains name "omni")
          (put-Grown _ _ payload refl)
          (if_both fits (names.contains name "nano-30b") (put-Grown _ _ payload refl)
            (same-Grown payload)))
    where
      name : String
      name = names.lower model

      fits : Fields × Fields → Type 0
      fits r = Grown payload r.0

  thinking-Grown :
      (model : String) (effort : Option String) (payload : Fields) (budget : Option ℕ)
      → Grown payload (with_thinking names model effort payload budget).0
  thinking-Grown model effort payload none = same-Grown payload
  thinking-Grown model effort payload (some budget) =
      budget-Grown model budget payload
        (thinking_on effort (mapping "chat_template_kwargs" payload))

  nvidia_template-Grown :
      (model : String) (options : ModelOptions) (effort : Option String) (payload : Fields)
      → Grown payload (nvidia_template names model options effort payload).0
  unfolding nvidia_template
  nvidia_template-Grown model options effort payload =
      if_both (λ (r : Fields × Fields). Grown payload r.0)
        (elim effort [ none ↦ false | some e ↦ e == "off" ]) (same-Grown payload)
        (thinking-Grown model effort payload options.reasoning_budget_tokens)

  nvidia-Only :
      (model : String) (options : ModelOptions) (payload : Fields)
      → Only payload (nvidia_reasoning names model options payload)
  unfolding nvidia_reasoning
  nvidia-Only model options payload =
      if_both (Only payload) (names.contains (names.lower model) "nemotron")
        (if_both (Only payload)
          (is_none (requested_effort options) && is_none options.reasoning_budget_tokens)
          (untouched-Only payload)
          (with_template-Only (requested_effort options) payload _ _
            (nvidia_template-Grown model options (requested_effort options) payload)))
        (untouched-Only payload)

  pub apply_reasoning-Only :
      (provider : Provider) (model : String) (options : ModelOptions) (payload : Fields)
      → Only payload (apply_reasoning names provider model options payload)
  unfolding apply_reasoning openai_reasoning openrouter_reasoning ollama_reasoning
  apply_reasoning-Only compatible model options payload = untouched-Only payload
  apply_reasoning-Only openai model options payload = set_effort-Only _ payload
  apply_reasoning-Only openrouter model options payload =
      chosen-Only (requested_effort options) options.reasoning_budget_tokens payload
  apply_reasoning-Only ollama model options payload = set_effort-Only _ payload
  apply_reasoning-Only nvidia model options payload = nvidia-Only model options payload
