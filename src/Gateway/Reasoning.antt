-- ===== src/Gateway/Reasoning.antt =====
-- What the adapters of harness/llm/providers.py change in a request: the fields that they name, none
-- of which is a core field.
use marcus.Prelude.{
  if◌then◌else◌, any, ◌==◌, String, ◌≡◌, refl, Bool, true, false, Option, none, some, List, arith,
  string_eq, Bool-cases, ==-true, ==_refl, ℕ, inl, inr, [], ◌∷◌, sym, ◌∙◌, all, not,
}
use marcus.Gateway.Adapt.{budget_keys, present, with_template, with_key, nvidia_fields}
use marcus.Gateway.Providers.{
  with_field, core_request_fields, untouched_by, Applied, set_effort, openrouter_chosen,
  off_as_none,
}
use marcus.Prelude.Json.{get, Fields, has, end, field, Json, put, obj}

abbrev pub is_among : String → List String → Bool
is_among key keys = any (λ k. k == key) keys

same_name : (i k j : String) → (i == j) ≡ true → (k == j) ≡ true → (i == k) ≡ true
same_name i k j h h' = rw (==-true i j h, ==-true k j h') (==_refl j)

pub get-put :
    (j k : String) (v : Json) (d : Fields)
    → get j (put k v d) ≡ (if k == j then some v else get j d)
get-put j k v end = refl
get-put j k v (field i w d) = elim (Bool-cases (i == k)) [
  | inl hit ↦ rw hit (ground (arith, ==-true i k hit))
  | inr miss ↦ rw miss (ground (arith, get-put j k v d, same_name i k j))
]

has-get : (k : String) (d : Fields) → has k d ≡ false → get k d ≡ none
has-get k end h = refl
has-get k (field i w d) h = ground (arith, has-get k d)

-- What a change of the payload leaves: keys outside of a list.
abbrev pub Keeps : List String → Fields → Fields → Type 0
Keeps keys d d' = (key : String) → is_among key keys ≡ false → get key d' ≡ get key d

abbrev pub is_no_core : List String → Bool
is_no_core fields = all (λ f. not (is_among f core_request_fields)) fields

-- Only the fields that it names change, and no core field is one.
abbrev pub Only : Fields → Applied → Type 0
Only payload a =
    Keeps a.applied_fields payload a.applied_payload × (is_no_core a.applied_fields ≡ true)

pub untouched-Only : (payload : Fields) → Only payload (untouched_by payload)
untouched-Only payload = (λ key h. refl, refl)

with_field-Only :
    (name : String) (v : Json) (effort : Option String) (payload : Fields)
    → is_among name core_request_fields ≡ false
    → Only payload (with_field name v effort payload)
with_field-Only name v effort payload free =
    (λ key h. ground (arith, get-put key name v payload), ground (arith, free))

pub chosen-Only :
    (effort : Option String) (budget : Option ℕ) (payload : Fields)
    → Only payload (openrouter_chosen effort budget payload)
chosen-Only none none payload = untouched-Only payload
chosen-Only none (some b) payload = with_field-Only _ _ none payload refl
chosen-Only (some e) none payload = with_field-Only _ _ (some (off_as_none e)) payload refl
chosen-Only (some e) (some b) payload = elim (Bool-cases (e == "off")) [
  | inl off ↦ rw off (with_field-Only _ _ (some "none") payload refl)
  | inr on ↦ rw on (with_field-Only _ _ none payload refl)
]

pub set_effort-Only :
    (effort : Option String) (payload : Fields) → Only payload (set_effort effort payload)
set_effort-Only none payload = untouched-Only payload
set_effort-Only (some e) payload = with_field-Only _ _ (some e) payload refl

-- A payload that has been added to: other keys have their values, and none has gone.
abbrev pub Grown : Fields → Fields → Type 0
Grown d d' =
    ((key : String) → is_among key budget_keys ≡ false → get key d' ≡ get key d)
    × ((key : String) → get key d' ≡ none → get key d ≡ none)

pub put-Grown :
    (name : String) (v : Json) (d : Fields)
    → is_among name budget_keys ≡ true
    → Grown d (put name v d)
put-Grown name v d h = (
  λ key apart. ground (arith, get-put key name v d, apart_names name key h apart),
  λ key gone. ground (arith, get-put key name v d, gone),
)
  where
    apart_names :
        (a b : String)
        → is_among a budget_keys ≡ true
        → is_among b budget_keys ≡ false
        → (a == b) ≡ false
    apart_names a b h k = elim (Bool-cases (a == b)) [
      | inl hit ↦ let e = ==-true a b hit in absurd (ground (arith, h, k, e))
      | inr miss ↦ miss
    ]

kept_names :
    (key name : String) (b : Bool) (keys : List String) (d : Fields)
    → has name d ≡ b
    → is_among key (with_key b name keys) ≡ false
    → ((name == key) ≡ true → get key d ≡ none) × (is_among key keys ≡ false)
kept_names key name true keys d there h = (λ hit. ground (arith, h, hit), ground (arith, h))
kept_names key name false keys d away h =
    (λ hit. let e = ==-true name key hit in has-get key d (rw (sym e) away), h)

present-has :
    (key : String) (keys : List String) (d : Fields)
    → is_among key (present keys d) ≡ false
    → is_among key keys ≡ true
    → get key d ≡ none
present-has key [] d h k = ground (arith, k)
present-has key (name ∷ names) d h k =
    let (here, later) = kept_names key name (has name d) (present names d) d refl h in
    elim (Bool-cases (name == key)) [
      | inl hit ↦ here hit
      | inr miss ↦ present-has key names d later (ground (arith, k, miss))
    ]

present-free :
    (a b c : Bool)
    → is_no_core (
        with_key a "thinking_token_budget"
          (with_key b "max_thinking_tokens" (with_key c "nvext" [])))
      ≡ true
present-free true true true = refl
present-free true true false = refl
present-free true false true = refl
present-free true false false = refl
present-free false true true = refl
present-free false true false = refl
present-free false false true = refl
present-free false false false = refl

pub with_template-Only :
    (effort : Option String) (payload changed template : Fields)
    → Grown payload changed
    → Only payload (with_template effort (changed, template))
with_template-Only effort payload changed template (same, none_gone) = (kept, free)
  where
    p : Fields
    p = put "chat_template_kwargs" (obj template) changed

    step : (key : String) → is_among key (nvidia_fields p) ≡ false → get key p ≡ get key changed
    step key h = ground (arith, get-put key "chat_template_kwargs" (obj template) changed, h)

    kept : Keeps (nvidia_fields p) payload p
    kept key h = elim (Bool-cases (is_among key budget_keys)) [
      | inr apart ↦ step key h ∙ same key apart
      | inl listed ↦
          let gone = present-has key budget_keys p (ground (arith, h)) listed in
          gone ∙ sym (none_gone key (sym (step key h) ∙ gone))
    ]

    free : is_no_core (nvidia_fields p) ≡ true
    free =
        present-free (has "thinking_token_budget" p) (has "max_thinking_tokens" p) (has "nvext" p)
