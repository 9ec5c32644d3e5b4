-- ===== src/Engine/Control.antt =====
-- What the tool calls of harness/runtime/engine.py lead to, and what is read of their observations.
use package.text.Mathlib.TextBridge.{of_list, to_list}
use marcus.Prelude.{
  ℕ, ltb, if◌then◌else◌, where_, take, any, ◌==◌, String, Bool, true, false, not, ◌&&◌, Option,
  none, some, List, [], ◌∷◌, ◌++◌, nat_eq, string_eq,
}
use marcus.Executions.{ToolExecution}
use marcus.Prelude.Json.{arr, text, nil, Fields, get, cons, Items}
use marcus.Prelude.Sorting.{sorted}
use marcus.Run.Status.{failed, unknown, ToolExecutionStatus, succeeded, started}

pub data Control : Type 0 where
  no_control : Control
  waits_approval : ℕ → Control
  completes : Fields → Control
  asks_user : Fields → Control
  fails : Option String → Control

abbrev pub control_tools : List String
control_tools =
    "finish" ∷ "ask_user" ∷ "list_tool_domains" ∷ "list_domain_tools" ∷ "load_tool" ∷ "use_skill"
    ∷ []

-- ORDER BY step_no DESC, call_index DESC
abbrev pub is_later : ToolExecution → ToolExecution → Bool
is_later a b =
    if ltb b.key.step_no a.key.step_no
    then true
    else a.key.step_no == b.key.step_no && ltb b.key.call_index a.key.call_index

abbrev pub first_of {ℓ} : {A : Type ℓ} → List A → Option A
first_of [] = none
first_of (x ∷ xs) = some x

-- The most recent real tool call of a run.
unfoldable pub latest_execution : ℕ → List ToolExecution → Option ToolExecution
latest_execution run_id t = first_of (
    sorted is_later (
      where_
        (λ (e : ToolExecution).
          e.key.run_id == run_id && not (any (λ n. n == e.tool_name) control_tools))
        t))

abbrev pub status_text : ToolExecutionStatus → String
status_text started = "started"
status_text succeeded = "succeeded"
status_text failed = "failed"
status_text unknown = "unknown"

abbrev pub is_succeeded : ToolExecutionStatus → Bool
is_succeeded succeeded = true
is_succeeded _ = false

-- The text that the observation has under a key; "" counts as none.
abbrev pub text_at : String → Fields → Option String
text_at key fields = elim (get key fields) [
  | some (text s) ↦ if s == "" then none else some s
  | _ ↦ none
]

abbrev pub add_name : List String → String → List String
add_name names name = if any (λ n. n == name) names then names else names ++ name ∷ []

-- An element that is no text, which `use_skill` never returns, is passed over.
abbrev pub add_names : List String → Items → List String
add_names names nil = names
add_names names (cons (text name) rest) = add_names (add_name names name) rest
add_names names (cons _ rest) = add_names names rest

abbrev pub required_of : Fields → Items
required_of fields = elim (get "required_tools" fields) [ some (arr xs) ↦ xs | _ ↦ nil ]

-- error LIKE 'INVALID_ARGUMENT%'
abbrev pub is_invalid_argument : Option String → Bool
is_invalid_argument none = false
is_invalid_argument (some s) = of_list (take 16 (to_list s)) == "INVALID_ARGUMENT"
