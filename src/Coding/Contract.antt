-- ===== src/Coding/Contract.antt =====
-- marcus_code/runtime/task_contract.py: what a request asks for. Its regular expressions are run by
-- Python's `re`, which is a parameter.
use marcus.Prelude.{
  if◌then◌else◌, any, String, Bool, true, false, not, ◌&&◌, ◌||◌, List, [], ◌∷◌, ◌++◌,
}
use marcus.Coding.Patterns.{
  plan_only_change, finds, verify_words, change_words, Re, negated_change, workspace_words,
  analyze_words, blank, deictic_workspace, informational_words, operate_words, process_words,
  web_words,
}

pub data TaskKind : Type 0 where
  explain change operate : TaskKind

pub data ResponseMode : Type 0 where
  direct agentic : ResponseMode

pub data Capability : Type 0 where
  workspace_read workspace_write command process web : Capability

pub data VerificationPolicy : Type 0 where
  unverified requested after_mutation : VerificationPolicy

-- A frozenset of capabilities is a list of them, read by `allows`.
pub record TaskContract : Type 0 where
  pub kind : TaskKind
  pub response_mode : ResponseMode
  pub capabilities : List Capability
  pub requires_plan : Bool
  pub verification_policy : VerificationPolicy

abbrev pub same_capability : Capability → Capability → Bool
same_capability workspace_read workspace_read = true
same_capability workspace_write workspace_write = true
same_capability command command = true
same_capability process process = true
same_capability web web = true
same_capability _ _ = false

-- `capability in self.capabilities`
unfoldable pub allows : TaskContract → Capability → Bool
allows c capability = any (same_capability capability) c.capabilities

unfoldable pub requires_verification : TaskContract → Bool
requires_verification c = elim c.verification_policy [
  | unverified ↦ false
  | requested ↦ true
  | after_mutation ↦ true
]

unfoldable pub allows_mutation : TaskContract → Bool
unfolding allows
allows_mutation c = allows c workspace_write

-- `if test: capabilities.add(capability)`
abbrev pub add_if : Bool → List Capability → List Capability → List Capability
add_if test added rest = if test then added ++ rest else rest

abbrev pub nonempty : List Capability → Bool
nonempty [] = false
nonempty (x ∷ xs) = true

module _ (re : Re) where
  unfoldable pub affirmative_text : String → String
  affirmative_text user_input = blank re plan_only_change (blank re negated_change user_input)

  unfoldable pub derive_task_contract : String → TaskContract
  unfolding affirmative_text
  derive_task_contract user_input =
      let affirmative = affirmative_text user_input in
      let informational = finds re informational_words user_input in
      let wants_change = finds re change_words affirmative && not informational in
      let wants_operation = finds re operate_words user_input && not informational in
      let wants_verification = finds re verify_words user_input && not informational in
      let wants_analysis = finds re analyze_words user_input in
      let references_workspace = finds re workspace_words user_input in
      let deictic = finds re deictic_workspace user_input in
      let wants_process = finds re process_words user_input in
      let repository_analysis = wants_analysis && references_workspace in
      let reads =
        repository_analysis
        || (deictic || (wants_change || (wants_operation || wants_verification))) in
      let capabilities = add_if reads (workspace_read ∷ []) (
        add_if wants_change (workspace_write ∷ command ∷ []) (
          add_if (wants_operation || wants_verification) (command ∷ []) (
            add_if wants_process (process ∷ [])
              (add_if (finds re web_words user_input) (web ∷ []) [])))) in
      let wants_agentic = nonempty capabilities in
      record {
        kind =
            if wants_change
            then change
            else if wants_operation || wants_verification
            then operate
            else explain;
        response_mode = if wants_agentic then agentic else direct;
        capabilities = capabilities;
        requires_plan = wants_agentic;
        verification_policy =
            if wants_change
            then after_mutation
            else if wants_verification
            then requested
            else unverified;
      }
