-- ===== src/Coding/Finish.antt =====
-- marcus_code/runtime/agent.py: what `MarcusLoop.run_turn` keeps of the observations of a turn, and
-- when it lets an answer without tool calls end it. AgentTexts are parameters: `str` of a value,
-- `str.casefold`, `str.rstrip`, `in` on texts, and the last line of an output, cut at 240 characters.
pub mod Verified
use marcus.Prelude.{
  ℕ, ltb, if◌then◌else◌, any, where_, ◌==◌, ◌+◌, String, Bool, true, false, not, ◌&&◌, ◌||◌, Option,
  none, some, List, [], ◌∷◌, nat_eq, string_eq,
}
use marcus.Coding.Contract.{
  requires_verification, TaskContract, VerificationPolicy, unverified, after_mutation, requested,
}
use marcus.Coding.Evidence.{get_or_null, truthy, is_verification_attempt, is_verification_evidence}
use marcus.Coding.Patterns.{Re}
use marcus.Prelude.Json.{null, Fields, has, Json}
use marcus.Prelude.Texts.{concat}

pub record AgentTexts : Type 0 where
  pub str : Json → String
  pub last_line : String → Option String
  pub casefold : String → String
  pub rstrip : String → String
  pub is_in : String → String → Bool

pub record VerificationEvidence : Type 0 where
  pub tool_name : String
  pub evidence_revision : ℕ
  pub evidence_summary : String

-- The part of `SessionState` that the end of a turn depends on.
pub record Session : Type 0 where
  pub workspace_revision : ℕ
  pub unverified_revision : Option ℕ
  pub verification_evidence : Option VerificationEvidence
  pub active_process_ids : List String

-- A call with its observation.
pub record Observed : Type 0 where
  pub called_name : String
  pub call_arguments : Fields
  pub observation : Fields

-- The start of a turn; `continuing` when a contract is handed on.
abbrev pub begin_turn : Bool → Session → Session
begin_turn true s = s
begin_turn false s = record s { verification_evidence = none }

abbrev pub with_id : String → List String → List String
with_id process_id ids = if any (λ p. p == process_id) ids then ids else process_id ∷ ids

unfoldable pub is_current : Session → Bool
is_current s = elim s.verification_evidence [
  | none ↦ false
  | some e ↦ e.evidence_revision == s.workspace_revision
]

abbrev pub is_some {ℓ} : {A : Type ℓ} → Option A → Bool
is_some none = false
is_some (some a) = true

unfoldable pub is_required : VerificationPolicy → Session → Bool
is_required requested s = true
is_required after_mutation s = is_some s.unverified_revision
is_required unverified s = false

-- What becomes of an answer without tool calls: the turn ends with it, the model is asked again, or
-- the turn is stopped.
pub data Ending : Type 0 where
  delivered denied blocked : Ending

abbrev pub repaired : ℕ → ℕ → Ending
repaired repairs max_repairs = if ltb repairs max_repairs then denied else blocked

abbrev pub no_ids : List String → Bool
no_ids [] = true
no_ids (p ∷ ps) = false

unfoldable pub finish_turn : VerificationPolicy → Session → ℕ → ℕ → Ending
unfolding is_current is_required
finish_turn policy s repairs max_repairs =
    if not (no_ids s.active_process_ids)
    then repaired repairs max_repairs
    else if is_required policy s && not (is_current s)
    then repaired repairs max_repairs
    else delivered

module _ (re : Re) (texts : AgentTexts) (mutates : String → Bool) where
  open texts use {str, last_line, casefold, rstrip, is_in}

  -- `str(observation.get("stdout") or observation.get("stderr") or "")`, its last line
  abbrev pub output_line : Fields → String
  output_line observation =
      let out = get_or_null "stdout" observation in
      let shown = if truthy out then out else get_or_null "stderr" observation in
      elim (last_line (if truthy shown then str shown else "")) [
        | none ↦ "exit code 0"
        | some line ↦ line
      ]

  unfoldable pub verification_summary : String → Fields → String
  verification_summary name observation =
      if name == "run_tests"
      then concat "run_tests: " (output_line observation)
      else if name == "wait_for_http" || name == "check_url_health"
      then elim (get_or_null "status" observation) [
        | null ↦ concat name ": ready"
        | status ↦ concat name (concat ": HTTP " (str status))
      ]
      else if name == "run_cli"
      then concat "run_cli: " (output_line observation)
      else concat name ": succeeded"

  abbrev pub succeeded : Observed → Bool
  succeeded o = not (has "error" o.observation)

  abbrev pub is_mutation : Observed → Bool
  is_mutation o = succeeded o && mutates o.called_name

  abbrev pub is_attempt : Observed → Bool
  is_attempt o = is_verification_attempt re str o.called_name o.call_arguments

  abbrev pub is_evidence : Observed → Bool
  is_evidence o = is_verification_evidence re str o.called_name o.call_arguments o.observation

  -- `active_process_ids` after a call
  unfoldable pub track_processes : Observed → List String → List String
  track_processes o ids =
      let opened = get_or_null "process_id" o.observation in
      let closed = get_or_null "process_id" o.call_arguments in
      if succeeded o && (o.called_name == "start_process" && truthy opened)
      then with_id (str opened) ids
      else if succeeded o && (o.called_name == "stop_process" && truthy closed)
      then where_ (λ p. not (p == str closed)) ids
      else ids

  abbrev pub after_mutation_of : Bool → Session → Session
  after_mutation_of false s = s
  after_mutation_of true s = record s {
    workspace_revision = s.workspace_revision + 1;
    unverified_revision = some (s.workspace_revision + 1);
    verification_evidence = none;
  }

  -- By whether the call attempts a verification, and whether it is evidence.
  abbrev pub after_attempt : Bool → Bool → Observed → Session → Session
  after_attempt false evidence o s = s
  after_attempt true false o s = record s { verification_evidence = none }
  after_attempt true true o s = record s {
    unverified_revision = none;
    verification_evidence = some (record {
      tool_name = o.called_name;
      evidence_revision = s.workspace_revision;
      evidence_summary = verification_summary o.called_name o.observation;
    });
  }

  -- The body of the first loop over the observations.
  unfoldable pub record_observation : Observed → Session → Session
  unfolding track_processes verification_summary
  record_observation o s =
      let tracked = record s { active_process_ids = track_processes o s.active_process_ids } in
      after_attempt (is_attempt o) (is_evidence o) o (after_mutation_of (is_mutation o) tracked)

  -- All the observations of a turn, newest first.
  unfoldable pub session_after : Session → List Observed → Session
  unfolding record_observation
  session_after s [] = s
  session_after s (o ∷ earlier) = record_observation o (session_after s earlier)

  -- `_final_with_evidence`
  unfoldable pub final_with_evidence : TaskContract → Session → String → String
  unfolding requires_verification
  final_with_evidence contract s answer =
      if requires_verification contract && is_current s
      then elim s.verification_evidence [
        | none ↦ answer
        | some e ↦
            if is_in (casefold e.evidence_summary) (casefold answer)
            then answer
            else concat (rstrip answer) (concat "\n\nVerification: " e.evidence_summary)
      ]
      else answer
