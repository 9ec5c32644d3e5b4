-- ===== src/Run/Row.antt =====
-- The row `AgentRun` of harness/db/models.py, and the field updates that an UPDATE writes to it.
-- Identifiers are numbers (the program only compares UUIDs); times are microseconds. `updated_at`,
-- which the database sets itself and only a metric reads, is left out.
use marcus.Prelude.{ℕ, String, ◌≡◌, refl, Bool, Option, List, [], ◌∷◌, ◌∙◌}
use marcus.Prelude.Json.{Fields}
use marcus.Run.Status.{RunStatus}

pub data Channel : Type 0 where
  api web slack schedule : Channel

pub record AgentRun : Type 0 where
  pub id : ℕ
  pub tenant_id : ℕ
  pub created_by_user_id : Option ℕ
  pub status : RunStatus
  pub version : ℕ
  pub goal : String
  pub channel : Channel
  pub channel_metadata : Fields
  pub current_step : ℕ
  pub max_steps : ℕ
  pub max_tool_calls : ℕ
  pub token_budget : ℕ
  pub timeout_seconds : ℕ
  pub tokens_used : ℕ
  pub tool_calls_used : ℕ
  pub active_skill_revision_id : Option ℕ
  pub active_tool_names : List String
  pub lease_owner : Option String
  pub lease_expires_at : Option ℕ
  pub final_result : Option Fields
  pub error : Option String
  pub cancel_requested : Bool
  pub created_at : ℕ

-- One entry of `field_updates`, the columns that some caller writes.
pub data FieldUpdate : Type 0 where
  set_status : RunStatus → FieldUpdate
  set_current_step : ℕ → FieldUpdate
  set_tokens_used : ℕ → FieldUpdate
  set_tool_calls_used : ℕ → FieldUpdate
  set_active_skill_revision_id : Option ℕ → FieldUpdate
  set_active_tool_names : List String → FieldUpdate
  set_lease_owner : Option String → FieldUpdate
  set_lease_expires_at : Option ℕ → FieldUpdate
  set_final_result : Option Fields → FieldUpdate
  set_error : Option String → FieldUpdate
  set_cancel_requested : Bool → FieldUpdate

abbrev pub write_field : AgentRun → FieldUpdate → AgentRun
write_field r (set_status x) = record r { status = x }
write_field r (set_current_step x) = record r { current_step = x }
write_field r (set_tokens_used x) = record r { tokens_used = x }
write_field r (set_tool_calls_used x) = record r { tool_calls_used = x }
write_field r (set_active_skill_revision_id x) = record r { active_skill_revision_id = x }
write_field r (set_active_tool_names x) = record r { active_tool_names = x }
write_field r (set_lease_owner x) = record r { lease_owner = x }
write_field r (set_lease_expires_at x) = record r { lease_expires_at = x }
write_field r (set_final_result x) = record r { final_result = x }
write_field r (set_error x) = record r { error = x }
write_field r (set_cancel_requested x) = record r { cancel_requested = x }

abbrev pub write_fields : AgentRun → List FieldUpdate → AgentRun
write_fields r [] = r
write_fields r (u ∷ us) = write_fields (write_field r u) us

id-write_field : (r : AgentRun) (u : FieldUpdate) → (write_field r u).id ≡ r.id
id-write_field r (set_status x) = refl
id-write_field r _ = refl

version-write_field : (r : AgentRun) (u : FieldUpdate) → (write_field r u).version ≡ r.version
version-write_field r (set_status x) = refl
version-write_field r _ = refl

-- No caller writes the primary key or the version through `field_updates`.
pub id-write_fields : (r : AgentRun) (us : List FieldUpdate) → (write_fields r us).id ≡ r.id
id-write_fields r [] = refl
id-write_fields r (u ∷ us) = id-write_fields (write_field r u) us ∙ id-write_field r u

pub version-write_fields :
    (r : AgentRun) (us : List FieldUpdate) → (write_fields r us).version ≡ r.version
version-write_fields r [] = refl
version-write_fields r (u ∷ us) =
    version-write_fields (write_field r u) us ∙ version-write_field r u
