-- ===== src/Engine/State.antt =====
-- What harness/runtime/engine.py reads and writes: the tables of its session, and the run that it
-- steps, which a checkpoint refreshes. What it takes from elsewhere is a record of parameters.
use marcus.Prelude.{
  if◌then◌else◌, first_where, ◌==◌, ℕ, String, ◌&&◌, Option, none, some, List, [], ◌∷◌, ◌++◌,
  nat_eq, Bool,
}
use marcus.Compaction.{Model, Printing}
use marcus.Context.{AgentStep, AgentMessage}
use marcus.Engine.Meta.{Entry}
use marcus.Errors.{and_then, Result, ok, err}
use marcus.Executions.{Store}
use marcus.Approvals.{Services}
use marcus.Guardrails.{
  exceeded_max_tool_calls, Violation, no_progress, Reason, exceeded_timeout, repeated_call,
  was_cancelled, exceeded_max_steps,
}
use marcus.Intake.{UsageRecord}
use marcus.Llm.{Role}
use marcus.Mcp.{McpClient, McpTables}
use marcus.Prelude.Json.{int_beq, pos}
use marcus.Prelude.Texts.{concat}
use marcus.Repository.{checkpoint}
use marcus.Run.Row.{AgentRun, FieldUpdate, set_error}
use marcus.Run.Status.{RunStatus, is_terminal, completed, status_eq}
use marcus.Skills.Registry.{Catalog}
use marcus.Skills.Selection.{Words, SkillUsage}

-- `asked` is no table: how often the model has been called.
pub record Db : Type 0 where
  pub runs : List AgentRun
  pub store : Store
  pub steps : List AgentStep
  pub messages : List AgentMessage
  pub skills : Catalog
  pub mcp : McpTables
  pub skill_usage : List SkillUsage
  pub usage_records : List UsageRecord
  pub asked : ℕ

-- `clock i` is the time of the i-th round of the loop. `code_of` is `s.partition(":")[0]`, `quoted`
-- is `repr`, `cut` is `s[:140]`, and `parse_id` is `uuid.UUID`.
pub record Deps : Type 0 where
  pub services : Services
  pub printing : Printing
  pub words : Words
  pub client : McpClient
  pub model : Model
  pub clock : ℕ → ℕ
  pub code_of : String → String
  pub quoted : String → String
  pub cut : String → String
  pub parse_id : String → Option ℕ
  pub context_window : Option ℕ
  pub compact_threshold : ℕ
  pub max_calls_per_step : ℕ
  pub max_argument_repairs : ℕ
  pub repeat_window : ℕ

pub record Work : Type 0 where
  pub db : Db
  pub run : AgentRun
  pub entries : List Entry
  pub mcp_tools_loaded : Bool

-- The result of a checkpoint, with its run in the place of the old one.
abbrev pub saved : Work → List AgentRun × Result AgentRun → Result Work
saved w (t, err e) = err e
saved w (t, ok r) = ok (record w { db = record w.db { runs = t }; run = r })

-- `run = await self.repo.checkpoint(run, …)`
unfoldable pub save_run : Work → Option RunStatus → List FieldUpdate → Result Work
save_run w status updates = saved w (checkpoint w.db.runs w.run status updates)

abbrev pub usage_row : AgentRun → ℕ → SkillUsage
usage_row r revision_id = record {
  tenant_id = r.tenant_id;
  revision_id = revision_id;
  run_id = r.id;
  success = r.status == completed;
  tokens_used = r.tokens_used;
  tool_calls_used = r.tool_calls_used;
}

-- INSERT … ON CONFLICT (revision_id, run_id) DO UPDATE
abbrev pub upsert_usage : SkillUsage → List SkillUsage → List SkillUsage
upsert_usage u [] = u ∷ []
upsert_usage u (x ∷ rest) =
    if x.revision_id == u.revision_id && x.run_id == u.run_id
    then record x {
      success = u.success;
      tokens_used = u.tokens_used;
      tool_calls_used = u.tool_calls_used;
    }
      ∷ rest
    else x ∷ upsert_usage u rest

abbrev pub used_by : AgentRun → List SkillUsage → List SkillUsage
used_by r t = elim r.active_skill_revision_id [
  | none ↦ t
  | some revision_id ↦ if is_terminal r.status then upsert_usage (usage_row r revision_id) t else t
]

-- `record_skill_usage_for_run`, without the latency
unfoldable pub record_skill_usage_for_run : Work → Work
unfolding is_terminal
record_skill_usage_for_run w = record w {
  db = record w.db { skill_usage = used_by w.run w.db.skill_usage };
}

abbrev pub add_message : Work → ℕ → Role → String → Work
add_message w now role content = record w {
  db = record w.db {
    messages =
        w.db.messages
        ++ record { run_id = w.run.id; role = role; content = content; created_at = now } ∷ [];
  };
}

abbrev pub add_step : AgentStep → Db → Db
add_step s db = record db { steps = s ∷ db.steps }

abbrev pub record_usage : ℕ → ℕ → ℕ → Db → Db
record_usage now tenant tokens db = record db {
  usage_records =
      record { tenant_id = tenant; total_tokens = tokens; created_at = now } ∷ db.usage_records;
}

-- `_get_step`
abbrev pub get_step : ℕ → ℕ → List AgentStep → Option AgentStep
get_step run_id step_no t =
    first_where (λ (s : AgentStep). s.run_id == run_id && int_beq s.step_no (pos step_no)) t

module _ (deps : Deps) where
  open deps use {words, quoted, repeat_window}

  abbrev digits : ℕ → String
  digits = words.digits

  -- The text of a `GuardrailViolation`; `name` is the tool that it is about.
  abbrev pub reason_text : AgentRun → String → Reason → String
  reason_text r name was_cancelled = "run was cancelled"
  reason_text r name exceeded_max_steps =
      concat "exceeded max_steps (" (concat (digits r.max_steps) ")")
  reason_text r name exceeded_timeout =
      concat "exceeded timeout_seconds (" (concat (digits r.timeout_seconds) ")")
  reason_text r name exceeded_max_tool_calls =
      concat "exceeded max_tool_calls (" (concat (digits r.max_tool_calls) ")")
  reason_text r name repeated_call = concat "tool " (
      concat (quoted name) (
        concat " called with identical arguments "
          (concat (digits repeat_window) " times in a row")))
  reason_text r name no_progress =
      concat "no progress after "
        (concat (digits repeat_window) (concat " calls to " (quoted name)))

  -- A checkpoint with the status and the text of a violation, and what follows it.
  unfoldable pub stop : Work → Violation → List FieldUpdate → Result Work
  unfolding save_run record_skill_usage_for_run
  stop w v updates =
      and_then
        (save_run w (some v.status) (set_error (some (reason_text w.run "" v.reason)) ∷ updates))
        (λ w'. ok (record_skill_usage_for_run w'))
