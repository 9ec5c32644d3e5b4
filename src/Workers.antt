-- ===== src/Workers.antt =====
-- harness/workers/main.py: what a worker does with a message of the queue, and what the reaper loop
-- publishes. No heartbeat comes between: harness/runtime/lease.py is left out, and the update to
-- Slack, whose failure is ignored. A message carries the ids of `encode_run_message` in harness/mq.py.
pub mod Taken
pub mod Recovered
use marcus.Prelude.{
  ℕ, if◌then◌else◌, first_where, ◌==◌, String, Option, none, some, List, map, nat_eq, string_eq,
  Bool,
}
use marcus.Compaction.{Model}
use marcus.Engine.Meta.{Entry}
use marcus.Engine.State.{Db, Deps, Work}
use marcus.Engine.Step.{run_until_blocked}
use marcus.Errors.{Failure, ok, Result, err}
use marcus.Gateway.Providers.{openai, openrouter, ollama, Provider}
use marcus.Gateway.Request.{GatewaySettings}
use marcus.Reaper.{reap_stale_runs}
use marcus.Repository.{owned_by, row, try_acquire_lease, release_lease}
use marcus.Run.Row.{AgentRun}
use marcus.Run.Status.{status_eq, tier_eq}

pub record RunMessage : Type 0 where
  pub run_id : ℕ
  pub tenant_id : ℕ

-- `publish_run(channel, run.id, run.tenant_id)`
abbrev pub message_for : AgentRun → RunMessage
message_for r = record { run_id = r.id; tenant_id = r.tenant_id }

pub data LlmProvider : Type 0 where
  ollama_cloud_provider openai_provider openrouter_provider : LlmProvider

pub record TenantLlmSetting : Type 0 where
  pub tenant_id : ℕ
  pub tenant_provider : LlmProvider
  pub base_url : String
  pub tenant_model : String

-- `provider.value.replace("ollama_cloud", "ollama")`
abbrev pub as_provider : LlmProvider → Provider
as_provider ollama_cloud_provider = ollama
as_provider openai_provider = openai
as_provider openrouter_provider = openrouter

abbrev pub tenant_settings : TenantLlmSetting → GatewaySettings
tenant_settings setting = record {
  llm_base_url = setting.base_url;
  llm_model = setting.tenant_model;
  llm_provider = some (as_provider setting.tenant_provider);
}

abbrev pub setting_of : ℕ → List TenantLlmSetting → Option TenantLlmSetting
setting_of k settings = first_where (λ s. s.tenant_id == k) settings

-- What a worker is given. `gateway` makes a client from its settings, which the engine uses as its
-- model; the key, which only the client reads, is left out. `has_value` tells whether the attribute
-- of a column of texts, as the ORM returns it, has a `.value`.
pub record WorkerDeps : Type 0 where
  pub worker_id : String
  pub run_lease_ttl_seconds : ℕ
  pub engine : Deps
  pub llm_settings : List TenantLlmSetting
  pub has_value : Bool
  pub gateway : GatewaySettings → Model

pub data WorkerError : Type 0 where
  engine_raised : Failure → WorkerError
  attribute_error : WorkerError

abbrev pub model_of : WorkerDeps → Option TenantLlmSetting → Option Model
model_of worker none = some worker.engine.model
model_of worker (some setting) =
    if worker.has_value then some (worker.gateway (tenant_settings setting)) else none

-- `_resolve_llm_gateway`; none for an `AttributeError`
unfoldable pub resolve_llm_gateway : WorkerDeps → ℕ → Option Model
resolve_llm_gateway worker tenant = model_of worker (setting_of tenant worker.llm_settings)

-- How a message ends: the tables, and the message acknowledged; or an exception, which puts it on the
-- dead letter queue, and after which the tables are not followed further.
pub data Handled : Type 0 where
  acknowledged : Db → Handled
  dead_lettered : WorkerError → Handled

abbrev pub release_found : String → List AgentRun → Option AgentRun → List AgentRun
release_found worker_id t none = t
release_found worker_id t (some current) =
    if owned_by worker_id current then (release_lease t current).0 else t

-- The `finally` of `_process_message_inner`, on any tables.
unfoldable pub release_own_lease : String → ℕ → List AgentRun → List AgentRun
release_own_lease worker_id run_id t = release_found worker_id t (row run_id t)

abbrev pub after_engine : WorkerDeps → ℕ → Option (Result Work) → Option Handled
after_engine worker run_id none = none
after_engine worker run_id (some (err e)) = some (dead_lettered (engine_raised e))
after_engine worker run_id (some (ok w)) =
    some (acknowledged (record w.db { runs = release_own_lease worker.worker_id run_id w.db.runs }))

-- The engine reads the run again; none is no end within the fuel.
unfoldable pub run_with :
    WorkerDeps → ℕ → List Entry → RunMessage → Db → Option Model → Option Handled
unfolding release_own_lease
run_with worker fuel entries message db none = some (dead_lettered attribute_error)
run_with worker fuel entries message db (some model) =
    after_engine worker message.run_id
      (run_until_blocked (record worker.engine { model = model }) fuel db entries message.run_id)

-- From the result of `try_acquire_lease` on.
abbrev pub run_if_acquired :
    WorkerDeps → ℕ → List Entry → RunMessage → Db → List AgentRun × Option AgentRun → Option Handled
run_if_acquired worker fuel entries message db (t, none) =
    some (acknowledged (record db { runs = t }))
run_if_acquired worker fuel entries message db (t, some run) =
    run_with worker fuel entries message (record db { runs = t })
      (resolve_llm_gateway worker message.tenant_id)

abbrev pub message_read :
    WorkerDeps → ℕ → ℕ → List Entry → Db → RunMessage → Option AgentRun → Option Handled
message_read worker now fuel entries db message none = some (acknowledged db)
message_read worker now fuel entries db message (some run) =
    run_if_acquired worker fuel entries message db
      (try_acquire_lease now db.runs run worker.worker_id worker.run_lease_ttl_seconds)

-- `_process_message_inner`
unfoldable pub process_message : WorkerDeps → ℕ → ℕ → List Entry → Db → RunMessage → Option Handled
unfolding run_with resolve_llm_gateway
process_message worker now fuel entries db message =
    message_read worker now fuel entries db message (row message.run_id db.runs)

-- One round of `reaper_loop` over the runs: the tables, and the messages that it publishes. The session
-- is closed without a commit, so that what `reap_stale_runs` has written is rolled back.
unfoldable pub reaper_round : ℕ → Db → Db × List RunMessage
reaper_round now db = (db, map message_for (reap_stale_runs now db.runs).requeued)
