-- ===== src/Tests/Intake.antt =====
-- A run submitted by a tenant that has one of two active runs.
use marcus.Prelude.{◌≤◌, ◌≡◌, refl, ◌≢◌, inr, none, some, [], ◌∷◌, ℕ}
use marcus.Intake.{
  Refusal, enforce_tenant_run_quota, Tables, create_run, active_runs, Settings, submit, NewRun,
  get_quota,
}
use marcus.Intake.Quota.{limit_of, submit_stays_in_quota}
use marcus.Prelude.Json.{end}
use marcus.Run.Row.{api}
use marcus.Run.Status.{is_terminal, running}
use marcus.Tests.Fixtures.{fresh_run}

abbrev defaults : Settings
defaults = record {
  run_default_max_steps = 20;
  run_default_max_tool_calls = 40;
  run_default_token_budget = 100000;
  run_default_timeout_seconds = 900;
  tenant_daily_token_quota_default = 500000;
  tenant_max_active_runs_default = 2;
}

abbrev asked_for : NewRun
asked_for = record {
  tenant_id = 1;
  goal = "tidy the repository";
  channel = api;
  channel_metadata = end;
  created_by_user_id = none;
  max_steps = some 0;
  max_tool_calls = none;
  token_budget = none;
  timeout_seconds = none;
}

abbrev one_active : Tables
one_active = record { runs = fresh_run 1 running 4 ∷ []; quotas = []; usage = [] }

submit_stays_in_quota_example :
    let after = submit defaults 5 2 asked_for one_active in
    (active_runs 1 one_active.runs ≤ limit_of defaults 1 one_active.quotas
      → active_runs 1 after.0.runs ≤ limit_of defaults 1 after.0.quotas)
    × (limit_of defaults 1 after.0.quotas ≡ limit_of defaults 1 one_active.quotas)
    × (◌≢◌ {A = ℕ} 1 1 → active_runs 1 after.0.runs ≡ active_runs 1 one_active.runs)
    × ((why : Refusal) → after.1 ≡ inr why → after.0 ≡ one_active)
submit_stays_in_quota_example = submit_stays_in_quota defaults 5 2 asked_for one_active 1

-- The second run is accepted, with the default in the place of 0 steps.
accepted :
    (submit defaults 5 2 asked_for one_active).0.runs
    ≡ (create_run defaults 5 2 asked_for one_active.runs).0
unfolding submit enforce_tenant_run_quota get_quota is_terminal create_run
accepted = refl
