-- ===== src/Intake.antt =====
-- How a run comes to be: harness/runtime/quotas.py, `create_run` of harness/runtime/repository.py, and
-- the route of harness/api/routes/runs.py that calls the two. The first message of the run and its
-- publication to the queue are left out. An id is the caller's choice here, as a UUID is fresh.
pub mod Quota
use marcus.Prelude.{
  leb, if◌then◌else◌, length, first_where, where_, ◌==◌, ℕ, ◌+◌, ◌*◌, ◌/◌, String, ◌⊎◌, inl, inr,
  false, not, ◌&&◌, Option, none, some, List, [], ◌∷◌, nat_eq,
}
use marcus.Prelude.Json.{Fields}
use marcus.Run.Row.{Channel, AgentRun}
use marcus.Run.Status.{is_terminal, pending}

pub record Settings : Type 0 where
  pub run_default_max_steps : ℕ
  pub run_default_max_tool_calls : ℕ
  pub run_default_token_budget : ℕ
  pub run_default_timeout_seconds : ℕ
  pub tenant_daily_token_quota_default : ℕ
  pub tenant_max_active_runs_default : ℕ

pub record TenantQuota : Type 0 where
  pub tenant_id : ℕ
  pub daily_token_quota : ℕ
  pub max_active_runs : ℕ

pub record UsageRecord : Type 0 where
  pub tenant_id : ℕ
  pub total_tokens : ℕ
  pub created_at : ℕ

-- The status-429 errors of `enforce_tenant_run_quota`.
pub data Refusal : Type 0 where
  active_runs_exceeded daily_tokens_exceeded : Refusal

pub record Tables : Type 0 where
  pub runs : List AgentRun
  pub quotas : List TenantQuota
  pub usage : List UsageRecord

-- The parameters of `create_run`.
pub record NewRun : Type 0 where
  pub tenant_id : ℕ
  pub goal : String
  pub channel : Channel
  pub channel_metadata : Fields
  pub created_by_user_id : Option ℕ
  pub max_steps : Option ℕ
  pub max_tool_calls : Option ℕ
  pub token_budget : Option ℕ
  pub timeout_seconds : Option ℕ

-- `value or default`: 0 counts as false.
abbrev pub or_number : Option ℕ → ℕ → ℕ
or_number none default = default
or_number (some n) default = if n == 0 then default else n

abbrev pub total : List UsageRecord → ℕ
total [] = 0
total (u ∷ rest) = u.total_tokens + total rest

-- Midnight before `now`, in microseconds.
abbrev pub midnight : ℕ → ℕ
midnight now = now / 86400000000 * 86400000000

abbrev pub active_runs : ℕ → List AgentRun → ℕ
active_runs tenant runs =
    length (where_ (λ r. r.tenant_id == tenant && not (is_terminal r.status)) runs)

abbrev pub find_quota : ℕ → List TenantQuota → Option TenantQuota
find_quota tenant quotas = first_where (λ q. q.tenant_id == tenant) quotas

module _ (settings : Settings) where
  abbrev pub default_quota : ℕ → TenantQuota
  default_quota tenant = record {
    tenant_id = tenant;
    daily_token_quota = settings.tenant_daily_token_quota_default;
    max_active_runs = settings.tenant_max_active_runs_default;
  }

  unfoldable pub get_quota : ℕ → List TenantQuota → List TenantQuota × TenantQuota
  get_quota tenant quotas = elim (find_quota tenant quotas) [
    | some q ↦ (quotas, q)
    | none ↦ (default_quota tenant ∷ quotas, default_quota tenant)
  ]

  -- The tables, and why the run is refused.
  unfoldable pub enforce_tenant_run_quota : ℕ → Tables → ℕ → Tables × Option Refusal
  unfolding get_quota
  enforce_tenant_run_quota now t tenant =
      let found = get_quota tenant t.quotas in
      let t' = record t { quotas = found.0 } in
      let used =
        total (where_ (λ u. u.tenant_id == tenant && leb (midnight now) u.created_at) t.usage) in
      if leb found.1.max_active_runs (active_runs tenant t.runs)
      then (t', some active_runs_exceeded)
      else if leb found.1.daily_token_quota used
      then (t', some daily_tokens_exceeded)
      else (t', none)

  unfoldable pub create_run : ℕ → ℕ → NewRun → List AgentRun → List AgentRun × AgentRun
  create_run now id new runs =
      let run : AgentRun = record {
        id = id;
        tenant_id = new.tenant_id;
        created_by_user_id = new.created_by_user_id;
        status = pending;
        version = 0;
        goal = new.goal;
        channel = new.channel;
        channel_metadata = new.channel_metadata;
        current_step = 0;
        max_steps = or_number new.max_steps settings.run_default_max_steps;
        max_tool_calls = or_number new.max_tool_calls settings.run_default_max_tool_calls;
        token_budget = or_number new.token_budget settings.run_default_token_budget;
        timeout_seconds = or_number new.timeout_seconds settings.run_default_timeout_seconds;
        tokens_used = 0;
        tool_calls_used = 0;
        active_skill_revision_id = none;
        active_tool_names = [];
        lease_owner = none;
        lease_expires_at = none;
        final_result = none;
        error = none;
        cancel_requested = false;
        created_at = now;
      } in
      (run ∷ runs, run)

  -- The route; an error rolls the session back.
  unfoldable pub submit : ℕ → ℕ → NewRun → Tables → Tables × (AgentRun ⊎ Refusal)
  submit now id new t =
      let (t', refused) = enforce_tenant_run_quota now t new.tenant_id in
      let made = create_run now id new t'.runs in
      elim refused [ some why ↦ (t, inr why) | none ↦ (record t' { runs = made.0 }, inl made.1) ]
