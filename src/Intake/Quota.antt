-- ===== src/Intake/Quota.antt =====
-- The quota of harness/runtime/quotas.py holds over any sequence of submissions, one at a time.
use marcus.Prelude.{Option-cases, nat_beq_iff, ℕ, ◌≤◌, ◌≡◌, ◌≢◌, inl, inr, List, arith}
use marcus.Intake.{
  Tables, find_quota, get_quota, submit, Settings, active_runs, NewRun, TenantQuota,
  enforce_tenant_run_quota, create_run, Refusal,
}
use marcus.Run.Status.{is_terminal}

module _ (settings : Settings) where
  -- The limit that holds for a tenant.
  abbrev pub limit_of : ℕ → List TenantQuota → ℕ
  limit_of tenant quotas = (get_quota settings tenant quotas).1.max_active_runs

  -- A submission never takes a tenant over its limit of active runs, and changes neither the limit
  -- nor the number of active runs of any other tenant; a refused one changes no table.
  pub submit_stays_in_quota :
      (now id : ℕ) (new : NewRun) (t : Tables) (tenant : ℕ)
      → let after = submit settings now id new t in
        (active_runs tenant t.runs ≤ limit_of tenant t.quotas
          → active_runs tenant after.0.runs ≤ limit_of tenant after.0.quotas)
        × (limit_of tenant after.0.quotas ≡ limit_of tenant t.quotas)
        × (tenant ≢ new.tenant_id → active_runs tenant after.0.runs ≡ active_runs tenant t.runs)
        × ((why : Refusal) → after.1 ≡ inr why → after.0 ≡ t)
  unfolding submit create_run enforce_tenant_run_quota get_quota is_terminal
  submit_stays_in_quota now id new t tenant =
      elim (Option-cases (find_quota new.tenant_id t.quotas)) [
        | inl missing ↦ (
          ground (arith, missing, nat_beq_iff new.tenant_id tenant),
          ground (arith, missing, nat_beq_iff new.tenant_id tenant),
          ground (arith, missing, nat_beq_iff new.tenant_id tenant),
          ground (arith, missing),
        )
        | inr (q, found) ↦ (
          ground (arith, found, nat_beq_iff new.tenant_id tenant),
          ground (arith, found, nat_beq_iff new.tenant_id tenant),
          ground (arith, found, nat_beq_iff new.tenant_id tenant),
          ground (arith, found),
        )
      ]
