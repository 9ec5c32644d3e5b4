-- ===== src/Repository.antt =====
-- harness/runtime/repository.py over the table `agent_runs`, a list of rows. An UPDATE is atomic, as
-- the database makes it, and returns the new table with its `rowcount`. A method returns the new
-- table with its result; the in-memory run that a caller holds is an argument, and may be stale.
pub mod Cell
pub mod Fencing
pub mod Lease
pub mod History
use marcus.Prelude.{
  ltb, if◌then◌else◌, first_where, ◌==◌, ℕ, suc, ◌+◌, ◌*◌, String, Bool, true, false, ◌&&◌, ◌||◌,
  Option, none, some, List, [], ◌∷◌, ◌++◌, nat_eq, string_eq,
}
use marcus.Errors.{Result, err, ok, invalid_transition, stale_run}
use marcus.Run.Row.{
  set_lease_expires_at, FieldUpdate, write_fields, set_status, AgentRun, set_lease_owner,
}
use marcus.Run.Status.{RunStatus, is_valid_transition}

-- SELECT … WHERE id = k
unfoldable pub row : ℕ → List AgentRun → Option AgentRun
row k t = first_where (λ r. r.id == k) t

-- UPDATE … SET … WHERE …
unfoldable pub update_where :
    (AgentRun → Bool) → (AgentRun → AgentRun) → List AgentRun → List AgentRun × ℕ
update_where test set [] = ([], 0)
update_where test set (r ∷ t) =
    let rest = update_where test set t in
    if test r then (set r ∷ rest.0, suc rest.1) else (r ∷ rest.0, rest.1)

-- SET …, version = expected_version + 1
abbrev pub bump : ℕ → List FieldUpdate → AgentRun → AgentRun
bump expected values r = record (write_fields r values) { version = expected + 1 }

-- The new table, and the refreshed run if exactly one row was updated.
unfoldable pub versioned_update :
    List AgentRun
    → AgentRun
    → List FieldUpdate
    → (AgentRun → Bool)
    → List AgentRun × Option AgentRun
versioned_update t run values extra =
    let result =
      update_where (λ r. r.id == run.id && (r.version == run.version && extra r))
        (bump run.version values) t in
    if result.1 == 1 then (result.0, row run.id result.0) else (result.0, none)

abbrev pub no_extra : AgentRun → Bool
no_extra r = true

-- `return run`, or `raise StaleRunError`
abbrev pub or_stale : List AgentRun × Option AgentRun → List AgentRun × Result AgentRun
or_stale (t, none) = (t, err stale_run)
or_stale (t, some run) = (t, ok run)

unfoldable pub checkpoint :
    List AgentRun → AgentRun → Option RunStatus → List FieldUpdate → List AgentRun × Result AgentRun
checkpoint t run none updates = or_stale (versioned_update t run updates no_extra)
checkpoint t run (some status) updates =
    if is_valid_transition run.status status
    then or_stale (versioned_update t run (updates ++ set_status status ∷ []) no_extra)
    else (t, err invalid_transition)

-- timedelta(seconds=n)
abbrev pub seconds : ℕ → ℕ
seconds n = n * 1000000

-- `lease_expires_at < now` is not true of NULL
abbrev pub expired_at : ℕ → Option ℕ → Bool
expired_at now none = false
expired_at now (some t) = ltb t now

abbrev pub is_none {ℓ} : {A : Type ℓ} → Option A → Bool
is_none none = true
is_none (some a) = false

abbrev pub unleased_or_expired : ℕ → AgentRun → Bool
unleased_or_expired now r = is_none r.lease_owner || expired_at now r.lease_expires_at

unfoldable pub try_acquire_lease :
    ℕ → List AgentRun → AgentRun → String → ℕ → List AgentRun × Option AgentRun
try_acquire_lease now t run owner ttl =
    versioned_update t run
      (set_lease_owner (some owner) ∷ set_lease_expires_at (some (now + seconds ttl)) ∷ [])
      (unleased_or_expired now)

abbrev pub owned_by : String → AgentRun → Bool
owned_by owner r = elim r.lease_owner [ none ↦ false | some o ↦ o == owner ]

unfoldable pub renew_lease_by_id : ℕ → List AgentRun → ℕ → String → ℕ → List AgentRun × Bool
renew_lease_by_id now t run_id owner ttl =
    let result =
      update_where (λ r. r.id == run_id && owned_by owner r)
        (λ r. record r { lease_expires_at = some (now + seconds ttl) }) t in
    (result.0, result.1 == 1)

unfoldable pub release_lease : List AgentRun → AgentRun → List AgentRun × Option AgentRun
release_lease t run =
    versioned_update t run (set_lease_owner none ∷ set_lease_expires_at none ∷ []) no_extra
