-- ===== src/Workers/Taken.antt =====
-- What a message does to the run that it names, for a worker that acquires it.
use mathlib.Core.Path.{subst}
use marcus.Prelude.{
  ℕ, Bool-cases, ==_refl, ◌+◌, ◌-◌, ◌<◌, ◌≡◌, refl, sym, ap, ◌∙◌, ◌≢◌, inl, inr, true, false,
  Option, none, some, List, arith, nat_eq, string_eq,
}
use marcus.Engine.Limits.{run_until_blocked-Finishes, IsWithinLimits, IsBlocked}
use marcus.Engine.Meta.{Entry}
use marcus.Engine.Saved.{is_external, Returning}
use marcus.Engine.State.{Work, Db}
use marcus.Errors.{err, Result, ok}
use marcus.Reaper.Released.{cleared, release_own}
use marcus.Repository.{
  try_acquire_lease, release_lease, seconds, owned_by, bump, unleased_or_expired, row,
}
use marcus.Repository.Cell.{compare_and_swap, IsKeyed}
use marcus.Repository.History.Safety.{id-row}
use marcus.Repository.Lease.{try_acquire_lease-IsKeyed, try_acquire_lease-cell, lease_values}
use marcus.Run.Row.{AgentRun, FieldUpdate}
use marcus.Run.Status.{running, status_eq, tier_eq}
use marcus.Workers.{
  WorkerDeps, model_of, attribute_error, release_found, after_engine, Handled, release_own_lease,
  run_with, engine_raised, dead_lettered, setting_of, message_read, RunMessage, acknowledged,
  resolve_llm_gateway, process_message, run_if_acquired,
}

-- The message is acknowledged, and the run of the table no longer runs, is within its limits, and is
-- not leased by the worker; or an exception that the engine lets
-- through has put it on the dead letter queue.
abbrev pub IsTakenUp : WorkerDeps → ℕ → Handled → Type 0
IsTakenUp worker run_id (dead_lettered (engine_raised e)) = is_external e ≡ true
IsTakenUp worker run_id (dead_lettered attribute_error) = ⊥
IsTakenUp worker run_id (acknowledged db) =
    (r : AgentRun) × (row run_id db.runs ≡ some r)
    × (r.status ≢ running)
    × (owned_by worker.worker_id r ≡ false)
    × IsWithinLimits r

-- After its own release the worker owns no lease of the run.
released-IsTakenUp :
    (worker : WorkerDeps) (run_id : ℕ) (w : Work)
    → IsBlocked run_id w
    → IsTakenUp worker run_id
        (acknowledged (record w.db { runs = release_own_lease worker.worker_id run_id w.db.runs }))
unfolding release_own_lease
released-IsTakenUp worker run_id w h = elim (Bool-cases (owned_by worker.worker_id w.run)) [
  | inl own ↦ (
    cleared w.run,
    ap (row run_id) (ap (release_found worker.worker_id w.db.runs) there ∙ rw own refl)
        ∙ subst (λ k. row k (release_lease w.db.runs w.run).0 ≡ some (cleared w.run)) h.id
            (release_own w.db.runs w.run h.synced.keyed h.synced.current).0,
    h.stopped,
    refl,
    record { steps = h.within.steps; calls = h.within.calls },
  )
  | inr other ↦ (
    w.run,
    ap (row run_id) (ap (release_found worker.worker_id w.db.runs) there ∙ rw other refl) ∙ there,
    h.stopped,
    other,
    h.within,
  )
]
  where
    there : row run_id w.db.runs ≡ some w.run
    there = subst (λ k. row k w.db.runs ≡ some w.run) h.id h.synced.current

returned-IsTakenUp :
    (worker : WorkerDeps) (run_id : ℕ) (r : Result Work)
    → Returning (IsBlocked run_id) r
    → (h : Handled) × (after_engine worker run_id (some r) ≡ some h) × IsTakenUp worker run_id h
returned-IsTakenUp worker run_id (err e) k = (dead_lettered (engine_raised e), refl, k)
returned-IsTakenUp worker run_id (ok w) k = (
  acknowledged (record w.db { runs = release_own_lease worker.worker_id run_id w.db.runs }),
  refl,
  released-IsTakenUp worker run_id w k,
)

-- Where a tenant has no model of its own.
engine-IsTakenUp :
    (worker : WorkerDeps) (fuel : ℕ) (entries : List Entry) (message : RunMessage) (db : Db)
    (r : AgentRun)
    → setting_of message.tenant_id worker.llm_settings ≡ none
    → IsKeyed db.runs
    → row message.run_id db.runs ≡ some r
    → IsWithinLimits r
    → r.max_steps - r.current_step < fuel
    → (h : Handled) × (run_with worker fuel entries message db
          (resolve_llm_gateway worker message.tenant_id)
        ≡ some h)
      × IsTakenUp worker message.run_id h
unfolding run_with resolve_llm_gateway
engine-IsTakenUp worker fuel entries message db r unset keyed found limits enough =
    let (o, same, k) =
      run_until_blocked-Finishes worker.engine fuel db entries message.run_id r keyed found limits
        enough in
    let (h, handled, good) = returned-IsTakenUp worker message.run_id o k in
    (
      h,
      ap (λ setting. run_with worker fuel entries message db (model_of worker setting)) unset
          ∙ ap (after_engine worker message.run_id) same
          ∙ handled,
      good,
    )

acquired_run :
    (worker : WorkerDeps) (fuel : ℕ) (entries : List Entry) (message : RunMessage) (db : Db)
    (taken : List AgentRun × Option AgentRun) (a : AgentRun)
    → taken.1 ≡ some a
    → run_if_acquired worker fuel entries message db taken
      ≡ run_with worker fuel entries message
          (record db { runs = taken.0 })
          (resolve_llm_gateway worker message.tenant_id)
acquired_run worker fuel entries message db (t, none) a h = cc
acquired_run worker fuel entries message db (t, some b) a h = refl

-- A run without a lease is acquired and processed.
pub free-IsTakenUp :
    (worker : WorkerDeps) (now fuel : ℕ) (entries : List Entry) (message : RunMessage) (db : Db)
    (r : AgentRun)
    → setting_of message.tenant_id worker.llm_settings ≡ none
    → IsKeyed db.runs
    → row message.run_id db.runs ≡ some r
    → unleased_or_expired now r ≡ true
    → IsWithinLimits r
    → r.max_steps - r.current_step < fuel
    → (h : Handled) × (process_message worker now fuel entries db message ≡ some h)
      × IsTakenUp worker message.run_id h
unfolding process_message
free-IsTakenUp worker now fuel entries message db r unset keyed found free limits enough =
    let (h, handled, good) =
      engine-IsTakenUp worker fuel entries message (record db { runs = taken.0 }) leased unset
        (try_acquire_lease-IsKeyed now db.runs r worker.worker_id ttl keyed) there
        (record { steps = limits.steps; calls = limits.calls }) enough in
    (
      h,
      ap (message_read worker now fuel entries db message) found
          ∙ acquired_run worker fuel entries message db taken leased (ap (λ x. x.1) swapped)
          ∙ handled,
      good,
    )
  where
    ttl : ℕ
    ttl = worker.run_lease_ttl_seconds

    taken : List AgentRun × Option AgentRun
    taken = try_acquire_lease now db.runs r worker.worker_id ttl

    own : r.id ≡ message.run_id
    own = id-row message.run_id r db.runs found

    values : List FieldUpdate
    values = lease_values worker.worker_id (now + seconds ttl)

    leased : AgentRun
    leased = bump r.version values r

    seen : Option AgentRun × Option AgentRun
    seen = (row r.id taken.0, taken.1)

    swapped : seen ≡ (some leased, some leased)
    swapped =
        try_acquire_lease-cell now db.runs r worker.worker_id ttl keyed
        ∙ ap (compare_and_swap r.version values (unleased_or_expired now))
            (subst (λ k. row k db.runs ≡ some r) (sym own) found)
        ∙ ground (arith, free, ==_refl r.version)

    there : row message.run_id taken.0 ≡ some leased
    there = subst (λ k. row k taken.0 ≡ some leased) own (ap (λ x. x.0) swapped)
