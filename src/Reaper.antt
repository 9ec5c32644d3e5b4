-- ===== src/Reaper.antt =====
-- harness/runtime/reaper.py: runs whose lease has run out, and approvals past their deadline. The
-- SELECT reads the table once; each release is an UPDATE of its own, on the table as it is then.
pub mod Released
pub mod Stale
pub mod Race
pub mod Approvals
pub mod Expiry
use marcus.Prelude.{where_, ◌==◌, ℕ, ◌+◌, Bool, not, ◌&&◌, none, some, List, [], ◌∷◌, nat_eq}
use marcus.Repository.{expired_at, is_none, release_lease}
use marcus.Run.Row.{AgentRun}
use marcus.Run.Status.{running, status_eq}

-- The WHERE clause of `reap_stale_runs`; `now` is the database's `now()`.
unfoldable pub is_stale : ℕ → AgentRun → Bool
is_stale now r =
    r.status == running && (not (is_none r.lease_owner) && expired_at now r.lease_expires_at)

-- The table, the runs handed to `on_stale`, and the number reaped.
pub record Reaped : Type 0 where
  pub table : List AgentRun
  pub requeued : List AgentRun
  pub reaped : ℕ

-- The loop over the runs that the SELECT returned.
unfoldable pub reap_each : List AgentRun → List AgentRun → Reaped
reap_each [] t = record { table = t; requeued = []; reaped = 0 }
reap_each (run ∷ stale) t =
    let (t', released) = release_lease t run in
    let rest = reap_each stale t' in
    elim released [
      | none ↦ rest
      | some run' ↦ record rest { requeued = run' ∷ rest.requeued; reaped = rest.reaped + 1 }
    ]

unfoldable pub reap_stale_runs : ℕ → List AgentRun → Reaped
reap_stale_runs now t = reap_each (where_ (is_stale now) t) t
