-- ===== src/Reaper/Race.antt =====
-- The reaper against the heartbeat of a live worker.
use marcus.Prelude.{
  ==_refl, ℕ, ◌+◌, String, ◌≡◌, refl, true, false, none, some, List, arith, nat_eq, string_eq,
}
use marcus.Repository.{seconds, is_none, owned_by, release_lease, row, renew_lease_by_id}
use marcus.Repository.Cell.{IsKeyed, renew_lease_by_id-cell, renew_lease_by_id-IsKeyed, renewed}
use marcus.Repository.Lease.{release_lease-cell, IsLeased}
use marcus.Run.Row.{AgentRun}

-- The comment of `reap_stale_runs` says that a release loses to a heartbeat which renews the lease
-- after the SELECT. It does not: the heartbeat succeeds and leaves the version alone, so the
-- reaper's release succeeds after it, and the live worker's lease, with time still on it, is gone.
pub reaper_beats_heartbeat :
    (now : ℕ) (t : List AgentRun) (run : AgentRun) (owner : String) (ttl : ℕ)
    → IsKeyed t
    → row run.id t ≡ some run
    → run.lease_owner ≡ some owner
    → let beaten = (renew_lease_by_id now t run.id owner ttl).0 in
      ((renew_lease_by_id now t run.id owner ttl).1 ≡ true)
      × IsLeased beaten run.id owner (now + seconds ttl)
      × (is_none (release_lease beaten run).1 ≡ false)
      × ((r' : AgentRun) × (row run.id (release_lease beaten run).0 ≡ some r')
          × (r'.lease_owner ≡ none)
          × (r'.lease_expires_at ≡ none))
reaper_beats_heartbeat now t run owner ttl keyed there owned = (
  ground (arith, beat, owns),
  record {
    holder = record run { lease_expires_at = some (now + seconds ttl) };
    there = after;
    owner_is = owned;
    until_is = refl;
  },
  ground (arith, after, release_lease-cell beaten run keyed'),
  ground (arith, after, release_lease-cell beaten run keyed'),
)
  where
    beaten : List AgentRun
    beaten = (renew_lease_by_id now t run.id owner ttl).0

    keyed' : IsKeyed beaten
    keyed' = renew_lease_by_id-IsKeyed now t run.id owner ttl keyed

    owns : owned_by owner run ≡ true
    owns = ground (arith, ==_refl owner)

    beat :
        (row run.id beaten, (renew_lease_by_id now t run.id owner ttl).1)
        ≡ renewed (now + seconds ttl) owner (row run.id t)
    beat = renew_lease_by_id-cell now t run.id owner ttl keyed

    after : row run.id beaten ≡ some (record run { lease_expires_at = some (now + seconds ttl) })
    after = ground (arith, beat, owns)
