-- ===== src/Tests/Reaper.antt =====
-- harness/runtime/reaper.py at concrete tables.
use marcus.Prelude.{
  where_, length, ℕ, ◌≡◌, refl, true, false, none, some, map, if◌then◌else◌, any, ◌==◌, [], ◌∷◌,
  nat_eq, string_eq,
}
use marcus.Executions.{ApprovalRequest, get_approval, Key, key_eq}
use marcus.Prelude.Json.{end}
use marcus.Reaper.{reap_stale_runs, is_stale, reap_each}
use marcus.Reaper.Approvals.{Desk, expire, reap_expired_approvals, is_overdue}
use marcus.Reaper.Expiry.{
  timed_out_row, reap_expired_approvals_exact, reaper_overwrites_decision, lapsed,
}
use marcus.Reaper.Race.{reaper_beats_heartbeat}
use marcus.Reaper.Released.{cleared}
use marcus.Reaper.Stale.{map_row, reap_stale_runs_exact, after_pass}
use marcus.Repository.{
  update_where, versioned_update, row, renew_lease_by_id, release_lease, is_none,
}
use marcus.Repository.Cell.{IsKeyed}
use marcus.Repository.Lease.{IsLeased}
use marcus.Run.Row.{AgentRun}
use marcus.Run.Status.{
  running, expired, pending, destructive, approved, ApprovalStatus, waiting_approval, status_eq,
}
use marcus.Tests.Fixtures.{fresh_run, leased, two_runs, two_runs-IsKeyed}

abbrev second : AgentRun
second = leased (fresh_run 2 running 7) "a" 5000000

second_there : row 2 two_runs ≡ some second
unfolding row
second_there = refl

reaper_beats_heartbeat_example :
    let beaten = (renew_lease_by_id 4000000 two_runs 2 "a" 60).0 in
    ((renew_lease_by_id 4000000 two_runs 2 "a" 60).1 ≡ true)
    × IsLeased beaten 2 "a" 64000000
    × (is_none (release_lease beaten second).1 ≡ false)
    × ((r' : AgentRun) × (row 2 (release_lease beaten second).0 ≡ some r')
        × (r'.lease_owner ≡ none)
        × (r'.lease_expires_at ≡ none))
reaper_beats_heartbeat_example =
    reaper_beats_heartbeat 4000000 two_runs second "a" 60 two_runs-IsKeyed second_there refl

reap_stale_runs_exact_example :
    ((j : ℕ)
      → row j (reap_stale_runs 6000000 two_runs).table
        ≡ map_row (after_pass 6000000) (row j two_runs))
    × ((reap_stale_runs 6000000 two_runs).requeued
        ≡ map cleared (where_ (is_stale 6000000) two_runs))
    × ((reap_stale_runs 6000000 two_runs).reaped ≡ length (where_ (is_stale 6000000) two_runs))
    × ((j : ℕ) (r : AgentRun)
        → row j (reap_stale_runs 6000000 two_runs).table ≡ some r
        → is_stale 6000000 r ≡ false)
reap_stale_runs_exact_example = reap_stale_runs_exact 6000000 two_runs two_runs-IsKeyed

one_reaped : (reap_stale_runs 6000000 two_runs).reaped ≡ 1
unfolding reap_stale_runs reap_each is_stale release_lease versioned_update update_where row
one_reaped = refl

abbrev asked : ℕ → ApprovalStatus → ApprovalRequest
asked run_id status = record {
  key = record { run_id = run_id; step_no = 0; call_index = 0 };
  tool_name = "deploy";
  risk_tier = destructive;
  args = end;
  status = status;
  reason = none;
  expires_at = 5;
}

-- Run 1 waits for a request that is overdue; the request of run 2 has been approved meanwhile.
abbrev desk : Desk
desk = record {
  approvals = asked 1 pending ∷ asked 2 approved ∷ [];
  runs = fresh_run 1 waiting_approval 4 ∷ fresh_run 2 running 7 ∷ [];
}

desk-IsKeyed : IsKeyed desk.runs
unfolding row
desk-IsKeyed = (refl, (refl, tt))

reap_expired_approvals_exact_example :
    let overdue = where_ (is_overdue 9) desk.approvals in
    let after = (reap_expired_approvals 9 desk).0 in
    ((k : Key)
      → get_approval k after.approvals ≡ (
          if any (λ a. a.key == k) overdue
          then lapsed (get_approval k desk.approvals)
          else get_approval k desk.approvals))
    × ((j : ℕ)
        → row j after.runs ≡ (
            if any (λ a. a.key.run_id == j) overdue
            then timed_out_row (row j desk.runs)
            else row j desk.runs))
reap_expired_approvals_exact_example = reap_expired_approvals_exact 9 desk desk-IsKeyed

abbrev resumed : AgentRun
resumed = fresh_run 2 running 7

resumed_there : row 2 desk.runs ≡ some resumed
unfolding row
resumed_there = refl

reaper_overwrites_decision_example :
    (get_approval (asked 2 pending).key (expire desk (asked 2 pending)).0.approvals
      ≡ some (asked 2 expired))
    × ((expire desk (asked 2 pending)).0.runs ≡ desk.runs)
reaper_overwrites_decision_example =
    reaper_overwrites_decision desk (asked 2 pending) (asked 2 approved) resumed refl refl
      resumed_there refl
