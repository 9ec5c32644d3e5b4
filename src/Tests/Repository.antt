-- ===== src/Tests/Repository.antt =====
-- harness/runtime/repository.py at concrete tables.
use mathlib.Core.List.{Memᴰ}
use marcus.Prelude.{ℕ, ◌≤◌, ◌≡◌, refl, ◌↔◌, true, none, some, [], ◌∷◌, arith}
use marcus.Errors.{ok, stale_run, is_ok, err}
use marcus.Repository.{
  checkpoint, update_where, versioned_update, row, try_acquire_lease, renew_lease_by_id,
  release_lease, is_none,
}
use marcus.Repository.Fencing.{no_lost_update, checkpoint_cell, checkpoint-refines}
use marcus.Repository.History.{next, here, IsCoherent, read, World, save, Run}
use marcus.Repository.History.Safety.{history_safe}
use marcus.Repository.Lease.{lease_exclusive, heartbeat_no_conflict}
use marcus.Run.Lifecycle.{Reaches, terminal_iff_final}
use marcus.Run.Row.{AgentRun}
use marcus.Run.Status.{running, is_terminal, RunStatus, is_valid_transition, failed, completed}
use marcus.Tests.Fixtures.{fresh_run, leased, two_runs, two_runs-IsKeyed}

abbrev first : AgentRun
first = fresh_run 1 running 4

abbrev second : AgentRun
second = leased (fresh_run 2 running 7) "a" 5000000

first_there : row 1 two_runs ≡ some first
unfolding row
first_there = refl

abbrev world : World
world = record { table = two_runs; held = [] }

world-IsCoherent : IsCoherent world
world-IsCoherent = record {
  keyed = two_runs-IsKeyed;
  agrees = λ m r held found. absurd (elim held [ ]);
}

-- A worker reads run 1 and completes it.
abbrev done_world : World
done_world = record { table = (checkpoint two_runs first (some completed) []).0; held = first ∷ [] }

completes : Run world done_world
completes =
    next (next here (read 1 first first_there))
      (save first (some completed) [] (Memᴰ.head refl) refl)

history_safe_example :
    (r' : AgentRun) × (row 1 done_world.table ≡ some r')
    × (4 ≤ r'.version)
    × Reaches running r'.status
    × (is_terminal running ≡ true → running ≡ r'.status)
history_safe_example = history_safe world-IsCoherent completes 1 first first_there

checkpoint-refines_example :
    (
      row 1 (checkpoint two_runs first (some completed) []).0,
      (checkpoint two_runs first (some completed) []).1,
    )
    ≡ checkpoint_cell first (some completed) [] (row 1 two_runs)
checkpoint-refines_example = checkpoint-refines two_runs first (some completed) [] two_runs-IsKeyed

first_saves : (checkpoint two_runs first none []).1 ≡ ok (record first { version = 5 })
unfolding checkpoint versioned_update update_where row
first_saves = refl

no_lost_update_example :
    let after = (checkpoint two_runs first none []).0 in
    ((checkpoint after first (some failed) []).1 ≡ err stale_run)
    × ((j : ℕ) → row j (checkpoint after first (some failed) []).0 ≡ row j after)
unfolding is_valid_transition
no_lost_update_example =
    no_lost_update two_runs first first none (some failed) [] [] two_runs-IsKeyed refl refl refl
      first_saves

first_acquires :
    (try_acquire_lease 1000000 two_runs first "b" 60).1
    ≡ some (record first { version = 5; lease_owner = some "b"; lease_expires_at = some 61000000 })
unfolding try_acquire_lease versioned_update update_where row
first_acquires = refl

lease_exclusive_example :
    let held = (try_acquire_lease 1000000 two_runs first "b" 60).0 in
    ((try_acquire_lease 61000000 held (record first { version = 5 }) "c" 60).1 ≡ none)
    × ((j : ℕ)
        → row j (try_acquire_lease 61000000 held (record first { version = 5 }) "c" 60).0
          ≡ row j held)
lease_exclusive_example =
    lease_exclusive 1000000 61000000 two_runs first (record first { version = 5 }) "b" "c" 60 60
      two_runs-IsKeyed refl (omega arith) first_acquires

heartbeat_no_conflict_example :
    let beaten = (renew_lease_by_id 2000000 two_runs 2 "a" 60).0 in
    (is_ok (checkpoint beaten second (some completed) []).1
      ≡ is_ok (checkpoint two_runs second (some completed) []).1)
    × (is_none (release_lease beaten second).1 ≡ is_none (release_lease two_runs second).1)
heartbeat_no_conflict_example =
    heartbeat_no_conflict 2000000 two_runs "a" 60 second (some completed) [] two_runs-IsKeyed

terminal_iff_final_example :
    (is_terminal completed ≡ true) ↔ ((t : RunStatus) → Reaches completed t → completed ≡ t)
terminal_iff_final_example = terminal_iff_final completed
