-- ===== src/Reaper/Released.antt =====
-- The release of one stale run's lease by harness/runtime/reaper.py, as the loop meets it.
use marcus.Prelude.{
  nat_beq_iff, All, ℕ, ◌≡◌, ◌≢◌, Option, none, some, List, [], ◌∷◌, arith, ◌∙◌, nat_eq, ◌+◌,
}
use marcus.Reaper.{reap_each}
use marcus.Repository.{no_extra, bump, release_lease, row}
use marcus.Repository.Cell.{IsKeyed, versioned_update-IsKeyed, versioned_update-others}
use marcus.Repository.Lease.{release_lease-cell, release_values}
use marcus.Run.Row.{AgentRun}

-- The row of a run after its lease is cleared.
abbrev pub cleared : AgentRun → AgentRun
cleared r = bump r.version release_values r

abbrev pub reaped_row : Option AgentRun → Option AgentRun → Option AgentRun
reaped_row none now_there = now_there
reaped_row (some m) now_there = some (cleared m)

-- The rows that the loop has yet to release are still as the SELECT returned them.
abbrev pub AllThere : List AgentRun → List AgentRun → Type 0
AllThere stale t = All (λ m. row m.id t ≡ some m) stale

pub release_own :
    (t : List AgentRun) (m : AgentRun)
    → IsKeyed t
    → row m.id t ≡ some m
    → (row m.id (release_lease t m).0 ≡ some (cleared m))
      × ((release_lease t m).1 ≡ some (cleared m))
release_own t m keyed there =
    ground (arith, release_lease-cell t m keyed, nat_beq_iff m.version m.version)

pub release_others :
    (t : List AgentRun) (m : AgentRun) (j : ℕ) → j ≢ m.id → row j (release_lease t m).0 ≡ row j t
unfolding release_lease
release_others t m j ne = versioned_update-others t m release_values no_extra j ne

pub release-IsKeyed : (t : List AgentRun) (m : AgentRun) → IsKeyed t → IsKeyed (release_lease t m).0
unfolding release_lease
release-IsKeyed t m keyed = versioned_update-IsKeyed t m release_values no_extra keyed

pub row_apart :
    (j : ℕ) (x : AgentRun) (t : List AgentRun)
    → row j (x ∷ t) ≡ none
    → (x.id ≢ j) × (row j t ≡ none)
unfolding row
row_apart j x t h = ground (arith, nat_beq_iff x.id j)

pub AllThere-release :
    (t : List AgentRun) (m : AgentRun) (stale : List AgentRun)
    → row m.id stale ≡ none
    → AllThere stale t
    → AllThere stale (release_lease t m).0
AllThere-release t m [] apart there = tt
AllThere-release t m (x ∷ stale) apart there =
    let (differs, rest) = row_apart m.id x stale apart in
    (release_others t m x.id differs ∙ there.0, AllThere-release t m stale rest there.1)

pub row_hit : (j : ℕ) (m : AgentRun) (t : List AgentRun) → m.id ≡ j → row j (m ∷ t) ≡ some m
unfolding row
row_hit j m t e = ground arith

pub row_miss : (j : ℕ) (m : AgentRun) (t : List AgentRun) → m.id ≢ j → row j (m ∷ t) ≡ row j t
unfolding row
row_miss j m t ne = ground arith

pub reap_cons :
    (m m' : AgentRun) (stale t : List AgentRun)
    → (release_lease t m).1 ≡ some m'
    → let rest = reap_each stale (release_lease t m).0 in
      let all = reap_each (m ∷ stale) t in
      (all.table ≡ rest.table)
      × (all.requeued ≡ m' ∷ rest.requeued)
      × (all.reaped ≡ rest.reaped + 1)
unfolding reap_each
reap_cons m m' stale t e = ground arith
