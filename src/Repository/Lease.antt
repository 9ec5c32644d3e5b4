-- ===== src/Repository/Lease.antt =====
-- The leases of harness/runtime/repository.py: who may hold a run, and for how long.
use mathlib.Core.Path.{subst}
use marcus.Prelude.{
  Option-cases, ℕ, ◌+◌, String, ◌≡◌, inl, inr, some, [], ◌∷◌, arith, List, Bool-cases, ◌==◌,
  ==-true, ◌≤◌, sym, ◌≢◌, Option, none, nat_eq, string_eq,
}
use marcus.Errors.{is_ok}
use marcus.Repository.{
  row, seconds, try_acquire_lease, unleased_or_expired, release_lease, renew_lease_by_id, is_none,
  checkpoint, no_extra,
}
use marcus.Repository.Cell.{
  compare_and_swap, IsKeyed, versioned_update-cell, versioned_update-others,
  versioned_update-IsKeyed, renew_lease_by_id-cell, renew_lease_by_id-IsKeyed, renewed,
}
use marcus.Repository.Fencing.{checkpoint-refines}
use marcus.Run.Row.{AgentRun, set_lease_expires_at, FieldUpdate, set_lease_owner}
use marcus.Run.Status.{RunStatus}

-- The row of run `k` has a lease of `owner` that ends at `until`.
pub record IsLeased (t : List AgentRun) (k : ℕ) (owner : String) (until : ℕ) : Type 0 where
  pub holder : AgentRun
  pub there : row k t ≡ some holder
  pub owner_is : holder.lease_owner ≡ some owner
  pub until_is : holder.lease_expires_at ≡ some until

abbrev pub lease_values : String → ℕ → List FieldUpdate
lease_values owner until = set_lease_owner (some owner) ∷ set_lease_expires_at (some until) ∷ []

module _ (now : ℕ) (t : List AgentRun) (run : AgentRun) (owner : String) (ttl : ℕ)
    (keyed : IsKeyed t) where
  pub try_acquire_lease-cell :
      (
        row run.id (try_acquire_lease now t run owner ttl).0,
        (try_acquire_lease now t run owner ttl).1,
      )
      ≡ compare_and_swap run.version
          (lease_values owner (now + seconds ttl))
          (unleased_or_expired now)
          (row run.id t)
  unfolding try_acquire_lease
  try_acquire_lease-cell =
      versioned_update-cell t run (lease_values owner (now + seconds ttl)) (unleased_or_expired now)
        keyed

  pub try_acquire_lease-others :
      (j : ℕ) → j ≢ run.id → row j (try_acquire_lease now t run owner ttl).0 ≡ row j t
  unfolding try_acquire_lease
  try_acquire_lease-others j ne =
      versioned_update-others t run (lease_values owner (now + seconds ttl))
        (unleased_or_expired now) j ne

  pub try_acquire_lease-IsKeyed : IsKeyed (try_acquire_lease now t run owner ttl).0
  unfolding try_acquire_lease
  try_acquire_lease-IsKeyed =
      versioned_update-IsKeyed t run (lease_values owner (now + seconds ttl))
        (unleased_or_expired now) keyed

  -- A worker that acquires a lease at `now` has it until `now` plus the time to live.
  acquired_lease :
      {run' : AgentRun}
      → (try_acquire_lease now t run owner ttl).1 ≡ some run'
      → IsLeased (try_acquire_lease now t run owner ttl).0 run.id owner (now + seconds ttl)
  acquired_lease {run'} got = elim (Option-cases (row run.id t)) [
    | inl missing ↦ absurd (ground (arith, try_acquire_lease-cell))
    | inr (r, found) ↦ record {
      holder = run';
      there = ground (arith, try_acquire_lease-cell);
      owner_is = ground (arith, try_acquire_lease-cell);
      until_is = ground (arith, try_acquire_lease-cell);
    }
  ]

  -- While a lease has not run out, nobody takes it, its own holder included.
  held_refuses :
      {other : String} {until : ℕ}
      → IsLeased t run.id other until
      → now ≤ until
      → ((try_acquire_lease now t run owner ttl).1 ≡ none)
        × (row run.id (try_acquire_lease now t run owner ttl).0 ≡ row run.id t)
  held_refuses held alive =
      ground (arith, try_acquire_lease-cell, held.there, held.owner_is, held.until_is)

-- One worker at a time: a worker acquires a run at `now`; then until `now + ttl` seconds every other
-- attempt, by any worker with any copy of the run and any time to live, gets nothing and leaves
-- every row as it was.
pub lease_exclusive :
    (now later : ℕ) (t : List AgentRun) (run copy : AgentRun) (a b : String) (ttl ttl' : ℕ)
    {run' : AgentRun}
    → IsKeyed t
    → copy.id ≡ run.id
    → later ≤ now + seconds ttl
    → (try_acquire_lease now t run a ttl).1 ≡ some run'
    → let leased = (try_acquire_lease now t run a ttl).0 in
      ((try_acquire_lease later leased copy b ttl').1 ≡ none)
      × ((j : ℕ) → row j (try_acquire_lease later leased copy b ttl').0 ≡ row j leased)
lease_exclusive now later t run copy a b ttl ttl' keyed same alive got = (refused.0, every)
  where
    leased : List AgentRun
    leased = (try_acquire_lease now t run a ttl).0

    keyed' : IsKeyed leased
    keyed' = try_acquire_lease-IsKeyed now t run a ttl keyed

    held : IsLeased leased copy.id a (now + seconds ttl)
    held =
        subst (λ k. IsLeased leased k a (now + seconds ttl)) (sym same)
          (acquired_lease now t run a ttl keyed got)

    refused :
        ((try_acquire_lease later leased copy b ttl').1 ≡ none)
        × (row copy.id (try_acquire_lease later leased copy b ttl').0 ≡ row copy.id leased)
    refused = held_refuses later leased copy b ttl' keyed' held alive

    every : (j : ℕ) → row j (try_acquire_lease later leased copy b ttl').0 ≡ row j leased
    every j = elim (Bool-cases (j == copy.id)) [
      | inl own ↦ let e = ==-true j copy.id own in rw e refused.1
      | inr other ↦ try_acquire_lease-others later leased copy b ttl' keyed' j (ground arith)
    ]

abbrev pub release_values : List FieldUpdate
release_values = set_lease_owner none ∷ set_lease_expires_at none ∷ []

pub release_lease-cell :
    (t : List AgentRun) (run : AgentRun)
    → IsKeyed t
    → (row run.id (release_lease t run).0, (release_lease t run).1)
      ≡ compare_and_swap run.version release_values no_extra (row run.id t)
unfolding release_lease
release_lease-cell t run keyed = versioned_update-cell t run release_values no_extra keyed

-- The heartbeat extends the lease of its owner and no other's, and does not take part in the version
-- fencing: a checkpoint or a release by any copy of the run succeeds after it exactly if it does
-- without it.
pub heartbeat_no_conflict :
    (now : ℕ) (t : List AgentRun) (owner : String) (ttl : ℕ) (run : AgentRun)
    (status : Option RunStatus) (updates : List FieldUpdate)
    → IsKeyed t
    → let beaten = (renew_lease_by_id now t run.id owner ttl).0 in
      (is_ok (checkpoint beaten run status updates).1 ≡ is_ok (checkpoint t run status updates).1)
      × (is_none (release_lease beaten run).1 ≡ is_none (release_lease t run).1)
heartbeat_no_conflict now t owner ttl run status updates keyed = (
  ground (
    arith,
    beat,
    checkpoint-refines t run status updates keyed,
    checkpoint-refines beaten run status updates keyed',
  ),
  ground (arith, beat, release_lease-cell t run keyed, release_lease-cell beaten run keyed'),
)
  where
    beaten : List AgentRun
    beaten = (renew_lease_by_id now t run.id owner ttl).0

    keyed' : IsKeyed beaten
    keyed' = renew_lease_by_id-IsKeyed now t run.id owner ttl keyed

    beat :
        (row run.id beaten, (renew_lease_by_id now t run.id owner ttl).1)
        ≡ renewed (now + seconds ttl) owner (row run.id t)
    beat = renew_lease_by_id-cell now t run.id owner ttl keyed
