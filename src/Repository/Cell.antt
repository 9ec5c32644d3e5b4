-- ===== src/Repository/Cell.antt =====
-- The table as a register for each run: an UPDATE gated on the version is a compare-and-swap.
use marcus.Prelude.{
  if◌then◌else◌, ◌==◌, ℕ, ◌≡◌, refl, Bool, ◌&&◌, Option, none, some, List, [], ◌∷◌, arith, nat_eq,
  string_eq, Bool-cases, inl, inr, ◌≢◌, ◌+◌, String, true, false,
}
use marcus.Repository.{
  update_where, row, bump, versioned_update, seconds, owned_by, renew_lease_by_id,
}
use marcus.Run.Row.{AgentRun, FieldUpdate, id-write_fields}

-- The primary key: no two rows have one id.
abbrev pub IsKeyed : List AgentRun → Type 0
IsKeyed [] = Unit
IsKeyed (r ∷ t) = (row r.id t ≡ none) × IsKeyed t

-- How many rows match a test that names the key.
abbrev pub hits : (AgentRun → Bool) → Option AgentRun → ℕ
hits c none = 0
hits c (some r) = if c r then 1 else 0

abbrev pub set_if : (AgentRun → Bool) → (AgentRun → AgentRun) → Option AgentRun → Option AgentRun
set_if c f none = none
set_if c f (some r) = some (if c r then f r else r)

module _ (k : ℕ) (c : AgentRun → Bool) (f : AgentRun → AgentRun)
    (keeps : (r : AgentRun) → (f r).id ≡ r.id) where
  abbrev pub keyed_update : List AgentRun → List AgentRun × ℕ
  keyed_update t = update_where (λ r. r.id == k && c r) f t

  pub row-update_where :
      (j : ℕ) (t : List AgentRun)
      → row j (keyed_update t).0 ≡ (if j == k then set_if c f (row j t) else row j t)
  unfolding row update_where
  row-update_where j [] = ground arith
  row-update_where j (r ∷ t) = ground (arith, row-update_where j t, keeps r)

  rowcount-missing : (t : List AgentRun) → row k t ≡ none → (keyed_update t).1 ≡ 0
  unfolding row update_where
  rowcount-missing [] h = refl
  rowcount-missing (r ∷ t) h = ground (arith, rowcount-missing t)

  pub rowcount-update_where :
      (t : List AgentRun) → IsKeyed t → (keyed_update t).1 ≡ hits c (row k t)
  unfolding row update_where
  rowcount-update_where [] h = refl
  rowcount-update_where (r ∷ t) h = ground (arith, rowcount-update_where t h.1, rowcount-missing t)

  still_missing : (j : ℕ) (t : List AgentRun) → row j t ≡ none → row j (keyed_update t).0 ≡ none
  still_missing j t h = rw row-update_where (ground arith)

  pub IsKeyed-update_where : (t : List AgentRun) → IsKeyed t → IsKeyed (keyed_update t).0
  unfolding update_where
  IsKeyed-update_where [] h = tt
  IsKeyed-update_where (r ∷ t) h = elim (Bool-cases (r.id == k && c r)) [
    | inl hit ↦ rw hit (rw keeps (still_missing r.id t h.0), IsKeyed-update_where t h.1)
    | inr miss ↦ rw miss (still_missing r.id t h.0, IsKeyed-update_where t h.1)
  ]

-- What a reader of one run sees of an UPDATE gated on the version: the new cell, and the result.
abbrev pub compare_and_swap :
    ℕ → List FieldUpdate → (AgentRun → Bool) → Option AgentRun → Option AgentRun × Option AgentRun
compare_and_swap expected values extra none = (none, none)
compare_and_swap expected values extra (some r) =
    if r.version == expected && extra r
    then (some (bump expected values r), some (bump expected values r))
    else (some r, none)

id-bump : (v : ℕ) (values : List FieldUpdate) (r : AgentRun) → (bump v values r).id ≡ r.id
id-bump v values r = id-write_fields r values

module _ (t : List AgentRun) (run : AgentRun) (values : List FieldUpdate)
    (extra : AgentRun → Bool) where
  abbrev gate : AgentRun → Bool
  gate r = r.version == run.version && extra r

  -- The refinement, at the run's own cell.
  pub versioned_update-cell :
      IsKeyed t
      → (
        row run.id (versioned_update t run values extra).0,
        (versioned_update t run values extra).1,
      )
        ≡ compare_and_swap run.version values extra (row run.id t)
  unfolding versioned_update
  versioned_update-cell h = ground (
    arith,
    row-update_where run.id gate (bump run.version values) (id-bump run.version values) run.id t,
    rowcount-update_where run.id gate (bump run.version values) (id-bump run.version values) t h,
  )

  -- Other runs are left alone, and the key stays a key.
  pub versioned_update-others :
      (j : ℕ) → j ≢ run.id → row j (versioned_update t run values extra).0 ≡ row j t
  unfolding versioned_update
  versioned_update-others j ne = ground (
    arith,
    row-update_where run.id gate (bump run.version values) (id-bump run.version values) j t,
  )

  pub versioned_update-IsKeyed : IsKeyed t → IsKeyed (versioned_update t run values extra).0
  unfolding versioned_update
  versioned_update-IsKeyed h = ground (
    arith,
    IsKeyed-update_where run.id gate (bump run.version values) (id-bump run.version values) t h,
  )

-- The heartbeat's UPDATE at a reader's cell: only the deadline moves, and only for the owner.
abbrev pub renewed : ℕ → String → Option AgentRun → Option AgentRun × Bool
renewed until owner none = (none, false)
renewed until owner (some r) =
    if owned_by owner r
    then (some (record r { lease_expires_at = some until }), true)
    else (some r, false)

module _ (now : ℕ) (t : List AgentRun) (k : ℕ) (owner : String) (ttl : ℕ) where
  abbrev extend : AgentRun → AgentRun
  extend r = record r { lease_expires_at = some (now + seconds ttl) }

  pub renew_lease_by_id-cell :
      IsKeyed t
      → (row k (renew_lease_by_id now t k owner ttl).0, (renew_lease_by_id now t k owner ttl).1)
        ≡ renewed (now + seconds ttl) owner (row k t)
  unfolding renew_lease_by_id
  renew_lease_by_id-cell h = ground (
    arith,
    row-update_where k (owned_by owner) extend (λ r. refl) k t,
    rowcount-update_where k (owned_by owner) extend (λ r. refl) t h,
  )

  pub renew_lease_by_id-others :
      (j : ℕ) → j ≢ k → row j (renew_lease_by_id now t k owner ttl).0 ≡ row j t
  unfolding renew_lease_by_id
  renew_lease_by_id-others j ne =
      ground (arith, row-update_where k (owned_by owner) extend (λ r. refl) j t)

  pub renew_lease_by_id-IsKeyed : IsKeyed t → IsKeyed (renew_lease_by_id now t k owner ttl).0
  unfolding renew_lease_by_id
  renew_lease_by_id-IsKeyed h = IsKeyed-update_where k (owned_by owner) extend (λ r. refl) t h
