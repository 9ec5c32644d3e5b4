-- ===== src/Repository/History.antt =====
-- Workers, reapers and request handlers run concurrently, each with its own copies of runs. A world
-- is the table with every copy that was ever read; a step is one call of a repository method, with
-- any of the copies, however old.
pub mod Safety
use mathlib.Core.List.{Memᴰ}
use mathlib.Core.Path.{subst}
use marcus.Prelude.{
  ℕ, ◌≤◌, String, ◌≡◌, refl, ◌∙◌, Bool, true, false, Option, some, List, [], ◌∷◌, ◌++◌, arith,
  Bool-cases, ◌==◌, ==-true, sym, inl, inr, ◌&&◌, none, nat_eq, string_eq,
}
use marcus.Repository.{
  try_acquire_lease, renew_lease_by_id, release_lease, row, checkpoint, bump, versioned_update,
}
use marcus.Repository.Cell.{
  IsKeyed, versioned_update-IsKeyed, versioned_update-others, versioned_update-cell,
}
use marcus.Run.Row.{AgentRun, write_field, FieldUpdate, set_status, write_fields}
use marcus.Run.Status.{RunStatus, is_valid_transition}

-- Callers give a status through the argument of that name, never among the other fields.
abbrev pub without_status : List FieldUpdate → Bool
without_status [] = true
without_status (set_status s ∷ us) = false
without_status (u ∷ us) = without_status us

pub record World : Type 0 where
  pub table : List AgentRun
  pub held : List AgentRun

pub data Step (w : World) : World → Type 0 where
  read :
      (k : ℕ) (r : AgentRun)
      → row k w.table ≡ some r
      → Step w (record { table = w.table; held = r ∷ w.held })
  save :
      (m : AgentRun) (s : Option RunStatus) (us : List FieldUpdate)
      → Memᴰ m w.held
      → without_status us ≡ true
      → Step w (record { table = (checkpoint w.table m s us).0; held = w.held })
  acquire :
      (now : ℕ) (m : AgentRun) (owner : String) (ttl : ℕ)
      → Memᴰ m w.held
      → Step w (record { table = (try_acquire_lease now w.table m owner ttl).0; held = w.held })
  renew :
      (now k : ℕ) (owner : String) (ttl : ℕ)
      → Step w (record { table = (renew_lease_by_id now w.table k owner ttl).0; held = w.held })
  release :
      (m : AgentRun)
      → Memᴰ m w.held
      → Step w (record { table = (release_lease w.table m).0; held = w.held })

pub data Run (w : World) : World → Type 0 where
  here : Run w w
  next : {u v : World} → Run w u → Step u v → Run w v

-- A copy is no newer than its row, and one that is as new has the row's status.
abbrev pub Agrees : AgentRun → AgentRun → Type 0
Agrees m r = (m.version ≤ r.version) × (m.version ≡ r.version → m.status ≡ r.status)

pub record IsCoherent (w : World) : Type 0 where
  pub keyed : IsKeyed w.table
  pub agrees : (m r : AgentRun) → Memᴰ m w.held → row m.id w.table ≡ some r → Agrees m r

-- What a step may do to one row.
pub record Moves (r r' : AgentRun) : Type 0 where
  pub valid : is_valid_transition r.status r'.status ≡ true
  pub grows : r.version ≤ r'.version
  pub fenced : r.version ≡ r'.version → r.status ≡ r'.status

pub stays_valid : (s : RunStatus) → is_valid_transition s s ≡ true
unfolding is_valid_transition
stays_valid s = ground arith

pub Moves-refl : (r : AgentRun) → Moves r r
Moves-refl r = record { valid = stays_valid r.status; grows = omega arith; fenced = λ e. refl }

status-write_field :
    (r : AgentRun) (u : FieldUpdate) (us : List FieldUpdate)
    → without_status (u ∷ us) ≡ true
    → ((write_field r u).status ≡ r.status) × (without_status us ≡ true)
status-write_field r (set_status s) us h = cc
status-write_field r _ us h = (refl, h)

pub status-write_fields :
    (r : AgentRun) (us : List FieldUpdate)
    → without_status us ≡ true
    → (write_fields r us).status ≡ r.status
status-write_fields r [] h = refl
status-write_fields r (u ∷ us) h =
    let (same, rest) = status-write_field r u us h in
    status-write_fields (write_field r u) us rest ∙ same

pub status-written :
    (r : AgentRun) (us : List FieldUpdate) (s : RunStatus)
    → (write_fields r (us ++ set_status s ∷ [])).status ≡ s
status-written r [] s = refl
status-written r (u ∷ us) s = status-written (write_field r u) us s

-- What a step may do to the table: no row comes or goes, and each moves as `Moves` says.
pub record TableMoves (t t' : List AgentRun) : Type 0 where
  pub keyed : IsKeyed t'
  pub gone : (k : ℕ) → row k t ≡ none → row k t' ≡ none
  pub moved :
      (k : ℕ) (r : AgentRun)
      → row k t ≡ some r
      → (r' : AgentRun) × (row k t' ≡ some r') × Moves r r'

pub TableMoves-refl : {t : List AgentRun} → IsKeyed t → TableMoves t t
TableMoves-refl h = record { keyed = h; gone = λ k e. e; moved = λ k r e. (r, e, Moves-refl r) }

-- The updates keep the state machine's rule, written over a row with the status of the copy `m`.
abbrev pub Lawful : AgentRun → List FieldUpdate → Type 0
Lawful m values =
    (r : AgentRun)
    → m.status ≡ r.status
    → is_valid_transition r.status (write_fields r values).status ≡ true

module _ (t : List AgentRun) (m : AgentRun) (values : List FieldUpdate) (extra : AgentRun → Bool)
    (keyed : IsKeyed t) (agrees : (r : AgentRun) → row m.id t ≡ some r → Agrees m r)
    (lawful : Lawful m values) where
  bump-Moves :
      (r : AgentRun)
      → row m.id t ≡ some r
      → r.version ≡ m.version
      → Moves r (bump m.version values r)
  bump-Moves r found same = record {
    valid = lawful r ((agrees r found).1 (sym same));
    grows = omega arith;
    fenced = λ e. absurd (omega (arith, e, same));
  }

  own_row :
      (r : AgentRun)
      → row m.id t ≡ some r
      → (r' : AgentRun) × (row m.id (versioned_update t m values extra).0 ≡ some r') × Moves r r'
  own_row r found = elim (Bool-cases (r.version == m.version && extra r)) [
    | inl hit ↦ (
      bump m.version values r,
      ground (arith, versioned_update-cell t m values extra keyed),
      bump-Moves r found (ground arith),
    )
    | inr miss ↦ (r, ground (arith, versioned_update-cell t m values extra keyed), Moves-refl r)
  ]

  pub versioned_update-TableMoves : TableMoves t (versioned_update t m values extra).0
  versioned_update-TableMoves = record {
    keyed = versioned_update-IsKeyed t m values extra keyed;
    gone = λ k none_there. elim (Bool-cases (k == m.id)) [
      | inl own ↦
          let e = ==-true k m.id own in
          ground (arith, versioned_update-cell t m values extra keyed, none_there, e)
      | inr other ↦ versioned_update-others t m values extra k (ground arith) ∙ none_there
    ];
    moved = λ k r found. elim (Bool-cases (k == m.id)) [
      | inl own ↦
          let e = ==-true k m.id own in
          subst
            (λ j.
              row j t ≡ some r
              → (r' : AgentRun) × (row j (versioned_update t m values extra).0 ≡ some r')
                × Moves r r')
            (sym e) (own_row r) found
      | inr other ↦
          (r, versioned_update-others t m values extra k (ground arith) ∙ found, Moves-refl r)
    ];
  }
