-- ===== src/Repository/History/Safety.antt =====
-- Whatever the interleaving, the statuses of a run follow the state machine, and the version that a
-- checkpoint is gated on never goes back.
use mathlib.Core.List.{Memᴰ}
use mathlib.Core.Path.{subst}
use marcus.Prelude.{
  Bool-cases, Option-cases, ==-true, ◌==◌, ℕ, ◌+◌, String, ◌≡◌, refl, sym, ◌∙◌, inl, inr, true,
  Option, none, some, List, [], ◌∷◌, ◌++◌, arith, nat_eq, string_eq, ◌≤◌, ap,
}
use marcus.Repository.{
  row, no_extra, checkpoint, release_lease, seconds, try_acquire_lease, owned_by,
  unleased_or_expired, renew_lease_by_id,
}
use marcus.Repository.Cell.{
  renew_lease_by_id-cell, renew_lease_by_id-others, IsKeyed, renew_lease_by_id-IsKeyed,
}
use marcus.Repository.History.{
  here, next, acquire, save, World, renew, Moves, TableMoves, release, Step, without_status,
  IsCoherent, read, Agrees, stays_valid, status-write_fields, Moves-refl,
  versioned_update-TableMoves, status-written, TableMoves-refl, Run,
}
use marcus.Repository.Lease.{release_values, lease_values}
use marcus.Run.Lifecycle.{Reaches, terminal_iff_final}
use marcus.Run.Row.{AgentRun, FieldUpdate, set_status}
use marcus.Run.Status.{RunStatus, is_valid_transition, is_terminal}

checkpoint-TableMoves :
    (t : List AgentRun) (m : AgentRun) (s : Option RunStatus) (us : List FieldUpdate)
    → IsKeyed t
    → ((r : AgentRun) → row m.id t ≡ some r → Agrees m r)
    → without_status us ≡ true
    → TableMoves t (checkpoint t m s us).0
unfolding checkpoint
checkpoint-TableMoves t m none us keyed agrees plain = subst (TableMoves t) (ground arith) (
    versioned_update-TableMoves t m us no_extra keyed agrees
      (λ r same. rw (status-write_fields r us plain) (stays_valid r.status)))
checkpoint-TableMoves t m (some s) us keyed agrees plain =
    elim (Bool-cases (is_valid_transition m.status s)) [
      | inl admitted ↦ subst (TableMoves t) (ground arith) (
          versioned_update-TableMoves t m (us ++ set_status s ∷ []) no_extra keyed agrees (λ r same.
            rw (status-written r us s) (subst (λ x. is_valid_transition x s ≡ true) same admitted)))
      | inr refused ↦ rw refused (TableMoves-refl keyed)
    ]

renew-TableMoves :
    (now : ℕ) (t : List AgentRun) (k : ℕ) (owner : String) (ttl : ℕ)
    → IsKeyed t
    → TableMoves t (renew_lease_by_id now t k owner ttl).0
renew-TableMoves now t k owner ttl keyed = record {
  keyed = renew_lease_by_id-IsKeyed now t k owner ttl keyed;
  gone = λ j missing. elim (Bool-cases (j == k)) [
    | inl own ↦
        let e = ==-true j k own in
        ground (arith, renew_lease_by_id-cell now t k owner ttl keyed, missing, e)
    | inr other ↦ renew_lease_by_id-others now t k owner ttl j (ground arith) ∙ missing
  ];
  moved = λ j r found. elim (Bool-cases (j == k)) [
    | inl own ↦
        let e = ==-true j k own in
        subst
          (λ i.
            row i t ≡ some r
            → (r' : AgentRun) × (row i (renew_lease_by_id now t k owner ttl).0 ≡ some r')
              × Moves r r')
          (sym e) (own_row r) found
    | inr other ↦
        (r, renew_lease_by_id-others now t k owner ttl j (ground arith) ∙ found, Moves-refl r)
  ];
}
  where
    own_row :
        (r : AgentRun)
        → row k t ≡ some r
        → (r' : AgentRun) × (row k (renew_lease_by_id now t k owner ttl).0 ≡ some r') × Moves r r'
    own_row r found = elim (Bool-cases (owned_by owner r)) [
      | inl hit ↦ (
        record r { lease_expires_at = some (now + seconds ttl) },
        ground (arith, renew_lease_by_id-cell now t k owner ttl keyed),
        record { valid = stays_valid r.status; grows = omega arith; fenced = λ e. refl },
      )
      | inr miss ↦ (r, ground (arith, renew_lease_by_id-cell now t k owner ttl keyed), Moves-refl r)
    ]

Step-TableMoves : {w w' : World} → IsCoherent w → Step w w' → TableMoves w.table w'.table
unfolding try_acquire_lease release_lease
Step-TableMoves c (read k r found) = TableMoves-refl c.keyed
Step-TableMoves {w} c (save m s us held plain) =
    checkpoint-TableMoves w.table m s us c.keyed (λ r found. c.agrees m r held found) plain
Step-TableMoves {w} c (acquire now m owner ttl held) =
    versioned_update-TableMoves w.table m (lease_values owner (now + seconds ttl))
      (unleased_or_expired now) c.keyed (λ r found. c.agrees m r held found)
      (λ r same. stays_valid r.status)
Step-TableMoves {w} c (renew now k owner ttl) = renew-TableMoves now w.table k owner ttl c.keyed
Step-TableMoves {w} c (release m held) =
    versioned_update-TableMoves w.table m release_values no_extra c.keyed
      (λ r found. c.agrees m r held found) (λ r same. stays_valid r.status)

Agrees-Moves : (m r r' : AgentRun) → Agrees m r → Moves r r' → Agrees m r'
Agrees-Moves m r r' a v = (omega arith, λ e. a.1 (omega (arith, e)) ∙ v.fenced (omega (arith, e)))

still-Agrees :
    {t t' : List AgentRun} (m r' : AgentRun)
    → TableMoves t t'
    → ((r : AgentRun) → row m.id t ≡ some r → Agrees m r)
    → row m.id t' ≡ some r'
    → Agrees m r'
still-Agrees {t} {t'} m r' moves agrees found = elim (Option-cases (row m.id t)) [
  | inl missing ↦ absurd (ground (arith, moves.gone m.id missing))
  | inr (r, there) ↦
      let (r2, there2, v) = moves.moved m.id r there in
      let same : r2 ≡ r' = ground arith in
      Agrees-Moves m r r' (agrees r there) (subst (Moves r) same v)
]

pub id-row : (k : ℕ) (r : AgentRun) (t : List AgentRun) → row k t ≡ some r → r.id ≡ k
unfolding row
id-row k r [] h = cc
id-row k r (x ∷ t) h = ground (arith, id-row k r t)

Step-Agrees :
    {w w' : World}
    → IsCoherent w
    → Step w w'
    → (m r : AgentRun) → Memᴰ m w'.held
    → row m.id w'.table ≡ some r
    → Agrees m r
Step-Agrees {w} c (read k r0 there) m r (Memᴰ.head e) found =
    let at_k : row m.id w.table ≡ some r0 =
      subst (λ j. row j w.table ≡ some r0)
        (sym (id-row k r0 w.table there) ∙ ap (λ x. x.id) (sym e)) there in
    let same : m ≡ r = ground arith in subst (Agrees m) same (omega arith, λ v. refl)
Step-Agrees c (read k r0 there) m r (Memᴰ.tail mem) found = c.agrees m r mem found
Step-Agrees c (save m2 s us held plain) m r mem found =
    still-Agrees m r (Step-TableMoves c (save m2 s us held plain)) (λ x. c.agrees m x mem) found
Step-Agrees c (acquire now m2 owner ttl held) m r mem found =
    still-Agrees m r (Step-TableMoves c (acquire now m2 owner ttl held)) (λ x. c.agrees m x mem)
      found
Step-Agrees c (renew now k owner ttl) m r mem found =
    still-Agrees m r (Step-TableMoves c (renew now k owner ttl)) (λ x. c.agrees m x mem) found
Step-Agrees c (release m2 held) m r mem found =
    still-Agrees m r (Step-TableMoves c (release m2 held)) (λ x. c.agrees m x mem) found

-- Every repository call, on every branch, keeps the copies coherent with the table.
pub Step-IsCoherent : {w w' : World} → IsCoherent w → Step w w' → IsCoherent w'
Step-IsCoherent c st = record { keyed = (Step-TableMoves c st).keyed; agrees = Step-Agrees c st }

Run-IsCoherent : {w v : World} → IsCoherent w → Run w v → IsCoherent v
Run-IsCoherent c here = c
Run-IsCoherent c (next steps st) = Step-IsCoherent (Run-IsCoherent c steps) st

Reaches-snoc : {s t u : RunStatus} → Reaches s t → is_valid_transition t u ≡ true → Reaches s u
Reaches-snoc Reaches.here v = Reaches.next v Reaches.here
Reaches-snoc (Reaches.next v r) v' = Reaches.next v (Reaches-snoc r v')

-- Whatever the workers do, in whatever order and with however old copies, a run that is in the table
-- stays there, its version does not fall, and its status has moved by transitions of the state
-- machine only; so a run that was in a terminal status is still in it.
pub history_safe :
    {w v : World}
    → IsCoherent w
    → Run w v
    → (k : ℕ) (r : AgentRun) → row k w.table ≡ some r
    → (r' : AgentRun) × (row k v.table ≡ some r')
      × (r.version ≤ r'.version)
      × Reaches r.status r'.status
      × (is_terminal r.status ≡ true → r.status ≡ r'.status)
history_safe c here k r found = (r, found, omega arith, Reaches.here, λ h. refl)
history_safe c (next steps st) k r found =
    let (r1, there, grown, way, ends) = history_safe c steps k r found in
    let (r2, there2, moves) = (Step-TableMoves (Run-IsCoherent c steps) st).moved k r1 there in
    let way2 = Reaches-snoc way moves.valid in
    (
      r2,
      there2,
      omega (arith, grown, moves.grows),
      way2,
      λ h. (terminal_iff_final r.status).0 h r2.status way2,
    )
