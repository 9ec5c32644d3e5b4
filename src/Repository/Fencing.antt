-- ===== src/Repository/Fencing.antt =====
-- `checkpoint` of harness/runtime/repository.py: what it promises about one run, on every branch, and
-- that of two workers which read the same version only one can write.
use mathlib.Core.Path.{subst}
use marcus.Prelude.{
  if◌then◌else◌, ◌==◌, ℕ, ◌≡◌, ◌≢◌, Option, none, some, List, [], ◌∷◌, ◌++◌, arith, nat_eq, Bool,
  true, nat_beq_iff, Option-cases, Bool-cases, ==-true, ◌+◌, sym, ◌∙◌, inl, inr,
}
use marcus.Errors.{invalid_transition, err, ok, Result, stale_run}
use marcus.Repository.{bump, no_extra, checkpoint, row}
use marcus.Repository.Cell.{
  versioned_update-others, versioned_update-IsKeyed, versioned_update-cell, IsKeyed,
}
use marcus.Run.Row.{set_status, FieldUpdate, AgentRun}
use marcus.Run.Status.{RunStatus, is_valid_transition}

-- Whether the state machine lets the caller's run take the status asked for, and what is written.
abbrev pub admits : AgentRun → Option RunStatus → Bool
admits run none = true
admits run (some s) = is_valid_transition run.status s

abbrev pub written : Option RunStatus → List FieldUpdate → List FieldUpdate
written none updates = updates
written (some s) updates = updates ++ set_status s ∷ []

-- A checkpoint as its run's readers see it: the new cell, and the result.
abbrev pub checkpoint_cell :
    AgentRun
    → Option RunStatus
    → List FieldUpdate
    → Option AgentRun
    → Option AgentRun × Result AgentRun
checkpoint_cell run status updates none =
    (none, if admits run status then err stale_run else err invalid_transition)
checkpoint_cell run status updates (some r) =
    let new = bump run.version (written status updates) r in
    if admits run status
    then (if r.version == run.version then (some new, ok new) else (some r, err stale_run))
    else (some r, err invalid_transition)

-- Seen at the run that it writes, a checkpoint is the abstract one, on every branch: an invalid
-- transition or a stale version is refused and changes nothing, and else the new row is the stored
-- one with the updates, the status and the next version, whatever the caller's copy of it holds.
pub checkpoint-refines :
    (t : List AgentRun) (run : AgentRun) (status : Option RunStatus) (updates : List FieldUpdate)
    → IsKeyed t
    → (row run.id (checkpoint t run status updates).0, (checkpoint t run status updates).1)
      ≡ checkpoint_cell run status updates (row run.id t)
unfolding checkpoint is_valid_transition
checkpoint-refines t run none updates h =
    ground (arith, versioned_update-cell t run updates no_extra h)
checkpoint-refines t run (some s) updates h =
    ground (arith, versioned_update-cell t run (updates ++ set_status s ∷ []) no_extra h)

-- A checkpoint writes no row but its run's, and keeps the ids distinct.
pub checkpoint-others :
    (t : List AgentRun) (run : AgentRun) (status : Option RunStatus) (updates : List FieldUpdate)
    (j : ℕ)
    → j ≢ run.id
    → row j (checkpoint t run status updates).0 ≡ row j t
unfolding checkpoint
checkpoint-others t run none updates j ne =
    ground (arith, versioned_update-others t run updates no_extra j)
checkpoint-others t run (some s) updates j ne =
    ground (arith, versioned_update-others t run (updates ++ set_status s ∷ []) no_extra j)

pub checkpoint-IsKeyed :
    (t : List AgentRun) (run : AgentRun) (status : Option RunStatus) (updates : List FieldUpdate)
    → IsKeyed t
    → IsKeyed (checkpoint t run status updates).0
unfolding checkpoint
checkpoint-IsKeyed t run none updates h =
    ground (arith, versioned_update-IsKeyed t run updates no_extra h)
checkpoint-IsKeyed t run (some s) updates h =
    ground (arith, versioned_update-IsKeyed t run (updates ++ set_status s ∷ []) no_extra h)

-- A successful checkpoint leaves the next version in its run's row.
pub checkpoint_moves_version :
    (t : List AgentRun) (a : AgentRun) (s : Option RunStatus) (xs : List FieldUpdate)
    {a' : AgentRun}
    → IsKeyed t
    → (checkpoint t a s xs).1 ≡ ok a'
    → (row a.id (checkpoint t a s xs).0 ≡ some a') × (a'.version ≡ a.version + 1)
checkpoint_moves_version t a s xs h saved = elim (Option-cases (row a.id t)) [
  | inl missing ↦ ground (arith, checkpoint-refines t a s xs h)
  | inr (r, found) ↦ ground (arith, checkpoint-refines t a s xs h)
]

stale_refused :
    (t : List AgentRun) (b r : AgentRun) (u : Option RunStatus) (ys : List FieldUpdate)
    → IsKeyed t
    → row b.id t ≡ some r
    → r.version ≢ b.version
    → admits b u ≡ true
    → (row b.id (checkpoint t b u ys).0 ≡ some r) × ((checkpoint t b u ys).1 ≡ err stale_run)
stale_refused t b r u ys h found moved valid =
    ground (arith, checkpoint-refines t b u ys h, nat_beq_iff r.version b.version)

-- Two workers hold the same run, read at the same version. If the checkpoint of one succeeds, that
-- of the other, which the state machine would admit, raises `StaleRunError` and changes no row.
pub no_lost_update :
    (t : List AgentRun) (a b : AgentRun) (s u : Option RunStatus) (xs ys : List FieldUpdate)
    {a' : AgentRun}
    → IsKeyed t
    → a.id ≡ b.id
    → a.version ≡ b.version
    → admits b u ≡ true
    → (checkpoint t a s xs).1 ≡ ok a'
    → let after = (checkpoint t a s xs).0 in
      ((checkpoint after b u ys).1 ≡ err stale_run)
      × ((j : ℕ) → row j (checkpoint after b u ys).0 ≡ row j after)
no_lost_update t a b s u xs ys {a'} h same_id same_version valid saved = (
  refused.1,
  λ j. elim (Bool-cases (j == b.id)) [
    | inl own ↦ let e = ==-true j b.id own in rw e (refused.0 ∙ sym there)
    | inr other ↦ checkpoint-others after b u ys j (ground arith)
  ],
)
  where
    after : List AgentRun
    after = (checkpoint t a s xs).0

    moved : (row a.id after ≡ some a') × (a'.version ≡ a.version + 1)
    moved = checkpoint_moves_version t a s xs h saved

    there : row b.id after ≡ some a'
    there = subst (λ k. row k after ≡ some a') same_id moved.0

    refused :
        (row b.id (checkpoint after b u ys).0 ≡ some a')
        × ((checkpoint after b u ys).1 ≡ err stale_run)
    refused =
        stale_refused after b a' u ys (checkpoint-IsKeyed t a s xs h) there (omega (arith, moved.1))
          valid
