-- ===== src/Engine/Saved.antt =====
-- What a checkpoint of the engine comes to while no one else writes the row of its run.
use mathlib.Core.Path.{subst}
use marcus.Prelude.{
  nat_beq_iff, ◌≡◌, sym, Bool, true, false, Option, some, List, arith, if◌then◌else◌,
}
use marcus.Engine.State.{save_run, Work, saved}
use marcus.Errors.{
  stale_run, bad_id, llm_error, err, and_then, run_not_found, ok, invalid_transition, Result,
  Failure, model_raised, plain_status,
}
use marcus.Repository.{row, checkpoint, bump}
use marcus.Repository.Cell.{IsKeyed}
use marcus.Repository.Fencing.{admits, checkpoint-refines, written, checkpoint-IsKeyed}
use marcus.Run.Row.{FieldUpdate, AgentRun, id-write_fields}
use marcus.Run.Status.{RunStatus}

-- An exception that the engine lets through: an `LLMError` of the model, which it catches but while it
-- compacts, another exception of the model, an id that is none, or an approval's status that is a
-- plain text.
abbrev pub is_external : Failure → Bool
is_external (llm_error message) = true
is_external (model_raised message) = true
is_external plain_status = true
is_external (bad_id s) = true
is_external invalid_transition = false
is_external stale_run = false
is_external run_not_found = false

-- What is so of the value that a method returns; an exception has to be one that the engine lets
-- through.
abbrev pub Returning : {V : Type 0} → (V → Type 0) → Result V → Type 0
Returning Good (ok value) = Good value
Returning Good (err failure) = is_external failure ≡ true

pub Returning-and_then :
    {U V : Type 0} (Before : U → Type 0) (After : V → Type 0) (first : Result U)
    (second : U → Result V)
    → Returning Before first
    → ((value : U) → Before value → Returning After (second value))
    → Returning After (and_then first second)
Returning-and_then Before After (ok value) second holds rest = rest value holds
Returning-and_then Before After (err failure) second holds rest = holds

pub Returning-map :
    {A : Type 0} (P Q : A → Type 0) (r : Result A)
    → Returning P r
    → ((a : A) → P a → Q a)
    → Returning Q r
Returning-map P Q (ok a) h k = k a h
Returning-map P Q (err e) h k = h

pub Returning-if :
    {A : Type 0} (P : A → Type 0) (b : Bool) (x y : Result A)
    → Returning P x
    → Returning P y
    → Returning P (if b then x else y)
Returning-if P true x y h k = h
Returning-if P false x y h k = k

-- The run in memory is the row of the table, whose ids are distinct.
pub record IsSynced (w : Work) : Type 0 where
  pub keyed : IsKeyed w.db.runs
  pub current : row w.run.id w.db.runs ≡ some w.run

abbrev pub new_row : Work → Option RunStatus → List FieldUpdate → AgentRun
new_row w status updates = bump w.run.version (written status updates) w.run

abbrev pub Saved : Work → AgentRun → Work → Type 0
Saved w r w' = IsSynced w' × (w'.run ≡ r)

saved-Saved :
    (w : Work) (r : AgentRun) (c : List AgentRun × Result AgentRun)
    → IsKeyed c.0
    → c.1 ≡ ok r
    → row r.id c.0 ≡ some r
    → Returning (Saved w r) (saved w c)
saved-Saved w r (t, err e) keyed h found = cc
saved-Saved w r (t, ok r') keyed h found =
    let same : r' ≡ r = cc in
    (record { keyed = keyed; current = subst (λ x. row x.id t ≡ some x) (sym same) found }, same)

checkpoint-current :
    (w : Work) (status : Option RunStatus) (updates : List FieldUpdate)
    → IsSynced w
    → admits w.run status ≡ true
    → (row w.run.id (checkpoint w.db.runs w.run status updates).0 ≡ some (new_row w status updates))
      × ((checkpoint w.db.runs w.run status updates).1 ≡ ok (new_row w status updates))
checkpoint-current w status updates s valid = ground (
  arith,
  checkpoint-refines w.db.runs w.run status updates s.keyed,
  s.current,
  valid,
  nat_beq_iff w.run.version w.run.version,
)

pub save_run-Saved :
    (w : Work) (status : Option RunStatus) (updates : List FieldUpdate)
    → IsSynced w
    → admits w.run status ≡ true
    → Returning (Saved w (new_row w status updates)) (save_run w status updates)
unfolding save_run
save_run-Saved w status updates s valid =
    let spec = checkpoint-current w status updates s valid in
    saved-Saved w (new_row w status updates) (checkpoint w.db.runs w.run status updates)
      (checkpoint-IsKeyed w.db.runs w.run status updates s.keyed) spec.1
      (subst
        (λ k. row k (checkpoint w.db.runs w.run status updates).0 ≡ some (new_row w status updates))
        (sym (id-write_fields w.run (written status updates))) spec.0)
