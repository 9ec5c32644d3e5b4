-- ===== src/Coding/Tracker.antt =====
-- marcus_code/runtime/todo_tracker.py: where the agent is in its workflow.
use marcus.Prelude.{
  if◌then◌else◌, leb, ◌==◌, ℕ, ◌≤◌, String, ◌≡◌, refl, ◌↔◌, Bool, true, false, not, ◌&&◌, List, [],
  ◌∷◌, ◌++◌, arith, nat_eq, string_eq, Bool-cases, inl, inr,
}

pub data Phase : Type 0 where
  receive analyze plan implement validate deliver : Phase

-- The place in `list(Phase)`.
abbrev pub index : Phase → ℕ
index receive = 0
index analyze = 1
index plan = 2
index implement = 3
index validate = 4
index deliver = 5

pub record TodoTracker : Type 0 where
  pub current : Phase
  pub steps : List (Phase × String)
  pub finished : Bool

abbrev pub same_phase : Phase → Phase → Bool
same_phase a b = index a == index b

unfoldable pub advance : TodoTracker → Phase → String → TodoTracker
advance t phase note =
    if same_phase phase t.current && note == ""
    then t
    else record t { current = phase; steps = t.steps ++ (phase, note) ∷ [] }

unfoldable pub finish : TodoTracker → String → TodoTracker
unfolding advance
finish t note =
    let noted = if note == "" then "Deliver / summarize" else note in
    record (advance t deliver noted) { finished = true }

unfoldable pub is_active : TodoTracker → Phase → Bool
is_active t phase = not t.finished && same_phase t.current phase

unfoldable pub is_done : TodoTracker → Phase → Bool
is_done t phase = if t.finished then true else leb (index phase) (index t.current)

unfoldable pub reset : TodoTracker → TodoTracker
reset t = record { current = receive; steps = []; finished = false }

abbrev final_note : String → String
final_note note = if note == "" then "Deliver / summarize" else note

final_note_given : (note : String) → (final_note note == "") ≡ false
final_note_given note = elim (Bool-cases (note == "")) [
  | inl missing ↦ rw missing refl
  | inr given ↦ rw given given
]

finish-steps :
    (t : TodoTracker) (note : String)
    → (finish t note).steps ≡ t.steps ++ (deliver, final_note note) ∷ []
unfolding finish advance
finish-steps t note = elim (Bool-cases (same_phase deliver t.current)) [
  | inl there ↦ rw there (rw (final_note_given note) refl)
  | inr ahead ↦ rw ahead refl
]

-- Advancing to a phase that is not before the current one: what was done stays done, and the phase is
-- done. After the end, every phase is done and none is active, and the last step recorded is the
-- delivery. After a reset exactly the first phase is active, and it alone is done.
pub tracker_moves_on :
    (t : TodoTracker) (phase p : Phase) (note : String)
    → index t.current ≤ index phase
    → (is_done t p ≡ true → is_done (advance t phase note) p ≡ true)
      × (is_done (advance t phase note) phase ≡ true)
      × ((is_done (finish t note) p ≡ true) × (is_active (finish t note) p ≡ false))
      × ((last_note : String) × ((finish t note).steps ≡ t.steps ++ (deliver, last_note) ∷ []))
      × ((is_active (reset t) p ≡ true) ↔ (p ≡ receive))
      × ((is_done (reset t) p ≡ true) ↔ (p ≡ receive))
unfolding advance finish is_active is_done reset
tracker_moves_on t phase p note forward = (
  ground arith,
  ground arith,
  (refl, refl),
  (final_note note, finish-steps t note),
  ground arith,
  ground arith,
)
