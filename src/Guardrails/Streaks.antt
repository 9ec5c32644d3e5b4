-- ===== src/Guardrails/Streaks.antt =====
-- No streak of identical calls grows to the window of harness/runtime/guardrails.py.
use marcus.Prelude.{
  leb, take, all, length, ◌==◌, ℕ, ◌-◌, ◌≡◌, Bool, false, ◌&&◌, none, List, [], ◌∷◌, arith, nat_eq,
  string_eq,
}
use marcus.Executions.{ToolExecution}
use marcus.Guardrails.Repeats.{check_repeated_calls, rows_of, is_call}

-- The newest of these rows ends a streak of `window` calls with the same name and arguments.
abbrev pub ends_streak : ℕ → List ToolExecution → Bool
ends_streak window [] = false
ends_streak window (e ∷ older) =
    let before = take (window - 1) older in
    leb (window - 1) (length before) && all (is_call e.tool_name e.args) before

-- At no time did the history end with a streak.
abbrev pub IsStreakFree : ℕ → List ToolExecution → Type 0
IsStreakFree window [] = Unit
IsStreakFree window (e ∷ older) =
    (ends_streak window (e ∷ older) ≡ false) × IsStreakFree window older

-- The table of executions, as the calls of one run fill it that are checked against it first; the
-- other runs write what they like.
pub data Guarded (window run_id : ℕ) : List ToolExecution → Type 0 where
  no_calls : Guarded window run_id []
  own_call :
      {t : List ToolExecution} {e : ToolExecution}
      → e.key.run_id ≡ run_id
      → check_repeated_calls window t run_id e.tool_name e.args ≡ none
      → Guarded window run_id t
      → Guarded window run_id (e ∷ t)
  other_call :
      {t : List ToolExecution} {e : ToolExecution}
      → (e.key.run_id == run_id) ≡ false
      → Guarded window run_id t
      → Guarded window run_id (e ∷ t)

module _ (window run_id : ℕ) where
  rows_of-own :
      (e : ToolExecution) (t : List ToolExecution)
      → e.key.run_id ≡ run_id
      → rows_of run_id (e ∷ t) ≡ e ∷ rows_of run_id t
  unfolding rows_of
  rows_of-own e t h = ground arith

  rows_of-other :
      (e : ToolExecution) (t : List ToolExecution)
      → (e.key.run_id == run_id) ≡ false
      → rows_of run_id (e ∷ t) ≡ rows_of run_id t
  unfolding rows_of
  rows_of-other e t h = ground arith

  passed-ends_streak :
      (e : ToolExecution) (t : List ToolExecution)
      → check_repeated_calls window t run_id e.tool_name e.args ≡ none
      → ends_streak window (e ∷ rows_of run_id t) ≡ false
  unfolding check_repeated_calls
  passed-ends_streak e t h = ground arith

  -- However a run's calls are mixed with those of other runs: if each is checked against the table
  -- that its row is then added to, the run's own history never holds `window` calls in a row with the
  -- same tool and the same arguments.
  pub no_streak :
      (t : List ToolExecution) → Guarded window run_id t → IsStreakFree window (rows_of run_id t)
  unfolding rows_of
  no_streak t no_calls = tt
  no_streak t (own_call {t = older} {e} own passed g) =
      rw (rows_of-own e older own) (passed-ends_streak e older passed, no_streak older g)
  no_streak t (other_call {t = older} {e} other g) =
      rw (rows_of-other e older other) (no_streak older g)
