-- ===== src/Engine/Stepped.antt =====
-- What one step of harness/runtime/engine.py does to the row of its run.
-- The statuses that a running run may take when it stops running.
use mathlib.Core.Path.{subst}
use marcus.Prelude.{
  suc, ◌≤◌, ◌<◌, ◌≡◌, sym, ◌∙◌, ◌≢◌, Bool, true, false, Option, some, List, ℕ, refl, none, arith,
}
use marcus.Engine.Keeping.{Keeps}
use marcus.Engine.Saved.{Saved, IsSynced, new_row, Returning-map, save_run-Saved, Returning}
use marcus.Engine.State.{Deps, record_skill_usage_for_run, save_run, Work}
use marcus.Engine.Step.{recorded}
use marcus.Errors.{ok, err, Result}
use marcus.Repository.Fencing.{admits}
use marcus.Run.Row.{AgentRun, FieldUpdate}
use marcus.Run.Status.{running, pending, is_valid_transition, RunStatus}

abbrev pub is_left : RunStatus → Bool
is_left pending = false
is_left running = false
is_left _ = true

-- `r` is the row after a step from `a`.
pub record Outcome (a r : AgentRun) : Type 0 where
  pub id : r.id ≡ a.id
  pub max_steps : r.max_steps ≡ a.max_steps
  pub max_tool_calls : r.max_tool_calls ≡ a.max_tool_calls
  pub steps : a.current_step ≤ a.max_steps → r.current_step ≤ r.max_steps
  pub calls : a.tool_calls_used ≤ a.max_tool_calls → r.tool_calls_used ≤ r.max_tool_calls
  pub advance :
      r.status ≡ running → (r.current_step ≡ suc a.current_step) × (a.current_step < a.max_steps)

abbrev pub Steps : Work → Work → Type 0
Steps w w' = IsSynced w' × Outcome w.run w'.run

-- The admitted transitions of a running run.
admits-running :
    (r : AgentRun) (s : RunStatus)
    → r.status ≡ running
    → is_left s ≡ true
    → admits r (some s) ≡ true
unfolding is_valid_transition
admits-running r s now_running leaves = ground (arith, now_running, leaves)

left-stops : (s : RunStatus) → is_left s ≡ true → s ≢ running
left-stops s leaves = ground (arith, leaves)

pub save_run-Steps :
    (w0 w : Work) (status : Option RunStatus) (updates : List FieldUpdate)
    → IsSynced w
    → admits w.run status ≡ true
    → Outcome w0.run (new_row w status updates)
    → Returning (Steps w0) (save_run w status updates)
save_run-Steps w0 w status updates s valid outcome =
    Returning-map (Saved w (new_row w status updates)) (Steps w0) (save_run w status updates)
      (save_run-Saved w status updates s valid)
      (λ w' saved. (saved.0, subst (λ x. Outcome w0.run x) (sym saved.1) outcome))

module _ (deps : Deps) where
  pub recorded-Steps :
      (w0 : Work) (r : Result Work)
      → Returning (Steps w0) r
      → Returning (Steps w0) (recorded deps r)
  unfolding recorded record_skill_usage_for_run
  recorded-Steps w0 (err e) h = h
  recorded-Steps w0 (ok w) h = (record { keyed = h.0.keyed; current = h.0.current }, h.1)

  -- The row has this status and these counters, and else what the run's had.
  abbrev pub IsRow : AgentRun → AgentRun → RunStatus → ℕ → ℕ → Type 0
  IsRow r a status current_step calls_used =
      (r.id ≡ a.id)
      × (r.max_steps ≡ a.max_steps)
      × (r.max_tool_calls ≡ a.max_tool_calls)
      × (r.status ≡ status)
      × (r.current_step ≡ current_step)
      × (r.tool_calls_used ≡ calls_used)

  -- A checkpoint after which the run runs no more.
  pub stops-Steps :
      (w0 w : Work) (s : RunStatus) (updates : List FieldUpdate) (current_step calls_used : ℕ)
      → Keeps w0 w
      → w0.run.status ≡ running
      → is_left s ≡ true
      → (w0.run.current_step ≤ w0.run.max_steps → current_step ≤ w0.run.max_steps)
      → (w0.run.tool_calls_used ≤ w0.run.max_tool_calls → calls_used ≤ w0.run.max_tool_calls)
      → IsRow (new_row w (some s) updates) w.run s current_step calls_used
      → Returning (Steps w0) (save_run w (some s) updates)
  stops-Steps w0 w s updates current_step calls_used k now_running leaves steps calls
        (id, max_steps, max_calls, status, at_step, used) =
      save_run-Steps w0 w (some s) updates k.synced
        (admits-running w.run s (k.kept.status ∙ now_running) leaves)
        (record {
          id = id ∙ k.kept.id;
          max_steps = max_steps ∙ k.kept.max_steps;
          max_tool_calls = max_calls ∙ k.kept.max_tool_calls;
          steps = λ h. omega (arith, max_steps, k.kept.max_steps, at_step, steps h);
          calls = λ h. omega (arith, max_calls, k.kept.max_tool_calls, used, calls h);
          advance = λ e. absurd (left-stops s leaves (sym status ∙ e));
        })

  -- A checkpoint after which the run goes on with the next step.
  pub goes_on-Steps :
      (w0 w : Work) (updates : List FieldUpdate) (calls_used : ℕ)
      → Keeps w0 w
      → w0.run.current_step < w0.run.max_steps
      → (w0.run.tool_calls_used ≤ w0.run.max_tool_calls → calls_used ≤ w0.run.max_tool_calls)
      → IsRow (new_row w none updates) w.run w.run.status (suc w0.run.current_step) calls_used
      → Returning (Steps w0) (save_run w none updates)
  goes_on-Steps w0 w updates calls_used k room calls
        (id, max_steps, max_calls, status, at_step, used) =
      save_run-Steps w0 w none updates k.synced refl (record {
        id = id ∙ k.kept.id;
        max_steps = max_steps ∙ k.kept.max_steps;
        max_tool_calls = max_calls ∙ k.kept.max_tool_calls;
        steps = λ h. omega (arith, max_steps, k.kept.max_steps, at_step, room);
        calls = λ h. omega (arith, max_calls, k.kept.max_tool_calls, used, calls h);
        advance = λ e. (at_step, room);
      })
