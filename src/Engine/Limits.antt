-- ===== src/Engine/Limits.antt =====
-- `run_until_blocked` of harness/runtime/engine.py ends, within the limits of its run.
use mathlib.Core.Path.{subst}
use marcus.Prelude.{
  Bool-cases, ◌==◌, ==-true, ℕ, zero, suc, ◌-◌, ◌≤◌, ◌<◌, ◌≡◌, refl, ◌≢◌, inl, inr, Option, some,
  arith, nat_eq, string_eq, false, List, sym, ap, ◌∙◌, [],
}
use marcus.Engine.Loop.{execute_step_inner-Steps}
use marcus.Engine.Meta.{Entry}
use marcus.Engine.Saved.{Returning, IsSynced, Returning-map, Saved, new_row, save_run-Saved}
use marcus.Engine.State.{Work, Deps, Db, save_run}
use marcus.Engine.Step.{go_on, run_loop, execute_step_inner, started_run, run_until_blocked}
use marcus.Engine.Stepped.{Steps, Outcome}
use marcus.Errors.{err, ok, Result}
use marcus.Repository.{row}
use marcus.Repository.Cell.{IsKeyed}
use marcus.Repository.History.Safety.{id-row}
use marcus.Run.Row.{AgentRun}
use marcus.Run.Status.{running, status_eq, tier_eq, is_valid_transition, pending}

pub record IsWithinLimits (r : AgentRun) : Type 0 where
  pub steps : r.current_step ≤ r.max_steps
  pub calls : r.tool_calls_used ≤ r.max_tool_calls

-- The run no longer runs, is the row of its table, and is within its limits.
pub record IsBlocked (run_id : ℕ) (w : Work) : Type 0 where
  pub id : w.run.id ≡ run_id
  pub synced : IsSynced w
  pub stopped : w.run.status ≢ running
  pub within : IsWithinLimits w.run

module _ (deps : Deps) where
  -- The loop comes to an end, by an exception that the engine lets through or with a blocked run.
  abbrev pub Finishes : ℕ → Option (Result Work) → Type 0
  Finishes run_id o = (r : Result Work) × (o ≡ some r) × Returning (IsBlocked run_id) r

  step_within : {a r : AgentRun} → Outcome a r → IsWithinLimits a → IsWithinLimits r
  step_within o h = record { steps = o.steps h.steps; calls = o.calls h.calls }

  stopped-IsBlocked :
      (w : Work)
      → (w.run.status == running) ≡ false
      → IsSynced w
      → IsWithinLimits w.run
      → IsBlocked w.run.id w
  stopped-IsBlocked w miss s h = record {
    id = refl;
    synced = s;
    stopped = λ e. ground (arith, miss, e);
    within = h;
  }

  go_on-Finishes :
      (P : Work → Type 0) (run_id : ℕ) (next_round : Work → Option (Result Work)) (r : Result Work)
      → Returning P r
      → ((w' : Work) → P w' → Finishes run_id (next_round w'))
      → Finishes run_id (go_on deps next_round r)
  go_on-Finishes P run_id next_round (err e) k rest = (err e, refl, k)
  go_on-Finishes P run_id next_round (ok w') k rest = rest w' k

  run_loop-Finishes :
      (fuel round : ℕ) (w : Work)
      → (w.run.status ≡ running → w.run.max_steps - w.run.current_step < fuel)
      → IsSynced w
      → IsWithinLimits w.run
      → Finishes w.run.id (run_loop deps fuel round w)
  unfolding run_loop
  run_loop-Finishes zero round w enough s h = elim (Bool-cases (w.run.status == running)) [
    | inl hit ↦ absurd (omega (arith, enough (==-true w.run.status running hit)))
    | inr miss ↦ rw miss (ok w, refl, stopped-IsBlocked w miss s h)
  ]
  run_loop-Finishes (suc fuel) round w enough s h = elim (Bool-cases (w.run.status == running)) [
    | inl hit ↦
        let now_running = ==-true w.run.status running hit in
        rw hit (
          go_on-Finishes (Steps w) w.run.id (run_loop deps fuel (suc round))
            (execute_step_inner deps (deps.clock round) w)
            (execute_step_inner-Steps deps (deps.clock round) w s now_running)
            (λ w' k.
              subst (λ j. Finishes j (run_loop deps fuel (suc round) w')) k.1.id
                (run_loop-Finishes fuel (suc round) w'
                  (λ e. omega (arith, enough now_running, k.1.advance e, k.1.max_steps)) k.0
                  (step_within k.1 h))))
    | inr miss ↦ rw miss (ok w, refl, stopped-IsBlocked w miss s h)
  ]

  -- The run before its first step has the counters of its row.
  record Starts (w w' : Work) : Type 0 where
    synced : IsSynced w'
    id : w'.run.id ≡ w.run.id
    max_steps : w'.run.max_steps ≡ w.run.max_steps
    current_step : w'.run.current_step ≡ w.run.current_step
    max_tool_calls : w'.run.max_tool_calls ≡ w.run.max_tool_calls
    tool_calls_used : w'.run.tool_calls_used ≡ w.run.tool_calls_used

  started_run-Starts : (w : Work) → IsSynced w → Returning (Starts w) (started_run deps w)
  unfolding started_run is_valid_transition
  started_run-Starts w s = elim (Bool-cases (w.run.status == pending)) [
    | inl hit ↦ rw hit (
        Returning-map (Saved w (new_row w (some running) [])) (Starts w)
          (save_run w (some running) [])
          (save_run-Saved w (some running) [] s (ground (arith, hit)))
          (λ w' saved. record {
            synced = saved.0;
            id = ap (λ x. x.id) saved.1;
            max_steps = ap (λ x. x.max_steps) saved.1;
            current_step = ap (λ x. x.current_step) saved.1;
            max_tool_calls = ap (λ x. x.max_tool_calls) saved.1;
            tool_calls_used = ap (λ x. x.tool_calls_used) saved.1;
          }))
    | inr miss ↦ rw miss (record {
      synced = s;
      id = refl;
      max_steps = refl;
      current_step = refl;
      max_tool_calls = refl;
      tool_calls_used = refl;
    })
  ]

  pub run_until_blocked-Finishes :
      (fuel : ℕ) (db : Db) (entries : List Entry) (run_id : ℕ) (r : AgentRun)
      → IsKeyed db.runs
      → row run_id db.runs ≡ some r
      → IsWithinLimits r
      → r.max_steps - r.current_step < fuel
      → Finishes run_id (run_until_blocked deps fuel db entries run_id)
  unfolding run_until_blocked
  run_until_blocked-Finishes fuel db entries run_id r keyed found h enough =
      let w : Work = record { db = db; run = r; entries = entries; mcp_tools_loaded = false } in
      let own : r.id ≡ run_id = id-row run_id r db.runs found in
      let s : IsSynced w = record {
        keyed = keyed;
        current = subst (λ k. row k db.runs ≡ some r) (sym own) found;
      } in
      rw found (
        go_on-Finishes (Starts w) run_id (run_loop deps fuel 0) (started_run deps w)
          (started_run-Starts w s)
          (λ w' k.
            subst (λ j. Finishes j (run_loop deps fuel 0 w')) (k.id ∙ own)
              (run_loop-Finishes fuel 0 w' (λ e. omega (arith, enough, k.max_steps, k.current_step))
                k.synced
                (record {
                  steps = omega (arith, h.steps, k.max_steps, k.current_step);
                  calls = omega (arith, h.calls, k.max_tool_calls, k.tool_calls_used);
                }))))
