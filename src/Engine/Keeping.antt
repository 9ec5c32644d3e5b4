-- ===== src/Engine/Keeping.antt =====
-- A run whose status and counters are left alone, between two states of harness/runtime/engine.py.
use mathlib.Core.Path.{subst}
use marcus.Prelude.{ℕ, ◌≡◌, refl, sym, ◌∙◌}
use marcus.Engine.Control.{no_control, asks_user, completes, fails, Control, waits_approval}
use marcus.Engine.Saved.{Saved, IsSynced}
use marcus.Engine.State.{Work}
use marcus.Run.Row.{AgentRun}

pub record IsKept (a b : AgentRun) : Type 0 where
  pub id : b.id ≡ a.id
  pub status : b.status ≡ a.status
  pub current_step : b.current_step ≡ a.current_step
  pub max_steps : b.max_steps ≡ a.max_steps
  pub max_tool_calls : b.max_tool_calls ≡ a.max_tool_calls
  pub tool_calls_used : b.tool_calls_used ≡ a.tool_calls_used

pub record Keeps (w w' : Work) : Type 0 where
  pub synced : IsSynced w'
  pub kept : IsKept w.run w'.run

pub IsKept-refl : (a : AgentRun) → IsKept a a
IsKept-refl a = record {
  id = refl;
  status = refl;
  current_step = refl;
  max_steps = refl;
  max_tool_calls = refl;
  tool_calls_used = refl;
}

pub IsKept-trans : {a b c : AgentRun} → IsKept a b → IsKept b c → IsKept a c
IsKept-trans p q = record {
  id = q.id ∙ p.id;
  status = q.status ∙ p.status;
  current_step = q.current_step ∙ p.current_step;
  max_steps = q.max_steps ∙ p.max_steps;
  max_tool_calls = q.max_tool_calls ∙ p.max_tool_calls;
  tool_calls_used = q.tool_calls_used ∙ p.tool_calls_used;
}

pub Keeps-trans : {a b c : Work} → Keeps a b → Keeps b c → Keeps a c
Keeps-trans p q = record { synced = q.synced; kept = IsKept-trans p.kept q.kept }

-- Where the run and its table are the same.
pub Keeps-same : (w : Work) → IsSynced w → Keeps w w
Keeps-same w s = record { synced = s; kept = IsKept-refl w.run }

-- A checkpoint that only writes what is kept.
pub Saved-Keeps : (w : Work) (r : AgentRun) (w' : Work) → IsKept w.run r → Saved w r w' → Keeps w w'
Saved-Keeps w r w' kept (synced, same) = record {
  synced = synced;
  kept = subst (λ x. IsKept w.run x) (sym same) kept;
}

-- How many calls of a step a wait for approval counts.
abbrev pub counted : Control → ℕ
counted (waits_approval count) = count
counted no_control = 0
counted (completes fields) = 0
counted (asks_user fields) = 0
counted (fails reason) = 0
