-- ===== src/Run/Lifecycle.antt =====
-- What harness/runtime/state_machine.py promises: which statuses a run can pass through.
use mathlib.Core.Path.{subst}
use marcus.Prelude.{◌≡◌, ◌↔◌, true, false, arith, Bool-cases, refl, sym, ◌∙◌, ◌⊎◌, inl, inr}
use marcus.Run.Status.{running, RunStatus, is_valid_transition, is_terminal, cancelled}

-- The life of a run as statuses, one accepted transition at a time.
pub data Reaches : RunStatus → RunStatus → Type 0 where
  here : {s : RunStatus} → Reaches s s
  next : {s t u : RunStatus} → is_valid_transition s t ≡ true → Reaches t u → Reaches s u

terminal_step : (s t : RunStatus) → is_terminal s ≡ true → is_valid_transition s t ≡ true → s ≡ t
unfolding is_terminal is_valid_transition
terminal_step s t h k = ground arith

terminal_final : {s t : RunStatus} → is_terminal s ≡ true → Reaches s t → s ≡ t
terminal_final h here = refl
terminal_final {s} h (next {t} step r) =
    let e = terminal_step s t h step in e ∙ terminal_final (subst (λ x. is_terminal x ≡ true) e h) r

-- From every status that is not terminal, a run can be cancelled in one step.
cancellable : (s : RunStatus) → is_terminal s ≡ false → is_valid_transition s cancelled ≡ true
unfolding is_terminal is_valid_transition
cancellable s h = ground arith

-- The terminal statuses are exactly those that no sequence of accepted transitions ever leaves.
pub terminal_iff_final :
    (s : RunStatus) → (is_terminal s ≡ true) ↔ ((t : RunStatus) → Reaches s t → s ≡ t)
terminal_iff_final s =
    (λ h t r. terminal_final h r, λ stuck. back stuck (Bool-cases (is_terminal s)))
  where
    terminal_cancelled : is_terminal cancelled ≡ true
    terminal_cancelled = unfold is_terminal in refl

    back :
        ((t : RunStatus) → Reaches s t → s ≡ t)
        → (is_terminal s ≡ true) ⊎ (is_terminal s ≡ false)
        → is_terminal s ≡ true
    back stuck (inl h) = h
    back stuck (inr h) =
        subst (λ x. is_terminal x ≡ true) (sym (stuck cancelled (next (cancellable s h) here)))
          terminal_cancelled

-- Whatever a run that is not over is waiting for, it can be started again in one step; no run that
-- is over can be.
pub resumable_iff_live :
    (s : RunStatus) → (is_valid_transition s running ≡ true) ↔ (is_terminal s ≡ false)
unfolding is_terminal is_valid_transition
resumable_iff_live s = ground arith
