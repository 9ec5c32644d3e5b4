-- ===== src/Executor/Attempted.antt =====
-- What one attempt of harness/runtime/tool_executor.py leaves behind once it is ready to invoke the
-- handler, wherever its worker dies.
use mathlib.Core.Path.{subst}
use marcus.Prelude.{
  suc, ◌≤◌, ◌≡◌, refl, sym, ◌∙◌, ◌≢◌, false, some, List, ◌∷◌, arith, nat_eq, length, ap, ◌⊎◌, inl,
  inr,
}
use marcus.Executions.{
  ToolExecution, same_key_iff, save_execution, Store, get_existing, Key, key_eq,
}
use marcus.Executions.Rows.{get_existing-save_self, get_existing-save_ne}
use marcus.Approvals.{Services}
use marcus.Executor.{finalize, reach, invoke_and_finalize}
use marcus.Executor.Crash.{times, Crash, before_commit, crashed, before_handler, no_crash}
use marcus.Executor.Prepare.{is_started}
use marcus.Run.Status.{succeeded, ToolExecutionStatus, tier_eq}
use marcus.Tools.{Tool, HandlerResult, runtime_error, other_error, returned}

pub times-add_ne : (k j : Key) (l : List Key) → j ≢ k → times k (j ∷ l) ≡ times k l
unfolding times
times-add_ne k j l ne = ground (arith, same_key_iff j k)

pub times-add_self : (k : Key) (l : List Key) → times k (k ∷ l) ≡ suc (times k l)
unfolding times
times-add_self k l = ground (arith, same_key_iff k k)

module _ (services : Services) where
  -- The rows after the commits of `_invoke_and_finalize`.
  abbrev pub FinalSpec : Store → ToolExecution → Store → Type 0
  FinalSpec s e s' =
      (s'.invoked ≡ s.invoked)
      × ((j : Key) → e.key ≢ j → get_existing j s'.executions ≡ get_existing j s.executions)
      × ((e' : ToolExecution) × (get_existing e.key s'.executions ≡ some e')
          × (is_started e'.status ≡ false))

  pub saved_final :
      (s : Store) (e e' : ToolExecution)
      → e'.key ≡ e.key
      → get_existing e.key s.executions ≡ some e
      → is_started e'.status ≡ false
      → FinalSpec s e (record s { executions = save_execution e' s.executions })
  saved_final s e e' same found over = (
    refl,
    λ j ne. get_existing-save_ne j e' s.executions (λ p. ne (sym same ∙ p)),
    (
      e',
      subst (λ k. get_existing k (save_execution e' s.executions) ≡ some e') same
          (get_existing-save_self e' e s.executions
            (subst (λ k. get_existing k s.executions ≡ some e) (sym same) found)),
      over,
    ),
  )

  pub finalize-spec :
      (s : Store) (e : ToolExecution) (t : Tool) (r : HandlerResult)
      → get_existing e.key s.executions ≡ some e
      → FinalSpec s e (finalize services s e t r).0
  unfolding finalize
  finalize-spec s e t (returned v) found =
      saved_final s e (record e { status = succeeded; result = some (services.truncate v) }) refl
        found refl
  finalize-spec s e t (runtime_error m c b) found =
      saved_final s e (record e { status = ToolExecutionStatus.failed; error = some m }) refl found
        refl
  finalize-spec s e t (other_error m) found =
      saved_final s e (record e { status = ToolExecutionStatus.failed; error = some m }) refl found
        refl

  -- An attempt that got ready, whether or not its worker dies: its row is there, and its call has
  -- reached the world at most once more.
  abbrev pub CrashedSpec : Store → ToolExecution → Store → Type 0
  CrashedSpec s e s' =
      ((j : Key) → e.key ≢ j → get_existing j s'.executions ≡ get_existing j s.executions)
      × ((j : Key) → e.key ≢ j → times j s'.invoked ≡ times j s.invoked)
      × (times e.key s'.invoked ≤ suc (times e.key s.invoked))
      × ((e' : ToolExecution) × (get_existing e.key s'.executions ≡ some e')
          × ((e' ≡ e) ⊎ (is_started e'.status ≡ false)))

  pub crashed-spec :
      (s : Store) (e : ToolExecution) (t : Tool) (crash : Crash)
      → get_existing e.key s.executions ≡ some e
      → CrashedSpec s e (crashed services crash s e t)
  unfolding invoke_and_finalize
  crashed-spec s e t before_handler found =
      (λ j ne. refl, λ j ne. refl, omega arith, (e, found, inl refl))
  crashed-spec s e t before_commit found = (
    λ j ne. refl,
    λ j ne. times-add_ne j e.key s.invoked ne,
    omega (arith, times-add_self e.key s.invoked),
    (e, found, inl refl),
  )
  crashed-spec s e t no_crash found =
      let done =
        finalize-spec (reach services s e) e t (t.handler (length s.invoked) e.args) found in
      (
        done.1,
        λ j ne. ap (times j) done.0 ∙ times-add_ne j e.key s.invoked ne,
        omega (arith, ap (times e.key) done.0, times-add_self e.key s.invoked),
        (done.2.0, done.2.1, inr done.2.2),
      )
