-- ===== src/Executor/Once.antt =====
-- At most once: an action that is not safe to repeat reaches the outside world once, whatever the
-- crashes.
use mathlib.Core.Option.{some-injective}
use mathlib.Core.Path.{subst}
use marcus.Prelude.{
  ◌==◌, ℕ, suc, ◌≤◌, ◌≡◌, refl, sym, ◌∙◌, ◌≢◌, Bool, false, ◌&&◌, ◌||◌, Option, none, some, List,
  ◌∷◌, arith, nat_eq, string_eq, ap, ◌⊎◌, inl, inr, All, ==-true, true, [],
}
use marcus.Executions.{ToolExecution, same_key_iff, Store, get_existing, Key, key_eq}
use marcus.Approvals.{Services}
use marcus.Executor.{ready, safe_to_retry, Prepared, settled, prepare}
use marcus.Executor.Attempted.{crashed-spec}
use marcus.Executor.Crash.{
  times, IsOver, Attempt, Crash, crashed, attempt_prepared, attempts, attempt,
}
use marcus.Executor.Prepare.{SettledSpec, PrepareSpec, prepare-spec}
use marcus.Run.Status.{low_risk_write, read_only, tier_eq}
use marcus.Tools.{Tool}

-- The tools whose calls `_recover_started` does not repeat.
abbrev pub safe_tool : Tool → Bool
safe_tool t = t.risk_tier == read_only || (t.risk_tier == low_risk_write && t.idempotent)

abbrev OnceInv : Option ToolExecution → ℕ → Type 0
OnceInv none n = n ≡ 0
OnceInv (some e) n = (n ≤ 1) × IsOver e

module _ (services : Services) where
  module _ (k : Key) where
    abbrev Inv : Store → Type 0
    Inv s = OnceInv (get_existing k s.executions) (times k s.invoked)

    -- The calls of the attempts with key `k` are of tools that are not safe to repeat.
    abbrev UnsafeAt : Attempt → Type 0
    UnsafeAt a = (t : Tool) → a.key ≡ k → a.tool ≡ some t → safe_tool t ≡ false

    same-Inv :
        (s s' : Store)
        → get_existing k s'.executions ≡ get_existing k s.executions
        → times k s'.invoked ≡ times k s.invoked
        → Inv s
        → Inv s'
    same-Inv s s' rows seen inv =
        subst (λ o. OnceInv o (times k s'.invoked)) (sym rows)
          (subst (OnceInv (get_existing k s.executions)) (sym seen) inv)

    bound_of_OnceInv : (o : Option ToolExecution) (n : ℕ) → OnceInv o n → n ≤ 1
    bound_of_OnceInv none n h = omega arith
    bound_of_OnceInv (some e) n h = h.0

    settled-Inv : (s s' : Store) → SettledSpec services k s s' → Inv s → Inv s'
    settled-Inv s s' (world, others, inl same) inv = same-Inv s s' same (ap (times k) world) inv
    settled-Inv s s' (world, others, inr (e, there, over)) inv =
        subst (λ o. OnceInv o (times k s'.invoked)) (sym there)
          (
            rw world (bound_of_OnceInv (get_existing k s.executions) (times k s.invoked) inv),
            inl over,
          )

    -- A row that is ready is not over, so it is a new one, of a tool that is not safe to repeat.
    fresh_row :
        (s s' : Store) (e : ToolExecution) (tool : Option Tool)
        → PrepareSpec services k tool s (ready s' e)
        → ((t : Tool) → tool ≡ some t → safe_tool t ≡ false)
        → Inv s
        → (times k s'.invoked ≡ 0)
          × (get_existing k s'.executions ≡ some e)
          × (safe_to_retry e ≡ false)
    unfolding safe_to_retry
    fresh_row s s' e tool (world, own, others, inl (found, safe, live, same)) unsafe inv =
        elim (subst (λ o. OnceInv o (times k s.invoked)) found inv).1 [
          | inl over ↦ cc
          | inr never ↦ cc
        ]
    fresh_row s s' e tool (world, own, others, inr (missing, (t, is, tier, idem, there))) unsafe
          inv =
        (
          ap (times k) world ∙ subst (λ o. OnceInv o (times k s.invoked)) missing inv,
          there,
          ground (arith, unsafe t is, tier, idem),
        )

    ready-Inv :
        (s s' : Store) (e : ToolExecution) (t : Tool) (crash : Crash)
        → PrepareSpec services k (some t) s (ready s' e)
        → safe_tool t ≡ false
        → Inv s
        → Inv (crashed services crash s' e t)
    ready-Inv s s' e t crash spec unsafe inv =
        let (zero_yet, there, never) =
          fresh_row s s' e (some t) spec
            (λ u is. subst (λ x. safe_tool x ≡ false) (some-injective _ _ is) unsafe) inv in
        let own : e.key ≡ k = spec.1 in
        let after =
          crashed-spec services s' e t crash
            (subst (λ j. get_existing j s'.executions ≡ some e) (sym own) there) in
        let s2 : Store = crashed services crash s' e t in
        let found : get_existing k s2.executions ≡ some after.3.0 =
          subst (λ j. get_existing j s2.executions ≡ some after.3.0) own after.3.1 in
        let seen : times k s2.invoked ≤ suc (times k s'.invoked) =
          subst (λ j. times j s2.invoked ≤ suc (times j s'.invoked)) own after.2 in
        subst (λ o. OnceInv o (times k s2.invoked)) (sym found)
          (
            omega (arith, seen, zero_yet),
            elim after.3.2 [ inl same ↦ inr (rw same never) | inr over ↦ inl over ],
          )

    ready_there :
        (s s' : Store) (j : Key) (e : ToolExecution) (tool : Option Tool)
        → PrepareSpec services j tool s (ready s' e)
        → get_existing e.key s'.executions ≡ some e
    ready_there s s' j e tool (world, own, others, inl (found, safe, live, same)) =
        subst (λ i. get_existing i s'.executions ≡ some e) (sym own)
          (ap (λ (x : Store). get_existing j x.executions) same ∙ found)
    ready_there s s' j e tool (world, own, others, inr (missing, (t, is, tier, idem, there))) =
        subst (λ i. get_existing i s'.executions ≡ some e) (sym own) there

    other-Inv :
        (s s' : Store) (j : Key) (e : ToolExecution) (tool : Option Tool)
        → j ≢ k
        → PrepareSpec services j tool s (ready s' e)
        → Inv s
        → Inv s'
    other-Inv s s' j e tool ne (world, own, others, cases) inv =
        same-Inv s s' (others k ne) (ap (times k) world) inv

    prepared-Inv :
        (s : Store) (j : Key) (tool : Option Tool) (crash : Crash) (p : Prepared)
        → PrepareSpec services j tool s p
        → ((t : Tool) → j ≡ k → tool ≡ some t → safe_tool t ≡ false)
        → Inv s
        → (j ≡ k) ⊎ (j ≢ k)
        → Inv (attempt_prepared services crash tool p)
    prepared-Inv s j tool crash (settled s' o) spec unsafe inv (inl own) =
        settled-Inv s s' (subst (λ i. SettledSpec services i s s') own spec) inv
    prepared-Inv s j tool crash (settled s' o) spec unsafe inv (inr ne) =
        same-Inv s s' (spec.1 k ne) (ap (times k) spec.0) inv
    prepared-Inv s j none crash (ready s' e) spec unsafe inv (inl own) =
        let (zero_yet, there, never) =
          fresh_row s s' e none (subst (λ i. PrepareSpec services i none s (ready s' e)) own spec)
            (λ t is. unsafe t own is) inv in
        subst (λ o. OnceInv o (times k s'.invoked)) (sym there) (omega (arith, zero_yet), inr never)
    prepared-Inv s j none crash (ready s' e) spec unsafe inv (inr ne) =
        other-Inv s s' j e none ne spec inv
    prepared-Inv s j (some t) crash (ready s' e) spec unsafe inv (inl own) =
        ready-Inv s s' e t crash
          (subst (λ i. PrepareSpec services i (some t) s (ready s' e)) own spec) (unsafe t own refl)
          inv
    prepared-Inv s j (some t) crash (ready s' e) spec unsafe inv (inr ne) =
        let after = crashed-spec services s' e t crash (ready_there s s' j e (some t) spec) in
        let apart : e.key ≢ k = λ p. ne (sym spec.1 ∙ p) in
        same-Inv s (crashed services crash s' e t) (after.0 k apart ∙ spec.2 k ne)
          (after.1 k apart ∙ ap (times k) spec.0) inv

    attempt-Inv : (s : Store) (a : Attempt) → UnsafeAt a → Inv s → Inv (attempt services s a)
    unfolding attempt
    attempt-Inv s a unsafe inv =
        prepared-Inv s a.key a.tool a.crash (prepare services s a.key a.call a.tool)
          (prepare-spec services s a.key a.call a.tool) unsafe inv (same_or_not (a.key == k) refl)
      where
        same_or_not : (b : Bool) → (a.key == k) ≡ b → (a.key ≡ k) ⊎ (a.key ≢ k)
        same_or_not true e = inl (==-true a.key k e)
        same_or_not false e = inr (λ p. ground (arith, same_key_iff a.key k))

    attempts-Inv :
        (s : Store) (l : List Attempt) → All UnsafeAt l → Inv s → Inv (attempts services s l)
    unfolding attempts
    attempts-Inv s [] unsafe inv = inv
    attempts-Inv s (a ∷ l) unsafe inv =
        attempts-Inv (attempt services s a) l unsafe.1 (attempt-Inv s a unsafe.0 inv)

  -- Take a call that has no row yet and has not reached the outside world. Whatever calls are then
  -- attempted, in whatever order, on any tables of approvals, and wherever the workers die, it
  -- reaches the world at most once, if the tools that the attempts at it use are not safe to repeat.
  pub reaches_world_once :
      (s : Store) (k : Key) (l : List Attempt)
      → get_existing k s.executions ≡ none
      → times k s.invoked ≡ 0
      → All (UnsafeAt k) l
      → times k (attempts services s l).invoked ≤ 1
  reaches_world_once s k l new unseen unsafe =
      bound_of_OnceInv k (get_existing k (attempts services s l).executions)
        (times k (attempts services s l).invoked)
        (attempts-Inv k s l unsafe (subst (λ o. OnceInv o (times k s.invoked)) (sym new) unseen))
