-- ===== src/Reaper/Stale.antt =====
-- What one pass of `reap_stale_runs` does when nothing else writes to the table meanwhile.
use mathlib.Core.Option.{some-injective}
use mathlib.Core.Path.{ap₂, subst}
use marcus.Prelude.{
  nat_beq_iff, ℕ, ◌≡◌, ◌≢◌, Option, none, some, List, [], ◌∷◌, arith, Bool-cases, ==-true, ◌==◌,
  refl, sym, ap, ◌∙◌, inl, inr, nat_eq, if◌then◌else◌, length, where_, Bool, map, false,
}
use marcus.Reaper.{reap_each, is_stale, reap_stale_runs}
use marcus.Reaper.Released.{
  reaped_row, row_apart, row_miss, release_others, release_own, row_hit, release-IsKeyed, AllThere,
  AllThere-release, reap_cons, cleared,
}
use marcus.Repository.{release_lease, row}
use marcus.Repository.Cell.{IsKeyed}
use marcus.Run.Row.{AgentRun}
use marcus.Run.Status.{status_eq}

-- The loop, seen at each row, and what it hands on.
row-reap_each :
    (stale t : List AgentRun) (j : ℕ)
    → IsKeyed stale
    → IsKeyed t
    → AllThere stale t
    → row j (reap_each stale t).table ≡ reaped_row (row j stale) (row j t)
unfolding reap_each
row-reap_each [] t j apart keyed there = unfold row in refl
row-reap_each (m ∷ stale) t j apart keyed there =
    let done = release_own t m keyed there.0 in
    let step = reap_cons m (cleared m) stale t done.1 in
    let t' : List AgentRun = (release_lease t m).0 in
    let rest : row j (reap_each stale t').table ≡ reaped_row (row j stale) (row j t') =
      row-reap_each stale t' j apart.1 (release-IsKeyed t m keyed)
        (AllThere-release t m stale apart.0 there.1) in
    elim (Bool-cases (m.id == j)) [
      | inl own ↦
          let e = ==-true m.id j own in
          rw (row_hit j m stale e) (
            ap (row j) step.0
            ∙ rest
            ∙ ap₂ reaped_row (subst (λ k. row k stale ≡ none) e apart.0)
                (subst (λ k. row k t' ≡ some (cleared m)) e done.0))
      | inr other ↦
          let ne : m.id ≢ j = ground arith in
          rw (row_miss j m stale ne) (
            ap (row j) step.0
            ∙ rest
            ∙ ap (reaped_row (row j stale)) (release_others t m j (λ e. ne (sym e))))
    ]

-- Each released run is handed on, as the release refreshed it, and counted.
requeued-reap_each :
    (stale t : List AgentRun)
    → IsKeyed stale
    → IsKeyed t
    → AllThere stale t
    → ((reap_each stale t).requeued ≡ map cleared stale)
      × ((reap_each stale t).reaped ≡ length stale)
unfolding reap_each
requeued-reap_each [] t apart keyed there = (refl, refl)
requeued-reap_each (m ∷ stale) t apart keyed there =
    let t' : List AgentRun = (release_lease t m).0 in
    let rest =
      requeued-reap_each stale t' apart.1 (release-IsKeyed t m keyed)
        (AllThere-release t m stale apart.0 there.1) in
    let step = reap_cons m (cleared m) stale t (release_own t m keyed there.0).1 in
    (step.1 ∙ ap (λ l. cleared m ∷ l) rest.0, omega (arith, rest.1, step.2))

-- The SELECT of a keyed table.
selected : (AgentRun → Bool) → Option AgentRun → Option AgentRun
selected p none = none
selected p (some r) = if p r then some r else none

row-where_ :
    (p : AgentRun → Bool) (j : ℕ) (t : List AgentRun)
    → IsKeyed t
    → row j (where_ p t) ≡ selected p (row j t)
unfolding row selected
row-where_ p j [] h = refl
row-where_ p j (r ∷ t) h = ground (arith, row-where_ p j t h.1, nat_beq_iff r.id j)

IsKeyed-where_ : (p : AgentRun → Bool) (t : List AgentRun) → IsKeyed t → IsKeyed (where_ p t)
IsKeyed-where_ p [] h = tt
IsKeyed-where_ p (r ∷ t) h = elim (Bool-cases (p r)) [
  | inl hit ↦ rw hit (
    row-where_ p r.id t h.1 ∙ ap (selected p) h.0 ∙ unfold selected in refl,
    IsKeyed-where_ p t h.1,
  )
  | inr miss ↦ rw miss (IsKeyed-where_ p t h.1)
]

AllThere-cons :
    (x : AgentRun) (stale t : List AgentRun)
    → row x.id stale ≡ none
    → AllThere stale t
    → AllThere stale (x ∷ t)
AllThere-cons x [] t apart there = tt
AllThere-cons x (m ∷ stale) t apart there =
    let (differs, rest) = row_apart x.id m stale apart in
    (row_miss m.id x t (λ e. differs (sym e)) ∙ there.0, AllThere-cons x stale t rest there.1)

AllThere-where_ : (p : AgentRun → Bool) (t : List AgentRun) → IsKeyed t → AllThere (where_ p t) t
AllThere-where_ p [] h = tt
AllThere-where_ p (r ∷ t) h =
    let tail : AllThere (where_ p t) (r ∷ t) =
      AllThere-cons r (where_ p t) t
        (row-where_ p r.id t h.1 ∙ ap (selected p) h.0 ∙ unfold selected in refl)
        (AllThere-where_ p t h.1) in
    elim (Bool-cases (p r)) [
      | inl hit ↦ rw hit (row_hit r.id r t refl, tail)
      | inr miss ↦ rw miss tail
    ]

-- A row as one pass leaves it.
abbrev pub after_pass : ℕ → AgentRun → AgentRun
after_pass now r = if is_stale now r then cleared r else r

abbrev pub map_row : (AgentRun → AgentRun) → Option AgentRun → Option AgentRun
map_row f none = none
map_row f (some r) = some (f r)

-- A pass that no other writer disturbs clears the lease of exactly the running runs whose lease has
-- run out, changes no other row, hands on exactly those runs and returns their number; after it no
-- row is stale.
pub reap_stale_runs_exact :
    (now : ℕ) (t : List AgentRun)
    → IsKeyed t
    → ((j : ℕ) → row j (reap_stale_runs now t).table ≡ map_row (after_pass now) (row j t))
      × ((reap_stale_runs now t).requeued ≡ map cleared (where_ (is_stale now) t))
      × ((reap_stale_runs now t).reaped ≡ length (where_ (is_stale now) t))
      × ((j : ℕ) (r : AgentRun)
          → row j (reap_stale_runs now t).table ≡ some r
          → is_stale now r ≡ false)
unfolding reap_stale_runs
reap_stale_runs_exact now t keyed = (rows, handed.0, handed.1, none_left)
  where
    stale : List AgentRun
    stale = where_ (is_stale now) t

    apart : IsKeyed stale
    apart = IsKeyed-where_ (is_stale now) t keyed

    there : AllThere stale t
    there = AllThere-where_ (is_stale now) t keyed

    handed :
        ((reap_each stale t).requeued ≡ map cleared stale)
        × ((reap_each stale t).reaped ≡ length stale)
    handed = requeued-reap_each stale t apart keyed there

    split :
        (o : Option AgentRun)
        → reaped_row (selected (is_stale now) o) o ≡ map_row (after_pass now) o
    split none = unfold selected in refl
    split (some r) = elim (Bool-cases (is_stale now r)) [
      | inl hit ↦ unfold selected in rw hit
      | inr miss ↦ unfold selected in rw miss
    ]

    rows : (j : ℕ) → row j (reap_each stale t).table ≡ map_row (after_pass now) (row j t)
    rows j =
        row-reap_each stale t j apart keyed there
        ∙ ap (λ o. reaped_row o (row j t)) (row-where_ (is_stale now) j t keyed)
        ∙ split (row j t)

    fresh : (r : AgentRun) → is_stale now (after_pass now r) ≡ false
    fresh r = elim (Bool-cases (is_stale now r)) [
      | inl hit ↦ rw hit (unfold is_stale in ground arith)
      | inr miss ↦ rw miss miss
    ]

    none_left :
        (j : ℕ) (r : AgentRun) → row j (reap_each stale t).table ≡ some r → is_stale now r ≡ false
    none_left j r found = left (row j t) (sym (rows j) ∙ found)
      where
        left : (o : Option AgentRun) → map_row (after_pass now) o ≡ some r → is_stale now r ≡ false
        left none e = cc
        left (some r0) e = subst (λ x. is_stale now x ≡ false) (some-injective _ _ e) (fresh r0)
