-- ===== src/Engine/Planned.antt =====
-- What a plan promises.
use marcus.Prelude.{
  Bool-cases, ltb, length, All, ℕ, suc, ◌-◌, ◌≤◌, ◌<◌, ◌≡◌, inl, inr, true, ◌&&◌, List, [], ◌∷◌,
  arith, refl,
}
use marcus.Engine.Plan.{plan_loop, Planned, is_read_only, plan_tool_calls, Tools, enumerate}
use marcus.Executions.{ToolCall}

-- Every is planned once: each of the calls, in order, is the head of one list or the other.
pub data Merges {ℓ} {A : Type ℓ} : List A → List A → List A → Type ℓ where
  all_planned : Merges [] [] []
  selects : {x : A} {xs ys zs : List A} → Merges xs ys zs → Merges (x ∷ xs) ys (x ∷ zs)
  defers : {x : A} {xs ys zs : List A} → Merges xs ys zs → Merges xs (x ∷ ys) (x ∷ zs)

module _ (tools : Tools) where
  abbrev pub AllReadOnly : List (ℕ × ToolCall) → Type 0
  AllReadOnly = All (λ p. is_read_only tools p.1 ≡ true)

  pub record LoopSpec (room : ℕ) (l : List (ℕ × ToolCall)) (p : Planned) : Type 0 where
    pub merges : Merges p.selected p.deferred l
    pub read_only : AllReadOnly p.selected
    pub bounded : length p.selected ≤ room

  pub plan_loop-LoopSpec :
      (room : ℕ) (l : List (ℕ × ToolCall)) → LoopSpec room l (plan_loop tools room l)
  unfolding plan_loop
  plan_loop-LoopSpec room [] = record {
    merges = all_planned;
    read_only = tt;
    bounded = omega arith;
  }
  plan_loop-LoopSpec room ((i, c) ∷ rest) = elim (Bool-cases (is_read_only tools c && ltb 0 room)) [
    | inl hit ↦
        let spec = plan_loop-LoopSpec (room - 1) rest in
        rw hit (record {
          merges = selects spec.merges;
          read_only = (ground arith, spec.read_only);
          bounded = ground (arith, spec.bounded);
        })
    | inr miss ↦
        let spec = plan_loop-LoopSpec room rest in
        rw miss (record {
          merges = defers spec.merges;
          read_only = spec.read_only;
          bounded = spec.bounded;
        })
  ]

  enumerated_rest : (i : ℕ) (l : List ToolCall) → Merges [] (enumerate i l) (enumerate i l)
  enumerated_rest i [] = all_planned
  enumerated_rest i (c ∷ l) = defers (enumerated_rest (suc i) l)

  plan_loop-first :
      (room i : ℕ) (c : ToolCall) (rest : List (ℕ × ToolCall))
      → 0 < room
      → is_read_only tools c ≡ true
      → (l : List (ℕ × ToolCall)) × ((plan_loop tools room ((i, c) ∷ rest)).selected ≡ (i, c) ∷ l)
  unfolding plan_loop
  plan_loop-first room i c rest h r = ((plan_loop tools (room - 1) rest).selected, ground arith)

  -- For any answer with at least one call and any limit of at least one: every call is selected or
  -- deferred, once, in the order of the answer; the first one is selected, so that a step makes
  -- progress; no more than the limit are selected; and more than one only if all that are selected
  -- are read-only.
  pub plan_is_safe :
      (limit : ℕ) (first : ToolCall) (rest : List ToolCall)
      → 0 < limit
      → let p = plan_tool_calls tools limit (first ∷ rest) in
        Merges p.selected p.deferred (enumerate 0 (first ∷ rest))
        × ((l : List (ℕ × ToolCall)) × (p.selected ≡ (0, first) ∷ l))
        × (length p.selected ≤ limit)
        × (1 < length p.selected → AllReadOnly p.selected)
  unfolding plan_tool_calls
  plan_is_safe limit first rest room = elim (Bool-cases (is_read_only tools first)) [
    | inl hit ↦
        let spec = plan_loop-LoopSpec limit (enumerate 0 (first ∷ rest)) in
        rw hit (
          spec.merges,
          plan_loop-first limit 0 first (enumerate 1 rest) room hit,
          spec.bounded,
          λ h. spec.read_only,
        )
    | inr miss ↦
        rw miss (selects (enumerated_rest 1 rest), ([], refl), room, λ h. absurd (omega (arith, h)))
  ]
