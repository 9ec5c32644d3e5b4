-- ===== src/Coding/Calls/Planned.antt =====
-- Which calls of a response `MarcusLoop._plan_tool_calls` selects.
use marcus.Prelude.{
  ℕ, if◌then◌else◌, any, all, length, zero, suc, ◌≤◌, ◌≡◌, refl, ◌⊎◌, inl, inr, Bool, true, false,
  List, [], ◌∷◌, arith,
}
use marcus.Coding.Calls.{
  select_read_only, AgentCall, add_selected, plan_calls, is_read_only_call, is_mutation_first,
  CallDeps,
}

-- The calls in their order, each in one of the two parts.
pub data IsSplit : List AgentCall → List AgentCall → List AgentCall → Type 0 where
  nothing : IsSplit [] [] []
  selects :
      (call : AgentCall) {calls chosen left : List AgentCall}
      → IsSplit calls chosen left
      → IsSplit (call ∷ calls) (call ∷ chosen) left
  rejects :
      (call : AgentCall) {calls chosen left : List AgentCall}
      → IsSplit calls chosen left
      → IsSplit (call ∷ calls) chosen (call ∷ left)

all_rejected-IsSplit : (calls : List AgentCall) → IsSplit calls [] calls
all_rejected-IsSplit [] = nothing
all_rejected-IsSplit (call ∷ calls) = rejects call (all_rejected-IsSplit calls)

added-IsSplit :
    (deps : CallDeps) (b : Bool) (call : AgentCall) (calls : List AgentCall)
    (o : List AgentCall × List AgentCall)
    → IsSplit calls o.0 o.1
    → IsSplit (call ∷ calls) (add_selected deps b call o).0 (add_selected deps b call o).1
added-IsSplit deps true call calls (chosen, left) h = selects call h
added-IsSplit deps false call calls (chosen, left) h = rejects call h

either-IsSplit :
    (b : Bool) (calls : List AgentCall) (x y : List AgentCall × List AgentCall)
    → IsSplit calls x.0 x.1
    → IsSplit calls y.0 y.1
    → IsSplit calls (if b then x else y).0 (if b then x else y).1
either-IsSplit true calls x y h k = h
either-IsSplit false calls x y h k = k

module _ (deps : CallDeps) where
  select-IsSplit :
      (room : ℕ) (calls : List AgentCall)
      → IsSplit calls (select_read_only deps room calls).0 (select_read_only deps room calls).1
  unfolding select_read_only
  select-IsSplit room [] = nothing
  select-IsSplit zero (call ∷ calls) =
      added-IsSplit deps false call calls (select_read_only deps zero calls)
        (select-IsSplit zero calls)
  select-IsSplit (suc room) (call ∷ calls) =
      added-IsSplit deps (is_read_only_call deps call) call calls _ (
        either-IsSplit (is_read_only_call deps call) calls (select_read_only deps room calls)
          (select_read_only deps (suc room) calls) (select-IsSplit room calls)
          (select-IsSplit (suc room) calls))

  -- At most so many calls, all read-only; and a read-only call is left only when there is no room.
  pub record IsConcurrent (room : ℕ) (o : List AgentCall × List AgentCall) : Type 0 where
    pub fits : length o.0 ≤ room
    pub read_only_all : all (is_read_only_call deps) o.0 ≡ true
    pub full : any (is_read_only_call deps) o.1 ≡ true → length o.0 ≡ room

  no_room-IsConcurrent :
      (call : AgentCall) (o : List AgentCall × List AgentCall)
      → IsConcurrent zero o
      → IsConcurrent zero (add_selected deps false call o)
  no_room-IsConcurrent call (chosen, left) h = record {
    fits = h.fits;
    read_only_all = h.read_only_all;
    full = λ any. omega (arith, h.fits);
  }

  added-IsConcurrent :
      (b : Bool) (room : ℕ) (call : AgentCall) (x y : List AgentCall × List AgentCall)
      → is_read_only_call deps call ≡ b
      → IsConcurrent room x
      → IsConcurrent (suc room) y
      → IsConcurrent (suc room) (add_selected deps b call (if b then x else y))
  added-IsConcurrent true room call (chosen, left) y e h k = record {
    fits = omega (arith, h.fits);
    read_only_all = ground (arith, e, h.read_only_all);
    full = λ any. omega (arith, h.full any);
  }
  added-IsConcurrent false room call x (chosen, left) e h k = record {
    fits = k.fits;
    read_only_all = k.read_only_all;
    full = λ any. k.full (ground (arith, e, any));
  }

  no_calls-IsConcurrent : (room : ℕ) → IsConcurrent room ([], [])
  no_calls-IsConcurrent room = record {
    fits = omega arith;
    read_only_all = refl;
    full = λ e. ground (arith, e);
  }

  select-IsConcurrent :
      (room : ℕ) (calls : List AgentCall) → IsConcurrent room (select_read_only deps room calls)
  unfolding select_read_only
  select-IsConcurrent room [] = no_calls-IsConcurrent room
  select-IsConcurrent zero (call ∷ calls) =
      no_room-IsConcurrent call (select_read_only deps zero calls) (select-IsConcurrent zero calls)
  select-IsConcurrent (suc room) (call ∷ calls) =
      added-IsConcurrent (is_read_only_call deps call) room call (select_read_only deps room calls)
        (select_read_only deps (suc room) calls) refl (select-IsConcurrent room calls)
        (select-IsConcurrent (suc room) calls)

  -- The first call alone, which changes something.
  abbrev pub IsAlone : List AgentCall → List AgentCall × List AgentCall → Type 0
  IsAlone calls o =
      (call : AgentCall) × (calls ≡ call ∷ o.1)
      × (o.0 ≡ call ∷ [])
      × (is_mutation_first deps call ≡ true)

  pub record IsPlan (calls : List AgentCall) (o : List AgentCall × List AgentCall) : Type 0 where
    pub split : IsSplit calls o.0 o.1
    pub parallel : IsAlone calls o ⊎ IsConcurrent deps.max_parallel_read_only o

  begun-IsPlan :
      (b : Bool) (call : AgentCall) (calls : List AgentCall)
      → is_mutation_first deps call ≡ b
      → IsPlan (call ∷ calls) (
          if b
          then (call ∷ [], calls)
          else select_read_only deps deps.max_parallel_read_only (call ∷ calls))
  begun-IsPlan true call calls e = record {
    split = selects call (all_rejected-IsSplit calls);
    parallel = inl (call, refl, refl, e);
  }
  begun-IsPlan false call calls e = record {
    split = select-IsSplit deps.max_parallel_read_only (call ∷ calls);
    parallel = inr (select-IsConcurrent deps.max_parallel_read_only (call ∷ calls));
  }

-- Of the calls of a response each is selected or rejected, in their order and none twice. What is
-- selected is the first call alone, if its tool changes something; otherwise at most
-- `max_parallel_read_only` read-only calls, and no read-only call is rejected while there is room.
pub plan_calls-IsPlan :
    (deps : CallDeps) (calls : List AgentCall) → IsPlan deps calls (plan_calls deps calls)
unfolding plan_calls
plan_calls-IsPlan deps [] = record {
  split = nothing;
  parallel = inr (no_calls-IsConcurrent deps deps.max_parallel_read_only);
}
plan_calls-IsPlan deps (call ∷ calls) =
    begun-IsPlan deps (is_mutation_first deps call) call calls refl
