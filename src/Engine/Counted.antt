-- ===== src/Engine/Counted.antt =====
-- What `_process_tool_calls` of harness/runtime/engine.py leaves alone, and what it counts.
use marcus.Prelude.{
  length, where_, ℕ, suc, ◌+◌, ◌-◌, ◌≤◌, ◌≡◌, refl, ◌⊎◌, inl, inr, Bool, not, some, List, [], ◌∷◌,
  arith,
}
use marcus.Engine.Batch.{
  after_read_only, proceed, run_sequential, process_tool_calls, scan_results, build_deferred_tool,
  collected, run_read_only, deferral_text, is_read_only_at, deny_each,
}
use marcus.Engine.Calls.{execute_single_tool_call, execute_call}
use marcus.Engine.Control.{asks_user, waits_approval, Control, fails, completes, no_control}
use marcus.Engine.Keeping.{Keeps-same, Keeps-trans, Keeps}
use marcus.Engine.Kept.{CallSpec, execute_single_tool_call-Keeps, execute_call-Keeps}
use marcus.Engine.Meta.{tools_by_name}
use marcus.Engine.Plan.{plan_tool_calls, plan_loop, Tools, is_read_only, enumerate}
use marcus.Engine.Saved.{Returning-and_then, Returning-map, Returning, IsSynced, Returning-if}
use marcus.Engine.State.{Work, Deps}
use marcus.Errors.{Result, ok, err, plain_status}
use marcus.Executions.{ToolCall}

module _ {A : Type 0} (test : A → Bool) where
  split_length :
      (l : List A) → length (where_ test l) + length (where_ (λ x. not (test x)) l) ≡ length l
  split_length [] = omega arith
  split_length (x ∷ l) = ground (arith, split_length l)

length-enumerate : (i : ℕ) (l : List ToolCall) → length (enumerate i l) ≡ length l
length-enumerate i [] = refl
length-enumerate i (c ∷ l) = omega (arith, length-enumerate (suc i) l)

plan_loop-length :
    (tools : Tools) (room : ℕ) (l : List (ℕ × ToolCall))
    → length (plan_loop tools room l).selected ≤ length l
unfolding plan_loop
plan_loop-length tools room [] = omega arith
plan_loop-length tools room ((i, c) ∷ l) =
    ground (arith, plan_loop-length tools (room - 1) l, plan_loop-length tools room l)

length-selected :
    (tools : Tools) (limit : ℕ) (calls : List ToolCall)
    → length (plan_tool_calls tools limit calls).selected ≤ length calls
unfolding plan_tool_calls
length-selected tools limit [] = omega arith
length-selected tools limit (first ∷ rest) = ground (
  arith,
  plan_loop-length tools limit (enumerate 0 (first ∷ rest)),
  length-enumerate 0 (first ∷ rest),
)

-- A scan counts no more than the results that it reads.
abbrev pub scanned : ℕ ⊎ ℕ → ℕ
scanned (inl n) = n
scanned (inr n) = n

scan_results-bound :
    (count : ℕ) (l : List Control) → scanned (scan_results count l) ≤ count + length l
unfolding scan_results
scan_results-bound count [] = omega arith
scan_results-bound count (waits_approval n ∷ l) = omega arith
scan_results-bound count (no_control ∷ l) = omega (arith, scan_results-bound (count + 1) l)
scan_results-bound count (completes x ∷ l) = omega (arith, scan_results-bound (count + 1) l)
scan_results-bound count (asks_user x ∷ l) = omega (arith, scan_results-bound (count + 1) l)
scan_results-bound count (fails x ∷ l) = omega (arith, scan_results-bound (count + 1) l)

module _ (deps : Deps) where
  deny_each-Keeps :
      (now step_no : ℕ) (l : List (ℕ × ToolCall)) (w : Work)
      → IsSynced w
      → Returning (Keeps w) (deny_each deps now step_no l w)
  unfolding deny_each
  deny_each-Keeps now step_no [] w s = Keeps-same w s
  deny_each-Keeps now step_no ((i, c) ∷ l) w s =
      let denied_tool =
        build_deferred_tool (tools_by_name w.entries c.name)
          (deferral_text deps (is_read_only (tools_by_name w.entries) c)) in
      let first = execute_call-Keeps deps now w step_no i c (some denied_tool) s in
      let r = execute_call deps now w step_no i c (some denied_tool) in
      Returning-if (Keeps w) r.1.raises (err plain_status) (deny_each deps now step_no l r.0) refl (
        Returning-map (Keeps r.0) (Keeps w) (deny_each deps now step_no l r.0)
          (deny_each-Keeps now step_no l r.0 first.synced) (λ w' k. Keeps-trans first k))

  collected-Keeps :
      (w : Work) (n : ℕ) (others : Work → Work × List Control) (r : Result (Work × Control))
      → IsSynced w
      → ((x : Work) → IsSynced x → Keeps x (others x).0 × (length (others x).1 ≤ n))
      → Returning (CallSpec deps w 0) r
      → Keeps w (collected w others r).0 × (length (collected w others r).1 ≤ n + 1)
  collected-Keeps w n others (err e) s rest h = ((rest w s).0, omega (arith, (rest w s).1))
  collected-Keeps w n others (ok (w', x)) s rest h =
      (Keeps-trans h.0 (rest w' h.0.synced).0, omega (arith, (rest w' h.0.synced).1))

  run_read_only-Keeps :
      (now step_no : ℕ) (l : List (ℕ × ToolCall)) (w : Work)
      → IsSynced w
      → Keeps w (run_read_only deps now step_no l w).0
        × (length (run_read_only deps now step_no l w).1 ≤ length l)
  unfolding run_read_only
  run_read_only-Keeps now step_no [] w s = (Keeps-same w s, omega arith)
  run_read_only-Keeps now step_no ((i, c) ∷ l) w s =
      let both =
        collected-Keeps w (length l) (run_read_only deps now step_no l)
          (execute_single_tool_call deps now w step_no i c) s
          (λ x sx. run_read_only-Keeps now step_no l x sx)
          (execute_single_tool_call-Keeps deps now w step_no i c s) in
      (both.0, omega (arith, both.1))

  proceed-Keeps :
      (w0 : Work) (count n : ℕ) (others : Work → Result (Work × Control)) (r : Work × Control)
      → count ≤ n
      → CallSpec deps w0 0 r
      → ((x : Work) → IsSynced x → Returning (CallSpec deps x n) (others x))
      → Returning (CallSpec deps w0 n) (proceed count others r)
  proceed-Keeps w0 count n others (w, no_control) le h rest =
      Returning-map (CallSpec deps w n) (CallSpec deps w0 n) (others w) (rest w h.0.synced)
        (λ r k. (Keeps-trans h.0 k.0, k.1))
  proceed-Keeps w0 count n others (w, waits_approval m) le h rest = (h.0, le)
  proceed-Keeps w0 count n others (w, completes x) le h rest = (h.0, omega arith)
  proceed-Keeps w0 count n others (w, asks_user x) le h rest = (h.0, omega arith)
  proceed-Keeps w0 count n others (w, fails x) le h rest = (h.0, omega arith)

  run_sequential-Keeps :
      (now step_no count n : ℕ) (l : List (ℕ × ToolCall)) (w : Work)
      → count + length l ≤ n
      → IsSynced w
      → Returning (CallSpec deps w n) (run_sequential deps now step_no count l w)
  unfolding run_sequential
  run_sequential-Keeps now step_no count n [] w le s = (Keeps-same w s, omega arith)
  run_sequential-Keeps now step_no count n ((i, c) ∷ l) w le s =
      Returning-and_then (CallSpec deps w 0) (CallSpec deps w n)
        (execute_single_tool_call deps now w step_no i c)
        (proceed count (run_sequential deps now step_no (count + 1) l))
        (execute_single_tool_call-Keeps deps now w step_no i c s)
        (λ r h.
          proceed-Keeps w count n (run_sequential deps now step_no (count + 1) l) r
            (omega (arith, le)) h
            (λ x sx. run_sequential-Keeps now step_no (count + 1) n l x (omega (arith, le)) sx))

  after_read_only-Keeps :
      (now step_no n : ℕ) (l : List (ℕ × ToolCall)) (w0 w : Work) (count : ℕ ⊎ ℕ)
      → scanned count + length l ≤ n
      → Keeps w0 w
      → Returning (CallSpec deps w0 n) (after_read_only deps now step_no l w count)
  unfolding after_read_only
  after_read_only-Keeps now step_no n l w0 w (inl count) le k = (k, omega (arith, le))
  after_read_only-Keeps now step_no n l w0 w (inr count) le k =
      Returning-map (CallSpec deps w n) (CallSpec deps w0 n)
        (run_sequential deps now step_no count l w)
        (run_sequential-Keeps now step_no count n l w le k.synced) (λ r h. (Keeps-trans k h.0, h.1))

  -- The calls of an answer leave the run's status and counters as they are, and a wait for approval
  -- counts no more of them than there are.
  pub process_tool_calls-Keeps :
      (now : ℕ) (w : Work) (step_no : ℕ) (calls : List ToolCall)
      → IsSynced w
      → Returning (CallSpec deps w (length calls)) (process_tool_calls deps now w step_no calls)
  unfolding process_tool_calls
  process_tool_calls-Keeps now w step_no calls s =
      let p = plan_tool_calls (tools_by_name w.entries) deps.max_calls_per_step calls in
      let reads = where_ (is_read_only_at deps w) p.selected in
      let writes = where_ (λ c. not (is_read_only_at deps w c)) p.selected in
      Returning-and_then (Keeps w) (CallSpec deps w (length calls))
        (deny_each deps now step_no p.deferred w) _ (deny_each-Keeps now step_no p.deferred w s)
        (λ w' denied_all.
          let ran = run_read_only-Keeps now step_no reads w' denied_all.synced in
          let results = (run_read_only deps now step_no reads w').1 in
          after_read_only-Keeps now step_no (length calls) writes w _ (scan_results 0 results)
            (omega (
              arith,
              ran.1,
              scan_results-bound 0 results,
              split_length (is_read_only_at deps w) p.selected,
              length-selected (tools_by_name w.entries) deps.max_calls_per_step calls,
            ))
            (Keeps-trans denied_all ran.0))
