-- ===== src/Reaper/Expiry.antt =====
-- What one pass of `reap_expired_approvals` does when nothing else writes meanwhile, and how it meets
-- a decision that is made meanwhile.
use marcus.Prelude.{
  Option-cases, if◌then◌else◌, ◌==◌, ℕ, ◌≡◌, inl, inr, Option, none, some, List, [], ◌∷◌, arith,
  nat_eq, nat_beq_iff, ◌≢◌, true, where_, any, refl,
}
use marcus.Executions.{get_approval, Key, ApprovalRequest, key_eq, same_key_iff}
use marcus.Reaper.Approvals.{
  set_approval_status, time_out_run, expire_each, expire, reap_expired_approvals, Desk, is_overdue,
}
use marcus.Repository.{row, bump}
use marcus.Repository.Cell.{IsKeyed}
use marcus.Repository.Fencing.{checkpoint-IsKeyed, checkpoint-refines, checkpoint-others}
use marcus.Run.Row.{set_status, AgentRun, FieldUpdate, set_error}
use marcus.Run.Status.{
  timed_out, waiting_approval, expired, status_eq, is_valid_transition, RunStatus, running,
  approved,
}

-- A request and a run after an expiry.
abbrev pub lapsed : Option ApprovalRequest → Option ApprovalRequest
lapsed none = none
lapsed (some a) = some (record a { status = expired })

abbrev pub expiry_values : List FieldUpdate
expiry_values = set_error (some "approval request expired") ∷ set_status timed_out ∷ []

abbrev pub timed_out_row : Option AgentRun → Option AgentRun
timed_out_row none = none
timed_out_row (some r) =
    if r.status == waiting_approval then some (bump r.version expiry_values r) else some r

set_approval_status-get :
    (k j : Key) (t : List ApprovalRequest)
    → get_approval j (set_approval_status k expired t)
      ≡ (if j == k then lapsed (get_approval j t) else get_approval j t)
unfolding set_approval_status
set_approval_status-get k j [] = ground arith
set_approval_status-get k j (a ∷ t) = ground (arith, set_approval_status-get k j t)

row-id : (k : ℕ) (t : List AgentRun) (r : AgentRun) → row k t ≡ some r → r.id ≡ k
unfolding row
row-id k [] r h = ground arith
row-id k (x ∷ t) r h = ground (arith, row-id k t r, nat_beq_iff x.id k)

waiting_times_out :
    (s : RunStatus) → (s == waiting_approval) ≡ true → is_valid_transition s timed_out ≡ true
unfolding is_valid_transition
waiting_times_out s h = ground arith

module _ (runs : List AgentRun) (keyed : IsKeyed runs) where
  found_times_out :
      (r : AgentRun)
      → row r.id runs ≡ some r
      → row r.id (time_out_run runs (some r)).0 ≡ timed_out_row (some r)
  unfolding time_out_run
  found_times_out r found =
      let refines =
        checkpoint-refines runs r (some timed_out)
          (set_error (some "approval request expired") ∷ []) keyed in
      ground (arith, refines, waiting_times_out r.status, nat_beq_iff r.version r.version)

  others_stay :
      (r : AgentRun) (j : ℕ) → j ≢ r.id → row j (time_out_run runs (some r)).0 ≡ row j runs
  unfolding time_out_run
  others_stay r j ne = ground (
    arith,
    checkpoint-others runs r (some timed_out) (set_error (some "approval request expired") ∷ []) j
        ne,
  )

  time_out_run-IsKeyed : (found : Option AgentRun) → IsKeyed (time_out_run runs found).0
  unfolding time_out_run
  time_out_run-IsKeyed none = keyed
  time_out_run-IsKeyed (some r) = ground (
    arith,
    checkpoint-IsKeyed runs r (some timed_out) (set_error (some "approval request expired") ∷ [])
        keyed,
  )

  time_out_run-cell :
      (k j : ℕ)
      → row j (time_out_run runs (row k runs)).0
        ≡ (if j == k then timed_out_row (row j runs) else row j runs)
  unfolding time_out_run
  time_out_run-cell k j = elim (Option-cases (row k runs)) [
    | inl missing ↦ ground (arith, missing, nat_beq_iff j k)
    | inr (r, found) ↦
        let e = row-id k runs r found in
        ground (arith, found, e, found_times_out r, others_stay r j, nat_beq_iff j k)
  ]

lapsed_twice : (o : Option ApprovalRequest) → lapsed (lapsed o) ≡ lapsed o
lapsed_twice o = ground arith

timed_out_twice : (o : Option AgentRun) → timed_out_row (timed_out_row o) ≡ timed_out_row o
timed_out_twice none = refl
timed_out_twice (some r) = ground arith

record EachSpec (overdue : List ApprovalRequest) (d : Desk) : Type 0 where
  requests :
      (k : Key)
      → get_approval k (expire_each overdue d).0.approvals ≡ (
          if any (λ a. a.key == k) overdue
          then lapsed (get_approval k d.approvals)
          else get_approval k d.approvals)
  runs :
      (j : ℕ)
      → row j (expire_each overdue d).0.runs ≡ (
          if any (λ a. a.key.run_id == j) overdue
          then timed_out_row (row j d.runs)
          else row j d.runs)

expire_each-EachSpec :
    (overdue : List ApprovalRequest) (d : Desk) → IsKeyed d.runs → EachSpec overdue d
unfolding expire_each expire
expire_each-EachSpec [] d keyed = record { requests = λ k. refl; runs = λ j. refl }
expire_each-EachSpec (a ∷ overdue) d keyed =
    let run = row a.key.run_id d.runs in
    let rest =
      expire_each-EachSpec overdue (expire d a).0 (time_out_run-IsKeyed d.runs keyed run) in
    record {
      requests = λ k. ground (
        arith,
        rest.requests k,
        set_approval_status-get a.key k d.approvals,
        lapsed_twice (get_approval k d.approvals),
        same_key_iff k a.key,
        same_key_iff a.key k,
      );
      runs = λ j. ground (
        arith,
        rest.runs j,
        time_out_run-cell d.runs keyed a.key.run_id j,
        timed_out_twice (row j d.runs),
        nat_beq_iff j a.key.run_id,
        nat_beq_iff a.key.run_id j,
      );
    }

-- One pass at `now`, when nothing else writes meanwhile: the requests that were pending and past
-- their deadline are expired and every other stays as it was; the runs of those requests that were
-- waiting for approval are timed out with the reason and the next version, and every other run stays
-- as it was.
pub reap_expired_approvals_exact :
    (now : ℕ) (d : Desk)
    → IsKeyed d.runs
    → let overdue = where_ (is_overdue now) d.approvals in
      let after = (reap_expired_approvals now d).0 in
      ((k : Key)
        → get_approval k after.approvals ≡ (
            if any (λ a. a.key == k) overdue
            then lapsed (get_approval k d.approvals)
            else get_approval k d.approvals))
      × ((j : ℕ)
          → row j after.runs ≡ (
              if any (λ a. a.key.run_id == j) overdue
              then timed_out_row (row j d.runs)
              else row j d.runs))
unfolding reap_expired_approvals
reap_expired_approvals_exact now d keyed =
    let spec = expire_each-EachSpec (where_ (is_overdue now) d.approvals) d keyed in
    (spec.requests, spec.runs)

-- The comment in the loop says that a run which has moved on, in a race with a manual decision, is
-- left alone. The run is, but the decision is not: where the request has been approved between the
-- SELECT and the loop and its run is running again, the loop makes the request an expired one.
pub reaper_overwrites_decision :
    (d : Desk) (a current : ApprovalRequest) (run : AgentRun)
    → get_approval a.key d.approvals ≡ some current
    → current.status ≡ approved
    → row a.key.run_id d.runs ≡ some run
    → run.status ≡ running
    → (get_approval a.key (expire d a).0.approvals ≡ some (record current { status = expired }))
      × ((expire d a).0.runs ≡ d.runs)
unfolding expire time_out_run
reaper_overwrites_decision d a current run found approved_ there goes_on = (
  ground (arith, set_approval_status-get a.key a.key d.approvals, same_key_iff a.key a.key),
  ground arith,
)
