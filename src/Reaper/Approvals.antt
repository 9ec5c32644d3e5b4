-- ===== src/Reaper/Approvals.antt =====
-- `reap_expired_approvals` of harness/runtime/reaper.py, over the tables of approval requests and of
-- runs. `decided_at`, which no modelled code reads, is left out.
use marcus.Prelude.{
  if◌then◌else◌, ltb, where_, ◌==◌, ℕ, suc, Bool, true, false, ◌&&◌, Option, none, some, List, [],
  ◌∷◌, nat_eq,
}
use marcus.Errors.{is_ok}
use marcus.Executions.{Key, ApprovalRequest, key_eq}
use marcus.Repository.{row, checkpoint}
use marcus.Run.Row.{set_error, AgentRun}
use marcus.Run.Status.{
  rejected, timed_out, expired, approved, waiting_approval, ApprovalStatus, pending, status_eq,
}

pub record Desk : Type 0 where
  pub approvals : List ApprovalRequest
  pub runs : List AgentRun

-- The WHERE clause of the SELECT; `now` is the database's `now()`.
abbrev pub same_approval_status : ApprovalStatus → ApprovalStatus → Bool
same_approval_status pending pending = true
same_approval_status approved approved = true
same_approval_status rejected rejected = true
same_approval_status expired expired = true
same_approval_status _ _ = false

unfoldable pub is_overdue : ℕ → ApprovalRequest → Bool
is_overdue now a = same_approval_status a.status pending && ltb a.expires_at now

-- `approval.status = …` and the commit: an UPDATE of the row with this key
unfoldable pub set_approval_status :
    Key → ApprovalStatus → List ApprovalRequest → List ApprovalRequest
set_approval_status k status [] = []
set_approval_status k status (a ∷ rest) =
    if a.key == k
    then record a { status = status } ∷ rest
    else a ∷ set_approval_status k status rest

-- The new table of runs, and whether the run was timed out.
unfoldable pub time_out_run : List AgentRun → Option AgentRun → List AgentRun × Bool
time_out_run runs none = (runs, false)
time_out_run runs (some run) =
    let saved =
      checkpoint runs run (some timed_out) (set_error (some "approval request expired") ∷ []) in
    if run.status == waiting_approval then (saved.0, is_ok saved.1) else (runs, false)

-- The body of the loop, on the tables as they are when it comes to this request.
unfoldable pub expire : Desk → ApprovalRequest → Desk × Bool
unfolding time_out_run
expire d a =
    let runs = time_out_run d.runs (row a.key.run_id d.runs) in
    (record { approvals = set_approval_status a.key expired d.approvals; runs = runs.0 }, runs.1)

-- The tables, and the number of runs that timed out.
unfoldable pub expire_each : List ApprovalRequest → Desk → Desk × ℕ
expire_each [] d = (d, 0)
expire_each (a ∷ overdue) d =
    let one = expire d a in
    let rest = expire_each overdue one.0 in (rest.0, if one.1 then suc rest.1 else rest.1)

unfoldable pub reap_expired_approvals : ℕ → Desk → Desk × ℕ
reap_expired_approvals now d = expire_each (where_ (is_overdue now) d.approvals) d
