-- ===== src/Executor/Crash.antt =====
-- Workers that die at any point of a call, and take it up again.
use marcus.Prelude.{
  if◌then◌else◌, ◌==◌, ℕ, suc, ◌≡◌, ◌⊎◌, false, Option, none, some, List, [], ◌∷◌, nat_eq,
  string_eq,
}
use marcus.Executions.{ToolExecution, ToolCall, Store, Key, key_eq}
use marcus.Approvals.{Services}
use marcus.Executor.{reach, settled, safe_to_retry, ready, prepare, invoke_and_finalize, Prepared}
use marcus.Executor.Prepare.{is_started}
use marcus.Run.Status.{tier_eq}
use marcus.Tools.{Tool}

-- Where a worker dies during one attempt: not at all; after the write-ahead commit; or after the
-- handler has run and before its result is committed.
pub data Crash : Type 0 where
  no_crash before_handler before_commit : Crash

pub record Attempt : Type 0 where
  pub key : Key
  pub call : ToolCall
  pub tool : Option Tool
  pub crash : Crash

-- A row whose handler will not be called again.
abbrev pub IsOver : ToolExecution → Type 0
IsOver e = (is_started e.status ≡ false) ⊎ (safe_to_retry e ≡ false)

-- How often the outside world has seen the call.
unfoldable pub times : Key → List Key → ℕ
times k [] = 0
times k (j ∷ js) = if j == k then suc (times k js) else times k js

module _ (services : Services) where
  abbrev pub crashed : Crash → Store → ToolExecution → Tool → Store
  crashed no_crash s e tool = (invoke_and_finalize services s e tool).0
  crashed before_handler s e tool = s
  crashed before_commit s e tool = reach services s e

  abbrev pub attempt_prepared : Crash → Option Tool → Prepared → Store
  attempt_prepared crash tool (settled s o) = s
  attempt_prepared crash none (ready s e) = s
  attempt_prepared crash (some tool) (ready s e) = crashed crash s e tool

  unfoldable pub attempt : Store → Attempt → Store
  attempt s a = attempt_prepared a.crash a.tool (prepare services s a.key a.call a.tool)

  unfoldable pub attempts : Store → List Attempt → Store
  attempts s [] = s
  attempts s (a ∷ as') = attempts (attempt s a) as'
