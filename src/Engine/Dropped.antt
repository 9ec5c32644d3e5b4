-- ===== src/Engine/Dropped.antt =====
-- What `_process_tool_calls` of harness/runtime/engine.py makes of the results of read-only calls.
use marcus.Prelude.{◌≡◌, Bool, true, false}
use marcus.Engine.Control.{Control, no_control, fails, completes, asks_user, waits_approval}
use marcus.Engine.Plan.{Planned}
use marcus.Engine.State.{Work}
use marcus.Errors.{Result, ok, err, plain_status}

abbrev pub is_quiet : Control → Bool
is_quiet no_control = true
is_quiet (waits_approval n) = true
is_quiet (completes fields) = false
is_quiet (asks_user fields) = false
is_quiet (fails reason) = false

abbrev pub IsQuiet : Result (Work × Control) → Type 0
IsQuiet (ok (w, c)) = is_quiet c ≡ true
IsQuiet (err e) = e ≡ plain_status

-- The deferred calls are denied, or an approval's status is a plain text.
abbrev IsDenied : Result Work → Type 0
IsDenied (ok w) = Unit
IsDenied (err e) = e ≡ plain_status
