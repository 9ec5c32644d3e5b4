-- ===== src/Coding/Coherent.antt =====
-- What a contract of marcus_code/runtime/task_contract.py promises, whatever the request says.
use marcus.Prelude.{
  String, ◌≡◌, ◌≢◌, ◌↔◌, true, arith, if◌then◌else◌, any, refl, Bool, ◌||◌, List, [], ◌∷◌,
}
use marcus.Coding.Contract.{
  TaskContract, derive_task_contract, allows, allows_mutation, requires_verification, Capability,
  TaskKind, ResponseMode, VerificationPolicy, agentic, nonempty, same_capability, direct,
}
use marcus.Coding.Patterns.{Re}

-- A contract whose parts agree with each other.
pub record IsCoherent (c : TaskContract) : Type 0 where
  pub mutation_iff_change : (allows_mutation c ≡ true) ↔ (c.kind ≡ TaskKind.change)
  pub change_is_checked :
      (c.kind ≡ TaskKind.change) ↔ (c.verification_policy ≡ VerificationPolicy.after_mutation)
  pub work_runs_commands : (allows c Capability.command ≡ true) ↔ (c.kind ≢ TaskKind.explain)
  pub commands_read : allows c Capability.command ≡ true → allows c Capability.workspace_read ≡ true
  pub checks_run_commands : requires_verification c ≡ true → allows c Capability.command ≡ true
  pub agentic_iff_capable :
      (c.response_mode ≡ ResponseMode.agentic) ↔ ((k : Capability) × (allows c k ≡ true))
  pub agentic_iff_planned : (c.response_mode ≡ ResponseMode.agentic) ↔ (c.requires_plan ≡ true)

any_capability :
    (l : List Capability)
    → (nonempty l ≡ true) ↔ ((k : Capability) × (any (same_capability k) l ≡ true))
any_capability [] = (λ h. absurd (ground arith), λ h. ground arith)
any_capability (x ∷ xs) = (λ h. (x, present x), λ h. refl)
  where
    present : (x : Capability) → same_capability x x || any (same_capability x) xs ≡ true
    present x = ground arith

mode_iff : (b : Bool) → ((if b then agentic else direct) ≡ agentic) ↔ (b ≡ true)
mode_iff b = ground arith

-- Whatever the request and the regular expressions say, the contract agrees with itself: it may
-- write exactly if the task is a change, and a change is what is verified after its mutations; it
-- may run commands exactly if the task is a change or an operation, and then it may read; a task
-- that needs verification can run commands; and it is agentic, with a plan, exactly if it has some
-- capability.
pub derive_task_contract-IsCoherent :
    (re : Re) (user_input : String) → IsCoherent (derive_task_contract re user_input)
unfolding derive_task_contract allows allows_mutation requires_verification
derive_task_contract-IsCoherent re user_input = record {
  mutation_iff_change = ground arith;
  change_is_checked = ground arith;
  work_runs_commands = ground arith;
  commands_read = ground arith;
  checks_run_commands = ground arith;
  agentic_iff_capable =
      let m = mode_iff _ in let a = any_capability _ in (λ h. a.0 (m.0 h), λ h. m.1 (a.1 h));
  agentic_iff_planned = ground arith;
}
