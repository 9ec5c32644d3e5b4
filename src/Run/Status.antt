-- ===== src/Run/Status.antt =====
-- harness/db/enums.py, and the transition table of harness/runtime/state_machine.py.
use marcus.Prelude.{
  ◌≡◌, ◌↔◌, Bool, true, false, List, [], ◌∷◌, arith, Eq, any, ◌==◌, if◌then◌else◌, refl,
}

pub data RunStatus : Type 0 where
  pending running waiting_user_input waiting_approval completed failed cancelled timed_out :
      RunStatus

pub data RiskTier : Type 0 where
  read_only low_risk_write sensitive_write destructive : RiskTier

pub data ToolExecutionStatus : Type 0 where
  started succeeded failed unknown : ToolExecutionStatus

pub data ApprovalStatus : Type 0 where
  pending approved rejected expired : ApprovalStatus

abbrev pub same_status : RunStatus → RunStatus → Bool
same_status pending pending = true
same_status running running = true
same_status waiting_user_input waiting_user_input = true
same_status waiting_approval waiting_approval = true
same_status completed completed = true
same_status failed failed = true
same_status cancelled cancelled = true
same_status timed_out timed_out = true
same_status _ _ = false

pub same_status_iff : (a b : RunStatus) → (same_status a b ≡ true) ↔ (a ≡ b)
same_status_iff a b = ground arith

instance abbrev pub status_eq : Eq RunStatus
status_eq = record {
  test = same_status;
  passes = λ a. (same_status_iff a a).1 refl;
  decides = λ a b. (same_status_iff a b).0;
}

abbrev pub same_tier : RiskTier → RiskTier → Bool
same_tier read_only read_only = true
same_tier low_risk_write low_risk_write = true
same_tier sensitive_write sensitive_write = true
same_tier destructive destructive = true
same_tier _ _ = false

pub same_tier_iff : (a b : RiskTier) → (same_tier a b ≡ true) ↔ (a ≡ b)
same_tier_iff a b = ground arith

instance abbrev pub tier_eq : Eq RiskTier
tier_eq = record {
  test = same_tier;
  passes = λ a. (same_tier_iff a a).1 refl;
  decides = λ a b. (same_tier_iff a b).0;
}

abbrev pub terminal_run_statuses : List RunStatus
terminal_run_statuses = completed ∷ failed ∷ cancelled ∷ timed_out ∷ []

unfoldable pub is_terminal : RunStatus → Bool
is_terminal status = any (λ s. s == status) terminal_run_statuses

abbrev pub allowed_transitions : RunStatus → List RunStatus
allowed_transitions pending = running ∷ cancelled ∷ []
allowed_transitions running =
    running ∷ waiting_user_input ∷ waiting_approval ∷ completed ∷ failed ∷ cancelled ∷ timed_out
    ∷ []
allowed_transitions waiting_user_input = running ∷ cancelled ∷ timed_out ∷ []
allowed_transitions waiting_approval = running ∷ cancelled ∷ timed_out ∷ failed ∷ []
allowed_transitions completed = []
allowed_transitions failed = []
allowed_transitions cancelled = []
allowed_transitions timed_out = []

-- `assert_valid_transition` returns (true) or raises `InvalidTransitionError` (false).
unfoldable pub is_valid_transition : RunStatus → RunStatus → Bool
is_valid_transition current target =
    if target == current then true else any (λ s. s == target) (allowed_transitions current)
