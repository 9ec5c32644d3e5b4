-- ===== src/Executions.antt =====
-- The tables of harness/runtime/tool_executor.py: `ToolExecution` and `ApprovalRequest` of
-- harness/db/models.py, newest row first; a row's id is the number of rows before it. `invoked` is
-- no table: it records which calls have reached the outside world, newest first. Timestamps that no
-- modelled code reads are left out.
pub mod Rows
use marcus.Prelude.{
  if◌then◌else◌, first_where, length, ◌==◌, Eq, ℕ, String, ◌≡◌, ◌↔◌, Bool, true, ◌&&◌, Option, none,
  List, [], ◌∷◌, arith, nat_eq, refl,
}
use marcus.Prelude.Json.{Fields}
use marcus.Run.Status.{RiskTier, ToolExecutionStatus, ApprovalStatus}
use marcus.Tools.{Tool}

-- f"{run.id}:{step_no}:{call_index}", which determines its three parts
pub record Key : Type 0 where
  pub run_id : ℕ
  pub step_no : ℕ
  pub call_index : ℕ

abbrev pub same_key : Key → Key → Bool
same_key a b = a.run_id == b.run_id && (a.step_no == b.step_no && a.call_index == b.call_index)

pub same_key_iff : (a b : Key) → (same_key a b ≡ true) ↔ (a ≡ b)
same_key_iff a b = ground arith

instance abbrev pub key_eq : Eq Key
key_eq = record {
  test = same_key;
  passes = λ a. (same_key_iff a a).1 refl;
  decides = λ a b. (same_key_iff a b).0;
}

pub record ToolExecution : Type 0 where
  pub id : ℕ
  pub key : Key
  pub tool_name : String
  pub mcp_server_id : Option ℕ
  pub risk_tier : RiskTier
  pub idempotent : Bool
  pub args : Fields
  pub status : ToolExecutionStatus
  pub result : Option Fields
  pub error : Option String

pub record ApprovalRequest : Type 0 where
  pub key : Key
  pub tool_name : String
  pub risk_tier : RiskTier
  pub args : Fields
  pub status : ApprovalStatus
  pub reason : Option String
  pub expires_at : ℕ

pub record Store : Type 0 where
  pub executions : List ToolExecution
  pub approvals : List ApprovalRequest
  pub invoked : List Key

pub record ToolCall : Type 0 where
  pub id : String
  pub name : String
  pub arguments : Fields

-- _get_existing
unfoldable pub get_existing : Key → List ToolExecution → Option ToolExecution
get_existing k rows = first_where (λ e. e.key == k) rows

-- An attribute write on a row and the commit after it.
unfoldable pub save_execution : ToolExecution → List ToolExecution → List ToolExecution
save_execution e [] = []
save_execution e (x ∷ rows) = if x.key == e.key then e ∷ rows else x ∷ save_execution e rows

abbrev pub new_execution :
    Store → Key → Tool → Fields → ToolExecutionStatus → Option String → ToolExecution
new_execution s k tool args status error = record {
  id = length s.executions;
  key = k;
  tool_name = tool.name;
  mcp_server_id = tool.mcp_server_id;
  risk_tier = tool.risk_tier;
  idempotent = tool.idempotent;
  args = args;
  status = status;
  result = none;
  error = error;
}

-- session.add and commit
abbrev pub add_execution : Store → ToolExecution → Store
add_execution s e = record s { executions = e ∷ s.executions }

abbrev pub get_approval : Key → List ApprovalRequest → Option ApprovalRequest
get_approval k rows = first_where (λ a. a.key == k) rows
