-- ===== src/Mcp.antt =====
-- harness/mcp/registry.py and harness/mcp/tools.py: the tools of the servers that a tenant has
-- registered. The client that calls a server, Python's `str` and `str.isalnum` are parameters.
use Prim.Native.Char.{Char, code}
use package.text.Mathlib.TextBridge.{of_list, to_list}
use marcus.Prelude.{
  ℕ, if◌then◌else◌, length, where_, ◌==◌, String, ◌⊎◌, inl, inr, Bool, true, false, ◌&&◌, ◌||◌,
  some, List, [], ◌∷◌, ◌++◌, nat_eq, string_eq,
}
use marcus.Coding.Evidence.{truthy, get_or_null}
use marcus.Prelude.Json.{has, obj, Fields, Json}
use marcus.Prelude.Sorting.{sorted}
use marcus.Prelude.Texts.{concat}
use marcus.Run.Status.{RiskTier}
use marcus.Skills.Selection.{text_ltb}
use marcus.Tools.{returned, HandlerResult, Tool, execution_failed, runtime_error}

pub record McpServer : Type 0 where
  pub id : ℕ
  pub tenant_id : ℕ
  pub name : String
  pub enabled : Bool

pub record McpTool : Type 0 where
  pub mcp_server_id : ℕ
  pub name : String
  pub description : String
  pub parameters : Fields
  pub risk_tier : RiskTier
  pub enabled : Bool

pub record McpTables : Type 0 where
  pub servers : List McpServer
  pub tools : List McpTool

-- `call_tool` returns a result or raises an `McpError` with this text.
pub record McpClient : Type 0 where
  pub call_tool : ℕ → McpServer → String → Fields → Fields ⊎ String
  pub str : Json → String
  pub isalnum : Char → Bool

unfoldable pub list_servers : McpTables → ℕ → List McpServer
list_servers t tenant =
    sorted (λ (a b : McpServer). text_ltb a.name b.name)
      (where_ (λ (s : McpServer). s.tenant_id == tenant) t.servers)

abbrev tools_of : McpServer → List McpTool → List (McpServer × McpTool)
tools_of s [] = []
tools_of s (t ∷ rest) =
    if t.mcp_server_id == s.id && t.enabled then (s, t) ∷ tools_of s rest else tools_of s rest

abbrev joined_tools : ℕ → List McpServer → List McpTool → List (McpServer × McpTool)
joined_tools tenant [] tools = []
joined_tools tenant (s ∷ rest) tools =
    if s.tenant_id == tenant && s.enabled
    then tools_of s tools ++ joined_tools tenant rest tools
    else joined_tools tenant rest tools

-- All enabled tools of the enabled servers of a tenant, those of one server together.
unfoldable pub list_tools : McpTables → ℕ → List (McpServer × McpTool)
list_tools t tenant = joined_tools tenant t.servers t.tools

-- `counts[name]`
abbrev pub count_name : String → List (McpServer × McpTool) → ℕ
count_name name pairs = length (where_ (λ (p : McpServer × McpTool). p.1.name == name) pairs)

module _ (client : McpClient) where
  -- `char if char.isalnum() or char in "_-" else "_"`, for each character
  abbrev pub safe_name : List Char → String
  safe_name [] = ""
  safe_name (c ∷ s) =
      concat (if client.isalnum c || (code c == 95 || code c == 45) then of_list (c ∷ []) else "_")
        (safe_name s)

  abbrev pub canonical_tool_name : McpServer → String → String
  canonical_tool_name server tool_name =
      concat (safe_name (to_list server.name)) (concat "__" tool_name)

  -- `result.get("error") or result.get("content") or "MCP tool failed"`
  abbrev pub failure_text : Fields → String
  failure_text result =
      let error = get_or_null "error" result in
      let content = get_or_null "content" result in
      if truthy error
      then client.str error
      else if truthy content
      then client.str content
      else "MCP tool failed"

  abbrev pub handled : Fields ⊎ String → HandlerResult
  handled (inr message) = runtime_error message execution_failed true
  handled (inl result) =
      if truthy (get_or_null "is_error" result) || has "error" result
      then runtime_error (failure_text result) execution_failed true
      else returned (obj result)

  abbrev pub build_mcp_tool : McpServer → McpTool → String → Tool
  build_mcp_tool server t exposed_name = record {
    name = if exposed_name == "" then t.name else exposed_name;
    parameters = t.parameters;
    handler = λ n arguments. handled (client.call_tool n server t.name arguments);
    risk_tier = t.risk_tier;
    idempotent = false;
    mcp_server_id = some server.id;
  }
