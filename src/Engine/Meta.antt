-- ===== src/Engine/Meta.antt =====
-- The tools that harness/runtime/engine.py adds to those of a run: the schemas and tools of
-- harness/runtime/native_tools.py, with the handlers that the engine gives them. A tool's
-- description is kept beside it, and `s[:140]` is a parameter.
use marcus.Prelude.{
  if◌then◌else◌, ltb, where_, ◌==◌, ℕ, String, true, none, some, List, [], ◌∷◌, nat_eq, string_eq,
}
use marcus.Engine.Plan.{Tools}
use marcus.Mcp.{
  count_name, canonical_tool_name, McpTables, build_mcp_tool, McpClient, list_tools, McpTool,
  McpServer,
}
use marcus.Prelude.Json.{nil, obj, arr, Items, end, has, text, cons, Json, Fields, field}
use marcus.Repository.{is_none}
use marcus.Run.Status.{read_only}
use marcus.Tools.{HandlerResult, returned, other_error, Tool}

abbrev pub texts : List String → Items
texts [] = nil
texts (s ∷ rest) = cons (text s) (texts rest)

abbrev object_schema : Fields → List String → Fields
object_schema properties required =
    field "type" (text "object")
      (field "properties" (obj properties) (field "required" (arr (texts required)) end))

abbrev string_property : String → Json
string_property description =
    obj (field "type" (text "string") (field "description" (text description) end))

abbrev pub finish_tool_schema : Fields
finish_tool_schema =
    object_schema
      (field "result"
        (obj (field "description" (text "The final result or answer for the goal.") end))
        (field "summary" (string_property "Brief summary of what was done.") (
          field "outcome"
            (obj (
              field "type" (text "string") (
                field "enum" (arr (texts ("succeeded" ∷ "failed" ∷ []))) (
                  field "description"
                    (text "Whether the requested goal actually succeeded. Defaults to succeeded.")
                    end))))
            end)))
      ("result" ∷ [])

abbrev pub ask_user_tool_schema : Fields
ask_user_tool_schema =
    object_schema (field "question" (string_property "The question to ask the user.") end)
      ("question" ∷ [])

abbrev pub list_tool_domains_schema : Fields
list_tool_domains_schema = object_schema end []

abbrev pub list_domain_tools_schema : Fields
list_domain_tools_schema =
    object_schema
      (field "domain" (string_property "A domain name returned by list_tool_domains.") end)
      ("domain" ∷ [])

abbrev pub load_tool_schema : Fields
load_tool_schema =
    object_schema (field "name" (string_property "A tool name returned by list_domain_tools.") end)
      ("name" ∷ [])

abbrev pub use_skill_schema : Fields
use_skill_schema =
    object_schema
      (field "name" (string_property "A skill name from the published skill catalog.") end)
      ("name" ∷ [])

-- A tool under the name that the model calls it by.
pub record Entry : Type 0 where
  pub exposed_name : String
  pub tool : Tool
  pub description : String

-- `self.tools_by_name`
unfoldable pub tools_by_name : List Entry → Tools
tools_by_name [] name = none
tools_by_name (x ∷ rest) name =
    if x.exposed_name == name then some x.tool else tools_by_name rest name

-- `self.tools_by_name.setdefault(…)`
abbrev pub setdefault : Entry → List Entry → List Entry
setdefault x [] = x ∷ []
setdefault x (y ∷ rest) =
    if y.exposed_name == x.exposed_name then y ∷ rest else y ∷ setdefault x rest

abbrev pub exposed : McpClient → List (McpServer × McpTool) → McpServer → McpTool → String
exposed client pairs server t =
    if ltb 1 (count_name t.name pairs) then canonical_tool_name client server t.name else t.name

abbrev pub merge_tools :
    McpClient → List (McpServer × McpTool) → List (McpServer × McpTool) → List Entry → List Entry
merge_tools client all_pairs [] entries = entries
merge_tools client all_pairs ((server, t) ∷ rest) entries =
    let name = exposed client all_pairs server t in
    merge_tools client all_pairs rest (
      setdefault
        (record {
          exposed_name = name;
          tool = build_mcp_tool client server t name;
          description = t.description;
        })
        entries)

-- `_ensure_mcp_tools_loaded`, on an engine that has not loaded them
unfoldable pub ensure_mcp_tools_loaded : McpClient → McpTables → ℕ → List Entry → List Entry
ensure_mcp_tools_loaded client tables tenant entries =
    let pairs = list_tools tables tenant in merge_tools client pairs pairs entries

abbrev pub builtin_tools : List Entry → List Entry
builtin_tools entries = where_ (λ (x : Entry). is_none x.tool.mcp_server_id) entries

-- The tools of the engine are read-only and idempotent.
abbrev pub meta_tool : String → Fields → (Fields → HandlerResult) → Tool
meta_tool name parameters handler = record {
  name = name;
  parameters = parameters;
  handler = λ n arguments. handler arguments;
  risk_tier = read_only;
  idempotent = true;
  mcp_server_id = none;
}

abbrev pub finish_handler : Fields → HandlerResult
finish_handler arguments =
    if has "result" arguments
    then returned (obj arguments)
    else other_error "finish requires a 'result' field"

abbrev pub ask_user_handler : Fields → HandlerResult
ask_user_handler arguments =
    if has "question" arguments
    then returned (obj arguments)
    else other_error "ask_user requires a 'question' field"

abbrev pub finish_tool : Tool
finish_tool = meta_tool "finish" finish_tool_schema finish_handler

abbrev pub ask_user_tool : Tool
ask_user_tool = meta_tool "ask_user" ask_user_tool_schema ask_user_handler
