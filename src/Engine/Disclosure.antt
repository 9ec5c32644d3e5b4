-- ===== src/Engine/Disclosure.antt =====
-- The handlers by which a run of harness/runtime/engine.py finds its tools and skills: domains, the
-- tools of a domain, the schema of one, and a published skill. `str(uuid)` and `s[:140]` are
-- parameters.
use marcus.Prelude.{
  if◌then◌else◌, length, where_, any, ◌==◌, ℕ, String, Bool, ◌&&◌, Option, none, some, List, [],
  ◌∷◌, nat_eq, string_eq,
}
use marcus.Coding.Evidence.{get_or_null}
use marcus.Engine.Meta.{
  builtin_tools, meta_tool, use_skill_schema, load_tool_schema, exposed, list_tool_domains_schema,
  tools_by_name, list_domain_tools_schema, texts, Entry,
}
use marcus.Mcp.{McpTool, McpClient, list_tools, list_servers, McpTables, McpServer}
use marcus.Prelude.Json.{
  bool, Json, int, field, text, end, Items, nil, arr, pos, cons, get, obj, Fields, null, decimal,
}
use marcus.Prelude.Texts.{concat}
use marcus.Repository.{is_none}
use marcus.Skills.Registry.{Catalog, SkillRevision, Skill, get_active_revision_by_skill_name}
use marcus.Tools.{HandlerResult, Tool, returned}

pub record Catalogs : Type 0 where
  pub client : McpClient
  pub tables : McpTables
  pub skills : Catalog
  pub entries : List Entry
  pub cut : String → String
  pub str : Json → String
  pub id_text : ℕ → String

module _ (catalogs : Catalogs) (tenant : ℕ) where
  open catalogs use {client, tables, skills, entries, cut, str, id_text}

  abbrev pairs : List (McpServer × McpTool)
  pairs = list_tools tables tenant

  abbrev domain_entry : String → ℕ → Json
  domain_entry name count =
      obj (field "name" (text name) (field "tool_count" (int (pos count)) end))

  abbrev pub domains : List McpServer → Items
  domains [] =
      if length (builtin_tools entries) == 0
      then nil
      else cons (domain_entry "builtin" (length (builtin_tools entries))) nil
  domains (s ∷ rest) =
      if s.enabled
      then cons
          (domain_entry s.name
            (length (where_ (λ (p : McpServer × McpTool). p.0.name == s.name) pairs)))
          (domains rest)
      else domains rest

  unfoldable pub list_tool_domains : Fields → HandlerResult
  list_tool_domains arguments =
      returned (obj (field "domains" (arr (domains (list_servers tables tenant))) end))

  abbrev tool_entry : String → String → Json
  tool_entry name description =
      obj (field "name" (text name) (field "summary" (text (cut description)) end))

  abbrev builtin_entries : List Entry → Items
  builtin_entries [] = nil
  builtin_entries (x ∷ rest) = cons (tool_entry x.tool.name x.description) (builtin_entries rest)

  abbrev domain_entries : String → List (McpServer × McpTool) → Items
  domain_entries domain [] = nil
  domain_entries domain ((server, t) ∷ rest) =
      if server.name == domain
      then cons (tool_entry (exposed client pairs server t) t.description)
          (domain_entries domain rest)
      else domain_entries domain rest

  abbrev error_result : String → HandlerResult
  error_result message = returned (obj (field "error" (text message) end))

  -- `f"{value}"`
  abbrev shown : Json → String
  shown v = str v

  abbrev pub tools_of_domain : String → HandlerResult
  tools_of_domain domain =
      if domain == "builtin"
      then returned (obj (field "tools" (arr (builtin_entries (builtin_tools entries))) end))
      else if any (λ (s : McpServer). s.name == domain && s.enabled) (list_servers tables tenant)
      then returned (obj (field "tools" (arr (domain_entries domain pairs)) end))
      else error_result (concat "unknown domain: " domain)

  unfoldable pub list_domain_tools : Fields → HandlerResult
  list_domain_tools arguments = elim (get_or_null "domain" arguments) [
    | text domain ↦ tools_of_domain domain
    | null ↦ error_result (concat "unknown domain: " (shown null))
    | bool b ↦ error_result (concat "unknown domain: " (shown (bool b)))
    | int n ↦ error_result (concat "unknown domain: " (shown (int n)))
    | decimal d ↦ error_result (concat "unknown domain: " (shown (decimal d)))
    | arr xs ↦ error_result (concat "unknown domain: " (shown (arr xs)))
    | obj fs ↦ error_result (concat "unknown domain: " (shown (obj fs)))
  ]

  -- The name that a call asks for; any other value than a text names nothing.
  abbrev pub requested_name : Fields → Option String
  requested_name arguments = elim (get "name" arguments) [
    | none ↦ none
    | some (text name) ↦ if name == "" then none else some name
    | some _ ↦ none
  ]

  abbrev unknown_result : String → Fields → HandlerResult
  unknown_result what arguments = error_result (concat what (shown (get_or_null "name" arguments)))

  unfoldable pub load_tool : Fields → HandlerResult
  load_tool arguments = elim (requested_name arguments) [
    | none ↦ unknown_result "unknown tool: " arguments
    | some name ↦ elim (tools_by_name entries name) [
      | none ↦ unknown_result "unknown tool: " arguments
      | some t ↦ returned (obj (field "name" (text t.name) (field "schema" (obj t.parameters) end)))
    ]
  ]

  -- name not in self.tools_by_name
  abbrev pub is_missing : String → Bool
  is_missing name = is_none (tools_by_name entries name)

  abbrev pub offered_skill : Skill × SkillRevision → HandlerResult
  offered_skill (s, r) =
      let missing_tools = where_ is_missing r.required_tools in
      if length missing_tools == 0
      then returned (
          obj (
            field "name" (text s.name) (
              field "revision_id" (text (id_text r.id)) (
                field "version" (int (pos r.version)) (
                  field "instruction" (text r.instruction)
                    (field "required_tools" (arr (texts r.required_tools)) end))))))
      else returned (
          obj (
            field "error" (text "skill required tools are unavailable")
              (field "missing_tools" (arr (texts missing_tools)) end)))

  unfoldable pub use_skill : Fields → HandlerResult
  use_skill arguments = elim (requested_name arguments) [
    | none ↦ unknown_result "unknown published skill: " arguments
    | some name ↦ elim (get_active_revision_by_skill_name tenant name skills) [
      | none ↦ unknown_result "unknown published skill: " arguments
      | some active ↦ offered_skill active
    ]
  ]

  unfoldable pub list_domains_tool : Tool
  unfolding list_tool_domains
  list_domains_tool = meta_tool "list_tool_domains" list_tool_domains_schema list_tool_domains

  unfoldable pub list_domain_tools_tool : Tool
  unfolding list_domain_tools
  list_domain_tools_tool = meta_tool "list_domain_tools" list_domain_tools_schema list_domain_tools

  unfoldable pub load_tool_tool : Tool
  unfolding load_tool
  load_tool_tool = meta_tool "load_tool" load_tool_schema load_tool

  unfoldable pub use_skill_tool : Tool
  unfolding use_skill
  use_skill_tool = meta_tool "use_skill" use_skill_schema use_skill
