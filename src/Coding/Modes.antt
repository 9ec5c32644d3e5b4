-- ===== src/Coding/Modes.antt =====
-- marcus_code/runtime/modes.py: which tools a mode allows, and which need the user's approval. The
-- search for a dangerous command is made by Python's `re`, and the lower-casing and `str` of an
-- argument are Python's; they are parameters.
use marcus.Prelude.{
  if◌then◌else◌, any, ◌==◌, String, ◌≡◌, ◌↔◌, Bool, true, false, not, ◌&&◌, ◌||◌, none, some, List,
  [], ◌∷◌, arith, string_eq,
}
use marcus.Guardrails.{requires_approval}
use marcus.Prelude.Json.{Fields, get, Json, text}
use marcus.Run.Status.{RiskTier, sensitive_write, destructive, read_only, tier_eq}

pub data AgentMode : Type 0 where
  ask agent auto yolo : AgentMode

unfoldable pub dangerous_command_patterns : List String
dangerous_command_patterns =
    "git\\s+push\\b" ∷ "git\\s+reset\\b.*--hard" ∷ "git\\s+clean\\b.*-[^\\s]*[fd]"
    ∷ "\\b(rm|rmdir|remove-item)\\b.*(-r|-recurse|/s|--force)"
    ∷ "\\b(drop|truncate)\\s+(table|database)\\b" ∷ "\\bdelete\\s+from\\b"
    ∷ "\\b(shutdown|reboot|restart-computer|stop-computer)\\b" ∷ []

unfoldable pub tool_is_allowed : AgentMode → RiskTier → Bool
tool_is_allowed ask tier = tier == read_only
tool_is_allowed _ tier = true

pub record Commands : Type 0 where
  pub search : String → String → Bool
  pub lower : String → String
  pub str : Json → String

module _ (commands : Commands) where
  open commands use {search, lower, str}

  unfoldable pub command_requires_approval : String → Bool
  unfolding dangerous_command_patterns
  command_requires_approval line =
      let lowered = lower line in any (λ p. search p lowered) dangerous_command_patterns

  unfoldable pub tool_requires_approval : AgentMode → String → RiskTier → Fields → Bool
  unfolding command_requires_approval
  tool_requires_approval ask tool_name tier arguments = false
  tool_requires_approval yolo tool_name tier arguments = false
  tool_requires_approval agent tool_name tier arguments =
      any (λ t. t == tier) (sensitive_write ∷ destructive ∷ [])
  tool_requires_approval auto tool_name tier arguments =
      let command_line : Json = elim (get "command" arguments) [ none ↦ text "" | some v ↦ v ] in
      if tool_name == "run_cli" || tool_name == "start_process"
      then command_requires_approval (str command_line)
      else false

  -- A call is run unasked in a mode: it is allowed there and needs no approval.
  abbrev pub runs_unasked : AgentMode → String → RiskTier → Fields → Bool
  runs_unasked mode tool_name tier arguments =
      tool_is_allowed mode tier && not (tool_requires_approval mode tool_name tier arguments)

  -- The modes are ordered: whatever the `ask` mode runs unasked, the `agent` mode does too, and
  -- whatever any mode runs unasked, the `yolo` mode does. In `agent` mode the tools that run unasked
  -- are exactly those that the runtime of harness/ does not hold back for approval.
  pub modes_are_ordered :
      (mode : AgentMode) (tool_name : String) (tier : RiskTier) (arguments : Fields)
      → (runs_unasked ask tool_name tier arguments ≡ true
          → runs_unasked agent tool_name tier arguments ≡ true)
        × (runs_unasked mode tool_name tier arguments ≡ true
            → runs_unasked yolo tool_name tier arguments ≡ true)
        × ((runs_unasked agent tool_name tier arguments ≡ true) ↔ (requires_approval tier ≡ false))
  unfolding tool_is_allowed tool_requires_approval requires_approval
  modes_are_ordered mode tool_name tier arguments = (ground arith, ground arith, ground arith)
