-- ===== src/Coding/Trimming.antt =====
-- marcus_code/runtime/token_utils.py: how a conversation is cut down to a number of messages or of
-- tokens. `orjson.loads`, the JSON text of a list of calls, and whether the lower-case `str` of a
-- value has the word "verification" in it are parameters.
use Prim.Native.Char.{Char, code}
use package.text.Mathlib.TextBridge.{to_list}
use marcus.Prelude.{
  ℕ, ltb, leb, if◌then◌else◌, any, where_, length, ◌==◌, suc, ◌+◌, ◌-◌, ◌*◌, ◌/◌, max, String, Bool,
  true, false, not, ◌&&◌, ◌||◌, Option, none, some, List, [], ◌∷◌, ◌++◌, nat_eq, string_eq,
}
use marcus.Coding.Evidence.{equals_zero}
use marcus.Executions.{ToolCall}
use marcus.Llm.{Role, LlmMessage, same_role, tool_role, user_role, assistant_role, system_role}
use marcus.Prelude.Json.{obj, Json, get, has, has_text}
use marcus.Prelude.Sorting.{sorted}
use marcus.Prelude.Texts.{concat, or_text}

pub record Reading : Type 0 where
  pub loads : String → Option Json
  pub calls_text : List ToolCall → String
  pub mentions_verification : Json → Bool

-- A message with its place in the conversation.
abbrev pub Placed : Type 0
Placed = ℕ × LlmMessage

abbrev pub place : ℕ → List LlmMessage → List Placed
place i [] = []
place i (m ∷ ms) = (i, m) ∷ place (suc i) ms

abbrev pub is_role : Role → LlmMessage → Bool
is_role r m = same_role m.role r

-- A request for tools, which opens a group.
abbrev pub asks_tools : LlmMessage → Bool
asks_tools m = is_role assistant_role m && ltb 0 (length m.tool_calls)

-- `_atomic_message_groups`; `open_group` is the request that the last tool results belong to.
unfoldable pub groups_from : Option (List Placed) → List Placed → List (List Placed)
groups_from none [] = []
groups_from (some g) [] = g ∷ []
groups_from none (p ∷ rest) =
    if asks_tools p.1 then groups_from (some (p ∷ [])) rest else (p ∷ []) ∷ groups_from none rest
groups_from (some g) (p ∷ rest) =
    if is_role tool_role p.1
    then groups_from (some (g ++ p ∷ [])) rest
    else if asks_tools p.1
    then g ∷ groups_from (some (p ∷ [])) rest
    else g ∷ (p ∷ []) ∷ groups_from none rest

-- The place of the latest message of the user.
abbrev pub latest_user : Option ℕ → List Placed → Option ℕ
latest_user found [] = found
latest_user found (p ∷ rest) = latest_user (if is_role user_role p.1 then some p.0 else found) rest

abbrev pub is_protected : Bool → Bool → Option ℕ → Placed → Bool
is_protected preserve_system preserve_latest_user latest p =
    preserve_system && is_role system_role p.1
    || preserve_latest_user && elim latest [ none ↦ false | some i ↦ p.0 == i ]

abbrev pub role_score : Role → ℕ
role_score system_role = 1000
role_score user_role = 500
role_score assistant_role = 300
role_score tool_role = 100

abbrev pub code_indicators : String
code_indicators = "{}[]()=;|&<>!+-*/%:\\\\'\""

abbrev pub char_in : Char → List Char → Bool
char_in c l = any (λ d. code d == code c) l

-- indicators / max(1, len(text)) > 0.03
abbrev pub is_mostly_code : List Char → Bool
is_mostly_code s =
    ltb (3 * length s) (100 * length (where_ (λ c. char_in c (to_list code_indicators)) s))

-- A group, with its number, its weight, its score, and whether it has to stay.
pub record Group : Type 0 where
  pub number : ℕ
  pub members : List Placed
  pub weight : ℕ
  pub score : ℕ
  pub kept : Bool

-- (score, number)
abbrev pub goes_before : Group → Group → Bool
goes_before a b = if ltb a.score b.score then true else a.score == b.score && ltb a.number b.number

-- The numbers that go, of the groups in the order in which they are dropped, until what is left
-- fits.
unfoldable pub dropped : ℕ → ℕ → List Group → List ℕ
dropped limit left_over [] = []
dropped limit left_over (g ∷ rest) =
    let others = dropped limit left_over rest in
    let fewer = dropped limit (left_over - g.weight) rest in
    if g.kept
    then others
    else if leb (left_over - g.weight) limit
    then g.number ∷ []
    else g.number ∷ fewer

abbrev pub is_kept : List ℕ → Group → Bool
is_kept gone g = not (any (λ n. n == g.number) gone)

abbrev pub messages_of : List Placed → List LlmMessage
messages_of [] = []
messages_of (p ∷ rest) = p.1 ∷ messages_of rest

abbrev pub joined_groups : List Group → List LlmMessage
joined_groups [] = []
joined_groups (g ∷ rest) = messages_of g.members ++ joined_groups rest

abbrev pub sum_of : (LlmMessage → ℕ) → List Placed → ℕ
sum_of weigh [] = 0
sum_of weigh (p ∷ rest) = weigh p.1 + sum_of weigh rest

module _ (reading : Reading) where
  open reading use {loads, calls_text, mentions_verification}

  abbrev pub suffix : String → Option String → String → String
  suffix before none after = ""
  suffix before (some s) after = if s == "" then "" else concat before (concat s after)

  abbrev pub counted_text : LlmMessage → List Char
  counted_text m = to_list (
      concat (or_text m.content "") (
        concat (if length m.tool_calls == 0 then "" else calls_text m.tool_calls)
          (concat (suffix "\n[" m.name "]") (suffix "\n(id: " m.tool_call_id ")"))))

  -- `int(len(content) / ratio)`, for a ratio of 3.5 or 4
  unfoldable pub estimate_message_tokens : LlmMessage → ℕ
  estimate_message_tokens m =
      let s = counted_text m in 4 + (if is_mostly_code s then 2 * length s / 7 else length s / 4)

  -- What a tool's result adds to the score of its message.
  abbrev pub result_score : Option Json → ℕ
  result_score (some (obj d)) =
      (if elim (get "exit_code" d) [ none ↦ false | some v ↦ not (equals_zero v) ] || has "error" d
        then 150
        else 0)
      + (if has_text "status" "ok" d && mentions_verification (obj d) then 100 else 0)
  result_score _ = 0

  abbrev pub message_score : LlmMessage → ℕ
  message_score m =
      role_score m.role
      + (if is_role tool_role m && not (or_text m.content "" == "")
          then result_score (loads (or_text m.content ""))
          else 0)

  abbrev pub group_score : List Placed → ℕ
  group_score [] = 0
  group_score (p ∷ rest) = max (message_score p.1) (group_score rest)

  abbrev pub numbered : (LlmMessage → ℕ) → (Placed → Bool) → ℕ → List (List Placed) → List Group
  numbered weigh protects n [] = []
  numbered weigh protects n (g ∷ rest) =
      record {
        number = n;
        members = g;
        weight = sum_of weigh g;
        score = group_score g;
        kept = any protects g;
      }
      ∷ numbered weigh protects (suc n) rest

  -- The two trimmings, which differ in what a message weighs.
  unfoldable pub trim_messages :
      (LlmMessage → ℕ) → ℕ → Bool → Bool → List LlmMessage → List LlmMessage
  unfolding groups_from dropped sorted
  trim_messages weigh limit preserve_system preserve_latest_user messages =
      let placed = place 0 messages in
      let protects = is_protected preserve_system preserve_latest_user (latest_user none placed) in
      let groups = numbered weigh protects 0 (groups_from none placed) in
      let total = sum_of weigh placed in
      let gone = dropped limit total (sorted goes_before groups) in
      if leb total limit then messages else joined_groups (where_ (is_kept gone) groups)

  unfoldable pub trim_messages_to_count : ℕ → Bool → Bool → List LlmMessage → List LlmMessage
  unfolding trim_messages
  trim_messages_to_count max_messages = trim_messages (λ m. 1) max_messages

  unfoldable pub trim_messages_to_budget : ℕ → Bool → Bool → List LlmMessage → List LlmMessage
  unfolding trim_messages estimate_message_tokens
  trim_messages_to_budget token_budget = trim_messages estimate_message_tokens token_budget
