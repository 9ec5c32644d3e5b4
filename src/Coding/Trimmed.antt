-- ===== src/Coding/Trimmed.antt =====
-- Trimming of marcus_code/runtime/token_utils.py leaves a conversation that a model accepts.
use mathlib.Core.List.{append_assoc, append-nil}
use mathlib.Core.Path.{subst}
use marcus.Prelude.{
  Bool-cases, All, ℕ, suc, ◌≡◌, refl, sym, ap, ◌∙◌, ◌≢◌, inl, inr, true, false, none, some, List,
  [], ◌∷◌, ◌++◌, arith, ltb, if◌then◌else◌, leb, where_, length, All-where_, Bool,
}
use marcus.Coding.Trimming.{
  asks_tools, Placed, messages_of, groups_from, place, estimate_message_tokens, numbered, dropped,
  is_kept, sum_of, trim_messages_to_budget, latest_user, Group, joined_groups, trim_messages,
  Reading, is_protected, goes_before, trim_messages_to_count,
}
use marcus.Executions.{ToolCall}
use marcus.Llm.{same_role, LlmMessage, tool_role, Role, assistant_role}
use marcus.Llm.Paired.{
  all_answered, answered, silence, plain, exchange, Answers, IsPaired, IsPaired-append,
}
use marcus.Prelude.Sorting.{sorted}

pub not_tool : (r : Role) → r ≢ tool_role → same_role r tool_role ≡ false
not_tool r ne = ground (arith, ne)

pub assistant_is_no_tool : (r : Role) → r ≡ assistant_role → same_role r tool_role ≡ false
assistant_is_no_tool r e = ground (arith, e)

empty_reply : {cs : List ToolCall} {rs : List LlmMessage} → Answers cs rs → cs ≡ [] → rs ≡ []
empty_reply all_answered e = refl
empty_reply (answered role id rest) e = cc

messages_of-append : (g h : List Placed) → messages_of (g ++ h) ≡ messages_of g ++ messages_of h
messages_of-append [] h = refl
messages_of-append (p ∷ g) h = ap (λ l. p.1 ∷ l) (messages_of-append g h)

abbrev GroupPaired : List Placed → Type 0
GroupPaired g = IsPaired (messages_of g)

-- What follows the results of a request starts a group of its own.
closed_group :
    {ms : List LlmMessage}
    → IsPaired ms
    → (g : List Placed) (j : ℕ)
    → groups_from (some g) (place j ms) ≡ g ∷ groups_from none (place j ms)
unfolding groups_from
closed_group silence g j = refl
closed_group (plain {m} bare role p) g j = ground (arith, not_tool m.role role)
closed_group (exchange {m} role ans p) g j = ground (arith, assistant_is_no_tool m.role role)

grown_group :
    {cs : List ToolCall} {rs ms : List LlmMessage}
    → Answers cs rs
    → (g : List Placed) (j : ℕ) → IsPaired ms
    → ((k : ℕ) → All GroupPaired (groups_from none (place k ms)))
    → IsPaired (messages_of g ++ rs)
    → All GroupPaired (groups_from (some g) (place j (rs ++ ms)))
unfolding groups_from
grown_group all_answered g j p rest whole =
    rw (closed_group p g j) (subst IsPaired (append-nil (messages_of g)) whole, rest j)
grown_group {ms} (answered {m} {ms = rs} role id more) g j p rest whole =
    let is_tool : same_role m.role tool_role ≡ true = rw role refl in
    rw is_tool (
      grown_group more (g ++ (j, m) ∷ []) (suc j) p rest (
        subst IsPaired
          (sym (append_assoc (messages_of g) (m ∷ []) rs)
            ∙ ap (λ l. l ++ rs) (sym (messages_of-append g ((j, m) ∷ []))))
          whole))

empty_list : (l : List ToolCall) → ltb 0 (length l) ≡ false → l ≡ []
empty_list [] h = refl
empty_list (c ∷ l) h = ground (arith, h)

no_calls_at : (m : LlmMessage) → m.role ≡ assistant_role → asks_tools m ≡ false → m.tool_calls ≡ []
no_calls_at m role h = empty_list m.tool_calls (ground (arith, h, role))

groups-paired :
    {ms : List LlmMessage} → IsPaired ms → (i : ℕ) → All GroupPaired (groups_from none (place i ms))
unfolding groups_from
groups-paired silence i = tt
groups-paired (plain {m} {ms} bare role p) i =
    let not_asking : asks_tools m ≡ false = ground (arith, bare) in
    rw not_asking (plain bare role silence, groups-paired p (suc i))
groups-paired (exchange {m} {rs} {ms} role ans p) i = elim (Bool-cases (asks_tools m)) [
  | inl hit ↦ rw hit (
      grown_group ans ((i, m) ∷ []) (suc i) p (groups-paired p)
        (subst (λ l. IsPaired (m ∷ l)) (append-nil rs) (exchange role ans silence)))
  | inr miss ↦
      let no_calls_made : m.tool_calls ≡ [] = no_calls_at m role miss in
      let is_other : m.role ≢ tool_role = λ e. cc in
      rw miss (
        plain no_calls_made is_other silence,
        rw (empty_reply ans no_calls_made) (groups-paired p (suc i)),
      )
]

module _ (reading : Reading) where
  numbered-paired :
      (weigh : LlmMessage → ℕ) (protects : Placed → Bool) (n : ℕ) (l : List (List Placed))
      → All GroupPaired l
      → All (λ (g : Group). GroupPaired g.members) (numbered reading weigh protects n l)
  numbered-paired weigh protects n [] h = tt
  numbered-paired weigh protects n (g ∷ l) h = (h.0, numbered-paired weigh protects (suc n) l h.1)

  joined_groups-IsPaired :
      (l : List Group) → All (λ (g : Group). GroupPaired g.members) l → IsPaired (joined_groups l)
  joined_groups-IsPaired [] h = silence
  joined_groups-IsPaired (g ∷ l) h = IsPaired-append h.0 (joined_groups-IsPaired l h.1)

  trim_messages-IsPaired :
      (weigh : LlmMessage → ℕ) (limit : ℕ) (preserve_system preserve_latest_user : Bool)
      (messages : List LlmMessage)
      → IsPaired messages
      → IsPaired (trim_messages reading weigh limit preserve_system preserve_latest_user messages)
  unfolding trim_messages
  trim_messages-IsPaired weigh limit preserve_system preserve_latest_user messages p =
      let placed = place 0 messages in
      let protects = is_protected preserve_system preserve_latest_user (latest_user none placed) in
      let groups = numbered reading weigh protects 0 (groups_from none placed) in
      let gone = dropped limit (sum_of weigh placed) (sorted goes_before groups) in
      let cut : IsPaired (joined_groups (where_ (is_kept gone) groups)) =
        joined_groups-IsPaired (where_ (is_kept gone) groups) (
          All-where_ (λ (g : Group). GroupPaired g.members) (is_kept gone) groups
            (numbered-paired weigh protects 0 (groups_from none placed) (groups-paired p 0))) in
      elim (leb (sum_of weigh placed) limit)
        as (λ b. IsPaired (if b then messages else joined_groups (where_ (is_kept gone) groups))) [
          | true ↦ p
          | false ↦ cut
        ]

  -- In a conversation where each call of an assistant's message is answered right after it, in order
  -- and under its id, and no answer stands anywhere else, that is still so after trimming it to a
  -- number of messages or to a budget of tokens, whatever the limits and what is preserved: no
  -- request is kept without its results, and no result without its request.
  pub trimming-IsPaired :
      (limit : ℕ) (preserve_system preserve_latest_user : Bool) (messages : List LlmMessage)
      → IsPaired messages
      → IsPaired
          (trim_messages_to_count reading limit preserve_system preserve_latest_user messages)
        × IsPaired
            (trim_messages_to_budget reading limit preserve_system preserve_latest_user messages)
  unfolding trim_messages_to_count trim_messages_to_budget
  trimming-IsPaired limit preserve_system preserve_latest_user messages p = (
    trim_messages-IsPaired (λ m. 1) limit preserve_system preserve_latest_user messages p,
    trim_messages-IsPaired (estimate_message_tokens reading) limit preserve_system
        preserve_latest_user messages p,
  )
