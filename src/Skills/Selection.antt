-- ===== src/Skills/Selection.antt =====
-- The skills in the context of harness/runtime/context.py: `build_skill_context`, and the automatic
-- choice of `select_skill_candidate`. `re.findall`, `str.lower` and the digits of a number are
-- parameters; an average of successes is kept as a fraction.
use Prim.Native.Nat.{Ordering}
use Prim.Native.String.{compare}
use marcus.Prelude.{
  ltb, if◌then◌else◌, length, take, any, where_, ◌==◌, ℕ, ◌+◌, ◌*◌, String, Bool, true, false, not,
  ◌&&◌, ◌||◌, Option, none, some, List, [], ◌∷◌, map, nat_eq, string_eq,
}
use marcus.Prelude.Sorting.{sorted}
use marcus.Prelude.Texts.{concat, set_of}
use marcus.Run.Row.{AgentRun}
use marcus.Skills.Registry.{
  Catalog, is_published_for, find_skill, find_revision, get_active_revision_by_skill_name, Skill,
  SkillRevision,
}

pub record Words : Type 0 where
  pub findall : String → String → List String
  pub lower : String → String
  pub digits : ℕ → String

-- A row of `skill_usage`: the columns that the averages read, and what is recorded of a run.
pub record SkillUsage : Type 0 where
  pub tenant_id : ℕ
  pub revision_id : ℕ
  pub run_id : ℕ
  pub success : Bool
  pub tokens_used : ℕ
  pub tool_calls_used : ℕ

pub record Rate : Type 0 where
  pub successes : ℕ
  pub runs : ℕ

pub record Scored : Type 0 where
  pub lexical : ℕ
  pub rate : Rate
  pub skill : Skill

abbrev pub text_ltb : String → String → Bool
text_ltb a b = elim (compare a b) [ Ordering.lt ↦ true | _ ↦ false ]

-- `list_published_skills`
unfoldable pub list_published_skills : ℕ → Catalog → List Skill
list_published_skills tenant c =
    sorted (λ (a b : Skill). text_ltb a.name b.name) (where_ (is_published_for tenant) c.skills)

-- `get_revision_by_id`
unfoldable pub get_revision_by_id : ℕ → ℕ → Catalog → Option (Skill × SkillRevision)
get_revision_by_id tenant revision_id c = elim (find_revision revision_id c.revisions) [
  | none ↦ none
  | some r ↦ elim (find_skill r.skill_id c.skills) [
    | none ↦ none
    | some s ↦ if s.tenant_id == tenant then some (s, r) else none
  ]
]

-- len(a & b), for a set `a`
abbrev pub shared : List String → List String → ℕ
shared a b = length (where_ (λ w. any (λ v. v == w) b) a)

abbrev pub rate_ltb : Rate → Rate → Bool
rate_ltb a b = ltb (a.successes * b.runs) (b.successes * a.runs)

abbrev pub rows_for : ℕ → ℕ → List SkillUsage → List SkillUsage
rows_for tenant revision_id usage =
    where_ (λ (u : SkillUsage). u.tenant_id == tenant && u.revision_id == revision_id) usage

-- avg(case when success then 1.0 else 0.0), or 0.0 where there is no row
unfoldable pub success_rate : ℕ → ℕ → List SkillUsage → Rate
success_rate tenant revision_id usage =
    let rows = rows_for tenant revision_id usage in
    if length rows == 0 then record { successes = 0; runs = 1 } else record {
      successes = length (where_ (λ (u : SkillUsage). u.success) rows);
      runs = length rows;
    }

-- The sort key (-lexical, -success_rate, name).
abbrev pub scored_before : Scored → Scored → Bool
scored_before a b =
    if ltb b.lexical a.lexical
    then true
    else if ltb a.lexical b.lexical
    then false
    else if rate_ltb b.rate a.rate
    then true
    else if rate_ltb a.rate b.rate
    then false
    else text_ltb a.skill.name b.skill.name

-- The runner-up is too close.
abbrev pub is_ambiguous : Scored → List Scored → Bool
is_ambiguous first [] = false
is_ambiguous first (second_best ∷ rest) =
    ltb first.lexical (second_best.lexical + 2)
    && (not (first.lexical == second_best.lexical)
        || ltb (5 * (first.rate.successes * second_best.rate.runs)) (
            first.rate.runs * second_best.rate.runs
            + 5 * (second_best.rate.successes * first.rate.runs)))

abbrev pub clear_winner : List Scored → Option Skill
clear_winner [] = none
clear_winner (first ∷ rest) =
    if ltb first.lexical 3 then none else if is_ambiguous first rest then none else some first.skill

module _ (words : Words) where
  abbrev pub words_of : String → List String
  words_of s = set_of (words.findall "[a-z0-9_:-]{3,}" (words.lower s))

  abbrev pub metadata_of : Skill → List String
  metadata_of s = words_of (concat s.name (concat " " s.description))

  abbrev pub score : AgentRun → Catalog → List SkillUsage → Skill → Scored
  score run c usage s = record {
    lexical = shared (words_of run.goal) (metadata_of s);
    rate = elim (get_active_revision_by_skill_name run.tenant_id s.name c) [
      | none ↦ record { successes = 0; runs = 1 }
      | some (owner, r) ↦ success_rate run.tenant_id r.id usage
    ];
    skill = s;
  }

  unfoldable pub select_skill_candidate :
      AgentRun → Catalog → List SkillUsage → Option (Skill × SkillRevision)
  unfolding list_published_skills success_rate
  select_skill_candidate run c usage =
      let scored =
        sorted scored_before (map (score run c usage) (list_published_skills run.tenant_id c)) in
      elim (clear_winner scored) [
        | none ↦ none
        | some s ↦ get_active_revision_by_skill_name run.tenant_id s.name c
      ]

  abbrev pub catalog_line : Skill → String
  catalog_line s = concat "- " (
      concat s.name
        (concat ": " (if s.description == "" then "(no description)" else s.description)))

  -- "\n".join(…)
  abbrev pub catalog_lines : List Skill → String
  catalog_lines [] = ""
  catalog_lines (s ∷ []) = catalog_line s
  catalog_lines (s ∷ t ∷ rest) = concat (catalog_line s) (concat "\n" (catalog_lines (t ∷ rest)))

  abbrev pub active_text : Option (Skill × SkillRevision) → String
  active_text none = ""
  active_text (some (s, r)) =
      concat "\n\nActive skill: "
        (concat s.name (concat " v" (concat (words.digits r.version) (concat "\n" r.instruction))))

  -- (-matches, name)
  abbrev pub more_relevant : AgentRun → Skill → Skill → Bool
  more_relevant run a b =
      let m = shared (words_of run.goal) (metadata_of a) in
      let n = shared (words_of run.goal) (metadata_of b) in
      if ltb n m then true else if ltb m n then false else text_ltb a.name b.name

  -- The catalog and the active skill.
  unfoldable pub build_skill_context : AgentRun → Catalog → String × String
  unfolding list_published_skills get_revision_by_id
  build_skill_context run c =
      let active : String = elim run.active_skill_revision_id [
        | none ↦ ""
        | some id ↦ active_text (get_revision_by_id run.tenant_id id c)
      ] in
      let skills = list_published_skills run.tenant_id c in
      if length skills == 0 then ("", active) else (
        concat "\n\nPublished skill catalog:\n" (
            concat (catalog_lines (take 20 (sorted (more_relevant run) skills)))
              "\nIf one of these skills is relevant, call `use_skill` with its exact name before proceeding. If several are similarly relevant, do not guess: ask the user or choose explicitly with `use_skill`."),
        active,
      )
