-- ===== src/Skills/Registry.antt =====
-- harness/skills/registry.py, with the trigger of harness/db/models.py that guards a published
-- revision. Schemas, manifests and the run that a revision came from, which no modelled code reads,
-- are left out.
use marcus.Prelude.{
  if◌then◌else◌, ltb, first_where, any, ◌==◌, ℕ, ◌+◌, max, String, Bool, true, false, not, ◌&&◌,
  ◌||◌, Option, none, some, List, [], ◌∷◌, nat_eq, string_eq,
}
use marcus.Prelude.Json.{obj, json_beq, Fields}
use marcus.Prelude.Rows.{update, find}
use marcus.Repository.{is_none}

pub data SkillStatus : Type 0 where
  draft_skill approved_skill published_skill deprecated_skill : SkillStatus

abbrev pub same_skill_status : SkillStatus → SkillStatus → Bool
same_skill_status draft_skill draft_skill = true
same_skill_status approved_skill approved_skill = true
same_skill_status published_skill published_skill = true
same_skill_status deprecated_skill deprecated_skill = true
same_skill_status _ _ = false

pub record Skill : Type 0 where
  pub id : ℕ
  pub tenant_id : ℕ
  pub name : String
  pub description : String
  pub status : SkillStatus
  pub active_revision_id : Option ℕ

pub record SkillRevision : Type 0 where
  pub id : ℕ
  pub skill_id : ℕ
  pub version : ℕ
  pub status : SkillStatus
  pub instruction : String
  pub required_tools : List String
  pub change_reason : String
  pub evaluation_status : Option String
  pub evaluation_result : Option Fields

pub record Catalog : Type 0 where
  pub skills : List Skill
  pub revisions : List SkillRevision

-- The `ValueError`s, the exception of the trigger, and that of an `AsyncSession` which would have to
-- load the skill of a revision where the code reads it.
pub data SkillError : Type 0 where
  empty_instruction long_instruction long_reason duplicate_tools : SkillError
  not_approved not_evaluated published_immutable skill_not_loaded : SkillError

-- A method returns a row, or None, or raises.
pub data Reply {ℓ} (A : Type ℓ) : Type ℓ where
  found_row : A → Reply A
  no_row : Reply A
  raised : SkillError → Reply A

abbrev pub find_skill : ℕ → List Skill → Option Skill
find_skill = find (λ (s : Skill). s.id)

abbrev pub find_revision : ℕ → List SkillRevision → Option SkillRevision
find_revision = find (λ (r : SkillRevision). r.id)

abbrev pub save_skill : Skill → List Skill → List Skill
save_skill s = update (λ (x : Skill). x.id) s.id (λ _. s)

abbrev pub save_revision : SkillRevision → List SkillRevision → List SkillRevision
save_revision r = update (λ (x : SkillRevision). x.id) r.id (λ _. r)

unfoldable pub create_skill : ℕ → ℕ → String → String → Catalog → Catalog × Skill
create_skill id tenant name description c =
    let s : Skill = record {
      id = id;
      tenant_id = tenant;
      name = name;
      description = description;
      status = draft_skill;
      active_revision_id = none;
    } in
    (record c { skills = s ∷ c.skills }, s)

unfoldable pub get_skill : ℕ → ℕ → Catalog → Option Skill
get_skill tenant skill_id c = elim (find_skill skill_id c.skills) [
  | none ↦ none
  | some s ↦ if s.tenant_id == tenant then some s else none
]

unfoldable pub get_revision : ℕ → ℕ → ℕ → Catalog → Option SkillRevision
unfolding get_skill
get_revision tenant skill_id revision_id c = elim (get_skill tenant skill_id c) [
  | none ↦ none
  | some s ↦ elim (find_revision revision_id c.revisions) [
    | none ↦ none
    | some r ↦ if r.skill_id == skill_id then some r else none
  ]
]

-- SELECT … ORDER BY name: the order is given when the rows are read in Context.
abbrev pub is_published_for : ℕ → Skill → Bool
is_published_for tenant s =
    s.tenant_id == tenant
    && (same_skill_status s.status published_skill && not (is_none s.active_revision_id))

-- The join over `active_revision_id`; a tenant's names are unique.
unfoldable pub get_active_revision_by_skill_name :
    ℕ → String → Catalog → Option (Skill × SkillRevision)
get_active_revision_by_skill_name tenant name c =
    let named : Skill → Bool = λ s.
      s.tenant_id == tenant && (s.name == name && same_skill_status s.status published_skill) in
    elim (first_where named c.skills) [
      | none ↦ none
      | some s ↦ elim s.active_revision_id [
        | none ↦ none
        | some id ↦ elim (find_revision id c.revisions) [ none ↦ none | some r ↦ some (s, r) ]
      ]
    ]

-- What `str.strip` and `len` say of a text.
pub record Texts : Type 0 where
  pub strip : String → String
  pub len : String → ℕ

abbrev pub has_duplicates : List String → Bool
has_duplicates [] = false
has_duplicates (x ∷ xs) = any (λ y. y == x) xs || has_duplicates xs

-- coalesce(max(version), 0) + 1
abbrev pub max_version : ℕ → List SkillRevision → ℕ
max_version skill_id [] = 0
max_version skill_id (r ∷ rest) =
    if r.skill_id == skill_id
    then max r.version (max_version skill_id rest)
    else max_version skill_id rest

-- The row that `create_revision` adds.
abbrev pub made_revision : ℕ → ℕ → String → String → List String → Catalog → SkillRevision
made_revision id skill_id instruction change_reason tools c = record {
  id = id;
  skill_id = skill_id;
  version = max_version skill_id c.revisions + 1;
  status = draft_skill;
  instruction = instruction;
  required_tools = tools;
  change_reason = change_reason;
  evaluation_status = none;
  evaluation_result = none;
}

module _ (texts : Texts) where
  abbrev pub revision_error : String → String → List String → Option SkillError
  revision_error instruction change_reason tools =
      if texts.strip instruction == ""
      then some empty_instruction
      else if ltb 100000 (texts.len instruction)
      then some long_instruction
      else if ltb 10000 (texts.len (texts.strip change_reason))
      then some long_reason
      else if has_duplicates tools
      then some duplicate_tools
      else none

  unfoldable pub create_revision :
      ℕ → ℕ → ℕ → String → String → List String → Catalog → Catalog × Reply SkillRevision
  unfolding get_skill
  create_revision id tenant skill_id instruction change_reason tools c =
      let r = made_revision id skill_id instruction change_reason tools c in
      elim (get_skill tenant skill_id c) [
        | none ↦ (c, no_row)
        | some s ↦ elim (revision_error instruction change_reason tools) [
          | some why ↦ (c, raised why)
          | none ↦ (record c { revisions = r ∷ c.revisions }, found_row r)
        ]
      ]

-- The UPDATE of a revision from `old` to `new`, which the trigger refuses if `old` is published.
unfoldable pub write_revision :
    SkillRevision → SkillRevision → Catalog → Catalog × Reply SkillRevision
write_revision old new c =
    if same_skill_status old.status published_skill
    then (c, raised published_immutable)
    else (record c { revisions = save_revision new c.revisions }, found_row new)

unfoldable pub approve_revision : ℕ → ℕ → ℕ → Catalog → Catalog × Reply SkillRevision
unfolding get_revision write_revision
approve_revision tenant skill_id revision_id c = elim (get_revision tenant skill_id revision_id c) [
  | none ↦ (c, no_row)
  | some r ↦
      if same_skill_status r.status draft_skill
      then write_revision r (record r { status = approved_skill }) c
      else (c, found_row r)
]

abbrev pub is_passed : Option String → Bool
is_passed none = false
is_passed (some s) = s == "passed"

-- The writes of `publish_revision`, once the checks are past.
unfoldable pub write_published : Skill → SkillRevision → Catalog → Catalog × Reply SkillRevision
unfolding write_revision
write_published s r c =
    let r' : SkillRevision = record r { status = published_skill } in
    let s' : Skill = record s { active_revision_id = some r.id; status = published_skill } in
    let written = write_revision r r' c in
    let c' = if same_skill_status r.status approved_skill then written.0 else c in
    let made = if same_skill_status r.status approved_skill then r' else r in
    (record c' { skills = save_skill s' c'.skills }, found_row made)

unfoldable pub publish_revision : ℕ → ℕ → ℕ → Catalog → Catalog × Reply SkillRevision
unfolding get_skill get_revision write_published
publish_revision tenant skill_id revision_id c = elim (get_skill tenant skill_id c) [
  | none ↦ (c, no_row)
  | some s ↦ elim (get_revision tenant skill_id revision_id c) [
    | none ↦ (c, no_row)
    | some r ↦
        if not
          (same_skill_status r.status approved_skill || same_skill_status r.status published_skill)
        then (c, raised not_approved)
        else if not (is_passed r.evaluation_status)
        then (c, raised not_evaluated)
        else write_published s r c
  ]
]

-- An attribute that is set to its old value makes no UPDATE.
abbrev pub same_evaluation : SkillRevision → String → Fields → Bool
same_evaluation r status result =
    elim r.evaluation_status [ none ↦ false | some s ↦ s == status ]
    && elim r.evaluation_result [ none ↦ false | some old ↦ json_beq (obj old) (obj result) ]

-- `revision.skill` raises unless the session has loaded the skill before.
unfoldable pub record_evaluation :
    ℕ → ℕ → ℕ → String → Fields → Bool → Catalog → Catalog × Reply SkillRevision
unfolding get_revision write_revision
record_evaluation tenant skill_id revision_id status result is_skill_loaded c =
    elim (get_revision tenant skill_id revision_id c) [
      | none ↦ (c, no_row)
      | some r ↦
          if not is_skill_loaded
          then (c, raised skill_not_loaded)
          else if same_evaluation r status result
          then (c, found_row r)
          else write_revision r
              (record r { evaluation_status = some status; evaluation_result = some result }) c
    ]

abbrev pub rollback : ℕ → ℕ → ℕ → Catalog → Catalog × Reply SkillRevision
rollback = publish_revision

unfoldable pub deprecate_skill : ℕ → ℕ → Catalog → Catalog × Reply Skill
unfolding get_skill
deprecate_skill tenant skill_id c = elim (get_skill tenant skill_id c) [
  | none ↦ (c, no_row)
  | some s ↦
      let s' : Skill = record s { status = deprecated_skill; active_revision_id = none } in
      (record c { skills = save_skill s' c.skills }, found_row s')
]
