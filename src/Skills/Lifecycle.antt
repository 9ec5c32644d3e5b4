-- ===== src/Skills/Lifecycle.antt =====
-- The life of a skill in harness/skills/registry.py: any sequence of the registry's operations.
use mathlib.Core.Path.{subst}
use marcus.Prelude.{
  nat_beq_iff, Option-cases, ℕ, String, ◌≡◌, inl, inr, none, some, List, [], arith, nat_beq, refl,
  ◌↔◌, true, false, Bool-cases, sym, ap, ◌∙◌, ◌⊎◌, Bool,
}
use marcus.Prelude.Json.{Fields}
use marcus.Prelude.Rows.{find-update, find-key, set_when}
use marcus.Repository.{is_none}
use marcus.Skills.Registry.{
  SkillRevision, find_revision, create_revision, deprecate_skill, Catalog, Texts, Skill,
  record_evaluation, find_skill, create_skill, approve_revision, write_revision, published_skill,
  get_skill, get_revision, publish_revision, save_skill, save_revision, is_passed,
}

-- One call of the registry; the ids that it makes are fresh.
pub data Operation : Type 0 where
  new_skill : ℕ → ℕ → String → String → Operation
  new_revision : Texts → ℕ → ℕ → ℕ → String → String → List String → Operation
  approves : ℕ → ℕ → ℕ → Operation
  publishes : ℕ → ℕ → ℕ → Operation
  evaluates : ℕ → ℕ → ℕ → String → Fields → Bool → Operation
  deprecates : ℕ → ℕ → Operation

abbrev pub perform : Operation → Catalog → Catalog
perform (new_skill id tenant name description) c = (create_skill id tenant name description c).0
perform (new_revision texts id tenant skill_id instruction reason tools) c =
    (create_revision texts id tenant skill_id instruction reason tools c).0
perform (approves tenant skill_id revision_id) c =
    (approve_revision tenant skill_id revision_id c).0
perform (publishes tenant skill_id revision_id) c =
    (publish_revision tenant skill_id revision_id c).0
perform (evaluates tenant skill_id revision_id status result is_skill_loaded) c =
    (record_evaluation tenant skill_id revision_id status result is_skill_loaded c).0
perform (deprecates tenant skill_id) c = (deprecate_skill tenant skill_id c).0

abbrev pub IsFresh : Operation → Catalog → Type 0
IsFresh (new_skill id tenant name description) c = find_skill id c.skills ≡ none
IsFresh (new_revision texts id tenant skill_id instruction reason tools) c =
    find_revision id c.revisions ≡ none
IsFresh _ c = Unit

pub data Reachable : Catalog → Type 0 where
  nothing_yet : Reachable (record { skills = []; revisions = [] })
  performed : {c : Catalog} (o : Operation) → IsFresh o c → Reachable c → Reachable (perform o c)

-- A published revision stays what it is.
abbrev pub IsFrozen : Catalog → Catalog → Type 0
IsFrozen c c' =
    (j : ℕ) (r : SkillRevision)
    → find_revision j c.revisions ≡ some r
    → r.status ≡ published_skill
    → find_revision j c'.revisions ≡ some r

-- The revision that a skill of this key points at: it is there, it is one of that skill's, it is
-- published, and it has passed its evaluation.
abbrev pub IsActive : Catalog → ℕ → ℕ → Type 0
IsActive c k id =
    (r : SkillRevision) × (find_revision id c.revisions ≡ some r)
    × (r.skill_id ≡ k)
    × (r.status ≡ published_skill)
    × (is_passed r.evaluation_status ≡ true)

pub record IsSound (c : Catalog) : Type 0 where
  pub active :
      (k : ℕ) (s : Skill) (id : ℕ)
      → find_skill k c.skills ≡ some s
      → s.active_revision_id ≡ some id
      → IsActive c k id
  pub shown :
      (k : ℕ) (s : Skill)
      → find_skill k c.skills ≡ some s
      → (s.status ≡ published_skill) ↔ (is_none s.active_revision_id ≡ false)

pub get_skill-found :
    (tenant k : ℕ) (c : Catalog) (s : Skill)
    → get_skill tenant k c ≡ some s
    → (find_skill k c.skills ≡ some s) × (s.id ≡ k)
unfolding get_skill
get_skill-found tenant k c s h = elim (Option-cases (find_skill k c.skills)) [
  | inl missing ↦ absurd (ground (arith, missing, h))
  | inr (x, there) ↦ ground (arith, there, h, find-key (λ (s : Skill). s.id) k c.skills x)
]

pub get_revision-found :
    (tenant skill_id k : ℕ) (c : Catalog) (r : SkillRevision)
    → get_revision tenant skill_id k c ≡ some r
    → (find_revision k c.revisions ≡ some r) × (r.id ≡ k) × (r.skill_id ≡ skill_id)
unfolding get_revision
get_revision-found tenant skill_id k c r h = elim (Option-cases (find_revision k c.revisions)) [
  | inl missing ↦ absurd (ground (arith, missing, h))
  | inr (x, there) ↦ ground (
    arith,
    there,
    h,
    find-key (λ (r : SkillRevision). r.id) k c.revisions x,
    nat_beq_iff x.skill_id skill_id,
  )
]

-- The two tables after a row is saved under its own key.
pub find-save_skill :
    (new : Skill) (j : ℕ) (t : List Skill)
    → find_skill j (save_skill new t) ≡ set_when (nat_beq j new.id) (λ _. new) (find_skill j t)
find-save_skill new j t = find-update (λ (x : Skill). x.id) new.id j (λ _. new) t (λ r h. refl)

pub find-save_revision :
    (new : SkillRevision) (j : ℕ) (t : List SkillRevision)
    → find_revision j (save_revision new t)
      ≡ set_when (nat_beq j new.id) (λ _. new) (find_revision j t)
find-save_revision new j t =
    find-update (λ (x : SkillRevision). x.id) new.id j (λ _. new) t (λ r h. refl)

pub write_revision-IsFrozen :
    (old new : SkillRevision) (c : Catalog)
    → find_revision old.id c.revisions ≡ some old
    → new.id ≡ old.id
    → IsFrozen c (write_revision old new c).0
unfolding write_revision
write_revision-IsFrozen old new c there same j r found published =
    ground (arith, find-save_revision new j c.revisions, nat_beq_iff j new.id)

-- What a reader finds after a skill is saved: that skill, or what was there.
read_saved :
    (new : Skill) (k : ℕ) (s : Skill) (t : List Skill)
    → find_skill k (save_skill new t) ≡ some s
    → ((k ≡ new.id) × (s ≡ new)) ⊎ (find_skill k t ≡ some s)
read_saved new k s t there = elim (Bool-cases (nat_beq k new.id)) [
  | inl own ↦ elim (Option-cases (find_skill k t)) [
    | inl missing ↦ absurd (ground (arith, there, find-save_skill new k t, missing))
    | inr (old, found) ↦ inl (
      ground (arith, nat_beq_iff k new.id),
      ground (arith, there, find-save_skill new k t, found),
    )
  ]
  | inr other ↦ inr (ground (arith, there, find-save_skill new k t))
]

module _ (c : Catalog) (sound : IsSound c) where
  -- Operations that leave the skills alone.
  pub carried : (c' : Catalog) → c'.skills ≡ c.skills → IsFrozen c c' → IsSound c'
  carried c' same frozen = record {
    active = λ k s r there active.
        let a = sound.active k s r (subst (λ t. find_skill k t ≡ some s) same there) active in
        (a.0, frozen r a.0 a.1 a.3, a.2, a.3, a.4);
    shown = λ k s there. sound.shown k s (subst (λ t. find_skill k t ≡ some s) same there);
  }

  -- One skill is written, and no other.
  pub skill_saved :
      (c' : Catalog) (s' : Skill)
      → c'.skills ≡ save_skill s' c.skills
      → IsFrozen c c'
      → (s'.status ≡ published_skill) ↔ (is_none s'.active_revision_id ≡ false)
      → ((id : ℕ) → s'.active_revision_id ≡ some id → IsActive c' s'.id id)
      → IsSound c'
  skill_saved c' s' same frozen shown active = record {
    active = λ k s id there at.
        elim (read_saved s' k s c.skills (subst (λ t. find_skill k t ≡ some s) same there)) [
          | inl (e, f) ↦
              subst (λ i. IsActive c' i id) (sym e)
                (active id (sym (ap (λ (x : Skill). x.active_revision_id) f) ∙ at))
          | inr old ↦
              let a = sound.active k s id old at in (a.0, frozen id a.0 a.1 a.3, a.2, a.3, a.4)
        ];
    shown = λ k s there.
        elim (read_saved s' k s c.skills (subst (λ t. find_skill k t ≡ some s) same there)) [
          | inl (e, f) ↦
              subst
                (λ (x : Skill).
                  (x.status ≡ published_skill) ↔ (is_none x.active_revision_id ≡ false))
                (sym f) shown
          | inr old ↦ sound.shown k s old
        ];
  }
