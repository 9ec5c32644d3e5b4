-- ===== src/Skills/Sound.antt =====
-- Each operation of harness/skills/registry.py keeps the registry sound.
use mathlib.Core.Path.{subst}
use marcus.Prelude.{
  Option-cases, nat_beq_iff, Bool-cases, ℕ, String, ◌≡◌, refl, sym, inl, inr, none, some, List, ◌∷◌,
  arith, true, ◌||◌, ◌⊎◌, Bool, false,
}
use marcus.Prelude.Json.{Fields}
use marcus.Prelude.Rows.{find}
use marcus.Skills.Lifecycle.{
  IsFrozen, write_revision-IsFrozen, get_revision-found, IsActive, find-save_revision,
}
use marcus.Skills.Registry.{
  same_evaluation, find_revision, approve_revision, get_revision, approved_skill, get_skill,
  SkillRevision, Texts, revision_error, create_revision, Catalog, record_evaluation, write_revision,
  save_skill, write_published, Skill, published_skill, same_skill_status, made_revision, is_passed,
  publish_revision,
}

module _ (c : Catalog) where
  written-IsFrozen :
      (tenant skill_id k : ℕ) (r new : SkillRevision)
      → get_revision tenant skill_id k c ≡ some r
      → new.id ≡ r.id
      → IsFrozen c (write_revision r new c).0
  written-IsFrozen tenant skill_id k r new there same =
      let (found, own, its) = get_revision-found tenant skill_id k c r there in
      write_revision-IsFrozen r new c
        (subst (λ i. find_revision i c.revisions ≡ some r) (sym own) found) same

  pub approve_revision-IsFrozen :
      (tenant skill_id k : ℕ) → IsFrozen c (approve_revision tenant skill_id k c).0
  unfolding approve_revision
  approve_revision-IsFrozen tenant skill_id k j r found published =
      elim (Option-cases (get_revision tenant skill_id k c)) [
        | inl missing ↦ ground (arith, missing, found)
        | inr (x, there) ↦ ground (
          arith,
          there,
          found,
          written-IsFrozen tenant skill_id k x (record x { status = approved_skill }) there refl j r
              found published,
        )
      ]

  pub record_evaluation-IsFrozen :
      (tenant skill_id k : ℕ) (status : String) (result : Fields) (is_skill_loaded : Bool)
      → IsFrozen c (record_evaluation tenant skill_id k status result is_skill_loaded c).0
  unfolding record_evaluation
  record_evaluation-IsFrozen tenant skill_id k status result false j r found published =
      elim (Option-cases (get_revision tenant skill_id k c)) [
        | inl missing ↦ ground (arith, missing, found)
        | inr (x, there) ↦ ground (arith, there, found)
      ]
  record_evaluation-IsFrozen tenant skill_id k status result true j r found published =
      elim (Option-cases (get_revision tenant skill_id k c)) [
        | inl missing ↦ ground (arith, missing, found)
        | inr (x, there) ↦
            let written =
              written-IsFrozen tenant skill_id k x
                (record x { evaluation_status = some status; evaluation_result = some result })
                there refl j r found published in
            elim (Bool-cases (same_evaluation x status result)) [
              | inl same ↦ ground (arith, there, same, found)
              | inr other ↦ ground (arith, there, other, written)
            ]
      ]

  -- The tables after a revision with a fresh id.
  added-IsFrozen :
      (new : SkillRevision)
      → find_revision new.id c.revisions ≡ none
      → IsFrozen c (record c { revisions = new ∷ c.revisions })
  unfolding find
  added-IsFrozen new fresh j r found published = ground (arith, found, fresh, nat_beq_iff new.id j)

  pub create_revision-IsFrozen :
      (texts : Texts) (id tenant skill_id : ℕ) (instruction reason : String) (tools : List String)
      → find_revision id c.revisions ≡ none
      → IsFrozen c (create_revision texts id tenant skill_id instruction reason tools c).0
  unfolding create_revision
  create_revision-IsFrozen texts id tenant skill_id instruction reason tools fresh j r found p =
      let made = made_revision id skill_id instruction reason tools c in
      elim (Option-cases (get_skill tenant skill_id c)) [
        | inl missing ↦ ground (arith, missing, found)
        | inr (s, there) ↦ elim (Option-cases (revision_error texts instruction reason tools)) [
          | inl fine ↦ ground (arith, there, fine, added-IsFrozen made fresh j r found p)
          | inr (why, bad) ↦ ground (arith, there, bad, found)
        ]
      ]

  -- The tables after the writes of a publication whose checks are past.
  module _ (s : Skill) (r : SkillRevision) (found : find_revision r.id c.revisions ≡ some r) where
    pub write_published-IsFrozen : IsFrozen c (write_published s r c).0
    unfolding write_published
    write_published-IsFrozen j x there published = ground (
      arith,
      there,
      write_revision-IsFrozen r (record r { status = published_skill }) c found refl j x there
          published,
    )

    pub write_published-skills :
        (write_published s r c).0.skills
        ≡ save_skill
            (record s { active_revision_id = some r.id; status = published_skill })
            c.skills
    unfolding write_published write_revision
    write_published-skills = ground arith

    pub write_published-IsActive :
        (same_skill_status r.status approved_skill || same_skill_status r.status published_skill)
          ≡ true
        → is_passed r.evaluation_status ≡ true
        → r.skill_id ≡ s.id
        → IsActive (write_published s r c).0 s.id r.id
    unfolding write_published write_revision
    write_published-IsActive fit passed its = (
      record r { status = published_skill },
      ground (
        arith,
        found,
        fit,
        find-save_revision (record r { status = published_skill }) r.id c.revisions,
        nat_beq_iff r.id r.id,
      ),
      its,
      refl,
      passed,
    )

  pub publish_revision-cases :
      (tenant skill_id k : ℕ)
      → ((publish_revision tenant skill_id k c).0 ≡ c)
        ⊎ ((s : Skill) × (r : SkillRevision) × (get_skill tenant skill_id c ≡ some s)
            × (get_revision tenant skill_id k c ≡ some r)
            × ((same_skill_status r.status approved_skill
                  || same_skill_status r.status published_skill)
                ≡ true)
            × (is_passed r.evaluation_status ≡ true)
            × ((publish_revision tenant skill_id k c).0 ≡ (write_published s r c).0))
  unfolding publish_revision
  publish_revision-cases tenant skill_id k = elim (Option-cases (get_skill tenant skill_id c)) [
    | inl missing ↦ inl (ground (arith, missing))
    | inr (s, there) ↦ elim (Option-cases (get_revision tenant skill_id k c)) [
      | inl missing ↦ inl (ground (arith, there, missing))
      | inr (r, found) ↦
          elim (Bool-cases (
            same_skill_status r.status approved_skill
            || same_skill_status r.status published_skill)) [
              | inr unfit ↦ inl (ground (arith, there, found, unfit))
              | inl fit ↦ elim (Bool-cases (is_passed r.evaluation_status)) [
                | inr failed_it ↦ inl (ground (arith, there, found, fit, failed_it))
                | inl passed ↦
                    inr (s, r, there, found, fit, passed, ground (arith, there, found, fit, passed))
              ]
            ]
    ]
  ]
