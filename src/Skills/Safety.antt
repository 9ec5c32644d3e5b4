-- ===== src/Skills/Safety.antt =====
-- What holds of the registry of harness/skills/registry.py after any sequence of its operations.
use mathlib.Core.Path.{subst}
use marcus.Prelude.{
  ℕ, String, ◌≡◌, refl, sym, ◌∙◌, inl, inr, none, some, arith, Option-cases, ◌⊎◌, List, ◌∷◌,
}
use marcus.Prelude.Rows.{find}
use marcus.Skills.Lifecycle.{
  new_revision, IsSound, IsFrozen, Operation, new_skill, get_revision-found, IsFresh, publishes,
  perform, approves, IsActive, skill_saved, deprecates, get_skill-found, evaluates, performed,
  nothing_yet, carried, Reachable,
}
use marcus.Skills.Registry.{
  Catalog, find_skill, published_skill, find_revision, write_published, create_skill,
  deprecate_skill, SkillRevision, get_revision, Skill, publish_revision, get_skill, write_revision,
  create_revision, deprecated_skill, save_skill, record_evaluation, approve_revision,
}
use marcus.Skills.Sound.{
  write_published-skills, record_evaluation-IsFrozen, approve_revision-IsFrozen,
  write_published-IsActive, write_published-IsFrozen, create_revision-IsFrozen,
  publish_revision-cases,
}

-- The row that a publication reads has its own key.
found_at_id :
    (tenant skill_id k : ℕ) (c : Catalog) (r : SkillRevision)
    → get_revision tenant skill_id k c ≡ some r
    → find_revision r.id c.revisions ≡ some r
found_at_id tenant skill_id k c r h =
    let (found, own, its) = get_revision-found tenant skill_id k c r h in
    subst (λ i. find_revision i c.revisions ≡ some r) (sym own) found

publish_revision-IsFrozen :
    (c : Catalog) (tenant skill_id k : ℕ) → IsFrozen c (publish_revision tenant skill_id k c).0
publish_revision-IsFrozen c tenant skill_id k = elim (publish_revision-cases c tenant skill_id k) [
  | inl same ↦ λ j r found published. ap_find j r same found
  | inr (s, r, there, found, fit, passed, same) ↦
      subst (IsFrozen c) (sym same)
        (write_published-IsFrozen c s r (found_at_id tenant skill_id k c r found))
]
  where
    ap_find :
        (j : ℕ) (r : SkillRevision)
        → (publish_revision tenant skill_id k c).0 ≡ c
        → find_revision j c.revisions ≡ some r
        → find_revision j (publish_revision tenant skill_id k c).0.revisions ≡ some r
    ap_find j r same found =
        subst (λ (d : Catalog). find_revision j d.revisions ≡ some r) (sym same) found

-- No operation changes a published revision.
perform-IsFrozen : (o : Operation) (c : Catalog) → IsFresh o c → IsFrozen c (perform o c)
unfolding create_skill deprecate_skill
perform-IsFrozen (new_skill id tenant name description) c fresh = λ j r found p. found
perform-IsFrozen (new_revision texts id tenant skill_id instruction reason tools) c fresh =
    create_revision-IsFrozen c texts id tenant skill_id instruction reason tools fresh
perform-IsFrozen (approves tenant skill_id k) c fresh =
    approve_revision-IsFrozen c tenant skill_id k
perform-IsFrozen (publishes tenant skill_id k) c fresh =
    publish_revision-IsFrozen c tenant skill_id k
perform-IsFrozen (evaluates tenant skill_id k status result is_skill_loaded) c fresh =
    record_evaluation-IsFrozen c tenant skill_id k status result is_skill_loaded
perform-IsFrozen (deprecates tenant skill_id) c fresh = λ j r found p. ground (arith, found)

publish_revision-IsSound :
    (c : Catalog) (tenant skill_id k : ℕ)
    → IsSound c
    → IsSound (publish_revision tenant skill_id k c).0
publish_revision-IsSound c tenant skill_id k sound =
    elim (publish_revision-cases c tenant skill_id k) [
      | inl same ↦ subst IsSound (sym same) sound
      | inr (s, r, there, found, fit, passed, same) ↦
          let here_ = found_at_id tenant skill_id k c r found in
          let (at, own, its) = get_revision-found tenant skill_id k c r found in
          let (row_, key_) = get_skill-found tenant skill_id c s there in
          let s' : Skill = record s { active_revision_id = some r.id; status = published_skill } in
          subst IsSound (sym same) (
            skill_saved c sound (write_published s r c).0 s' (write_published-skills c s r here_)
              (write_published-IsFrozen c s r here_) (λ h. refl, λ h. refl)
              (λ id h.
                subst (IsActive (write_published s r c).0 s.id) (ground (arith, h))
                  (write_published-IsActive c s r here_ fit passed (its ∙ sym key_))))
    ]

deprecate_skill-IsSound :
    (c : Catalog) (tenant skill_id : ℕ) → IsSound c → IsSound (deprecate_skill tenant skill_id c).0
unfolding deprecate_skill
deprecate_skill-IsSound c tenant skill_id sound =
    elim (Option-cases (get_skill tenant skill_id c)) [
      | inl missing ↦
          let same : (deprecate_skill tenant skill_id c).0 ≡ c = ground (arith, missing) in
          subst IsSound (sym same) sound
      | inr (s, there) ↦
          let s' : Skill = record s { status = deprecated_skill; active_revision_id = none } in
          let after : Catalog = record c { skills = save_skill s' c.skills } in
          let same : (deprecate_skill tenant skill_id c).0 ≡ after = ground (arith, there) in
          subst IsSound (sym same) (
            skill_saved c sound after s' refl (λ j r found p. found)
              (λ h. absurd (ground (arith, h)), λ h. absurd (ground (arith, h)))
              (λ id h. absurd (ground (arith, h))))
    ]

read_added :
    (new : Skill) (k : ℕ) (s : Skill) (t : List Skill)
    → find_skill k (new ∷ t) ≡ some s
    → (s ≡ new) ⊎ (find_skill k t ≡ some s)
unfolding find
read_added new k s t there = ground (arith, there)

create_skill-IsSound :
    (c : Catalog) (id tenant : ℕ) (name description : String)
    → IsSound c
    → IsSound (create_skill id tenant name description c).0
unfolding create_skill
create_skill-IsSound c id tenant name description sound =
    let made = (create_skill id tenant name description c).1 in
    record {
      active = λ k s i there at. elim (read_added made k s c.skills there) [
        | inl new ↦ absurd (ground (arith, new, at))
        | inr old ↦ sound.active k s i old at
      ];
      shown = λ k s there. elim (read_added made k s c.skills there) [
        | inl new ↦ ground (arith, new)
        | inr old ↦ sound.shown k s old
      ];
    }

perform-IsSound : (o : Operation) (c : Catalog) → IsSound c → IsFresh o c → IsSound (perform o c)
unfolding create_revision approve_revision record_evaluation write_revision
perform-IsSound (new_skill id tenant name description) c sound fresh =
    create_skill-IsSound c id tenant name description sound
perform-IsSound (publishes tenant skill_id k) c sound fresh =
    publish_revision-IsSound c tenant skill_id k sound
perform-IsSound (deprecates tenant skill_id) c sound fresh =
    deprecate_skill-IsSound c tenant skill_id sound
perform-IsSound (new_revision texts id tenant skill_id instruction reason tools) c sound fresh =
    carried c sound (create_revision texts id tenant skill_id instruction reason tools c).0
      (ground arith)
      (create_revision-IsFrozen c texts id tenant skill_id instruction reason tools fresh)
perform-IsSound (approves tenant skill_id k) c sound fresh =
    carried c sound (approve_revision tenant skill_id k c).0 (ground arith)
      (approve_revision-IsFrozen c tenant skill_id k)
perform-IsSound (evaluates tenant skill_id k status result is_skill_loaded) c sound fresh =
    carried c sound (record_evaluation tenant skill_id k status result is_skill_loaded c).0
      (ground arith) (record_evaluation-IsFrozen c tenant skill_id k status result is_skill_loaded)

IsSound-after : (c : Catalog) → Reachable c → IsSound c
unfolding find
IsSound-after c nothing_yet = record {
  active = λ k s id there at. absurd (ground (arith, there));
  shown = λ k s there. absurd (ground (arith, there));
}
IsSound-after c (performed {c = before} o fresh reached) =
    perform-IsSound o before (IsSound-after before reached) fresh

-- After any sequence of operations from an empty registry: a skill points at a revision exactly if it
-- is published, and the revision that it points at exists, is one of its own, is published and has
-- passed its evaluation; and whatever the next operation is, it changes no published revision.
pub registry-IsSound :
    (c : Catalog) (o : Operation) → Reachable c → IsFresh o c → IsSound c × IsFrozen c (perform o c)
registry-IsSound c o reached fresh = (IsSound-after c reached, perform-IsFrozen o c fresh)
