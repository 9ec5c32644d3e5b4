-- ===== src/Tests/Skills.antt =====
-- harness/skills/registry.py: a skill that is made, evaluated, approved and published.
use marcus.Prelude.{refl, ◌≢◌, [], true}
use marcus.Prelude.Json.{end}
use marcus.Prelude.Rows.{update, find}
use marcus.Skills.Lifecycle.{
  new_revision, performed, nothing_yet, Operation, approves, perform, Reachable, evaluates, IsFresh,
  IsSound, publishes, new_skill, IsFrozen,
}
use marcus.Skills.Registry.{
  approve_revision, Catalog, publish_revision, no_row, Texts, record_evaluation, create_revision,
  create_skill,
}
use marcus.Skills.Safety.{registry-IsSound}

abbrev plain_texts : Texts
plain_texts = record { strip = λ s. s; len = λ s. 3 }

abbrev made : Operation
made = new_skill 7 1 "deploy" "ship a service"

abbrev drafted : Operation
drafted = new_revision plain_texts 9 1 7 "run the pipeline" "first" []

abbrev one_skill : Catalog
one_skill = perform made (record { skills = []; revisions = [] })

abbrev with_revision : Catalog
with_revision = perform drafted one_skill

abbrev evaluated : Catalog
evaluated = perform (evaluates 1 7 9 "passed" end true) with_revision

abbrev approved_one : Catalog
approved_one = perform (approves 1 7 9) evaluated

abbrev published_one : Catalog
published_one = perform (publishes 1 7 9) approved_one

no_skill_yet : IsFresh made (record { skills = []; revisions = [] })
unfolding find
no_skill_yet = refl

no_revision_yet : IsFresh drafted one_skill
unfolding find create_skill
no_revision_yet = refl

published_one_reached : Reachable published_one
published_one_reached = performed (publishes 1 7 9) tt (
    performed (approves 1 7 9) tt (
      performed (evaluates 1 7 9 "passed" end true) tt
        (performed drafted no_revision_yet (performed made no_skill_yet nothing_yet))))

it_is_published : (publish_revision 1 7 9 approved_one).1 ≢ no_row
unfolding publish_revision create_skill create_revision record_evaluation approve_revision find
    update
it_is_published h = cc h

registry-IsSound_example :
    IsSound published_one
    × IsFrozen published_one (perform (evaluates 1 7 9 "failed" end true) published_one)
registry-IsSound_example =
    registry-IsSound published_one (evaluates 1 7 9 "failed" end true) published_one_reached tt
