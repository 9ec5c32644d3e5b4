-- ===== src/Coding/Finish/Verified.antt =====
-- An answer that ends a turn of the coding agent has been verified.
use mathlib.Core.Option.{some-injective}
use marcus.Prelude.{
  if◌then◌else◌, String, ◌≡◌, Bool, true, false, ◌&&◌, some, List, [], ◌∷◌, refl, ==_refl, ◌+◌, sym,
  ap, nat_eq, string_eq, ℕ, none, not, arith,
}
use marcus.Coding.Contract.{requested, after_mutation, VerificationPolicy}
use marcus.Coding.Finish.{
  VerificationEvidence, is_evidence, is_mutation, is_some, Session, is_current, Observed,
  is_attempt, record_observation, after_attempt, session_after, AgentTexts, after_mutation_of,
  finish_turn, begin_turn, is_required, delivered, track_processes, no_ids, repaired,
}
use marcus.Coding.Patterns.{Re}

-- What a session knows: whether its evidence is current, and whether a change waits for evidence.
record Tells (s : Session) (proven pending : Bool) : Type 0 where
  evidence : is_current s ≡ proven
  revision :
      (e : VerificationEvidence)
      → s.verification_evidence ≡ some e
      → e.evidence_revision ≡ s.workspace_revision
  waits : is_some s.unverified_revision ≡ pending

module _ (re : Re) (texts : AgentTexts) (mutates : String → Bool) where
  -- The newest observation that is a change or an attempt at verification is evidence.
  unfoldable pub is_proven : List Observed → Bool
  is_proven [] = false
  is_proven (o ∷ earlier) =
      let later = is_proven earlier in
      if is_attempt re texts mutates o
      then is_evidence re texts mutates o
      else if is_mutation re texts mutates o
      then false
      else later

  -- A change stands that no evidence has followed.
  unfoldable pub is_pending : List Observed → Bool
  is_pending [] = false
  is_pending (o ∷ earlier) =
      let later = is_pending earlier in
      if is_attempt re texts mutates o && is_evidence re texts mutates o
      then false
      else if is_mutation re texts mutates o
      then true
      else later

  step-Tells :
      (mutation attempt proof : Bool) (o : Observed) (s : Session) (proven waiting : Bool)
      → Tells s proven waiting
      → Tells
          (after_attempt re texts mutates attempt proof o
            (after_mutation_of re texts mutates mutation s))
          (if attempt then proof else if mutation then false else proven)
          (if attempt && proof then false else if mutation then true else waiting)
  unfolding is_current
  step-Tells false false proof o s proven waiting h = record {
    evidence = h.evidence;
    revision = h.revision;
    waits = h.waits;
  }
  step-Tells true false proof o s proven waiting h = record {
    evidence = refl;
    revision = λ e same. cc;
    waits = refl;
  }
  step-Tells false true false o s proven waiting h = record {
    evidence = refl;
    revision = λ e same. cc;
    waits = h.waits;
  }
  step-Tells true true false o s proven waiting h = record {
    evidence = refl;
    revision = λ e same. cc;
    waits = refl;
  }
  step-Tells false true true o s proven waiting h = record {
    evidence = ==_refl s.workspace_revision;
    revision = λ e same. sym (ap (λ x. x.evidence_revision) (some-injective _ _ same));
    waits = refl;
  }
  step-Tells true true true o s proven waiting h = record {
    evidence = ==_refl (s.workspace_revision + 1);
    revision = λ e same. sym (ap (λ x. x.evidence_revision) (some-injective _ _ same));
    waits = refl;
  }

  after-Tells :
      (s : Session) (observations : List Observed)
      → Tells s false false
      → Tells
          (session_after re texts mutates s observations)
          (is_proven observations)
          (is_pending observations)
  unfolding session_after record_observation is_proven is_pending is_current
  after-Tells s [] h = h
  after-Tells s (o ∷ earlier) h =
      step-Tells (is_mutation re texts mutates o) (is_attempt re texts mutates o)
        (is_evidence re texts mutates o) o (tracked (session_after re texts mutates s earlier))
        (is_proven earlier) (is_pending earlier) (tracked-Tells _ (after-Tells s earlier h))
    where
      tracked : Session → Session
      tracked x = record x {
        active_process_ids = track_processes re texts mutates o x.active_process_ids;
      }

      tracked-Tells :
          (x : Session) {proven waiting : Bool}
          → Tells x proven waiting
          → Tells (tracked x) proven waiting
      tracked-Tells x k = record { evidence = k.evidence; revision = k.revision; waits = k.waits }

begun-Tells : (s : Session) → s.unverified_revision ≡ none → Tells (begin_turn false s) false false
unfolding is_current
begun-Tells s none_waits = record {
  evidence = refl;
  revision = λ e same. cc;
  waits = ap is_some none_waits;
}

proven-settled :
    (re : Re) (texts : AgentTexts) (mutates : String → Bool) (observations : List Observed)
    → is_proven re texts mutates observations ≡ true
    → is_pending re texts mutates observations ≡ false
unfolding is_proven is_pending
proven-settled re texts mutates [] h = refl
proven-settled re texts mutates (o ∷ earlier) h =
    ground (arith, h, proven-settled re texts mutates earlier)

delivered_means :
    (ids : List String) (bad : Bool) (repairs max_repairs : ℕ)
    → (if not (no_ids ids)
        then repaired repairs max_repairs
        else if bad
        then repaired repairs max_repairs
        else delivered)
      ≡ delivered
    → (ids ≡ []) × (bad ≡ false)
delivered_means [] false repairs max_repairs h = (refl, refl)
delivered_means [] true repairs max_repairs h = ground (arith, h)
delivered_means (p ∷ ids) bad repairs max_repairs h = ground (arith, h)

-- Take a turn that begins without a contract handed on, in a session where no change waits for
-- evidence, and any observations in it. If the turn may end with an answer, no background process is
-- active. The session's evidence is current exactly if the newest observation that changes the
-- workspace or attempts a verification is evidence; if the contract asks for verification, it is so;
-- and if the contract asks for it after a change, each successful change has had evidence after it.
pub final_answer_verified :
    (re : Re) (texts : AgentTexts) (mutates : String → Bool) (policy : VerificationPolicy)
    (s : Session) (observations : List Observed) (repairs max_repairs : ℕ)
    → s.unverified_revision ≡ none
    → let end_of_turn = session_after re texts mutates (begin_turn false s) observations in
      finish_turn policy end_of_turn repairs max_repairs ≡ delivered
      → (end_of_turn.active_process_ids ≡ [])
        × (is_current end_of_turn ≡ is_proven re texts mutates observations)
        × (policy ≡ requested → is_proven re texts mutates observations ≡ true)
        × (policy ≡ after_mutation → is_pending re texts mutates observations ≡ false)
unfolding finish_turn is_required
final_answer_verified re texts mutates policy s observations repairs max_repairs none_waits h = (
  means.0,
  told.evidence,
  λ same. ground (arith, means.1, same, told.evidence),
  λ same. ground (arith, means.1, same, told.evidence, told.waits, proven_settles observations),
)
  where
    end_of_turn : Session
    end_of_turn = session_after re texts mutates (begin_turn false s) observations

    means :
        (end_of_turn.active_process_ids ≡ [])
        × ((is_required policy end_of_turn && not (is_current end_of_turn)) ≡ false)
    means =
        delivered_means end_of_turn.active_process_ids
          (is_required policy end_of_turn && not (is_current end_of_turn)) repairs max_repairs h

    told :
        Tells end_of_turn
          (is_proven re texts mutates observations)
          (is_pending re texts mutates observations)
    told = after-Tells re texts mutates (begin_turn false s) observations (begun-Tells s none_waits)

    proven_settles :
        (os : List Observed)
        → is_proven re texts mutates os ≡ true
        → is_pending re texts mutates os ≡ false
    proven_settles os = proven-settled re texts mutates os
