-- ===== src/Recovery/Verified.antt =====
-- What a full recovery of src/recovery/mod.rs says about the disk.
use cache_cleaner.Base.{
  ◌≡◌, inl, inr, true, some, List, [], ◌∷◌, All, ok, Result-cases, Option-cases, arith,
}
use cache_cleaner.Base.Text.{Text}
use cache_cleaner.Base.Assoc.{lookup}
use cache_cleaner.Domain.Types.{AttemptId, JobId}
use cache_cleaner.Domain.Target.{TargetDescriptor}
use cache_cleaner.System.Os.{Os}
use cache_cleaner.System.World.{World, AttemptRow, IntentRow}
use cache_cleaner.Verifier.Outcome.{VerificationOutcome, is_successful_deletion}
use cache_cleaner.Verifier.Check.{verify_operation_postcondition}
use cache_cleaner.Recovery.{
  judge, Tally, empty_tally, stored_path, get_operation_intents_for_attempt, reconcile_intent,
  reconcile_intents, reconcile_attempt,
}

-- The intent's target is in the catalog, and at some point of the run its file was found gone.
pub record IsVerified (os : Os) (targets : List (Text × TargetDescriptor)) (i : IntentRow)
    : Type 0 where
  pub target : TargetDescriptor
  pub in_catalog : lookup i.target_id targets ≡ some target
  pub moment : World os.State
  pub gone :
      is_successful_deletion
        (verify_operation_postcondition os target.base_path
          (stored_path i)
          i.expected_identity
          moment).0
      ≡ true

judge-deleted : (o : VerificationOutcome) → (judge o).is_deleted ≡ is_successful_deletion o
unfolding judge is_successful_deletion
judge-deleted o = ground arith

module _ (os : Os) (targets : List (Text × TargetDescriptor)) (attempt : AttemptId)
    (job : JobId) where
  open os use {State}

  reconcile_intent-IsVerified :
      (i : IntentRow) (t : Tally) (w : World State)
      → (reconcile_intent os targets attempt job i t w).0.all_succeeded ≡ true
      → (t.all_succeeded ≡ true) × IsVerified os targets i
  unfolding reconcile_intent
  reconcile_intent-IsVerified i t w h = elim (Option-cases (lookup i.target_id targets)) [
    | inl e ↦ absurd (ground (arith, e, h))
    | inr (target, e) ↦
        let outcome =
          (verify_operation_postcondition os target.base_path (stored_path i) i.expected_identity
            w).0 in
        let deleted = judge-deleted outcome in
        (
          ground (arith, e, h, deleted),
          record {
            target = target;
            in_catalog = e;
            moment = w;
            gone = ground (arith, e, h, deleted);
          },
        )
  ]

  reconcile_intents-IsVerified :
      (is : List IntentRow) (t : Tally) (w : World State)
      → (reconcile_intents os targets attempt job is t w).0.all_succeeded ≡ true
      → (t.all_succeeded ≡ true) × All (IsVerified os targets) is
  unfolding reconcile_intents
  reconcile_intents-IsVerified [] t w h = (h, tt)
  reconcile_intents-IsVerified (i ∷ is) t w h =
      let (t', w') = reconcile_intent os targets attempt job i t w in
      let rest = reconcile_intents-IsVerified is t' w' h in
      let first = reconcile_intent-IsVerified i t w rest.0 in (first.0, (first.1, rest.1))

module _ (os : Os) (targets : List (Text × TargetDescriptor)) (a : AttemptRow)
    (w : World os.State) where
  -- An interrupted attempt counts as fully recovered only if each of its intents was verified:
  -- its target is in the catalog, and the verifier found its file gone.
  pub reconcile_attempt-IsVerified :
      (reconcile_attempt os targets a w).0 ≡ ok true
      → (intents : List IntentRow) × (((get_operation_intents_for_attempt os a.attempt_id w).0
            ≡ ok intents)
          × All (IsVerified os targets) intents)
  unfolding reconcile_attempt
  reconcile_attempt-IsVerified h =
      elim (Result-cases (get_operation_intents_for_attempt os a.attempt_id w).0) [
        | inr (f, e) ↦ absurd (ground (arith, e, h))
        | inl (intents, e) ↦
            let w₁ = (get_operation_intents_for_attempt os a.attempt_id w).1 in
            let (t, w₂) =
              reconcile_intents os targets a.attempt_id a.job_id intents empty_tally w₁ in
            let all : t.all_succeeded ≡ true = ground (arith, e, h) in
            (
              intents,
              (
                e,
                (reconcile_intents-IsVerified os targets a.attempt_id a.job_id intents empty_tally
                    w₁ all).1,
              ),
            )
      ]
