-- ===== src/Tests/Gates.antt =====
-- The gates, the locks, the grant and the attempt's life at concrete inputs.
use cache_cleaner.Base.{
  ℕ, ◌≡◌, ◌≢◌, List, arith, ◌↔◌, ◌≤◌, refl, suc, true, false, none, [], ◌∷◌, ok, is_ok,
}
use cache_cleaner.Base.Text.{codes}
use cache_cleaner.Base.Word.{wrapping_add}
use cache_cleaner.Base.Assoc.{lookup}
use cache_cleaner.Domain.Target.{Candidate, TargetDescriptor}
use cache_cleaner.Domain.Job.{
  JobAttempt, new_with_generations, queued, can_transition_to, transition_with_cas,
}
use cache_cleaner.Domain.Lifecycle.{
  rank, transition_with_cas_iff, Reachable, created, moved, Reachable-version,
}
use cache_cleaner.Safety.{validate_candidate, validate_mutation_boundary}
use cache_cleaner.Safety.Gate.{
  IsAdmissible, IsMutationAdmissible, validate_candidate_iff, validate_mutation_boundary_iff,
  dropbox_rejected,
}
use cache_cleaner.Resource.Locks.{
  TargetLockPermit, acquire_target_lock, release_target_lock, is_target_locked,
}
use cache_cleaner.Resource.LockLaws.{
  LockStep, acquires, drops, lock_steps, acquire_target_lock-excludes,
}
use cache_cleaner.Tests.Kernel.{world, cache_target, file_identity}

abbrev candidate : Candidate
candidate = record {
  candidate_id = 1;
  target_id = codes "app";
  rel_path = codes "a.tmp";
  identity = file_identity;
  size_bytes = 100;
  mtime = 500;
  atime = none;
  is_dir = false;
  is_symlink = false;
}

abbrev dropbox_target : TargetDescriptor
dropbox_target = record cache_target { base_path = codes "/data/system/dropbox" }

abbrev permit : TargetLockPermit
permit = record { target_id = codes "app"; attempt_id = 9; reservation_id = 1 }

acquired : (acquire_target_lock (codes "app") 9 world).0 ≡ ok permit
unfolding acquire_target_lock lookup
acquired = refl

abbrev fresh : JobAttempt
fresh = new_with_generations 10 1 2 1 4 6

moves : is_ok (transition_with_cas 11 fresh queued 1).1 ≡ true
unfolding transition_with_cas new_with_generations can_transition_to
moves = refl

validate_candidate_iff_example :
    (is_ok (validate_candidate 1000 candidate cache_target) ≡ true)
    ↔ IsAdmissible candidate cache_target
validate_candidate_iff_example = validate_candidate_iff 1000 candidate cache_target

validate_mutation_boundary_iff_example :
    (is_ok (validate_mutation_boundary 1000 cache_target (codes "a.tmp") file_identity 1 4 6)
      ≡ true)
    ↔ IsMutationAdmissible cache_target (codes "a.tmp") file_identity 4
validate_mutation_boundary_iff_example =
    validate_mutation_boundary_iff 1000 cache_target (codes "a.tmp") file_identity 1 4 6

dropbox_rejected_example : is_ok (validate_candidate 1000 candidate dropbox_target) ≡ false
dropbox_rejected_example = dropbox_rejected 1000 candidate dropbox_target refl

others_differ : ◌≢◌ {A = ℕ} 2 1
others_differ h = ground (arith, h)

other_targets : codes "other" ≢ codes "app"
other_targets h = ground (arith, h)

-- Others want the target, lock another one, and drop an older permit of the target.
abbrev steps : List LockStep
steps =
    acquires (codes "app") 8
    ∷ acquires (codes "other") 8
    ∷ drops (record permit { reservation_id = 2 })
    ∷ []

acquire_target_lock-excludes_example :
    let w' = lock_steps steps (acquire_target_lock (codes "app") 9 world).1 in
    (is_ok (acquire_target_lock (codes "app") 7 w').0 ≡ false)
    × (is_target_locked (codes "app") (release_target_lock permit w') ≡ false)
    × (is_target_locked (codes "other") (release_target_lock permit w')
        ≡ is_target_locked (codes "other") w')
acquire_target_lock-excludes_example =
    acquire_target_lock-excludes (codes "app") 9 world permit acquired steps
      (tt, (tt, (others_differ, tt))) 7 (codes "other") other_targets

transition_with_cas_iff_example :
    ((is_ok (transition_with_cas 11 fresh queued 1).1 ≡ true)
      ↔ ((fresh.state_version ≡ 1) × (can_transition_to fresh.state queued ≡ true)))
    × ((is_ok (transition_with_cas 11 fresh queued 1).1 ≡ true
          → ((transition_with_cas 11 fresh queued 1).0.state ≡ queued)
            × ((transition_with_cas 11 fresh queued 1).0.state_version
                ≡ wrapping_add fresh.state_version 1))
        × (is_ok (transition_with_cas 11 fresh queued 1).1 ≡ false
            → (transition_with_cas 11 fresh queued 1).0 ≡ fresh))
transition_with_cas_iff_example = transition_with_cas_iff 11 fresh queued 1

abbrev moved_once : Reachable (transition_with_cas 11 fresh queued 1).0
moved_once = moved 11 fresh queued 1 (created 10 1 2 1 4 6) moves

Reachable-version_example :
    ((transition_with_cas 11 fresh queued 1).0.state_version
      ≤ suc (rank (transition_with_cas 11 fresh queued 1).0.state))
    × ((transition_with_cas 11 fresh queued 1).0.state_version ≤ 13)
Reachable-version_example = Reachable-version (transition_with_cas 11 fresh queued 1).0 moved_once
