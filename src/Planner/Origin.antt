-- ===== src/Planner/Origin.antt =====
-- Where the operations of a plan of src/planner/mod.rs come from.
use cache_cleaner.Base.{◌≡◌, ◌⊎◌, inl, inr, refl, List, [], ◌∷◌, All, All-append, by_if, ok, arith}
use cache_cleaner.Base.Sort.{sort_by-All}
use cache_cleaner.Domain.Types.{JobId, Generation, UnixTimestamp}
use cache_cleaner.Domain.Target.{Candidate}
use cache_cleaner.Domain.Decision.{PolicyPermit}
use cache_cleaner.Domain.Plan.{
  OperationType, delete_file, delete_dir_empty, PlannedOperation, PlannedPlan,
}
use cache_cleaner.Planner.{
  Draft, candidate_of, permit_le, files_of, dirs_of, plan_file, plan_dir, plan_files, plan_dirs,
  empty_draft, draft_of, build_plan,
}

-- The operation deletes the candidate.
abbrev pub Deletes : OperationType → Candidate → Type 0
Deletes o c =
    (o ≡ delete_file c.target_id c.rel_path c.identity c.size_bytes)
    ⊎ (o ≡ delete_dir_empty c.target_id c.rel_path c.identity)

module _ (P : PolicyPermit → Type 0) where
  abbrev pub ComesFrom : PlannedOperation → Type 0
  ComesFrom op = (permit : PolicyPermit) × (P permit × Deletes op.op_type (candidate_of permit))

  plan_files-ComesFrom :
      (ps : List PolicyPermit) (d : Draft)
      → All P ps
      → All ComesFrom d.operations
      → All ComesFrom (plan_files d ps).operations
  unfolding plan_files plan_file
  plan_files-ComesFrom [] d h k = k
  plan_files-ComesFrom (p ∷ ps) d h k =
      plan_files-ComesFrom ps (plan_file d p) h.1
        (All-append ComesFrom d.operations _ k ((p, (h.0, inl refl)), tt))

  plan_dirs-ComesFrom :
      (ps : List PolicyPermit) (d : Draft)
      → All P ps
      → All ComesFrom d.operations
      → All ComesFrom (plan_dirs d ps).operations
  unfolding plan_dirs plan_dir
  plan_dirs-ComesFrom [] d h k = k
  plan_dirs-ComesFrom (p ∷ ps) d h k =
      plan_dirs-ComesFrom ps (plan_dir d p) h.1
        (All-append ComesFrom d.operations _ k ((p, (h.0, inr refl)), tt))

  files_of-All : (ps : List PolicyPermit) → All P ps → All P (files_of ps)
  unfolding files_of
  files_of-All [] h = tt
  files_of-All (p ∷ ps) h =
      by_if (All P) (candidate_of p).is_dir (files_of-All ps h.1) (h.0, files_of-All ps h.1)

  dirs_of-All : (ps : List PolicyPermit) → All P ps → All P (dirs_of ps)
  unfolding dirs_of
  dirs_of-All [] h = tt
  dirs_of-All (p ∷ ps) h =
      by_if (All P) (candidate_of p).is_dir (h.0, dirs_of-All ps h.1) (dirs_of-All ps h.1)

  draft_of-ComesFrom : (ps : List PolicyPermit) → All P ps → All ComesFrom (draft_of ps).operations
  unfolding draft_of
  draft_of-ComesFrom ps h =
      let files = sort_by-All permit_le P (files_of ps) (files_of-All ps h) in
      let dirs = sort_by-All permit_le P (dirs_of ps) (dirs_of-All ps h) in
      plan_dirs-ComesFrom _ _ dirs (plan_files-ComesFrom _ empty_draft files tt)

  -- Each operation of a built plan deletes the candidate of one of the permits.
  pub build_plan-ComesFrom :
      (now : UnixTimestamp) (job : JobId) (catalog config : Generation) (ps : List PolicyPermit)
      (plan : PlannedPlan)
      → All P ps
      → build_plan now job catalog config ps ≡ ok plan
      → All ComesFrom plan.operations
  unfolding build_plan
  build_plan-ComesFrom now job catalog config ps plan h built =
      let same : plan.operations ≡ (draft_of ps).operations = ground (arith, built) in
      rw same (draft_of-ComesFrom ps h)
