-- ===== src/Planner/Children.antt =====
-- In a plan everything inside a directory stands before the directory's removal.
use cache_cleaner.Base.{
  ◌≡◌, refl, Bool, false, ◌&&◌, List, [], ◌∷◌, ◌++◌, All, All-map, All-append, ok, arith,
}
use cache_cleaner.Base.Text.{text_eq, starts_with}
use cache_cleaner.Base.Sort.{SortedBy, sort_by, sort_by-SortedBy}
use cache_cleaner.Domain.Types.{TargetId, JobId, Generation, UnixTimestamp}
use cache_cleaner.Domain.Path.{PathText}
use cache_cleaner.Domain.Decision.{PolicyPermit}
use cache_cleaner.Domain.Plan.{
  OperationType, delete_file, delete_dir_empty, prune_dir_recursive, trim_filesystem,
  vacuum_database, PlannedOperation, PlannedPlan,
}
use cache_cleaner.Planner.{
  candidate_of, permit_le, files_of, dirs_of, Draft, plan_file, plan_dir, plan_files, plan_dirs,
  empty_draft, draft_of, build_plan,
}
use cache_cleaner.Planner.Order.{permit_le-IsTotalOrder, permit_le-not_below}

-- The operation deletes something of the target with a path that begins so.
abbrev pub acts_below : TargetId → PathText → OperationType → Bool
acts_below target prefix (delete_file t p _ _) = text_eq t target && starts_with p prefix
acts_below target prefix (delete_dir_empty t p _) = text_eq t target && starts_with p prefix
acts_below target prefix (prune_dir_recursive t p _) = text_eq t target && starts_with p prefix
acts_below target prefix (trim_filesystem _) = false
acts_below target prefix (vacuum_database _) = false

-- The first operation removes a directory inside which the second acts.
abbrev pub is_parent_of : OperationType → OperationType → Bool
is_parent_of (delete_dir_empty t p _) op = acts_below t (p ++ b'/' ∷ []) op
is_parent_of _ op = false

-- No operation acts inside a directory that an earlier one removes.
abbrev pub ChildrenFirst : List PlannedOperation → Type 0
ChildrenFirst [] = Unit
ChildrenFirst (o ∷ ops) =
    All (λ later. is_parent_of o.op_type later.op_type ≡ false) ops × ChildrenFirst ops

ChildrenFirst-snoc :
    (ops : List PlannedOperation) (new : PlannedOperation)
    → ChildrenFirst ops
    → All (λ o. is_parent_of o.op_type new.op_type ≡ false) ops
    → ChildrenFirst (ops ++ new ∷ [])
ChildrenFirst-snoc [] new h k = (tt, tt)
ChildrenFirst-snoc (o ∷ ops) new h k = (
  All-append (λ later. is_parent_of o.op_type later.op_type ≡ false) ops (new ∷ []) h.0 (k.0, tt),
  ChildrenFirst-snoc ops new h.1 k.1,
)

-- The operation removes no directory that the permit's item lies in.
abbrev IsClearOf : PolicyPermit → PlannedOperation → Type 0
IsClearOf p o =
    is_parent_of o.op_type (
      delete_dir_empty (candidate_of p).target_id (candidate_of p).rel_path
        (candidate_of p).identity)
    ≡ false

-- No operation removes a directory.
abbrev IsFile : PlannedOperation → Type 0
IsFile o = (later : OperationType) → is_parent_of o.op_type later ≡ false

plan_files-IsFile :
    (d : Draft) (ps : List PolicyPermit)
    → All IsFile d.operations
    → ChildrenFirst d.operations
    → All IsFile (plan_files d ps).operations × ChildrenFirst (plan_files d ps).operations
unfolding plan_files plan_file
plan_files-IsFile d [] f h = (f, h)
plan_files-IsFile d (p ∷ ps) f h =
    plan_files-IsFile (plan_file d p) ps (All-append IsFile d.operations _ f ((λ later. refl), tt))
      (ChildrenFirst-snoc d.operations _ h
        (All-map IsFile _ d.operations (λ o is_file. is_file _) f))

plan_dirs-ChildrenFirst :
    (d : Draft) (ps : List PolicyPermit)
    → SortedBy permit_le ps
    → All (λ o. All (λ p. IsClearOf p o) ps) d.operations
    → ChildrenFirst d.operations
    → ChildrenFirst (plan_dirs d ps).operations
unfolding plan_dirs plan_dir
plan_dirs-ChildrenFirst d [] sorted clear h = h
plan_dirs-ChildrenFirst d (p ∷ ps) sorted clear h =
    plan_dirs-ChildrenFirst (plan_dir d p) ps sorted.1
      (All-append (λ o. All (λ q. IsClearOf q o) ps) d.operations _
        (All-map _ _ d.operations (λ o c. c.1) clear)
        (All-map _ _ ps (λ q le. permit_le-not_below p q le) sorted.0, tt))
      (ChildrenFirst-snoc d.operations _ h (All-map _ _ d.operations (λ o c. c.0) clear))

All-const : (ps : List PolicyPermit) (o : PlannedOperation) → IsFile o → All (λ p. IsClearOf p o) ps
All-const [] o f = tt
All-const (p ∷ ps) o f = (f _, All-const ps o f)

draft_of-ChildrenFirst : (ps : List PolicyPermit) → ChildrenFirst (draft_of ps).operations
unfolding draft_of
draft_of-ChildrenFirst ps =
    let files = plan_files-IsFile empty_draft (sort_by permit_le (files_of ps)) tt tt in
    plan_dirs-ChildrenFirst (plan_files empty_draft (sort_by permit_le (files_of ps)))
      (sort_by permit_le (dirs_of ps))
      (sort_by-SortedBy permit_le permit_le-IsTotalOrder (dirs_of ps))
      (All-map IsFile _ _ (λ o f. All-const (sort_by permit_le (dirs_of ps)) o f) files.0) files.1

-- In a built plan no operation acts inside a directory that an earlier operation removes: what
-- lies in a directory, at any depth, is planned before the directory.
pub build_plan-ChildrenFirst :
    (now : UnixTimestamp) (job : JobId) (catalog config : Generation) (permits : List PolicyPermit)
    (plan : PlannedPlan)
    → build_plan now job catalog config permits ≡ ok plan
    → ChildrenFirst plan.operations
unfolding build_plan
build_plan-ChildrenFirst now job catalog config permits plan h =
    let same : plan.operations ≡ (draft_of permits).operations = ground arith in
    rw same (draft_of-ChildrenFirst permits)
