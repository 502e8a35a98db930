-- ===== src/Planner/Numbering.antt =====
-- The planner's operations are numbered in order, with dependencies on earlier ones only, so that
-- its own validation never refuses a plan.
use cache_cleaner.Base.{
  ℕ, suc, ◌+◌, ◌≡◌, ◌<◌, inl, inr, refl, ◌∙◌, subst, true, List, [], ◌∷◌, ◌++◌, All, All-map,
  length, length-append, contains, Bool-cases, arith,
}
use cache_cleaner.Base.Sort.{sort_by, length-sort_by}
use cache_cleaner.Domain.Types.{OperationId}
use cache_cleaner.Domain.Decision.{PolicyPermit}
use cache_cleaner.Domain.Plan.{PlannedOperation}
use cache_cleaner.Planner.{
  permit_le, files_of, dirs_of, Draft, plan_file, plan_dir, plan_files, plan_dirs, retain_defined,
  dependencies_of, empty_draft, draft_of,
}

-- The operations have the ids k, k + 1, ..., and each depends on smaller positive ids only.
abbrev pub IsNumbered : ℕ → List PlannedOperation → Type 0
IsNumbered k [] = Unit
IsNumbered k (op ∷ ops) =
    (op.op_id ≡ k) × All (λ d. (0 < d) × (d < k)) op.dependencies × IsNumbered (suc k) ops

IsNumbered-snoc :
    (k : ℕ) (ops : List PlannedOperation) (op : PlannedOperation)
    → IsNumbered k ops
    → op.op_id ≡ k + length ops
    → All (λ d. (0 < d) × (d < k + length ops)) op.dependencies
    → IsNumbered k (ops ++ op ∷ [])
IsNumbered-snoc k [] op h e deps =
    let same : k + 0 ≡ k = omega arith in
    (omega arith, subst (λ n. All (λ d. (0 < d) × (d < n)) op.dependencies) same deps, tt)
IsNumbered-snoc k (o ∷ ops) op h e deps =
    let same : k + suc (length ops) ≡ suc k + length ops = omega arith in
    (
      h.0,
      h.1,
      IsNumbered-snoc (suc k) ops op h.2 (e ∙ same)
          (subst (λ n. All (λ d. (0 < d) × (d < n)) op.dependencies) same deps),
    )

record IsDraft (d : Draft) : Type 0 where
  numbered : IsNumbered 1 d.operations
  counter : d.op_id_counter ≡ 1 + length d.operations
  defined : (n : OperationId) → contains d.defined_ops n ≡ true → (0 < n) × (n < d.op_id_counter)

retain_defined-defined :
    (defined deps : List OperationId)
    → All (λ d. contains defined d ≡ true) (retain_defined defined deps)
unfolding retain_defined
retain_defined-defined defined [] = tt
retain_defined-defined defined (dep ∷ deps) = elim (Bool-cases (contains defined dep)) [
  | inl e ↦ rw e (e, retain_defined-defined defined deps)
  | inr e ↦ rw e (retain_defined-defined defined deps)
]

module _ (d : Draft) (p : PolicyPermit) (h : IsDraft d) where
  defined-cons :
      (n : OperationId)
      → contains (d.op_id_counter ∷ d.defined_ops) n ≡ true
      → (0 < n) × (n < d.op_id_counter + 1)
  defined-cons n e = elim (Bool-cases (contains d.defined_ops n)) [
    | inl old ↦ omega (arith, h.defined n old)
    | inr new ↦ let same : d.op_id_counter ≡ n = ground arith in omega (arith, same, h.counter)
  ]

  plan_file-IsDraft : IsDraft (plan_file d p)
  unfolding plan_file
  plan_file-IsDraft = record {
    numbered = IsNumbered-snoc 1 d.operations _ h.numbered h.counter tt;
    counter = omega (arith, h.counter, length-append d.operations (_ ∷ []));
    defined = defined-cons;
  }

  plan_dir-IsDraft : IsDraft (plan_dir d p)
  unfolding plan_dir dependencies_of
  plan_dir-IsDraft = record {
    numbered = IsNumbered-snoc 1 d.operations _ h.numbered h.counter (
        All-map _ _ _ (λ n e. omega (arith, h.defined n e, h.counter))
          (retain_defined-defined d.defined_ops _));
    counter = omega (arith, h.counter, length-append d.operations (_ ∷ []));
    defined = defined-cons;
  }

plan_files-IsDraft : (d : Draft) (ps : List PolicyPermit) → IsDraft d → IsDraft (plan_files d ps)
unfolding plan_files
plan_files-IsDraft d [] h = h
plan_files-IsDraft d (p ∷ ps) h = plan_files-IsDraft (plan_file d p) ps (plan_file-IsDraft d p h)

plan_dirs-IsDraft : (d : Draft) (ps : List PolicyPermit) → IsDraft d → IsDraft (plan_dirs d ps)
unfolding plan_dirs
plan_dirs-IsDraft d [] h = h
plan_dirs-IsDraft d (p ∷ ps) h = plan_dirs-IsDraft (plan_dir d p) ps (plan_dir-IsDraft d p h)

length-plan_files :
    (d : Draft) (ps : List PolicyPermit)
    → length (plan_files d ps).operations ≡ length d.operations + length ps
unfolding plan_files plan_file
length-plan_files d [] = omega arith
length-plan_files d (p ∷ ps) =
    omega (arith, length-plan_files (plan_file d p) ps, length-append d.operations (_ ∷ []))

length-plan_dirs :
    (d : Draft) (ps : List PolicyPermit)
    → length (plan_dirs d ps).operations ≡ length d.operations + length ps
unfolding plan_dirs plan_dir
length-plan_dirs d [] = omega arith
length-plan_dirs d (p ∷ ps) =
    omega (arith, length-plan_dirs (plan_dir d p) ps, length-append d.operations (_ ∷ []))

length-files_of-dirs_of :
    (ps : List PolicyPermit) → length (files_of ps) + length (dirs_of ps) ≡ length ps
unfolding files_of dirs_of
length-files_of-dirs_of [] = omega arith
length-files_of-dirs_of (p ∷ ps) = ground (arith, length-files_of-dirs_of ps)

empty_draft-IsDraft : IsDraft empty_draft
empty_draft-IsDraft = record { numbered = tt; counter = refl; defined = λ n e. cc }

pub draft_of-IsNumbered : (ps : List PolicyPermit) → IsNumbered 1 (draft_of ps).operations
unfolding draft_of
draft_of-IsNumbered ps =
    (plan_dirs-IsDraft _ _ (plan_files-IsDraft _ _ empty_draft-IsDraft)).numbered

pub length-draft_of : (ps : List PolicyPermit) → length (draft_of ps).operations ≡ length ps
unfolding draft_of
length-draft_of ps =
    let files = sort_by permit_le (files_of ps) in
    let dirs = sort_by permit_le (dirs_of ps) in
    omega (
      arith,
      length-plan_dirs (plan_files empty_draft files) dirs,
      length-plan_files empty_draft files,
      length-sort_by permit_le (files_of ps),
      length-sort_by permit_le (dirs_of ps),
      length-files_of-dirs_of ps,
    )
