-- ===== src/Scanner/Found.antt =====
-- What src/scanner/mod.rs finds, as the steps that a scan is made of.
use cache_cleaner.Base.{
  ℕ, zero, suc, ◌+◌, ◌≡◌, ◌≤◌, ◌<◌, subst, refl, false, not, ◌&&◌, some, List, [], ◌∷◌, by_bool,
  by_bool_eq, by_option_eq, by_result, arith,
}
use cache_cleaner.Base.Text.{Text}
use cache_cleaner.Domain.Types.{Outcome, returns, panics}
use cache_cleaner.Domain.ByteCount
use cache_cleaner.Domain.Path.{PathText, join}
use cache_cleaner.Domain.Target.{Candidate, TargetDescriptor}
use cache_cleaner.System.Os.{Os}
use cache_cleaner.System.World.{World}
use cache_cleaner.System.Handle.{SafeDirHandle, open_child_dir}
use cache_cleaner.System.Entries.{SafeDirEntry, read_entries_fd}
use cache_cleaner.Resource.Pool.{FdPoolState}
use cache_cleaner.Scanner.{
  max_depth, Scan, ScanError, candidate_of, push_candidate, push_error, reach_limit, with_pool,
  is_at_limit, Step, acquire_permit, scan_dir, scan_entry, scan_entries, scan_safe_recursive,
}

-- A path that a number of accepted names lead to from the root.
pub data Below : PathText → ℕ → Type 0 where
  root : Below [] 0
  step :
      {p : PathText} {n : ℕ} (name : Text)
      → Below p n
      → {q : PathText} → join p name ≡ some q
      → Below q (suc n)

-- A candidate of the target, at most 16 names below its root.
abbrev pub IsFound : TargetDescriptor → Candidate → Type 0
IsFound target c =
    (c.target_id ≡ target.target_id)
    × (c.size_bytes ≤ ByteCount.max_safe)
    × ((n : ℕ) × ((n < max_depth) × Below c.rel_path (suc n)))

-- The steps of a scan.
pub data Scanned (target : TargetDescriptor) (s₀ : Scan) : Scan → Type 0 where
  begun : Scanned target s₀ s₀
  found :
      {s : Scan} (c : Candidate)
      → Scanned target s₀ s
      → is_at_limit s ≡ false
      → c.candidate_id ≡ s.candidate_id_counter
      → IsFound target c
      → Scanned target s₀ (push_candidate c s)
  noted : {s : Scan} (e : ScanError) → Scanned target s₀ s → Scanned target s₀ (push_error e s)
  limited : {s : Scan} → Scanned target s₀ s → Scanned target s₀ (reach_limit s)
  pooled : {s : Scan} (p : FdPoolState) → Scanned target s₀ s → Scanned target s₀ (with_pool p s)

-- Where a step returns, its scan has the property.
unfoldable pub Leaves : {S : Type 0} → (Scan → Type 0) → Outcome Scan × World S → Type 0
Leaves P q = elim q.0 [ panics ↦ Unit | returns s ↦ P s ]

-- A property of a match on an outcome, by the property of its two arms.
pub by_outcome :
    {A B : Type 0} (P : B → Type 0) {f : A → B} {y : B} (o : Outcome A)
    → P y
    → ((a : A) → o ≡ returns a → P (f a))
    → P (elim o [ panics ↦ y | returns a ↦ f a ])
by_outcome P panics hy hf = hy
by_outcome P (returns a) hy hf = hf a refl

pub leaves-at :
    {S : Type 0} (P : Scan → Type 0) (q : Outcome Scan × World S) (s : Scan)
    → Leaves P q
    → q.0 ≡ returns s
    → P s
unfolding Leaves
leaves-at P (panics, w) s h e = absurd (ground (arith, e))
leaves-at P (returns s', w) s h e = let same : s' ≡ s = ground (arith, e) in subst P same h

zero_le : 0 ≤ ByteCount.max_safe
zero_le = omega arith

new-bounded : (n size : ℕ) → ByteCount.new n ≡ returns size → size ≤ ByteCount.max_safe
unfolding ByteCount.new
new-bounded n size h = ground (arith, h)

module _ (os : Os) (target : TargetDescriptor) (s₀ : Scan) where
  open os use {State, Fd}

  -- A step keeps what was scanned, from a directory that is `n` names below the root.
  abbrev Keeps : ℕ → (SafeDirHandle Fd → PathText → Scan → Step os) → Type 0
  Keeps n descend =
      (h : SafeDirHandle Fd) (path : PathText) (s : Scan) (w : World State)
      → Below path n
      → Scanned target s₀ s
      → Leaves (Scanned target s₀) (descend h path s w)

  acquire_permit-Scanned :
      (s : Scan) (w : World State)
      → Scanned target s₀ s
      → Scanned target s₀ (acquire_permit os s w).0.1
  unfolding acquire_permit
  acquire_permit-Scanned s w k = pooled _ k

  module _ (n : ℕ) (lt : n < max_depth) (descend : SafeDirHandle Fd → PathText → Scan → Step os)
      (keeps : Keeps (suc n) descend) (h : SafeDirHandle Fd) where
    scan_entry-Scanned :
        (e : SafeDirEntry) (rel : PathText) (s : Scan) (w : World State)
        → Below rel (suc n)
        → is_at_limit s ≡ false
        → Scanned target s₀ s
        → Leaves (Scanned target s₀) (scan_entry os target descend h e rel s w)
    unfolding scan_entry scan_dir Leaves
    scan_entry-Scanned e rel s w below room k =
        let P = Leaves (Scanned target s₀) in
        let c = candidate_of target e rel 0 s in
        let k₁ = found c k room refl (refl, zero_le, (n, (lt, below))) in
        let s₁ = push_candidate c s in
        let k₂ = acquire_permit-Scanned s₁ w k₁ in
        let ((given, s₂), w₂) = acquire_permit os s₁ w in
        by_bool P (e.is_dir && not e.is_symlink)
          (by_bool P given
            (by_result P (open_child_dir os h e.name w₂).0
              (λ child.
                let q = descend child rel s₂ (open_child_dir os h e.name w₂).1 in
                by_outcome P q.0 tt (λ s₃ done.
                  pooled _
                    (leaves-at (Scanned target s₀) q s₃ (keeps child rel s₂ _ below k₂) done)))
              (λ e'. pooled _ k₂))
            k₂)
          (by_outcome P (ByteCount.new e.size_bytes) tt (λ size done.
            found _ k room refl (refl, new-bounded e.size_bytes size done, (n, (lt, below)))))

    scan_entries-Scanned :
        (path : PathText) (es : List SafeDirEntry) (s : Scan) (w : World State)
        → Below path n
        → Scanned target s₀ s
        → Leaves (Scanned target s₀) (scan_entries os target descend h path es s w)
    unfolding scan_entries Leaves
    scan_entries-Scanned path [] s w below k = k
    scan_entries-Scanned path (e ∷ es) s w below k =
        let P = Leaves (Scanned target s₀) in
        by_bool_eq P (is_at_limit s) (λ _. limited k)
          (λ room.
            by_option_eq P (join path e.name)
              (λ rel joined.
                let q = scan_entry os target descend h e rel s w in
                by_outcome P q.0 tt (λ s' done. scan_entries-Scanned path es s' q.1 below (
                  leaves-at (Scanned target s₀) q s'
                    (scan_entry-Scanned e rel s w (step e.name below joined) room k) done)))
              (λ _. scan_entries-Scanned path es s w below k))

  pub scan_safe_recursive-Scanned :
      (left n : ℕ) → n + left ≡ max_depth → Keeps n (scan_safe_recursive os target left)
  unfolding scan_safe_recursive Leaves
  scan_safe_recursive-Scanned zero n e h path s w below k = k
  scan_safe_recursive-Scanned (suc left) n e h path s w below k =
      let P = Leaves (Scanned target s₀) in
      by_bool P (is_at_limit s) (limited k) (
        by_result P (read_entries_fd os h.fd w).0
          (λ entries.
            scan_entries-Scanned n (omega (arith, e)) (scan_safe_recursive os target left)
              (scan_safe_recursive-Scanned left (suc n) (omega (arith, e))) h path entries s _ below
              k)
          (λ err. noted _ k))
