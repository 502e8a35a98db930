-- ===== src/Scanner/Permits.antt =====
-- The descriptor permits of src/scanner/mod.rs are given back.
use cache_cleaner.Base.{
  ℕ, zero, suc, ◌+◌, ◌-◌, ap, ◌≡◌, ◌⊎◌, inl, inr, ◌∙◌, subst, refl, true, false, not, ◌&&◌, List,
  [], ◌∷◌, by_bool, by_bool_eq, by_option, by_result, Bool-cases, arith,
}
use cache_cleaner.Domain.Types.{returns}
use cache_cleaner.Domain.ByteCount
use cache_cleaner.Domain.Path.{PathText, join}
use cache_cleaner.Domain.Target.{TargetDescriptor}
use cache_cleaner.System.Os.{Os}
use cache_cleaner.System.World.{World, call}
use cache_cleaner.System.Handle.{SafeDirHandle, open_root, open_child_dir}
use cache_cleaner.System.Entries.{SafeDirEntry, read_entries_fd}
use cache_cleaner.Resource.Pool.{
  FdPoolState, is_full, drop_permit, take_permit, acquire_fd_permit_timeout,
}
use cache_cleaner.Scanner.{
  max_depth, Scan, ScanResult, start, candidate_of, push_candidate, push_error, is_at_limit, close,
  Step, acquire_permit, scan_dir, scan_entry, scan_entries, scan_safe_recursive,
  scan_target_with_resource,
}
use cache_cleaner.Scanner.Found.{Leaves, by_outcome, leaves-at}
use cache_cleaner.Scanner.Limits.{Delivers, delivered}

drop-taken : (p : FdPoolState) → drop_permit (record p { active_fds = p.active_fds + 1 }) ≡ p
unfolding drop_permit
drop-taken p =
    let back : p.active_fds + 1 - 1 ≡ p.active_fds = omega arith in
    ap (λ n. record p { active_fds = n }) back

module _ (os : Os) (alone : (st : os.State) → (os.fd_waits st).0 ≡ []) where
  open os use {State, Fd}

  -- A permit that is given is one that its drop gives back, and else the pool is as it was.
  acquire_permit-cases :
      (s : Scan) (w : World State)
      → let q = (acquire_permit os s w).0 in
        ((q.0 ≡ true) × (drop_permit q.1.fd_pool ≡ s.fd_pool))
        ⊎ ((q.0 ≡ false) × (q.1.fd_pool ≡ s.fd_pool))
  unfolding acquire_permit acquire_fd_permit_timeout take_permit drop_permit
  acquire_permit-cases s w = elim (Bool-cases (is_full s.fd_pool)) [
    | inl full ↦ inr (ground (arith, alone w.os, full), ground (arith, alone w.os, full))
    | inr room ↦
        inl
          (ground (arith, alone w.os, room), ground (arith, alone w.os, room, drop-taken s.fd_pool))
  ]

  -- A step gives back what it takes.
  abbrev Balances : (SafeDirHandle Fd → PathText → Scan → Step os) → Type 0
  Balances descend =
      (h : SafeDirHandle Fd) (path : PathText) (s : Scan) (w : World State)
      → Leaves (λ t. t.fd_pool ≡ s.fd_pool) (descend h path s w)

  module _ (target : TargetDescriptor) (descend : SafeDirHandle Fd → PathText → Scan → Step os)
      (balances : Balances descend) (h : SafeDirHandle Fd) where
    -- The permit of a child goes with its handle, whether or not the child could be opened.
    scan_dir-balances :
        (e : SafeDirEntry) (rel : PathText) (s : Scan) (w : World State)
        → Leaves (λ t. t.fd_pool ≡ s.fd_pool) (scan_dir os target descend h e rel s w)
    unfolding scan_dir Leaves push_candidate
    scan_dir-balances e rel s w =
        let P = Leaves (λ t. t.fd_pool ≡ s.fd_pool) in
        let s₁ = push_candidate (candidate_of target e rel 0 s) s in
        let ((given, s₂), w₂) = acquire_permit os s₁ w in
        let (opened, w₃) = open_child_dir os h e.name w₂ in
        elim (acquire_permit-cases s₁ w) [
          | inl (taken, back) ↦
              by_bool_eq P given
                (λ _.
                  by_result P opened
                    (λ child.
                      let q = descend child rel s₂ w₃ in
                      by_outcome P q.0 tt (λ s₃ done.
                        ap drop_permit (
                          leaves-at (λ t. t.fd_pool ≡ s₂.fd_pool) q s₃ (balances child rel s₂ w₃)
                            done)
                        ∙ back))
                    (λ _. back))
                (λ off. absurd (ground (arith, taken, off)))
          | inr (refused, kept) ↦
              by_bool_eq P given (λ on. absurd (ground (arith, on, refused))) (λ _. kept)
        ]

    scan_entry-balances :
        (e : SafeDirEntry) (rel : PathText) (s : Scan) (w : World State)
        → Leaves (λ t. t.fd_pool ≡ s.fd_pool) (scan_entry os target descend h e rel s w)
    unfolding scan_entry Leaves push_candidate
    scan_entry-balances e rel s w =
        let P = Leaves (λ t. t.fd_pool ≡ s.fd_pool) in
        by_bool P (e.is_dir && not e.is_symlink) (scan_dir-balances e rel s w)
          (by_outcome P (ByteCount.new e.size_bytes) tt (λ _ _. refl))

    scan_entries-balances :
        (path : PathText) (es : List SafeDirEntry) (s : Scan) (w : World State)
        → Leaves (λ t. t.fd_pool ≡ s.fd_pool) (scan_entries os target descend h path es s w)
    unfolding scan_entries Leaves
    scan_entries-balances path [] s w = refl
    scan_entries-balances path (e ∷ es) s w =
        let P = Leaves (λ t. t.fd_pool ≡ s.fd_pool) in
        by_bool P (is_at_limit s) refl (
          by_option P (join path e.name)
            (λ rel.
              let q = scan_entry os target descend h e rel s w in
              by_outcome P q.0 tt (λ s' done.
                let same =
                  leaves-at (λ t. t.fd_pool ≡ s.fd_pool) q s' (scan_entry-balances e rel s w)
                    done in
                subst
                  (λ p.
                    Leaves (λ t. t.fd_pool ≡ p) (scan_entries os target descend h path es s' q.1))
                  same (scan_entries-balances path es s' q.1)))
            (scan_entries-balances path es s w))

  scan_safe_recursive-Balances :
      (target : TargetDescriptor) (left : ℕ) → Balances (scan_safe_recursive os target left)
  unfolding scan_safe_recursive Leaves push_error
  scan_safe_recursive-Balances target zero h path s w = refl
  scan_safe_recursive-Balances target (suc left) h path s w =
      let P = Leaves (λ t. t.fd_pool ≡ s.fd_pool) in
      by_bool P (is_at_limit s) refl (
        by_result P (read_entries_fd os h.fd w).0
          (λ entries.
            scan_entries-balances target (scan_safe_recursive os target left)
              (scan_safe_recursive-Balances target left) h path entries s _)
          (λ _. refl))

  module _ (target : TargetDescriptor) (counter : ℕ) (pool : FdPoolState) (w : World State) where
    closed :
        (s : Scan)
        → let q = (acquire_permit os (start counter pool) w).0 in
          s.fd_pool ≡ q.1.fd_pool → (close q.0 s).fd_pool ≡ pool
    closed s same = elim (acquire_permit-cases (start counter pool) w) [
      | inl (taken, back) ↦ rw taken (ap drop_permit same ∙ back)
      | inr (refused, kept) ↦ rw refused (same ∙ kept)
    ]

    abbrev Restores : ScanResult × Scan → Type 0
    Restores r = r.1.fd_pool ≡ pool

    scan_target-Restores : Delivers Restores (scan_target_with_resource os target counter pool w)
    unfolding scan_target_with_resource Delivers
    scan_target-Restores =
        let Q = Delivers Restores in
        let ((given, s₁), w₁) = acquire_permit os (start counter pool) w in
        let (opened, w₂) = open_root os target.base_path w₁ in
        by_result Q opened
          (λ h.
            let q = scan_safe_recursive os target max_depth h [] s₁ w₂ in
            by_outcome Q q.0 tt (λ s done. closed s (
              leaves-at (λ t. t.fd_pool ≡ s₁.fd_pool) q s
                (scan_safe_recursive-Balances target max_depth h [] s₁ w₂) done)))
          (λ _.
            by_bool Q (call (os.path_exists target.base_path) w₂).0 (closed s₁ refl)
              (closed s₁ refl))

    -- While no other thread uses the pool, a scan that returns leaves it as it found it: each
    -- permit that was taken is given back, on every path.
    pub scan_target-restores :
        (result : ScanResult) (s : Scan)
        → (scan_target_with_resource os target counter pool w).0 ≡ returns (result, s)
        → s.fd_pool ≡ pool
    scan_target-restores result s h =
        delivered Restores (scan_target_with_resource os target counter pool w) (result, s)
          scan_target-Restores h
