-- ===== src/Scanner/Reading.antt =====
-- A scan of src/scanner/mod.rs only reads.
use cache_cleaner.Base.{ℕ, zero, suc, not, ◌&&◌, List, [], ◌∷◌, by_bool, by_option, by_result}
use cache_cleaner.Domain.ByteCount
use cache_cleaner.Domain.Path.{PathText, join}
use cache_cleaner.Domain.Target.{TargetDescriptor}
use cache_cleaner.System.Os.{Os}
use cache_cleaner.System.World.{World, call}
use cache_cleaner.System.Handle.{SafeDirHandle, open_root, open_child_dir}
use cache_cleaner.System.Entries.{SafeDirEntry, read_entries_fd}
use cache_cleaner.System.ReadOnly.{
  ReadsOnly, ReadsOnly-refl, ReadsOnly-then, ReadsOnly-value, call-ReadsOnly, open_root-ReadsOnly,
  open_child_dir-ReadsOnly, read_entries_fd-ReadsOnly,
}
use cache_cleaner.Resource.Pool.{FdPoolState}
use cache_cleaner.Scanner.{
  max_depth, Scan, start, candidate_of, push_candidate, is_at_limit, Step, acquire_permit, scan_dir,
  scan_entry, scan_entries, scan_safe_recursive, scan_target_with_resource,
}
use cache_cleaner.Scanner.Found.{by_outcome}

module _ (os : Os) where
  open os use {State, Fd}

  acquire_permit-ReadsOnly : (s : Scan) (w : World State) → ReadsOnly w (acquire_permit os s w)
  unfolding acquire_permit
  acquire_permit-ReadsOnly s w =
      ReadsOnly-value w (call os.fd_waits w) _ (call-ReadsOnly os.fd_waits w)

  abbrev Reads : (SafeDirHandle Fd → PathText → Scan → Step os) → Type 0
  Reads descend =
      (h : SafeDirHandle Fd) (path : PathText) (s : Scan) (w : World State)
      → ReadsOnly w (descend h path s w)

  module _ (target : TargetDescriptor) (descend : SafeDirHandle Fd → PathText → Scan → Step os)
      (reads : Reads descend) (h : SafeDirHandle Fd) where
    scan_dir-ReadsOnly :
        (e : SafeDirEntry) (rel : PathText) (s : Scan) (w : World State)
        → ReadsOnly w (scan_dir os target descend h e rel s w)
    unfolding scan_dir
    scan_dir-ReadsOnly e rel s w =
        let s₁ = push_candidate (candidate_of target e rel 0 s) s in
        let x = acquire_permit os s₁ w in
        let hx = acquire_permit-ReadsOnly s₁ w in
        let y = open_child_dir os h e.name x.1 in
        let hy = ReadsOnly-then w x y hx (open_child_dir-ReadsOnly os h e.name x.1) in
        by_bool (ReadsOnly w) x.0.0
          (by_result (ReadsOnly w) y.0
            (λ child.
              let z = descend child rel x.0.1 y.1 in
              let hz = ReadsOnly-then w y z hy (reads child rel x.0.1 y.1) in
              by_outcome (ReadsOnly w) z.0 (ReadsOnly-value w z _ hz)
                (λ _ _. ReadsOnly-value w z _ hz))
            (λ _. ReadsOnly-value w y _ hy))
          (ReadsOnly-value w x _ hx)

    scan_entry-ReadsOnly :
        (e : SafeDirEntry) (rel : PathText) (s : Scan) (w : World State)
        → ReadsOnly w (scan_entry os target descend h e rel s w)
    unfolding scan_entry
    scan_entry-ReadsOnly e rel s w =
        by_bool (ReadsOnly w) (e.is_dir && not e.is_symlink) (scan_dir-ReadsOnly e rel s w) (
          by_outcome (ReadsOnly w) (ByteCount.new e.size_bytes) (ReadsOnly-refl _ w)
            (λ _ _. ReadsOnly-refl _ w))

    scan_entries-ReadsOnly :
        (path : PathText) (es : List SafeDirEntry) (s : Scan) (w : World State)
        → ReadsOnly w (scan_entries os target descend h path es s w)
    unfolding scan_entries
    scan_entries-ReadsOnly path [] s w = ReadsOnly-refl _ w
    scan_entries-ReadsOnly path (e ∷ es) s w =
        by_bool (ReadsOnly w) (is_at_limit s) (ReadsOnly-refl _ w) (
          by_option (ReadsOnly w) (join path e.name)
            (λ rel.
              let x = scan_entry os target descend h e rel s w in
              let hx = scan_entry-ReadsOnly e rel s w in
              by_outcome (ReadsOnly w) x.0 (ReadsOnly-value w x _ hx)
                (λ s' _. ReadsOnly-then w x _ hx (scan_entries-ReadsOnly path es s' x.1)))
            (scan_entries-ReadsOnly path es s w))

  scan_safe_recursive-ReadsOnly :
      (target : TargetDescriptor) (left : ℕ) → Reads (scan_safe_recursive os target left)
  unfolding scan_safe_recursive
  scan_safe_recursive-ReadsOnly target zero h path s w = ReadsOnly-refl _ w
  scan_safe_recursive-ReadsOnly target (suc left) h path s w =
      let x = read_entries_fd os h.fd w in
      let hx = read_entries_fd-ReadsOnly os h.fd w in
      by_bool (ReadsOnly w) (is_at_limit s) (ReadsOnly-refl _ w) (
        by_result (ReadsOnly w) x.0
          (λ entries. ReadsOnly-then w x _ hx (
            scan_entries-ReadsOnly target (scan_safe_recursive os target left)
              (scan_safe_recursive-ReadsOnly target left) h path entries s x.1))
          (λ _. ReadsOnly-value w x _ hx))

  -- A scan leaves the log, the tables and the locks as they are.
  pub scan_target-ReadsOnly :
      (target : TargetDescriptor) (counter : ℕ) (pool : FdPoolState) (w : World State)
      → ReadsOnly w (scan_target_with_resource os target counter pool w)
  unfolding scan_target_with_resource
  scan_target-ReadsOnly target counter pool w =
      let x = acquire_permit os (start counter pool) w in
      let hx = acquire_permit-ReadsOnly (start counter pool) w in
      let y = open_root os target.base_path x.1 in
      let hy = ReadsOnly-then w x y hx (open_root-ReadsOnly os target.base_path x.1) in
      by_result (ReadsOnly w) y.0
        (λ h.
          let z = scan_safe_recursive os target max_depth h [] x.0.1 y.1 in
          let hz =
            ReadsOnly-then w y z hy
              (scan_safe_recursive-ReadsOnly target max_depth h [] x.0.1 y.1) in
          by_outcome (ReadsOnly w) z.0 (ReadsOnly-value w z _ hz) (λ _ _. ReadsOnly-value w z _ hz))
        (λ _.
          let z = call (os.path_exists target.base_path) y.1 in
          let hz = ReadsOnly-then w y z hy (call-ReadsOnly (os.path_exists target.base_path) y.1) in
          by_bool (ReadsOnly w) z.0 (ReadsOnly-value w z _ hz) (ReadsOnly-value w z _ hz))
