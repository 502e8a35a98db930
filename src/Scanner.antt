-- ===== src/Scanner.antt =====
-- src/scanner/mod.rs: the discovery of candidates below a target.
pub mod Found
pub mod Limits
pub mod Permits
pub mod Reading
use cache_cleaner.Base.{
  ℕ, zero, suc, Bool, true, false, not, ◌&&◌, Option, none, some, List, [], ◌∷◌, ◌++◌, length, leb,
  if◌then◌else◌, Result, ok, err,
}
use cache_cleaner.Base.Word.{wrapping_add}
use cache_cleaner.Domain.Types.{Outcome, returns, panics, ByteCount}
use cache_cleaner.Domain.ByteCount
use cache_cleaner.Domain.Path.{PathText, join}
use cache_cleaner.Domain.Target.{Candidate, TargetDescriptor}
use cache_cleaner.Domain.Error.{Errno, CleanerError, io}
use cache_cleaner.System.Os.{Os}
use cache_cleaner.System.World.{Act, call}
use cache_cleaner.System.Handle.{SafeDirHandle, open_root, open_child_dir}
use cache_cleaner.System.Entries.{SafeDirEntry, read_entries_fd}
use cache_cleaner.Resource.Pool.{
  FdPoolState, drop_permit, Acquisition, permit, exhausted, waiting, acquire_fd_permit,
}

abbrev pub max_candidates_per_target : ℕ
max_candidates_per_target = 50000

-- The depth at which the scan stops
abbrev pub max_depth : ℕ
max_depth = 16

pub data ScanStatus : Type 0 where
  complete partial failed : ScanStatus

-- A message, as what it is formatted from.
pub data ScanError : Type 0 where
  open_failed read_failed : PathText → CleanerError → ScanError

pub record ScanResult : Type 0 where
  pub candidates : List Candidate
  pub status : ScanStatus
  pub errors : List ScanError

-- The variables of a scan, with the scanner's counter and the pool that it takes permits from.
pub record Scan : Type 0 where
  pub candidates : List Candidate
  pub errors : List ScanError
  pub hit_limit : Bool
  pub candidate_id_counter : ℕ
  pub fd_pool : FdPoolState

abbrev pub start : ℕ → FdPoolState → Scan
start counter pool = record {
  candidates = [];
  errors = [];
  hit_limit = false;
  candidate_id_counter = counter;
  fd_pool = pool;
}

-- The candidate of an entry, with its size.
abbrev pub candidate_of : TargetDescriptor → SafeDirEntry → PathText → ByteCount → Scan → Candidate
candidate_of target e rel size s = record {
  candidate_id = s.candidate_id_counter;
  target_id = target.target_id;
  rel_path = rel;
  identity = e.identity;
  size_bytes = size;
  mtime = e.mtime_secs;
  atime = none;
  is_dir = e.is_dir && not e.is_symlink;
  is_symlink = e.is_symlink;
}

-- `next_candidate_id` and the push
unfoldable pub push_candidate : Candidate → Scan → Scan
push_candidate c s = record s {
  candidates = s.candidates ++ c ∷ [];
  candidate_id_counter = wrapping_add s.candidate_id_counter 1;
}

unfoldable pub push_error : ScanError → Scan → Scan
push_error e s = record s { errors = s.errors ++ e ∷ [] }

abbrev pub reach_limit : Scan → Scan
reach_limit s = record s { hit_limit = true }

abbrev pub with_pool : FdPoolState → Scan → Scan
with_pool p s = record s { fd_pool = p }

abbrev pub is_at_limit : Scan → Bool
is_at_limit s = leb max_candidates_per_target (length s.candidates)

-- Whether a permit was given, and the pool then. The waits reach the timeout, so that the thread
-- comes back.
abbrev pub answered : Acquisition → Bool × FdPoolState
answered (permit p) = (true, p)
answered (exhausted _ p) = (false, p)
answered (waiting p) = (false, p)

-- The end of a handle gives its permit back.
abbrev pub release : Scan → Scan
release s = with_pool (drop_permit s.fd_pool) s

abbrev pub close : Bool → Scan → Scan
close given s = if given then release s else s

-- The status of a finished scan
unfoldable pub status_of : Scan → ScanStatus
status_of s = if s.hit_limit then partial else elim s.errors [
  | [] ↦ complete
  | _ ∷ _ ↦ elim s.candidates [ [] ↦ failed | _ ∷ _ ↦ partial ]
]

module _ (os : Os) where
  open os use {State, Fd}

  -- A step of a scan, which may panic.
  abbrev pub Step : Type 0
  Step = Act State (Outcome Scan)

  unfoldable pub acquire_permit : Scan → Act State (Bool × Scan)
  acquire_permit s w =
      let (waits, w') = call os.fd_waits w in
      let (given, pool) = answered (acquire_fd_permit waits s.fd_pool) in
      ((given, with_pool pool s), w')

  module _ (target : TargetDescriptor) where
    -- A directory is a candidate, and is entered where a permit and a handle are had.
    unfoldable pub scan_dir :
        (SafeDirHandle Fd → PathText → Scan → Step)
        → SafeDirHandle Fd
        → SafeDirEntry
        → PathText
        → Scan
        → Step
    scan_dir descend h e rel s w =
        let s₁ = push_candidate (candidate_of target e rel 0 s) s in
        let ((given, s₂), w₂) = acquire_permit s₁ w in
        elim given [
          | false ↦ (returns s₂, w₂)
          | true ↦
              let (opened, w₃) = open_child_dir os h e.name w₂ in
              elim opened [
                | err _ ↦ (returns (release s₂), w₃)
                | ok child ↦
                    let (r, w₄) = descend child rel s₂ w₃ in
                    elim r [ panics ↦ (panics, w₄) | returns s₃ ↦ (returns (release s₃), w₄) ]
              ]
        ]

    -- The body of the loop, for an entry with an accepted path
    unfoldable pub scan_entry :
        (SafeDirHandle Fd → PathText → Scan → Step)
        → SafeDirHandle Fd
        → SafeDirEntry
        → PathText
        → Scan
        → Step
    scan_entry descend h e rel s w = elim (e.is_dir && not e.is_symlink) [
      | true ↦ scan_dir descend h e rel s w
      | false ↦ elim (ByteCount.new e.size_bytes) [
        | panics ↦ (panics, w)
        | returns size ↦ (returns (push_candidate (candidate_of target e rel size s) s), w)
      ]
    ]

    -- The loop over the entries of a directory
    unfoldable pub scan_entries :
        (SafeDirHandle Fd → PathText → Scan → Step)
        → SafeDirHandle Fd
        → PathText
        → List SafeDirEntry
        → Scan
        → Step
    scan_entries descend h prefix [] s w = (returns s, w)
    scan_entries descend h prefix (e ∷ es) s w = elim (is_at_limit s) [
      | true ↦ (returns (reach_limit s), w)
      | false ↦ elim (join prefix e.name) [
        | none ↦ scan_entries descend h prefix es s w
        | some rel ↦
            let (r, w') = scan_entry descend h e rel s w in
            elim r [ panics ↦ (panics, w') | returns s' ↦ scan_entries descend h prefix es s' w' ]
      ]
    ]

    -- `scan_safe_recursive`, on what is left of the depth
    unfoldable pub scan_safe_recursive : ℕ → SafeDirHandle Fd → PathText → Scan → Step
    scan_safe_recursive zero h prefix s w = (returns s, w)
    scan_safe_recursive (suc left) h prefix s w = elim (is_at_limit s) [
      | true ↦ (returns (reach_limit s), w)
      | false ↦
          let (read, w') = read_entries_fd os h.fd w in
          elim read [
            | err e ↦ (returns (push_error (read_failed prefix e) s), w')
            | ok entries ↦ scan_entries (scan_safe_recursive left) h prefix entries s w'
          ]
    ]

    abbrev pub finished : Scan → ScanResult × Scan
    finished s = (record { candidates = s.candidates; status = status_of s; errors = s.errors }, s)

    -- `scan_target_with_resource`, with the counter and the pool that it leaves
    unfoldable pub scan_target_with_resource :
        ℕ → FdPoolState → Act State (Outcome (ScanResult × Scan))
    scan_target_with_resource counter pool w =
        let ((given, s₁), w₁) = acquire_permit (start counter pool) w in
        let (opened, w₂) = open_root os target.base_path w₁ in
        elim opened [
          | err e ↦
              let (found, w₃) = call (os.path_exists target.base_path) w₂ in
              elim found [
                | false ↦ (
                  returns
                      (record { candidates = []; status = complete; errors = [] }, close given s₁),
                  w₃,
                )
                | true ↦
                    let errors = open_failed target.base_path (io e) ∷ [] in
                    (
                      returns (
                        record { candidates = []; status = failed; errors = errors },
                        close given s₁,
                      ),
                      w₃,
                    )
              ]
          | ok root ↦
              let (r, w₃) = scan_safe_recursive max_depth root [] s₁ w₂ in
              elim r [
                | panics ↦ (panics, w₃)
                | returns s ↦ (returns (finished (close given s)), w₃)
              ]
        ]
