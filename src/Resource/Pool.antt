-- ===== src/Resource/Pool.antt =====
-- The pool of file descriptors of src/resource/mod.rs. Its mutex is given up while a thread waits,
-- so that other threads may take and drop permits at each wait.
pub mod Counting
use cache_cleaner.Base.{ℕ, ◌+◌, Bool, ◌&&◌, List, [], ◌∷◌, leb, if◌then◌else◌, Result, ok, err}
use cache_cleaner.Base.Word.{saturating_sub}
use cache_cleaner.Domain.Error.{CleanerError, resource_exhausted}

abbrev pub default_max_concurrent_fds : ℕ
default_max_concurrent_fds = 64

pub record FdPoolState : Type 0 where
  pub active_fds : ℕ
  pub max_fds : ℕ

-- The pool of `ResourceManager::new`
unfoldable pub new_pool : ℕ → FdPoolState
new_pool max_fds = record { active_fds = 0; max_fds = max_fds }

-- `drop` of a permit
unfoldable pub drop_permit : FdPoolState → FdPoolState
drop_permit s = record s { active_fds = saturating_sub s.active_fds 1 }

abbrev pub is_full : FdPoolState → Bool
is_full s = leb s.max_fds s.active_fds

-- What one wait on the condition variable meets: the time that has passed when the thread looks
-- at the clock before it, the pool when the thread has the mutex again, and whether the wait
-- timed out.
pub record Wait : Type 0 where
  pub elapsed : ℕ
  pub pool : FdPoolState
  pub timed_out : Bool

-- The end of an acquisition, and the pool as it leaves it.
pub data Acquisition : Type 0 where
  permit : FdPoolState → Acquisition
  exhausted : CleanerError → FdPoolState → Acquisition
  -- The waits that are given are over and the thread waits on.
  waiting : FdPoolState → Acquisition

unfoldable pub take_permit : FdPoolState → Acquisition
take_permit s = permit (record s { active_fds = s.active_fds + 1 })

-- `acquire_fd_permit_timeout`
unfoldable pub acquire_fd_permit_timeout : ℕ → List Wait → FdPoolState → Acquisition
acquire_fd_permit_timeout timeout [] s = if is_full s then waiting s else take_permit s
acquire_fd_permit_timeout timeout (v ∷ vs) s =
    let rest = acquire_fd_permit_timeout timeout vs v.pool in
    if is_full s
    then (if leb timeout v.elapsed
        then exhausted resource_exhausted s
        else if v.timed_out && is_full v.pool
        then exhausted resource_exhausted v.pool
        else rest)
    else take_permit s

-- `acquire_fd_permit`, in milliseconds
abbrev pub acquire_fd_permit : List Wait → FdPoolState → Acquisition
acquire_fd_permit = acquire_fd_permit_timeout 500

-- `active_fd_count`
abbrev pub active_fd_count : FdPoolState → ℕ
active_fd_count s = s.active_fds
