-- ===== src/System/Os.antt =====
-- What the code calls and does not implement: the kernel's file calls, the clocks, the token that
-- other threads cancel, the waiting of the rate limiter, and whether SQLite fails.
use cache_cleaner.Base.{ℕ, Bool, Option, List, Result}
use cache_cleaner.Base.Text.{Text}
use cache_cleaner.Domain.Types.{FileIdentity, UnixTimestamp}
use cache_cleaner.Domain.Path.{PathText}
use cache_cleaner.Domain.Error.{Errno}
use cache_cleaner.Resource.Pool.{Wait}

pub data FileType : Type 0 where
  regular_file directory symlink other : FileType

-- An entry of a directory; a name that is not UTF-8 is `none`.
pub record RawEntry : Type 0 where
  pub entry_name : Option Text
  pub file_type : FileType

-- What the code reads of a `stat`; the size is its `max(0)`.
pub record EntryStat : Type 0 where
  pub identity : FileIdentity
  pub size : ℕ
  pub mtime : ℕ

-- Each call may change the state, so that other processes and threads may act at each call.
pub record Os : Type 1 where
  pub State : Type 0
  -- An open file descriptor.
  pub Fd : Type 0
  pub unix_now : State → UnixTimestamp × State
  pub clock_ms : State → ℕ × State
  pub is_cancelled : State → Bool × State
  -- The wait of the token bucket, whose answer the executor ignores.
  pub throttle : State → State
  pub open_dir : PathText → State → Result Errno Fd × State
  pub openat2 : Fd → Text → State → Result Errno Fd × State
  pub openat : Fd → Text → State → Result Errno Fd × State
  pub fstat : Fd → State → Result Errno FileIdentity × State
  pub statat : Fd → Text → State → Result Errno FileIdentity × State
  -- The flag is AT_REMOVEDIR.
  pub unlinkat : Fd → Text → Bool → State → Result Errno (Unit {0}) × State
  -- The error of the next SQL statement, if it fails for a reason outside the tables.
  pub sql_fault : State → Option Text × State
  -- The entries of an open directory, each read or failed.
  pub read_dir : Fd → State → List (Result Errno RawEntry) × State
  pub stat_entry : Fd → Text → State → Result Errno EntryStat × State
  -- `Path::exists`
  pub path_exists : PathText → State → Bool × State
  -- The waits of one acquisition of a descriptor permit, with what other threads do meanwhile.
  pub fd_waits : State → List Wait × State
