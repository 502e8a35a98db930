-- ===== src/Lib.antt =====
-- A model of cache_cleaner, a daemon that cleans caches on Android, and what it keeps.
--
-- The program takes requests into the one slot of its scheduler, claims the job with a lease,
-- scans the catalogued targets for candidates, passes each candidate through the safety gate and
-- the policy engine, plans the deletions with the children of a directory first, authorizes the plan with a grant of capabilities, and executes it: the executor
-- asks the gate once more before each deletion, writes an intent to the store before it acts and
-- the result afterwards, and checks the disk. The idle manager decides when maintenance may run.
--
-- Which file models which part:
--   Base      what the components share: tests, lists, results, text, machine words, floats, sorting
--             and association lists for Rust's std
--   Domain    src/domain, src/error.rs: the types; Lifecycle is about the state machine of job.rs
--   Settings  src/config.rs: DaemonConfig, its defaults and checks, loading and saving
--   Config    src/config_pipeline/mod.rs: ValidatedConfig::from_raw is from_raw
--   Safety    src/safety/mod.rs: SafetyGate's validate_candidate and validate_mutation_boundary
--   Policy    src/policy/mod.rs: PolicyEngine's evaluate_candidate_with_freezer
--   Catalog   src/catalog/mod.rs: TargetCatalog; Discovery and Users are discover_all_targets
--   Planner   src/planner/mod.rs: CleanupPlanner's build_plan and validate_plan
--   Auth      src/auth/mod.rs: AuthorizationEngine's authorize_plan
--   System    the kernel as a parameter (Os), the state that all operations share (World), and
--             src/fs/mod.rs: SafeDirHandle (Handle, Entries)
--   Verifier  src/verifier/mod.rs: PostconditionVerifier
--   Resource  src/resource/mod.rs: the target locks (Locks), the storage and mount locks (Levels),
--             and the pool of descriptors (Pool)
--   RateLimiter  src/util/rate_limiter.rs: TokenBucketRateLimiter
--   Scanner   src/scanner/mod.rs: CandidateScanner's scan_target_with_resource
--   Scheduler src/scheduler/mod.rs: SchedulerService
--   Worker    src/worker/mod.rs: WorkerPool
--   Pipeline  src/pipeline/mod.rs: the loops over the targets (Collect), execute (Job)
--   Ipc       src/ipc/protocol.rs: send_message and read_message
--   Store     src/store/mod.rs and schema.rs: the tables as lists of rows
--   Executor  src/executor/mod.rs: execute_plan, split at the steps that its comments number
--   Recovery  src/recovery/mod.rs: RecoveryEngine
--   Cancellation  src/engine/cancellation.rs: CancellationToken, as sequences of atomic accesses
--   Idle      src/system/idle: IdlePolicy, IdleManager, the thermal hysteresis
--   Tests     concrete inputs, and the theorems applied to them
--
-- State is passed explicitly: an action takes the World and returns its result with the new World.
-- Each call of the kernel, the clock, the cancellation token and SQLite goes through the record Os
-- and may change its state in any way, so that what other processes do to the disk in between is
-- covered; the tables and the locks change by the modelled operations only. An error is a value of
-- Result; the `?` operator is a match. A struct over u64 is a native number; wrapping and
-- saturating additions are written out. A temperature is a number of millionths of a degree,
-- negative, or not a number. The loops are structural recursion over the lists that the code
-- iterates. Three loops have no such list. The scanner's recursion has the depth of 16 that the code
-- stops at. The wait for a descriptor takes the list of its waits, and the token bucket the list of
-- its rounds, with what other threads do to the bucket before each: both say when no more is to come, and the results say how many rounds
-- are enough. The tokens of the bucket are exact billionths, where the code has f64.
--
-- The scanner, the scheduler, the workers and the pipeline keep their own state, which is passed
-- beside the World. What other threads do to the pool of descriptors comes with each wait.
--
-- The World has a log of effects that the code does not keep: each write of an intent, each
-- unlinkat and each recorded result is appended to it, for statements about their order.
--
-- Not modelled: the frozen applications, the trim, and the answers of the platform about users and
-- packages, which are parameters; the event loop, the daemon's state file and the server's threads;
-- the parsers of the pressure files; the scanner's streaming variant, which no other code uses; the command line, the audit log, and the probes of hardware and
-- platform, which are I/O; the descriptor permits of the executor, whose failure it ignores; and the
-- texts of messages.
pub mod Base
pub mod Domain
pub mod Config
pub mod Safety
pub mod Policy
pub mod Auth
pub mod Idle
pub mod Planner
pub mod System
pub mod Verifier
pub mod Store
pub mod Resource
pub mod Cancellation
pub mod Scheduler
pub mod Worker
pub mod Scanner
pub mod Settings
pub mod Pipeline
pub mod Ipc
pub mod RateLimiter
pub mod Catalog
pub mod Executor
pub mod Recovery
pub mod Tests
