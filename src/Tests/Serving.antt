-- ===== src/Tests/Serving.antt =====
-- The scheduler, the workers, the pool, the settings, the frames and the token bucket at concrete
-- inputs.
use cache_cleaner.Base.{
  ℕ, ◌+◌, ◌*◌, ◌-◌, ◌≡◌, ◌≤◌, refl, true, false, Option, none, some, List, [], ◌∷◌, ◌++◌, ok, err,
  is_ok, arith,
}
use cache_cleaner.Base.Extension.{with_extension}
use cache_cleaner.Base.Text.{Text, codes}
use cache_cleaner.Base.Assoc.{lookup}
use cache_cleaner.Base.Decimal.{digits}
use cache_cleaner.Domain.Types.{returns}
use cache_cleaner.Domain.Error.{config_error}
use cache_cleaner.System.World.{World, LeaseRow}
use cache_cleaner.Config.{from_raw}
use cache_cleaner.Settings.{DaemonConfig, default_config, validate, raw_config}
use cache_cleaner.Settings.Files.{
  Files, no_fault, load_from_file_strict, load_or_default_with_path, save_to_file,
}
use cache_cleaner.Settings.Loading.{load_or_default-IsValid, save_to_file-atomic}
use cache_cleaner.Settings.Gap.{short_interval-rejected}
use cache_cleaner.Store.Leases.{lease_of, lease_row}
use cache_cleaner.Store.Counters.{get_max_job_id, max_of, queried}
use cache_cleaner.Scheduler.{SchedulerService, Trigger, manual_ipc, new, admit_job}
use cache_cleaner.Scheduler.Queue.{started, admitted}
use cache_cleaner.Scheduler.Fresh.{IsFresh, job_counter-IsFresh}
use cache_cleaner.Scheduler.Coalescing.{pending, absorb, admit_job-refines}
use cache_cleaner.Worker.{WorkerPool, for_job, claim_attempt}
use cache_cleaner.Worker.Claims.{claim_attempt-excludes, claim_attempt-leaks}
use cache_cleaner.Resource.Pool.{FdPoolState, Wait, acquire_fd_permit_timeout, drop_permit}
use cache_cleaner.Resource.Pool.Counting.{
  idle, dropped, Ends, is_waiting, acquire_fd_permit-counts, acquire_fd_permit-returns,
}
use cache_cleaner.Ipc.{send_message, read_message}
use cache_cleaner.Ipc.Framing.{decoded, read_message-send_message}
use cache_cleaner.RateLimiter.{
  BucketState, normal, io_pressure, one, target_ops_per_sec, try_acquire, acquire, sleep_dur,
}
use cache_cleaner.RateLimiter.Budget.{taken, IsBucket, taken-bounded}
use cache_cleaner.RateLimiter.Liveness.{alone, gets_token, acquire-gets_token}
use cache_cleaner.Tests.Kernel.{kernel, database, world}

abbrev trigger : Trigger
trigger = record {
  source = manual_ipc;
  deep = true;
  trim = false;
  dry_run = true;
  catalog_gen = 4;
  config_gen = 6;
}

abbrev scheduler : SchedulerService
scheduler = (new kernel world).0

admit_job-refines_example :
    let q = admit_job kernel trigger scheduler world in
    (is_ok q.0.0 ≡ true → pending q.0.1 ≡ absorb trigger (pending scheduler))
    × (is_ok q.0.0 ≡ false → (pending q.0.1 ≡ none) × (pending scheduler ≡ none))
admit_job-refines_example = admit_job-refines kernel trigger scheduler world

job_counter-IsFresh_example :
    let q = admit_job kernel trigger scheduler (new kernel world).1 in IsFresh q.0.1 q.1
unfolding new get_max_job_id max_of queried
job_counter-IsFresh_example =
    let q = admit_job kernel trigger scheduler (new kernel world).1 in
    job_counter-IsFresh kernel world q.0.1 q.1 refl (omega arith)
      (admitted trigger started (omega arith))

abbrev worker : WorkerPool
worker = record { worker_id = 2; attempt_counter = 1; is_running = false }

abbrev lease : LeaseRow
lease = record { resource_id = codes "job:5"; worker_id = 1; acquired_at = 990; expires_at = 1300 }

abbrev leased_world : World (List Text)
leased_world = record world { db = record database { leases = lease ∷ [] } }

leased : lease_of (for_job 5) leased_world.db.leases ≡ some lease
unfolding lease_of for_job digits
leased = refl

claim_attempt-excludes_example :
    (is_ok (claim_attempt kernel 5 300 worker leased_world).0.0 ≡ false)
    × ((claim_attempt kernel 5 300 worker leased_world).1.db ≡ leased_world.db)
claim_attempt-excludes_example =
    claim_attempt-excludes kernel 5 300 worker leased_world lease leased (λ h. ground (arith, h))
      (omega arith)

free : lease_of (for_job 9) world.db.leases ≡ none
unfolding lease_of
free = refl

claim_attempt-leaks_example :
    (is_ok (claim_attempt kernel 9 300 worker world).0.0 ≡ false)
    × (lease_of (for_job 9) (claim_attempt kernel 9 300 worker world).1.db.leases
        ≡ some (lease_row (for_job 9) 2 1000 300))
claim_attempt-leaks_example =
    claim_attempt-leaks kernel 9 300 worker world (λ _. refl) refl refl free

-- A full pool of two, of which another thread drops a permit at the first wait.
abbrev full : FdPoolState
full = record { active_fds = 2; max_fds = 2 }

abbrev wait : Wait
wait = record { elapsed = 100; pool = drop_permit full; timed_out = false }

acquire_fd_permit-counts_example : Ends 2 (acquire_fd_permit_timeout 500 (wait ∷ []) full)
acquire_fd_permit-counts_example =
    acquire_fd_permit-counts 2 500 2 (wait ∷ []) full (refl, refl, omega arith)
      (1, (dropped idle, tt))

abbrev late : Wait
late = record { elapsed = 500; pool = full; timed_out = false }

acquire_fd_permit-returns_example :
    is_waiting (acquire_fd_permit_timeout 500 (late ∷ []) full) ≡ false
acquire_fd_permit-returns_example = acquire_fd_permit-returns 500 (late ∷ []) full refl

-- A parser and a printer that know one configuration.
abbrev parse_toml : Text → Option DaemonConfig
parse_toml _ = some default_config

abbrev print_toml : DaemonConfig → Option Text
print_toml _ = some (codes "defaults")

abbrev files : Files
files = (codes "config.toml", some (codes "old")) ∷ []

with_extension_examples :
    (with_extension (codes "tmp") (codes "/data/adb/x.d/config.toml")
      ≡ codes "/data/adb/x.d/config.tmp")
    × (with_extension (codes "tmp") (codes "a.b/.conf/.") ≡ codes "a.b/.conf.tmp")
    × (with_extension (codes "tmp") (codes "x.tmp") ≡ codes "x.tmp")
    × (with_extension (codes "tmp") (codes "../..") ≡ codes "../..")
unfolding with_extension
with_extension_examples = (refl, refl, refl, refl)

load_or_default-IsValid_example :
    validate (load_or_default_with_path parse_toml print_toml files none).0 ≡ ok tt
load_or_default-IsValid_example = load_or_default-IsValid parse_toml print_toml files none

save_to_file-atomic_example :
    let q =
      save_to_file parse_toml print_toml no_fault default_config (codes "config.toml") files in
    (is_ok q.0 ≡ false → lookup (codes "config.toml") q.1 ≡ some (some (codes "old")))
    × (is_ok q.0 ≡ true
        → load_from_file_strict parse_toml print_toml q.1 (codes "config.toml") ≡ ok default_config)
unfolding lookup
save_to_file-atomic_example =
    save_to_file-atomic parse_toml print_toml default_config (codes "config.toml") files no_fault
      refl refl (λ _ _. refl)

default-valid : validate default_config ≡ ok tt
unfolding validate
default-valid = refl

short_interval-rejected_example :
    let d = record default_config { maintenance_interval_secs = 45 } in
    (validate d ≡ ok tt)
    × (from_raw (raw_config d false)
        ≡ returns (err (config_error (codes "maintenance_interval_secs must be 60..604800"))))
short_interval-rejected_example =
    short_interval-rejected default_config 45 false default-valid (omega arith) (omega arith)

abbrev bytes : List ℕ → Option (List ℕ)
bytes b = some b

abbrev frame : List ℕ
frame = 0 ∷ 0 ∷ 0 ∷ 2 ∷ 123 ∷ 125 ∷ []

framed : send_message bytes bytes (123 ∷ 125 ∷ []) [] ≡ ok frame
unfolding send_message
framed = refl

read_message-send_message_example :
    (payload : List ℕ) × ((bytes (123 ∷ 125 ∷ []) ≡ some payload)
      × (read_message bytes bytes (frame ++ 7 ∷ []) ≡ decoded (bytes payload) (7 ∷ [])))
read_message-send_message_example =
    read_message-send_message bytes bytes (123 ∷ 125 ∷ []) frame (7 ∷ []) framed

abbrev instants : List ℕ
instants = 1000000 ∷ 2000000 ∷ []

taken-bounded_example :
    let (n, b) = taken instants (cache_cleaner.RateLimiter.new normal 0) in
    n * one ≤ 32 * one + (b.last_refill - 0) * target_ops_per_sec normal
taken-bounded_example = taken-bounded normal 0 instants (omega arith, (omega arith, tt))

abbrev drained : BucketState
drained = record { ops_per_sec = 50; capacity = 32 * one; tokens = 0; last_refill = 0 }

drained-IsBucket : IsBucket io_pressure drained
drained-IsBucket = record { rate = refl; capacity = refl; level = omega arith }

acquire-gets_token_example :
    gets_token (acquire (alone 0 ∷ alone 20000000 ∷ alone 21000000 ∷ []) drained) ≡ true
unfolding try_acquire sleep_dur
acquire-gets_token_example =
    acquire-gets_token io_pressure (λ h. ground (arith, h)) drained drained-IsBucket 0 20000000
      21000000 [] (omega arith) (omega arith)
