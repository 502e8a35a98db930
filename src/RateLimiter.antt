-- ===== src/RateLimiter.antt =====
-- src/util/rate_limiter.rs: the token bucket. Time is in nanoseconds and tokens are counted in
-- billionths, in which a nanosecond adds exactly the rate; the rounding of f64 is left out.
pub mod Budget
pub mod Liveness
use cache_cleaner.Base.{
  ℕ, ◌+◌, ◌-◌, ◌*◌, ◌/◌, Bool, true, false, List, [], ◌∷◌, leb, ltb, ◌==◌, if◌then◌else◌,
}

pub data ThrottleMode : Type 0 where
  normal warm cpu_pressure io_pressure paused : ThrottleMode

abbrev pub target_ops_per_sec : ThrottleMode → ℕ
target_ops_per_sec normal = 500
target_ops_per_sec warm = 300
target_ops_per_sec cpu_pressure = 150
target_ops_per_sec io_pressure = 50
target_ops_per_sec paused = 0

-- One token, and one second.
abbrev pub one : ℕ
one = 1000000000

abbrev pub max_burst_capacity : ℕ
max_burst_capacity = 32

abbrev pub clamp : ℕ → ℕ → ℕ → ℕ
clamp lo hi n = if ltb n lo then lo else if ltb hi n then hi else n

pub record BucketState : Type 0 where
  pub ops_per_sec : ℕ
  pub capacity : ℕ
  pub tokens : ℕ
  pub last_refill : ℕ

abbrev pub capacity_of : ℕ → ℕ
capacity_of rate = clamp 1 max_burst_capacity rate * one

-- `new`
unfoldable pub new : ThrottleMode → ℕ → BucketState
new mode now =
    let rate = target_ops_per_sec mode in
    record {
      ops_per_sec = rate;
      capacity = capacity_of rate;
      tokens = capacity_of rate;
      last_refill = now;
    }

-- `set_mode`
unfoldable pub set_mode : ThrottleMode → BucketState → BucketState
set_mode mode b =
    let rate = target_ops_per_sec mode in
    record {
      ops_per_sec = rate;
      capacity = capacity_of rate;
      tokens = if ltb (capacity_of rate) b.tokens then capacity_of rate else b.tokens;
      last_refill = b.last_refill;
    }

-- `f64::min`
abbrev pub at_most : ℕ → ℕ → ℕ
at_most bound n = if ltb bound n then bound else n

-- The refill of the loop's body; `duration_since` stops at 0.
abbrev pub refilled : ℕ → BucketState → ℕ
refilled now b = at_most b.capacity (b.tokens + (now - b.last_refill) * b.ops_per_sec)

-- The body of the loop at an instant, for a rate above 0: whether a token was taken.
unfoldable pub try_acquire : ℕ → BucketState → Bool × BucketState
try_acquire now b =
    let tokens = refilled now b in
    if leb one tokens
    then (true, record b { tokens = tokens - one; last_refill = now })
    else (false, record b { tokens = tokens; last_refill = now })

-- The time that the loop sleeps after it took no token.
unfoldable pub sleep_dur : BucketState → ℕ
sleep_dur b =
    let wait = (one - b.tokens) / b.ops_per_sec in if ltb wait 1000000 then 1000000 else wait

pub data Acquired : Type 0 where
  answered : Bool → BucketState → Acquired
  sleeping : BucketState → Acquired

-- A round of `acquire`: what other threads did to the bucket since the mutex was released, and the
-- instant at which the round has it.
pub record Round : Type 0 where
  pub others : BucketState → BucketState
  pub instant : ℕ

-- `acquire`, with its rounds, which sleeps again after the last of them.
unfoldable pub acquire : List Round → BucketState → Acquired
acquire [] b = sleeping b
acquire (r ∷ later) b =
    let found = r.others b in
    let (taken, b') = try_acquire r.instant found in
    let rest = acquire later b' in
    if found.ops_per_sec == 0
    then answered false found
    else if taken
    then answered true b'
    else rest
