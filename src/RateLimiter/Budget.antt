-- ===== src/RateLimiter/Budget.antt =====
-- What the token bucket of src/util/rate_limiter.rs allows in a span of time.
use cache_cleaner.Base.{
  ℕ, suc, ◌+◌, ◌-◌, ◌*◌, ◌≡◌, ◌≤◌, refl, sym, ap, subst, ◌∙◌, List, [], ◌∷◌, if◌then◌else◌, arith,
}
use cache_cleaner.RateLimiter.{
  ThrottleMode, normal, warm, cpu_pressure, io_pressure, paused, target_ops_per_sec, one,
  BucketState, capacity_of, new, set_mode, try_acquire,
}

-- A bucket in a mode: its rate is the mode's, and it is not above its capacity.
pub record IsBucket (mode : ThrottleMode) (b : BucketState) : Type 0 where
  pub rate : b.ops_per_sec ≡ target_ops_per_sec mode
  pub capacity : b.capacity ≡ capacity_of (target_ops_per_sec mode)
  pub level : b.tokens ≤ b.capacity

set_mode-IsBucket : (mode : ThrottleMode) (b : BucketState) → IsBucket mode (set_mode mode b)
unfolding set_mode
set_mode-IsBucket mode b = record { rate = refl; capacity = refl; level = ground arith }

pub new-IsBucket : (mode : ThrottleMode) (now : ℕ) → IsBucket mode (new mode now)
unfolding new
new-IsBucket mode now = record { rate = refl; capacity = refl; level = omega arith }

pub try_acquire-IsBucket :
    (mode : ThrottleMode) (now : ℕ) (b : BucketState)
    → IsBucket mode b
    → IsBucket mode (try_acquire now b).1
unfolding try_acquire
try_acquire-IsBucket mode now b h = record {
  rate = ground (arith, h.rate);
  capacity = ground (arith, h.capacity);
  level = ground (arith, h.level);
}

-- The tokens that the rounds at the given instants take.
abbrev pub taken : List ℕ → BucketState → ℕ × BucketState
taken [] b = (0, b)
taken (now ∷ later) b =
    let (got, b') = try_acquire now b in
    let (n, b'') = taken later b' in ((if got then suc n else n), b'')

abbrev pub Ordered : ℕ → List ℕ → Type 0
Ordered t [] = Unit
Ordered t (now ∷ later) = (t ≤ now) × Ordered now later

-- A round spends at most what it adds.
pub try_acquire-spends :
    (now : ℕ) (b : BucketState)
    → let q = try_acquire now b in
      ((if q.0 then one else 0) + q.1.tokens ≤ b.tokens + (now - b.last_refill) * b.ops_per_sec)
      × ((q.1.last_refill ≡ now) × (q.1.ops_per_sec ≡ b.ops_per_sec))
unfolding try_acquire
try_acquire-spends now b = (ground arith, (ground arith, ground arith))

-- The refills of two spans are the refill of both.
spans :
    (mode : ThrottleMode) (s t u : ℕ)
    → s ≤ t
    → t ≤ u
    → (t - s) * target_ops_per_sec mode + (u - t) * target_ops_per_sec mode
      ≡ (u - s) * target_ops_per_sec mode
spans normal s t u h k = omega (arith, h, k)
spans warm s t u h k = omega (arith, h, k)
spans cpu_pressure s t u h k = omega (arith, h, k)
spans io_pressure s t u h k = omega (arith, h, k)
spans paused s t u h k = omega (arith, h, k)

spend :
    (mode : ThrottleMode) (instants : List ℕ) (b : BucketState)
    → b.ops_per_sec ≡ target_ops_per_sec mode
    → Ordered b.last_refill instants
    → let (n, b') = taken instants b in
      (b.last_refill ≤ b'.last_refill)
      × (n * one + b'.tokens
          ≤ b.tokens + (b'.last_refill - b.last_refill) * target_ops_per_sec mode)
spend mode [] b rate order = (omega arith, omega arith)
spend mode (now ∷ later) b rate order =
    let q = try_acquire now b in
    let (spent, (at, kept)) = try_acquire-spends now b in
    let next : Ordered q.1.last_refill later = subst (λ t. Ordered t later) (sym at) order.1 in
    let (later_on, ih) = spend mode later q.1 (kept ∙ rate) next in
    let end = (taken later q.1).1.last_refill in
    let after : now ≤ end = omega (arith, at, later_on) in
    let r = target_ops_per_sec mode in
    let sum = spans mode b.last_refill now end order.0 after in
    let first = ap (λ k. (now - b.last_refill) * k) rate in
    let second = ap (λ t. (end - t) * r) at in
    (omega (arith, order.0, after), ground (arith, spent, ih, sum, first, second))

capacity-small : (mode : ThrottleMode) → capacity_of (target_ops_per_sec mode) ≤ 32 * one
capacity-small normal = omega arith
capacity-small warm = omega arith
capacity-small cpu_pressure = omega arith
capacity-small io_pressure = omega arith
capacity-small paused = omega arith

-- In a mode, whatever the instants of its rounds, a bucket gives out at most its burst of 32 tokens
-- and the mode's rate times the time that passes.
pub taken-bounded :
    (mode : ThrottleMode) (start : ℕ) (instants : List ℕ)
    → Ordered start instants
    → let (n, b) = taken instants (new mode start) in
      n * one ≤ 32 * one + (b.last_refill - start) * target_ops_per_sec mode
unfolding new
taken-bounded mode start instants order =
    let (_, spent) = spend mode instants (new mode start) refl order in
    omega (arith, spent, capacity-small mode)
