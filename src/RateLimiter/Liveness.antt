-- ===== src/RateLimiter/Liveness.antt =====
-- A thread that the token bucket of src/util/rate_limiter.rs puts to sleep gets its token.
use cache_cleaner.Base.{
  ℕ, ◌+◌, ◌-◌, ◌*◌, ◌/◌, ◌≡◌, ◌≢◌, ◌≤◌, ◌<◌, refl, ap, Bool, true, false, List, ◌∷◌, if◌then◌else◌,
  inl, inr, Bool-cases, arith,
}
use cache_cleaner.RateLimiter.{
  ThrottleMode, normal, warm, cpu_pressure, io_pressure, paused, target_ops_per_sec, one, Round,
  BucketState, capacity_of, try_acquire, sleep_dur, Acquired, answered, sleeping, acquire,
}
use cache_cleaner.RateLimiter.Budget.{IsBucket, try_acquire-IsBucket, try_acquire-spends}

-- The wait for what is missing, and a millisecond more, add a token.
refills :
    (mode : ThrottleMode) (tokens s u : ℕ)
    → mode ≢ paused
    → (one - tokens) / target_ops_per_sec mode ≤ s
    → 1000000 ≤ u
    → one ≤ tokens + s * target_ops_per_sec mode + u * target_ops_per_sec mode
refills normal tokens s u awake h k = omega (arith, h, k)
refills warm tokens s u awake h k = omega (arith, h, k)
refills cpu_pressure tokens s u awake h k = omega (arith, h, k)
refills io_pressure tokens s u awake h k = omega (arith, h, k)
refills paused tokens s u awake h k = absurd (awake refl)

capacity-large : (mode : ThrottleMode) → one ≤ capacity_of (target_ops_per_sec mode)
capacity-large normal = omega arith
capacity-large warm = omega arith
capacity-large cpu_pressure = omega arith
capacity-large io_pressure = omega arith
capacity-large paused = omega arith

rate-positive : (mode : ThrottleMode) → mode ≢ paused → 0 < target_ops_per_sec mode
rate-positive normal awake = omega arith
rate-positive warm awake = omega arith
rate-positive cpu_pressure awake = omega arith
rate-positive io_pressure awake = omega arith
rate-positive paused awake = absurd (awake refl)

-- A round that takes no token keeps the whole refill.
failed-keeps :
    (mode : ThrottleMode) (now : ℕ) (b : BucketState)
    → IsBucket mode b
    → (try_acquire now b).0 ≡ false
    → (try_acquire now b).1.tokens ≡ b.tokens + (now - b.last_refill) * target_ops_per_sec mode
unfolding try_acquire
failed-keeps mode now b h failed =
    let large = capacity-large mode in
    let same = ap (λ r. (now - b.last_refill) * r) h.rate in
    ground (arith, h.capacity, large, failed, same)

abbrev pub gets_token : Acquired → Bool
gets_token (answered taken b) = taken
gets_token (sleeping b) = false

-- A round before which no other thread used the bucket
abbrev pub alone : ℕ → Round
alone now = record { others = λ b. b; instant = now }

gets_token-acquire :
    (now : ℕ) (later : List Round) (b : BucketState)
    → 0 < b.ops_per_sec
    → gets_token (acquire (alone now ∷ later) b)
      ≡ (if (try_acquire now b).0 then true else gets_token (acquire later (try_acquire now b).1))
unfolding acquire
gets_token-acquire now later b awake = ground (arith, awake)

failed-low :
    (now : ℕ) (b : BucketState) → (try_acquire now b).0 ≡ false → (try_acquire now b).1.tokens < one
unfolding try_acquire
failed-low now b failed = ground (arith, failed)

module _ (mode : ThrottleMode) (awake : mode ≢ paused) (b : BucketState) (h : IsBucket mode b)
    (now u v : ℕ) where
  abbrev b₁ : BucketState
  b₁ = (try_acquire now b).1

  abbrev b₂ : BucketState
  b₂ = (try_acquire u b₁).1

  -- Three rounds cannot all fail.
  third_round :
      (now + (one - b₁.tokens) / target_ops_per_sec mode ≤ u)
      → u + 1000000 ≤ v
      → (try_acquire u b₁).0 ≡ false
      → (try_acquire v b₂).0 ≡ true
  third_round slept later failed = elim (Bool-cases (try_acquire v b₂).0) [
    | inl done ↦ done
    | inr again ↦
        let k₁ = try_acquire-IsBucket mode now b h in
        let k₂ = try_acquire-IsBucket mode u b₁ k₁ in
        let kept = failed-keeps mode u b₁ k₁ failed in
        let kept' = failed-keeps mode v b₂ k₂ again in
        let low = failed-low v b₂ again in
        let at₁ = (try_acquire-spends now b).1.0 in
        let at₂ = (try_acquire-spends u b₁).1.0 in
        let r = target_ops_per_sec mode in
        let span = ap (λ t. (u - t) * r) at₁ in
        let span' = ap (λ t. (v - t) * r) at₂ in
        let enough =
          refills mode b₁.tokens (u - now) (v - u) awake (omega (arith, slept))
            (omega (arith, later)) in
        absurd (omega (arith, kept, kept', low, span, span', enough))
  ]

  -- A thread that wants a token of a bucket that is not paused has it after at most three rounds,
  -- if no other thread uses the bucket or sets its mode before the third, and if it slept as it was
  -- told after the first round and a millisecond at least after the second.
  pub acquire-gets_token :
      (later : List Round)
      → now + sleep_dur b₁ ≤ u
      → u + 1000000 ≤ v
      → gets_token (acquire (alone now ∷ alone u ∷ alone v ∷ later) b) ≡ true
  unfolding sleep_dur
  acquire-gets_token later slept more =
      let k₁ = try_acquire-IsBucket mode now b h in
      let k₂ = try_acquire-IsBucket mode u b₁ k₁ in
      let pos = rate-positive mode awake in
      let one_round = gets_token-acquire now (alone u ∷ alone v ∷ later) b (rw (h.rate) pos) in
      let two_rounds = gets_token-acquire u (alone v ∷ later) b₁ (rw (k₁.rate) pos) in
      let three_rounds = gets_token-acquire v later b₂ (rw (k₂.rate) pos) in
      elim (Bool-cases (try_acquire u b₁).0) [
        | inl done ↦ ground (arith, one_round, two_rounds, done)
        | inr failed ↦
            let wait : now + (one - b₁.tokens) / target_ops_per_sec mode ≤ u =
              ground (arith, slept, ap (λ r. (one - b₁.tokens) / r) k₁.rate) in
            let last = third_round wait more failed in
            ground (arith, one_round, two_rounds, three_rounds, last)
      ]
