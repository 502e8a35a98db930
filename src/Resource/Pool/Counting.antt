-- ===== src/Resource/Pool/Counting.antt =====
-- The pool of src/resource/mod.rs counts the permits that are out, over any interleaving.
use cache_cleaner.Base.{
  ℕ, suc, ◌+◌, ◌≡◌, ◌≤◌, ◌<◌, refl, Bool, true, false, List, [], ◌∷◌, leb, any, ◌&&◌, and-true,
  Bool-cases, inl, inr, by_if, by_if_eq, arith,
}
use cache_cleaner.Resource.Pool.{
  FdPoolState, new_pool, drop_permit, is_full, Wait, Acquisition, permit, exhausted, waiting,
  take_permit, acquire_fd_permit_timeout,
}

-- What other threads do to the pool and to the number of permits that are out, one critical
-- section after the other: a permit is only taken from a pool with room, and only a permit that is
-- out is dropped.
pub data Others : FdPoolState → ℕ → FdPoolState → ℕ → Type 0 where
  idle : {s : FdPoolState} {n : ℕ} → Others s n s n
  taken :
      {s t : FdPoolState} {n m : ℕ}
      → Others s n t m
      → t.active_fds < t.max_fds
      → Others s n (record t { active_fds = t.active_fds + 1 }) (suc m)
  dropped : {s t : FdPoolState} {n m : ℕ} → Others s n t (suc m) → Others s n (drop_permit t) m

-- The pool of each wait is what other threads made of the one before it.
abbrev pub Waited : FdPoolState → ℕ → List Wait → Type 0
Waited s n [] = Unit
Waited s n (v ∷ vs) = (m : ℕ) × (Others s n v.pool m × Waited v.pool m vs)

-- The pool counts the permits that are out, which are at most `max`.
abbrev pub IsCounted : ℕ → FdPoolState → ℕ → Type 0
IsCounted max s n = (s.max_fds ≡ max) × (s.active_fds ≡ n) × (n ≤ max)

pub Others-IsCounted :
    (max : ℕ) (s t : FdPoolState) (n m : ℕ) → IsCounted max s n → Others s n t m → IsCounted max t m
unfolding drop_permit
Others-IsCounted max s _ n _ h idle = h
Others-IsCounted max s _ n _ h (taken {t} {m} run lt) =
    let (e, k, le) = Others-IsCounted max s t n m h run in
    (e, omega (arith, k), omega (arith, k, e, lt))
Others-IsCounted max s _ n m h (dropped {t} run) =
    let (e, k, le) = Others-IsCounted max s t n (suc m) h run in
    (e, omega (arith, k), omega (arith, le))

-- Each pool that an acquisition ends with.
abbrev pub Ends : ℕ → Acquisition → Type 0
Ends max (permit s) = (n : ℕ) × IsCounted max s (suc n)
Ends max (exhausted e s) = IsCounted max s max
Ends max (waiting s) = IsCounted max s max

full_pool :
    (max : ℕ) (s : FdPoolState) (n : ℕ) → IsCounted max s n → is_full s ≡ true → IsCounted max s max
full_pool max s n h full = (h.0, ground (arith, h.0, h.1, h.2, full), omega arith)

next_permit :
    (max : ℕ) (s : FdPoolState) (n : ℕ)
    → IsCounted max s n
    → is_full s ≡ false
    → Ends max (take_permit s)
unfolding take_permit
next_permit max s n h room = (n, (h.0, ground (arith, h.1), ground (arith, h.0, h.1, room)))

abbrev pub is_waiting : Acquisition → Bool
is_waiting (waiting s) = true
is_waiting _ = false

-- Whatever other threads do at each wait, a permit is given out only below the limit, so that
-- never more permits are out than the limit, and an acquisition fails or waits on only when the
-- limit is reached.
pub acquire_fd_permit-counts :
    (max timeout n : ℕ) (vs : List Wait) (s : FdPoolState)
    → IsCounted max s n
    → Waited s n vs
    → Ends max (acquire_fd_permit_timeout timeout vs s)
unfolding acquire_fd_permit_timeout take_permit
acquire_fd_permit-counts max timeout n [] s h w =
    by_if_eq (Ends max) (is_full s) (λ full. full_pool max s n h full)
      (λ room. next_permit max s n h room)
acquire_fd_permit-counts max timeout n (v ∷ vs) s h (m, (run, later)) =
    let k = Others-IsCounted max s v.pool n m h run in
    by_if_eq (Ends max) (is_full s)
      (λ full. by_if (Ends max) (leb timeout v.elapsed) (full_pool max s n h full) (
        by_if_eq (Ends max) (v.timed_out && is_full v.pool)
          (λ out. full_pool max v.pool m k (and-true v.timed_out (is_full v.pool) out).1)
          (λ _. acquire_fd_permit-counts max timeout m vs v.pool k later)))
      (λ room. next_permit max s n h room)

-- The pool of a manager has no permit out.
new_pool-IsCounted : (max : ℕ) → IsCounted max (new_pool max) 0
unfolding new_pool
new_pool-IsCounted max = (refl, refl, omega arith)

-- A thread that the clock takes past its timeout comes back, with a permit or with the error, at
-- the latest when it looks at the clock.
pub acquire_fd_permit-returns :
    (timeout : ℕ) (vs : List Wait) (s : FdPoolState)
    → any (λ (v : Wait). leb timeout v.elapsed) vs ≡ true
    → is_waiting (acquire_fd_permit_timeout timeout vs s) ≡ false
unfolding acquire_fd_permit_timeout take_permit
acquire_fd_permit-returns timeout [] s h = absurd (ground (arith, h))
acquire_fd_permit-returns timeout (v ∷ vs) s h =
    elim (Bool-cases (any (λ (u : Wait). leb timeout u.elapsed) vs)) [
      | inl late ↦ ground (arith, h, acquire_fd_permit-returns timeout vs v.pool late)
      | inr early ↦ ground (arith, h, early)
    ]
