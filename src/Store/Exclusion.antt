-- ===== src/Store/Exclusion.antt =====
-- The leases of src/store/mod.rs exclude each other until they expire.
use cache_cleaner.Base.{
  ℕ, ◌≡◌, ◌≢◌, ◌<◌, refl, ap, inl, inr, true, false, Option, none, some, List, [], ◌∷◌, leb, ok,
  Bool-cases, arith,
}
use cache_cleaner.Base.Text.{Text, text_eq, text_eq_refl}
use cache_cleaner.Domain.Types.{WorkerId, UnixTimestamp}
use cache_cleaner.System.Os.{Os}
use cache_cleaner.System.World.{World, call, LeaseRow}
use cache_cleaner.Store.{delete_where}
use cache_cleaner.Store.Leases.{
  lease_of, is_expired_lease, put_lease, lease_row, cleared, acquire_lease,
}

lease_of-delete_expired :
    (resource : Text) (now : UnixTimestamp) (rs : List LeaseRow) (r : LeaseRow)
    → lease_of resource rs ≡ some r
    → now < r.expires_at
    → lease_of resource (delete_where (is_expired_lease resource now) rs) ≡ some r
unfolding lease_of
lease_of-delete_expired resource now [] r h lt = ground arith
lease_of-delete_expired resource now (q ∷ rs) r h lt =
    elim (Bool-cases (text_eq q.resource_id resource)) [
      | inl same ↦
          let first : q ≡ r = ground (arith, same, h) in
          let kept : leb q.expires_at now ≡ false =
            ground (arith, ap (λ (x : LeaseRow). x.expires_at) first) in
          rw (same, kept, same, first) refl
      | inr other ↦
          rw (other, other)
            (lease_of-delete_expired resource now rs r (ground (arith, other, h)) lt)
    ]

lease_of-cleared :
    (fault : Option Text) (resource : Text) (now : UnixTimestamp) (rs : List LeaseRow)
    (r : LeaseRow)
    → lease_of resource rs ≡ some r
    → now < r.expires_at
    → lease_of resource (cleared fault resource now rs) ≡ some r
lease_of-cleared none resource now rs r h lt = lease_of-delete_expired resource now rs r h lt
lease_of-cleared (some _) resource now rs r h lt = h

lease_of-put_lease :
    (row : LeaseRow) (rs : List LeaseRow) → lease_of row.resource_id (put_lease row rs) ≡ some row
unfolding lease_of put_lease
lease_of-put_lease row [] = rw (text_eq_refl row.resource_id) refl
lease_of-put_lease row (q ∷ rs) = elim (Bool-cases (text_eq q.resource_id row.resource_id)) [
  | inl same ↦ rw same (lease_of-put_lease row rs)
  | inr other ↦ rw (other, other) (lease_of-put_lease row rs)
]

module _ (os : Os) (resource : Text) (worker : WorkerId) (ttl : ℕ) (w : World os.State)
    (r : LeaseRow) where
  -- While a worker has an unexpired lease of a resource, no other worker acquires it, and an
  -- attempt to do so leaves the tables as they are.
  pub acquire_lease-excludes :
      lease_of resource w.db.leases ≡ some r
      → r.worker_id ≢ worker
      → (os.unix_now w.os).0 < r.expires_at
      → ((acquire_lease os resource worker ttl w).0 ≢ ok true)
        × ((acquire_lease os resource worker ttl w).1.db ≡ w.db)
  unfolding acquire_lease
  acquire_lease-excludes h other lt =
      let now = (os.unix_now w.os).0 in
      let w₁ = (call os.sql_fault (call os.unix_now w).1).1 in
      let (deleted, w₂) = call os.sql_fault w₁ in
      let found = lease_of-cleared deleted resource now w.db.leases r h lt in
      (λ done. ground (arith, found, other, lt, done), ground (arith, found, other, lt))

-- A worker that acquired a resource has its lease, from now on and for the given time.
pub acquire_lease-holds :
    (os : Os) (resource : Text) (worker : WorkerId) (ttl : ℕ) (w : World os.State)
    → (acquire_lease os resource worker ttl w).0 ≡ ok true
    → lease_of resource (acquire_lease os resource worker ttl w).1.db.leases
      ≡ some (lease_row resource worker (os.unix_now w.os).0 ttl)
unfolding acquire_lease
acquire_lease-holds os resource worker ttl w h =
    let now = (os.unix_now w.os).0 in
    let w₁ = (call os.sql_fault (call os.unix_now w).1).1 in
    let (deleted, w₂) = call os.sql_fault w₁ in
    let put =
      lease_of-put_lease (lease_row resource worker now ttl)
        (cleared deleted resource now w.db.leases) in
    ground (arith, put, h)

lease_of-cleared-none :
    (resource : Text) (now : UnixTimestamp) (rs : List LeaseRow)
    → lease_of resource rs ≡ none
    → lease_of resource (cleared none resource now rs) ≡ none
unfolding lease_of
lease_of-cleared-none resource now [] h = refl
lease_of-cleared-none resource now (q ∷ rs) h =
    ground (arith, h, lease_of-cleared-none resource now rs)

-- Where SQLite does not fail, a resource without a lease is acquired, and the other tables stay.
pub acquire_lease-free :
    (os : Os) (resource : Text) (worker : WorkerId) (ttl : ℕ) (w : World os.State)
    → ((s : os.State) → (os.sql_fault s).0 ≡ none)
    → lease_of resource w.db.leases ≡ none
    → ((acquire_lease os resource worker ttl w).0 ≡ ok true)
      × ((acquire_lease os resource worker ttl w).1.db.jobs ≡ w.db.jobs)
      × ((acquire_lease os resource worker ttl w).1.db.attempts ≡ w.db.attempts)
unfolding acquire_lease
acquire_lease-free os resource worker ttl w fine free =
    let now = (os.unix_now w.os).0 in
    let w₀ = (call os.unix_now w).1 in
    let w₁ = (call os.sql_fault w₀).1 in
    let w₂ = (call os.sql_fault w₁).1 in
    let w₃ = (call os.sql_fault w₂).1 in
    let w₄ = (call os.sql_fault w₃).1 in
    let none_left = lease_of-cleared-none resource now w.db.leases free in
    (
      ground (arith, fine w₀.os, fine w₁.os, fine w₂.os, fine w₃.os, fine w₄.os, none_left),
      ground (arith, fine w₀.os, fine w₁.os, fine w₂.os, fine w₃.os, fine w₄.os, none_left),
      ground (arith, fine w₀.os, fine w₁.os, fine w₂.os, fine w₃.os, fine w₄.os, none_left),
    )
