-- ===== src/Store/Leases.antt =====
-- The leases of src/store/mod.rs. A transaction that is not committed changes nothing; the token
-- column, which nothing reads, is left out.
use cache_cleaner.Base.{
  ℕ, Bool, true, false, not, ◌&&◌, Option, none, some, List, [], ◌∷◌, ◌++◌, leb, ltb, ◌==◌,
  if◌then◌else◌, Result, ok, err,
}
use cache_cleaner.Base.Text.{Text, text_eq}
use cache_cleaner.Base.Word.{wrapping_add}
use cache_cleaner.Domain.Types.{WorkerId, UnixTimestamp}
use cache_cleaner.Domain.Error.{CleanerError, storage}
use cache_cleaner.System.Os.{Os}
use cache_cleaner.System.World.{Act, call, LeaseRow}
use cache_cleaner.Store.{delete_where, sql}

-- The SELECT of `acquire_lease`
unfoldable pub lease_of : Text → List LeaseRow → Option LeaseRow
lease_of resource [] = none
lease_of resource (r ∷ rs) = if text_eq r.resource_id resource then some r else lease_of resource rs

-- The DELETE of an expired lease
abbrev pub is_expired_lease : Text → UnixTimestamp → LeaseRow → Bool
is_expired_lease resource now r = text_eq r.resource_id resource && leb r.expires_at now

-- The INSERT OR REPLACE
unfoldable pub put_lease : LeaseRow → List LeaseRow → List LeaseRow
put_lease row rs = delete_where (λ r. text_eq r.resource_id row.resource_id) rs ++ row ∷ []

-- Another worker's lease that still runs
abbrev pub is_blocked : Option LeaseRow → WorkerId → UnixTimestamp → Bool
is_blocked none worker now = false
is_blocked (some r) worker now = not (r.worker_id == worker) && ltb now r.expires_at

abbrev pub lease_row : Text → WorkerId → UnixTimestamp → ℕ → LeaseRow
lease_row resource worker now ttl = record {
  resource_id = resource;
  worker_id = worker;
  acquired_at = now;
  expires_at = wrapping_add now ttl;
}

-- The rows after the DELETE, whose failure is ignored
abbrev pub cleared : Option Text → Text → UnixTimestamp → List LeaseRow → List LeaseRow
cleared none resource now rs = delete_where (is_expired_lease resource now) rs
cleared (some _) resource now rs = rs

module _ (os : Os) where
  open os use {State}

  -- `acquire_lease`
  unfoldable pub acquire_lease : Text → WorkerId → ℕ → Act State (Result CleanerError Bool)
  acquire_lease resource worker ttl w =
      let (now, w₀) = call os.unix_now w in
      let (begun, w₁) = call os.sql_fault w₀ in
      elim begun [
        | some e ↦ (err (storage e), w₁)
        | none ↦
            let (deleted, w₂) = call os.sql_fault w₁ in
            let (selected, w₃) = call os.sql_fault w₂ in
            let leases = cleared deleted resource now w₃.db.leases in
            elim selected [
              | some e ↦ (err (storage e), w₃)
              | none ↦ elim (is_blocked (lease_of resource leases) worker now) [
                | true ↦ (ok false, w₃)
                | false ↦
                    let (inserted, w₄) = call os.sql_fault w₃ in
                    elim inserted [
                      | some e ↦ (err (storage e), w₄)
                      | none ↦
                          let (committed, w₅) = call os.sql_fault w₄ in
                          elim committed [
                            | some e ↦ (err (storage e), w₅)
                            | none ↦ (
                              ok true,
                              record w₅ {
                                db = record w₅.db {
                                  leases = put_lease (lease_row resource worker now ttl) leases;
                                };
                              },
                            )
                          ]
                    ]
              ]
            ]
      ]

  -- `release_lease`
  unfoldable pub release_lease : Text → WorkerId → Act State (Result CleanerError (Unit {0}))
  release_lease resource worker = sql os (λ db. ok (record db {
    leases =
        delete_where (λ (r : LeaseRow). text_eq r.resource_id resource && r.worker_id == worker)
          db.leases;
  }))
