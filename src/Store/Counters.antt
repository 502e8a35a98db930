-- ===== src/Store/Counters.antt =====
-- `get_max_job_id` and `get_max_attempt_id` of src/store/mod.rs, which seed the counters of the
-- scheduler and of the worker pool. A query that fails reads as an empty table.
use cache_cleaner.Base.{
  ℕ, ◌≤◌, Option, none, some, List, [], ◌∷◌, map, ltb, if◌then◌else◌, All, All-map, arith,
}
use cache_cleaner.Base.Text.{Text}
use cache_cleaner.System.Os.{Os}
use cache_cleaner.System.World.{Act, call, JobRow, AttemptRow}

-- `SELECT MAX(..)`, where no row reads as 0.
unfoldable pub max_of : List ℕ → ℕ
max_of [] = 0
max_of (n ∷ ns) = let m = max_of ns in if ltb m n then n else m

unfoldable pub queried : Option Text → ℕ → ℕ
queried none n = n
queried (some _) n = 0

module _ (os : Os) where
  open os use {State}

  unfoldable pub get_max_job_id : Act State ℕ
  get_max_job_id w =
      let (fault, w') = call os.sql_fault w in
      (queried fault (max_of (map (λ (r : JobRow). r.job_id) w'.db.jobs)), w')

  unfoldable pub get_max_attempt_id : Act State ℕ
  get_max_attempt_id w =
      let (fault, w') = call os.sql_fault w in
      (queried fault (max_of (map (λ (r : AttemptRow). r.attempt_id) w'.db.attempts)), w')

-- The maximum is an upper bound.
pub max_of-bounds : (ns : List ℕ) → All (λ n. n ≤ max_of ns) ns
unfolding max_of
max_of-bounds [] = tt
max_of-bounds (n ∷ ns) =
    let m = max_of ns in
    (ground arith, All-map _ _ ns (λ k le. ground (arith, le)) (max_of-bounds ns))
