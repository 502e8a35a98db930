-- ===== src/Tests/Kernel.antt =====
-- A small kernel for the tests: one directory of device 1, whose files all have the inode 7.
use cache_cleaner.Base.{ℕ, true, false, none, some, map, List, [], ◌∷◌, any, if◌then◌else◌, ok, err}
use cache_cleaner.Base.Text.{Text, codes, text_eq}
use cache_cleaner.Domain.Types.{FileIdentity}
use cache_cleaner.Domain.Target.{TargetDescriptor, app_cache, standard_cache}
use cache_cleaner.Domain.Plan.{delete_file, PlannedOperation, PlannedPlan}
use cache_cleaner.Domain.Grant.{Capability, CapabilityGrant, AuthorizedPlan}
use cache_cleaner.Domain.Error.{noent, nosys}
use cache_cleaner.System.Os.{Os, RawEntry, regular_file}
use cache_cleaner.System.World.{World, Database, JobRow}
use cache_cleaner.Executor.Run.{CatalogSnapshot}

abbrev pub file_identity : FileIdentity
file_identity = record { dev = 1; ino = 7 }

abbrev without : Text → List Text → List Text
without name [] = []
without name (n ∷ ns) = let rest = without name ns in if text_eq n name then rest else n ∷ rest

abbrev raw_entry : Text → RawEntry
raw_entry name = record { entry_name = some name; file_type = regular_file }

-- The state is the list of the names in the directory.
abbrev pub kernel : Os
kernel = record {
  State = List Text;
  Fd = ℕ;
  unix_now = λ s. (1000, s);
  clock_ms = λ s. (7, s);
  is_cancelled = λ s. (false, s);
  throttle = λ s. s;
  open_dir = λ _ s. (ok 3, s);
  openat2 = λ _ _ s. (err nosys, s);
  openat = λ _ _ s. (err noent, s);
  fstat = λ _ s. (ok (record { dev = 1; ino = 2 }), s);
  statat = λ _ name s. (if any (text_eq name) s then ok file_identity else err noent, s);
  unlinkat = λ _ name _ s. (if any (text_eq name) s then ok tt else err noent, without name s);
  sql_fault = λ s. (none, s);
  read_dir = λ _ s. (map (λ n. ok (raw_entry n)) s, s);
  stat_entry = λ _ _ s. (ok (record { identity = file_identity; size = 100; mtime = 0 }), s);
  path_exists = λ _ s. (true, s);
  fd_waits = λ s. ([], s);
}

abbrev pub cache_target : TargetDescriptor
cache_target = record {
  target_id = codes "app";
  target_class = app_cache;
  base_path = codes "/data/cache";
  dev = 1;
  ino = 2;
  owner_uid = 0;
  owner_gid = 0;
  package_name = none;
  safety_tier = standard_cache;
  catalog_generation = 4;
}

abbrev pub catalog : CatalogSnapshot
catalog = record { generation = 4; targets = (codes "app", cache_target) ∷ [] }

abbrev pub delete_a : PlannedOperation
delete_a = record {
  op_id = 1;
  op_type = delete_file (codes "app") (codes "a.tmp") file_identity 100;
  dependencies = [];
  estimated_reclaim = 100;
}

abbrev pub plan_a : PlannedPlan
plan_a = record {
  plan_id = 8;
  job_id = 5;
  catalog_generation = 4;
  config_generation = 6;
  operations = delete_a ∷ [];
  total_estimated_reclaim = 100;
  created_at = 990;
}

abbrev pub grant_a : CapabilityGrant
grant_a = record {
  grant_id = 1;
  capabilities = Capability.delete_file (codes "app") (codes "a.tmp") ∷ [];
  catalog_generation = 4;
  config_generation = 6;
  granted_at = 990;
  expires_at = 1290;
}

abbrev pub authorized_a : AuthorizedPlan
authorized_a = record { plan = plan_a; grant = grant_a }

abbrev pub job_row : JobRow
job_row = record {
  job_id = 5;
  job_type = codes "CLEAN";
  state = codes "ADMITTED";
  catalog_generation = 4;
  config_generation = 6;
  total_estimated_bytes = 0;
  total_reclaimed_bytes = 0;
  created_at = 900;
  updated_at = 900;
}

abbrev pub database : Database
database = record {
  jobs = job_row ∷ [];
  attempts = [];
  intents = [];
  next_intent_id = 1;
  operations = [];
  leases = [];
}

abbrev pub world : World (List Text)
world = record {
  os = codes "a.tmp" ∷ codes "b.tmp" ∷ [];
  openat2_supported = true;
  locked_targets = [];
  reservation_counter = 1;
  db = database;
  log = [];
}
