-- ===== src/Settings/Gap.antt =====
-- Two validations: that of src/config.rs and that of src/config_pipeline/mod.rs, which each job
-- makes of the same settings.
use cache_cleaner.Base.{ℕ, ◌≡◌, ◌≤◌, ◌<◌, Bool, ok, err, arith}
use cache_cleaner.Base.Text.{codes}
use cache_cleaner.Domain.Types.{returns}
use cache_cleaner.Domain.Error.{config_error}
use cache_cleaner.Config.{from_raw, unless, ◌>>=◌}
use cache_cleaner.Settings.{DaemonConfig, validate, raw_config}

-- A valid configuration stays valid with an interval of 30 to 59 seconds, but then each job rejects
-- it.
pub short_interval-rejected :
    (c : DaemonConfig) (n : ℕ) (dry_run : Bool)
    → validate c ≡ ok tt
    → 30 ≤ n
    → n < 60
    → let d = record c { maintenance_interval_secs = n } in
      (validate d ≡ ok tt)
      × (from_raw (raw_config d dry_run)
          ≡ returns (err (config_error (codes "maintenance_interval_secs must be 60..604800"))))
unfolding validate raw_config from_raw unless ◌>>=◌
short_interval-rejected c n dry_run valid lo hi =
    (ground (arith, valid, lo), ground (arith, lo, hi))
