-- ===== src/Config/Bounds.antt =====
-- What a configuration that src/config_pipeline/mod.rs accepts keeps.
use cache_cleaner.Base.{
  ◌<◌, none, some, ltb, ℕ, ◌*◌, ◌≤◌, ◌≡◌, refl, ap, sym, ◌∙◌, subst, Bool, true, false, ok, err,
  arith,
}
use cache_cleaner.Base.Text.{Text}
use cache_cleaner.Base.Word.{saturating_mul}
use cache_cleaner.Domain.ByteCount
use cache_cleaner.Domain.Types.{returns, panics}
use cache_cleaner.Config.{
  RawConfig, ValidatedConfig, Attempt, ◌>>=◌, ◌>>◌, unless, lift, from_raw, validated,
}

-- The intervals and sizes of an accepted configuration.
pub record IsWithinBounds (c : ValidatedConfig) : Type 0 where
  pub interval : (60 ≤ c.maintenance_interval_secs) × (c.maintenance_interval_secs ≤ 604800)
  pub screen_off : c.min_screen_off_secs ≤ 3600
  pub threshold : c.app_cache_threshold_bytes ≤ 10 * 1024 * 1024 * 1024
  pub fstrim : (3600 ≤ c.fstrim_interval_secs) × (c.fstrim_interval_secs ≤ 2592000)
  pub vacuum : (3600 ≤ c.vacuum_db_interval_secs) × (c.vacuum_db_interval_secs ≤ 2592000)

require :
    {B : Type 0} (b : Bool) (message : Text) (k : Attempt B) (c : B)
    → (unless b message >> k) ≡ returns (ok c)
    → (b ≡ true) × (k ≡ returns (ok c))
unfolding ◌>>=◌ unless
require true message k c h = (refl, h)
require false message k c h = ground arith

bind-ok :
    {A B : Type 0} (m : Attempt A) (f : A → Attempt B) (c : B)
    → (m >>= f) ≡ returns (ok c)
    → (a : A) × ((m ≡ returns (ok a)) × (f a ≡ returns (ok c)))
unfolding ◌>>=◌
bind-ok (returns (ok a)) f c h = (a, (refl, h))
bind-ok (returns (err e)) f c h = ground arith
bind-ok panics f c h = ground arith

value_or : {A : Type 0} → A → Attempt A → A
value_or d (returns (ok x)) = x
value_or d _ = d

accepted : {A : Type 0} (a b : A) (m : Attempt A) → m ≡ returns (ok a) → m ≡ returns (ok b) → a ≡ b
unfolding value_or
accepted a b m h k = ap (value_or a) (sym h ∙ k)

new-bound : (n t : ℕ) → lift (ByteCount.new n) ≡ returns (ok t) → t ≤ 10 * 1024 * 1024 * 1024
unfolding ByteCount.new
new-bound n t h = ground arith

-- An accepted configuration has its intervals in seconds, its delay and its threshold within
-- the documented bounds.
pub from_raw-IsWithinBounds :
    (raw : RawConfig) (c : ValidatedConfig) → from_raw raw ≡ returns (ok c) → IsWithinBounds c
unfolding from_raw
from_raw-IsWithinBounds raw c h =
    let (interval, h₁) = require _ _ _ c h in
    let (screen, h₂) = require _ _ _ c h₁ in
    let (_, h₃) = require _ _ _ c h₂ in
    let (_, h₄) = require _ _ _ c h₃ in
    let (threshold, (created, h₅)) = bind-ok _ _ c h₄ in
    let (_, h₆) = require _ _ _ c h₅ in
    let (_, h₇) = require _ _ _ c h₆ in
    let (protected, (kept, h₈)) = bind-ok _ _ c h₇ in
    let (fstrim, h₉) = require _ _ _ c h₈ in
    let (vacuum, h₁₀) = require _ _ _ c h₉ in
    subst IsWithinBounds (accepted (validated raw threshold protected) c _ refl h₁₀) (record {
      interval = ground (arith, interval);
      screen_off = ground (arith, screen);
      threshold = new-bound _ threshold created;
      fstrim = ground (arith, fstrim);
      vacuum = ground (arith, vacuum);
    })

-- A threshold above 10 GiB makes the validation panic, where the fields before it are left out.
pub from_raw-panics :
    (raw : RawConfig) (mb : ℕ)
    → raw.maintenance_interval_secs ≡ none
    → raw.min_screen_off_secs ≡ none
    → raw.max_soc_temp_c ≡ none
    → raw.max_battery_temp_c ≡ none
    → raw.app_cache_threshold_mb ≡ some mb
    → 10240 < mb
    → from_raw raw ≡ panics
unfolding from_raw ◌>>=◌ unless ByteCount.new
from_raw-panics raw mb h₁ h₂ h₃ h₄ h₅ lt =
    let large : ltb (10 * 1024 * 1024 * 1024) (saturating_mul mb (1024 * 1024)) ≡ true =
      ground arith in
    rw (h₁, h₂, h₃, h₄, h₅, large) refl
