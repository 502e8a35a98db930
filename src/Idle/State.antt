-- ===== src/Idle/State.antt =====
-- src/system/idle/state.rs, sensors.rs and assessment.rs; `ScreenState` of src/hardware/uevent.rs.
-- A Duration and an Instant are numbers of nanoseconds.
use cache_cleaner.Base.{ℕ, Bool, true, false, Option, List, if◌then◌else◌}
use cache_cleaner.Base.Text.{Text}
use cache_cleaner.Base.Float.{Float, float_ge, float_gt}

abbrev pub Duration : Type 0
Duration = ℕ

abbrev pub Instant : Type 0
Instant = ℕ

pub data ScreenState : Type 0 where
  on off unknown : ScreenState

pub data IdleState : Type 0 where
  active idle_candidate idle deep_idle : IdleState

pub data ThermalState : Type 0 where
  normal warm hot critical : ThermalState

abbrev pub is_hot : ThermalState → Bool
is_hot hot = true
is_hot _ = false

abbrev pub is_critical : ThermalState → Bool
is_critical critical = true
is_critical _ = false

abbrev pub is_normal : ThermalState → Bool
is_normal normal = true
is_normal _ = false

-- `ThermalHysteresisState::next_state`
unfoldable pub next_state : ThermalState → Float → ThermalState
next_state current temp =
    if float_ge temp 50
    then critical
    else if float_ge temp 45
    then hot
    else if float_gt temp 40
    then if is_hot current then hot else warm
    else normal

pub data Eligibility : Type 0 where
  allowed blocked paused : Eligibility

abbrev pub is_allowed : Eligibility → Bool
is_allowed allowed = true
is_allowed _ = false

pub data SensorStatus : Type 0 where
  available temporarily_unavailable unsupported : SensorStatus

pub record SensorReading : Type 0 where
  pub value : Option Float
  pub status : SensorStatus

pub record IdleContext : Type 0 where
  pub screen : ScreenState
  pub screen_off_duration : Option Duration
  pub charging : Bool
  pub battery_percent : ℕ
  pub cpu_psi_pct : SensorReading
  pub io_psi_pct : SensorReading
  pub mem_psi_pct : SensorReading
  pub thermal_celsius : SensorReading
  pub thermal_source : Option Text
  pub stationary : Bool
  pub user_active : Bool

pub data IdleBlocker : Type 0 where
  screen_on grace_period_remaining not_charging battery_too_low : IdleBlocker
  battery_below_deep_threshold thermal_hot thermal_critical cpu_pressure_high : IdleBlocker
  io_pressure_high recent_activity sensor_unavailable : IdleBlocker

pub data IdlePositive : Type 0 where
  screen_off grace_elapsed charging high_battery cpu_idle io_idle thermal_safe : IdlePositive
  stationary : IdlePositive

pub record IdleAssessment : Type 0 where
  pub score : ℕ
  pub state : IdleState
  pub thermal_state : ThermalState
  pub standard_maintenance : Eligibility
  pub heavy_maintenance : Eligibility
  pub blockers : List IdleBlocker
  pub positives : List IdlePositive
  pub rate_limit_ops_per_sec : ℕ
  pub time_until_next_transition : Option Duration
