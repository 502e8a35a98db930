-- ===== src/Idle/Policy.antt =====
-- src/system/idle/policy.rs: `IdlePolicy::evaluate`. Each numbered step of the function is a
-- function here, and `evaluate` composes them in the order of the code.
use cache_cleaner.Base.{
  ℕ, ◌-◌, Bool, true, false, not, ◌&&◌, ◌||◌, Option, none, some, List, [], ◌∷◌, ◌++◌, ltb, leb,
  min, if◌then◌else◌, any,
}
use cache_cleaner.Base.Word.{saturating_add_u8}
use cache_cleaner.Base.Float.{float_lt, float_ge}
use cache_cleaner.Idle.State.{
  Duration, ScreenState, off, IdleState, active, idle_candidate, idle, deep_idle, ThermalState,
  normal, warm, hot, critical, is_hot, is_critical, is_normal, Eligibility, allowed, blocked,
  paused, is_allowed, SensorStatus, temporarily_unavailable, SensorReading, IdleContext,
  IdleBlocker, screen_on, grace_period_remaining, not_charging, battery_too_low,
  battery_below_deep_threshold, thermal_hot, thermal_critical, cpu_pressure_high, io_pressure_high,
  recent_activity, sensor_unavailable, IdlePositive, screen_off, grace_elapsed, high_battery,
  cpu_idle, io_idle, thermal_safe, IdleAssessment,
}

-- The mutable variables `score`, `blockers` and `positives`.
pub record Marks : Type 0 where
  pub score : ℕ
  pub blockers : List IdleBlocker
  pub positives : List IdlePositive

abbrev pub reward : ℕ → IdlePositive → Marks → Marks
reward points positive m = record m {
  score = saturating_add_u8 m.score points;
  positives = m.positives ++ positive ∷ [];
}

abbrev pub block : IdleBlocker → Marks → Marks
block blocker m = record m { blockers = m.blockers ++ blocker ∷ [] }

abbrev pub is_off : ScreenState → Bool
is_off off = true
is_off _ = false

abbrev pub off_duration : IdleContext → Duration
off_duration ctx = elim ctx.screen_off_duration [ none ↦ 0 | some d ↦ d ]

abbrev pub has_grace_elapsed : IdleContext → Duration → Bool
has_grace_elapsed ctx grace = is_off ctx.screen && leb grace (off_duration ctx)

-- 1. Screen and grace period
unfoldable pub mark_screen : IdleContext → Duration → Marks → Marks
mark_screen ctx grace m =
    if is_off ctx.screen
    then if has_grace_elapsed ctx grace
      then reward 10 grace_elapsed (reward 25 screen_off m)
      else block grace_period_remaining (reward 25 screen_off m)
    else block screen_on m

-- 2. Charging and battery level
unfoldable pub mark_charging : IdleContext → Marks → Marks
mark_charging ctx m =
    if ctx.charging then reward 15 IdlePositive.charging m else block not_charging m

unfoldable pub mark_battery : IdleContext → Marks → Marks
mark_battery ctx m =
    if leb 70 ctx.battery_percent
    then reward 10 high_battery m
    else if ltb ctx.battery_percent 20
    then block battery_too_low m
    else block battery_below_deep_threshold m

abbrev pub is_temporarily_unavailable : SensorStatus → Bool
is_temporarily_unavailable temporarily_unavailable = true
is_temporarily_unavailable _ = false

-- 3. and 4. Pressure: low below `low`, a blocker from `high` on
unfoldable pub mark_pressure : SensorReading → ℕ → ℕ → IdlePositive → IdleBlocker → Marks → Marks
mark_pressure sensor low high positive blocker m = elim sensor.value [
  | some pct ↦
      if float_lt pct low
      then reward 10 positive m
      else if float_ge pct high
      then block blocker m
      else m
  | none ↦ if is_temporarily_unavailable sensor.status then block sensor_unavailable m else m
]

abbrev pub is_pressure_low : SensorReading → ℕ → Bool
is_pressure_low sensor low = elim sensor.value [ some pct ↦ float_lt pct low | none ↦ true ]

-- 5. Thermal state
unfoldable pub mark_temperature : IdleContext → Marks → Marks
mark_temperature ctx m = elim ctx.thermal_celsius.value [
  | some temp ↦ if float_lt temp 38 then reward 10 thermal_safe m else m
  | none ↦ m
]

abbrev pub is_thermal_safe : IdleContext → Bool
is_thermal_safe ctx = elim ctx.thermal_celsius.value [ some temp ↦ float_lt temp 40 | none ↦ true ]

unfoldable pub mark_thermal : ThermalState → Marks → Marks
mark_thermal hot m = block thermal_hot m
mark_thermal critical m = block thermal_critical m
mark_thermal _ m = m

-- 6. Stationary and user activity
unfoldable pub mark_activity : IdleContext → Marks → Marks
mark_activity ctx m =
    let m' =
      if ctx.stationary && not ctx.user_active then reward 10 IdlePositive.stationary m else m in
    if ctx.user_active then block recent_activity m' else m'

abbrev pub no_marks : Marks
no_marks = record { score = 0; blockers = []; positives = [] }

-- The steps 1 to 6 in order.
unfoldable pub marks_of : IdleContext → ThermalState → Duration → Marks
marks_of ctx thermal grace = mark_activity ctx (
    mark_thermal thermal (
      mark_temperature ctx (
        mark_pressure ctx.io_psi_pct 3 8 io_idle io_pressure_high (
          mark_pressure ctx.cpu_psi_pct 5 10 cpu_idle cpu_pressure_high
            (mark_battery ctx (mark_charging ctx (mark_screen ctx grace no_marks)))))))

-- `blockers.contains`
abbrev pub is_cpu_high : IdleBlocker → Bool
is_cpu_high cpu_pressure_high = true
is_cpu_high _ = false

abbrev pub is_io_high : IdleBlocker → Bool
is_io_high io_pressure_high = true
is_io_high _ = false

abbrev pub is_deep_eligible : IdleContext → ThermalState → Bool
is_deep_eligible ctx thermal =
    ctx.charging
    && (leb 70 ctx.battery_percent
        && (is_normal thermal
            && (is_thermal_safe ctx
                && (is_pressure_low ctx.cpu_psi_pct 5
                    && (is_pressure_low ctx.io_psi_pct 3 && not ctx.user_active)))))

-- 7. The next state
unfoldable pub next_idle_state : IdleContext → ThermalState → Duration → IdleState
next_idle_state ctx thermal grace =
    if not (is_off ctx.screen) || (ctx.user_active || is_critical thermal)
    then active
    else if not (has_grace_elapsed ctx grace)
    then idle_candidate
    else if is_deep_eligible ctx thermal
    then deep_idle
    else idle

abbrev pub is_idle : IdleState → Bool
is_idle idle = true
is_idle deep_idle = true
is_idle _ = false

abbrev pub is_deep : IdleState → Bool
is_deep deep_idle = true
is_deep _ = false

-- 8. Eligibility for maintenance
unfoldable pub standard_eligibility :
    IdleContext → ThermalState → Duration → List IdleBlocker → IdleState → Eligibility
standard_eligibility ctx thermal grace blockers next =
    if is_hot thermal
    then paused
    else if is_critical thermal
        || (not (is_off ctx.screen)
            || (not (has_grace_elapsed ctx grace)
                || (ctx.user_active
                    || (ltb ctx.battery_percent 20
                        || (any is_cpu_high blockers || any is_io_high blockers)))))
    then blocked
    else if is_idle next
    then allowed
    else blocked

unfoldable pub heavy_eligibility :
    IdleContext → ThermalState → IdleState → Eligibility → Eligibility
heavy_eligibility ctx thermal next standard =
    if is_hot thermal
    then paused
    else if is_deep next
        && (is_allowed standard
            && (ctx.charging && (leb 70 ctx.battery_percent && is_normal thermal)))
    then allowed
    else blocked

-- 9. The work budget
unfoldable pub rate_limit : ThermalState → List IdleBlocker → ℕ
rate_limit critical blockers = 0
rate_limit hot blockers = 0
rate_limit warm blockers = 300
rate_limit normal blockers =
    if any is_io_high blockers then 50 else if any is_cpu_high blockers then 150 else 500

-- 10. The time until the next transition
unfoldable pub time_until : IdleContext → Duration → IdleState → Option Duration
time_until ctx grace idle_candidate = some (grace - off_duration ctx)
time_until ctx grace _ = none

-- `IdlePolicy::evaluate`; the current state is not read
unfoldable pub evaluate : IdleContext → IdleState → ThermalState → Duration → IdleAssessment
evaluate ctx current thermal grace =
    let m = marks_of ctx thermal grace in
    let next = next_idle_state ctx thermal grace in
    let standard = standard_eligibility ctx thermal grace m.blockers next in
    record {
      score = min m.score 100;
      state = next;
      thermal_state = thermal;
      standard_maintenance = standard;
      heavy_maintenance = heavy_eligibility ctx thermal next standard;
      blockers = m.blockers;
      positives = m.positives;
      rate_limit_ops_per_sec = rate_limit thermal m.blockers;
      time_until_next_transition = time_until ctx grace next;
    }
