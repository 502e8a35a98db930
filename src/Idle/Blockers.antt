-- ===== src/Idle/Blockers.antt =====
-- Which blockers the steps of `IdlePolicy::evaluate` leave.
use cache_cleaner.Base.{
  ℕ, ◌≡◌, ◌≤◌, refl, Bool, true, false, ◌&&◌, ◌||◌, none, some, List, [], ◌∷◌, ◌++◌, any,
  Option-cases, inl, inr, arith,
}
use cache_cleaner.Base.Float.{float_lt, float_ge, Float, nan, below_zero, millionths}
use cache_cleaner.Idle.State.{
  Duration, ThermalState, SensorReading, IdleContext, IdleBlocker, IdlePositive, cpu_idle, io_idle,
  cpu_pressure_high, io_pressure_high, screen_on, grace_period_remaining, not_charging,
  battery_too_low, battery_below_deep_threshold, thermal_hot, thermal_critical, recent_activity,
  sensor_unavailable,
}
use cache_cleaner.Idle.Policy.{
  Marks, mark_screen, mark_charging, mark_battery, mark_pressure, mark_temperature, mark_thermal,
  mark_activity, marks_of, is_cpu_high, is_io_high,
}

any-snoc {ℓ} :
    {A : Type ℓ} (p : A → Bool) (xs : List A) (y : A) → any p (xs ++ y ∷ []) ≡ (any p xs || p y)
any-snoc p [] y = ground arith
any-snoc p (x ∷ xs) y = ground (arith, any-snoc p xs y)

-- A sensor reads at least the limit.
abbrev pub reaches : SensorReading → ℕ → Bool
reaches sensor limit = elim sensor.value [ some pct ↦ float_ge pct limit | none ↦ false ]

-- A reading below one limit does not reach a higher one.
pub low-not_high :
    (pct : Float) (low high : ℕ) → low ≤ high → float_lt pct low ≡ true → float_ge pct high ≡ false
low-not_high nan low high h e = cc
low-not_high (below_zero n) low high h e = refl
low-not_high (millionths n) low high h e = ground arith

-- How each step changes the answer to "is there a blocker that `p` picks?".
module _ (p : IdleBlocker → Bool) (ctx : IdleContext) (m : Marks) where
  any-mark_screen :
      p screen_on ≡ false
      → p grace_period_remaining ≡ false
      → (grace : Duration) → any p (mark_screen ctx grace m).blockers ≡ any p m.blockers
  unfolding mark_screen
  any-mark_screen h k grace =
      ground (arith, any-snoc p m.blockers screen_on, any-snoc p m.blockers grace_period_remaining)

  any-mark_charging :
      p not_charging ≡ false → any p (mark_charging ctx m).blockers ≡ any p m.blockers
  unfolding mark_charging
  any-mark_charging h = ground (arith, any-snoc p m.blockers not_charging)

  any-mark_battery :
      p battery_too_low ≡ false
      → p battery_below_deep_threshold ≡ false
      → any p (mark_battery ctx m).blockers ≡ any p m.blockers
  unfolding mark_battery
  any-mark_battery h k = ground (
    arith,
    any-snoc p m.blockers battery_too_low,
    any-snoc p m.blockers battery_below_deep_threshold,
  )

  any-mark_pressure :
      p sensor_unavailable ≡ false
      → (sensor : SensorReading) (low high : ℕ) (positive : IdlePositive) (blocker : IdleBlocker)
      → low ≤ high
      → any p (mark_pressure sensor low high positive blocker m).blockers
        ≡ (any p m.blockers || (p blocker && reaches sensor high))
  unfolding mark_pressure
  any-mark_pressure h sensor low high positive blocker le = elim (Option-cases sensor.value) [
    | inl e ↦ ground (arith, any-snoc p m.blockers sensor_unavailable)
    | inr (pct, e) ↦ ground (arith, any-snoc p m.blockers blocker, low-not_high pct low high le)
  ]

  any-mark_temperature : any p (mark_temperature ctx m).blockers ≡ any p m.blockers
  unfolding mark_temperature
  any-mark_temperature = ground arith

  any-mark_thermal :
      p thermal_hot ≡ false
      → p thermal_critical ≡ false
      → (thermal : ThermalState) → any p (mark_thermal thermal m).blockers ≡ any p m.blockers
  unfolding mark_thermal
  any-mark_thermal h k thermal =
      ground (arith, any-snoc p m.blockers thermal_hot, any-snoc p m.blockers thermal_critical)

  any-mark_activity :
      p recent_activity ≡ false → any p (mark_activity ctx m).blockers ≡ any p m.blockers
  unfolding mark_activity
  any-mark_activity h = ground (arith, any-snoc p m.blockers recent_activity)

module _ (ctx : IdleContext) (thermal : ThermalState) (grace : Duration) where
  -- There is a CPU blocker exactly if the CPU pressure reaches 10 percent.
  pub marks_of-cpu :
      any is_cpu_high (marks_of ctx thermal grace).blockers ≡ reaches ctx.cpu_psi_pct 10
  unfolding marks_of
  marks_of-cpu =
      rw
        (
          any-mark_activity is_cpu_high ctx _ refl,
          any-mark_thermal is_cpu_high ctx _ refl refl thermal,
          any-mark_temperature is_cpu_high ctx _,
          any-mark_pressure is_cpu_high ctx _ refl ctx.io_psi_pct 3 8 io_idle io_pressure_high
              (omega arith),
          any-mark_pressure is_cpu_high ctx _ refl ctx.cpu_psi_pct 5 10 cpu_idle cpu_pressure_high
              (omega arith),
          any-mark_battery is_cpu_high ctx _ refl refl,
          any-mark_charging is_cpu_high ctx _ refl,
          any-mark_screen is_cpu_high ctx _ refl refl grace,
        )
        (ground arith)

  -- There is an I/O blocker exactly if the I/O pressure reaches 8 percent.
  pub marks_of-io : any is_io_high (marks_of ctx thermal grace).blockers ≡ reaches ctx.io_psi_pct 8
  unfolding marks_of
  marks_of-io =
      rw
        (
          any-mark_activity is_io_high ctx _ refl,
          any-mark_thermal is_io_high ctx _ refl refl thermal,
          any-mark_temperature is_io_high ctx _,
          any-mark_pressure is_io_high ctx _ refl ctx.io_psi_pct 3 8 io_idle io_pressure_high
              (omega arith),
          any-mark_pressure is_io_high ctx _ refl ctx.cpu_psi_pct 5 10 cpu_idle cpu_pressure_high
              (omega arith),
          any-mark_battery is_io_high ctx _ refl refl,
          any-mark_charging is_io_high ctx _ refl,
          any-mark_screen is_io_high ctx _ refl refl grace,
        )
        (ground arith)
