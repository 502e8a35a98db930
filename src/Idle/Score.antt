-- ===== src/Idle/Score.antt =====
-- The score and the work budget of `IdlePolicy::evaluate`.
use cache_cleaner.Base.{ℕ, ◌+◌, ◌≡◌, ◌≤◌, ◌↔◌, ◌⊎◌, refl, List, [], ◌∷◌, ◌++◌, arith}
use cache_cleaner.Idle.State.{
  Duration, IdleState, ThermalState, hot, critical, SensorReading, IdleContext, IdleBlocker,
  IdlePositive, screen_off, grace_elapsed, high_battery, cpu_idle, io_idle, thermal_safe,
  cpu_pressure_high, io_pressure_high,
}
use cache_cleaner.Idle.Policy.{
  Marks, no_marks, mark_screen, mark_charging, mark_battery, mark_pressure, mark_temperature,
  mark_thermal, mark_activity, marks_of, rate_limit, evaluate,
}

-- The points that `description` of an `IdlePositive` shows for it.
abbrev pub points : IdlePositive → ℕ
points screen_off = 25
points IdlePositive.charging = 15
points _ = 10

abbrev pub total_points : List IdlePositive → ℕ
total_points [] = 0
total_points (p ∷ ps) = points p + total_points ps

total_points-snoc :
    (ps : List IdlePositive) (p : IdlePositive)
    → total_points (ps ++ p ∷ []) ≡ total_points ps + points p
total_points-snoc [] p = omega arith
total_points-snoc (q ∷ ps) p = omega (arith, total_points-snoc ps p)

-- The score is the total of the positives, and at most `bound`.
record IsTally (bound : ℕ) (m : Marks) : Type 0 where
  exact : m.score ≡ total_points m.positives
  bounded : m.score ≤ bound

module _ (ctx : IdleContext) (m : Marks) where
  mark_screen-IsTally : (grace : Duration) → IsTally 0 m → IsTally 35 (mark_screen ctx grace m)
  unfolding mark_screen
  mark_screen-IsTally grace t = ground (
    arith,
    total_points-snoc m.positives screen_off,
    total_points-snoc (m.positives ++ screen_off ∷ []) grace_elapsed,
  )

  mark_charging-IsTally : IsTally 35 m → IsTally 50 (mark_charging ctx m)
  unfolding mark_charging
  mark_charging-IsTally t = ground (arith, total_points-snoc m.positives IdlePositive.charging)

  mark_battery-IsTally : IsTally 50 m → IsTally 60 (mark_battery ctx m)
  unfolding mark_battery
  mark_battery-IsTally t = ground (arith, total_points-snoc m.positives high_battery)

  mark_temperature-IsTally : IsTally 80 m → IsTally 90 (mark_temperature ctx m)
  unfolding mark_temperature
  mark_temperature-IsTally t = ground (arith, total_points-snoc m.positives thermal_safe)

  mark_thermal-IsTally :
      (thermal : ThermalState) → IsTally 90 m → IsTally 90 (mark_thermal thermal m)
  unfolding mark_thermal
  mark_thermal-IsTally thermal t = ground arith

  mark_activity-IsTally : IsTally 90 m → IsTally 100 (mark_activity ctx m)
  unfolding mark_activity
  mark_activity-IsTally t = ground (arith, total_points-snoc m.positives IdlePositive.stationary)

mark_pressure-IsTally :
    (sensor : SensorReading) (low high bound : ℕ) (positive : IdlePositive) (blocker : IdleBlocker)
    (m : Marks)
    → points positive ≡ 10
    → bound ≤ 200
    → IsTally bound m
    → IsTally (bound + 10) (mark_pressure sensor low high positive blocker m)
unfolding mark_pressure
mark_pressure-IsTally sensor low high bound positive blocker m ten small t =
    ground (arith, total_points-snoc m.positives positive)

marks_of-IsTally :
    (ctx : IdleContext) (thermal : ThermalState) (grace : Duration)
    → IsTally 100 (marks_of ctx thermal grace)
unfolding marks_of
marks_of-IsTally ctx thermal grace = mark_activity-IsTally ctx _ (
    mark_thermal-IsTally ctx _ thermal (
      mark_temperature-IsTally ctx _ (
        mark_pressure-IsTally ctx.io_psi_pct 3 8 70 io_idle io_pressure_high _ refl (omega arith) (
          mark_pressure-IsTally ctx.cpu_psi_pct 5 10 60 cpu_idle cpu_pressure_high _ refl
            (omega arith)
            (mark_battery-IsTally ctx _ (
              mark_charging-IsTally ctx _ (
                mark_screen-IsTally ctx no_marks grace
                  (record { exact = refl; bounded = omega arith }))))))))

module _ (ctx : IdleContext) (current : IdleState) (thermal : ThermalState) (grace : Duration) where
  -- The score is the total of the points of the listed positives and at most 100: neither the
  -- saturating additions nor the final cut ever take effect.
  pub score-total_points :
      let a = evaluate ctx current thermal grace in
      (a.score ≡ total_points a.positives) × (a.score ≤ 100)
  unfolding evaluate
  score-total_points = omega (
    arith,
    (marks_of-IsTally ctx thermal grace).exact,
    (marks_of-IsTally ctx thermal grace).bounded,
  )

  -- The work budget is never above 500 operations per second, and it is 0 exactly if the thermal
  -- state is hot or critical.
  pub rate_limit_bounds :
      let a = evaluate ctx current thermal grace in
      (a.rate_limit_ops_per_sec ≤ 500)
      × ((a.rate_limit_ops_per_sec ≡ 0) ↔ ((thermal ≡ hot) ⊎ (thermal ≡ critical)))
  unfolding evaluate rate_limit
  rate_limit_bounds = (ground arith, (λ h. ground arith, λ h. ground arith))
