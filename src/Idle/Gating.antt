-- ===== src/Idle/Gating.antt =====
-- The gates of `IdlePolicy::evaluate`: when it lets maintenance pass.
use cache_cleaner.Base.{◌≡◌, ◌↔◌, ◌≤◌, ◌⊎◌, inl, inr, true, false, Option-cases, arith}
use cache_cleaner.Idle.State.{
  Duration, off, IdleState, deep_idle, ThermalState, normal, warm, allowed, SensorReading,
  IdleContext,
}
use cache_cleaner.Idle.Policy.{
  off_duration, is_pressure_low, is_thermal_safe, next_idle_state, standard_eligibility,
  heavy_eligibility, evaluate,
}
use cache_cleaner.Idle.Blockers.{reaches, low-not_high, marks_of-cpu, marks_of-io}

module _ (ctx : IdleContext) (thermal : ThermalState) (grace : Duration) where
  -- The device is idle enough for standard maintenance.
  pub record IsStandardReady : Type 0 where
    pub dark : ctx.screen ≡ off
    pub grace_over : grace ≤ off_duration ctx
    pub quiet : ctx.user_active ≡ false
    pub battery : 20 ≤ ctx.battery_percent
    pub cool : (thermal ≡ normal) ⊎ (thermal ≡ warm)
    pub cpu : reaches ctx.cpu_psi_pct 10 ≡ false
    pub io : reaches ctx.io_psi_pct 8 ≡ false

  -- The device is idle enough for heavy maintenance.
  pub record IsDeepReady : Type 0 where
    pub dark : ctx.screen ≡ off
    pub grace_over : grace ≤ off_duration ctx
    pub quiet : ctx.user_active ≡ false
    pub charging : ctx.charging ≡ true
    pub battery : 70 ≤ ctx.battery_percent
    pub cool : thermal ≡ normal
    pub below_40 : is_thermal_safe ctx ≡ true
    pub cpu : is_pressure_low ctx.cpu_psi_pct 5 ≡ true
    pub io : is_pressure_low ctx.io_psi_pct 3 ≡ true

low-not_reaches :
    (sensor : SensorReading) {low high : _}
    → low ≤ high
    → is_pressure_low sensor low ≡ true
    → reaches sensor high ≡ false
low-not_reaches sensor {low} {high} le h = elim (Option-cases sensor.value) [
  | inl e ↦ rw e
  | inr (pct, e) ↦ rw e (low-not_high pct low high le (rw e at h))
]

module _ (ctx : IdleContext) (current : IdleState) (thermal : ThermalState) (grace : Duration) where
  -- Standard maintenance is allowed exactly if the screen is off for the grace period at least,
  -- the user is not active, the battery has 20 percent, the thermal state is normal or warm, and
  -- neither the CPU pressure reaches 10 percent nor the I/O pressure 8.
  pub standard_allowed_iff :
      ((evaluate ctx current thermal grace).standard_maintenance ≡ allowed)
      ↔ IsStandardReady ctx thermal grace
  unfolding evaluate standard_eligibility next_idle_state
  standard_allowed_iff =
      let cpu = marks_of-cpu ctx thermal grace in
      let io = marks_of-io ctx thermal grace in
      (
        λ h. record {
          dark = ground arith;
          grace_over = ground arith;
          quiet = ground arith;
          battery = ground arith;
          cool = ground arith;
          cpu = ground (arith, cpu);
          io = ground (arith, io);
        },
        λ r. ground (arith, cpu, io, r.dark, r.grace_over, r.quiet, r.battery, r.cool, r.cpu, r.io),
      )

  deep_idle_iff : (next_idle_state ctx thermal grace ≡ deep_idle) ↔ IsDeepReady ctx thermal grace
  unfolding next_idle_state
  deep_idle_iff = (
    λ h. record {
      dark = ground arith;
      grace_over = ground arith;
      quiet = ground arith;
      charging = ground arith;
      battery = ground arith;
      cool = ground arith;
      below_40 = ground arith;
      cpu = ground arith;
      io = ground arith;
    },
    λ r. ground (
      arith, r.dark, r.grace_over, r.quiet, r.charging, r.battery, r.cool, r.below_40, r.cpu, r.io,
    ),
  )

  standard_of_deep :
      IsDeepReady ctx thermal grace
      → (evaluate ctx current thermal grace).standard_maintenance ≡ allowed
  standard_of_deep r = standard_allowed_iff.1 (record {
    dark = r.dark;
    grace_over = r.grace_over;
    quiet = r.quiet;
    battery = omega (arith, r.battery);
    cool = inl r.cool;
    cpu = low-not_reaches ctx.cpu_psi_pct (omega arith) r.cpu;
    io = low-not_reaches ctx.io_psi_pct (omega arith) r.io;
  })

  -- Heavy maintenance is allowed exactly in deep idle, which is: the screen off for the grace
  -- period, the user not active, charging with 70 percent of battery, the thermal state normal and
  -- any temperature below 40, any CPU pressure below 5 percent and any I/O pressure below 3.
  pub heavy_allowed_iff :
      ((evaluate ctx current thermal grace).heavy_maintenance ≡ allowed)
      ↔ IsDeepReady ctx thermal grace
  unfolding evaluate heavy_eligibility
  heavy_allowed_iff = (
    λ h. deep_idle_iff.0 (ground arith),
    λ r. ground (arith, standard_of_deep r, deep_idle_iff.1 r, r.charging, r.battery, r.cool),
  )
