-- ===== src/Tests/Idling.antt =====
-- The idle policy and its manager at concrete inputs.
use cache_cleaner.Base.{◌≡◌, ◌↔◌, refl, true, false, none, some, [], ◌∷◌, arith}
use cache_cleaner.Base.Float.{whole}
use cache_cleaner.Idle.State.{
  on, off, active, normal, warm, hot, allowed, available, SensorReading, IdleContext,
}
use cache_cleaner.Idle.Policy.{evaluate}
use cache_cleaner.Idle.Manager.{IdleManager}
use cache_cleaner.Idle.Gating.{IsStandardReady, standard_allowed_iff}
use cache_cleaner.Idle.Transitions.{thermal_updates, critical_forgets_hot}
use cache_cleaner.Idle.Tracking.{updates, since_last_on}

abbrev nothing_read : SensorReading
nothing_read = record { value = none; status = available }

abbrev dark : IdleContext
dark = record {
  screen = off;
  screen_off_duration = some 500;
  charging = true;
  battery_percent = 80;
  cpu_psi_pct = nothing_read;
  io_psi_pct = nothing_read;
  mem_psi_pct = nothing_read;
  thermal_celsius = nothing_read;
  thermal_source = none;
  stationary = true;
  user_active = false;
}

abbrev lit : IdleContext
lit = record dark { screen = on; screen_off_duration = none }

abbrev manager : IdleManager
manager = record {
  state = active;
  candidate_since = some 100;
  last_activity = none;
  thermal_state = normal;
  grace_period = 300;
}

abbrev hot_manager : IdleManager
hot_manager = record manager { thermal_state = hot }

standard_allowed_iff_example :
    ((evaluate dark active normal 300).standard_maintenance ≡ allowed)
    ↔ IsStandardReady dark normal 300
standard_allowed_iff_example = standard_allowed_iff dark active normal 300

critical_forgets_hot_example :
    ((thermal_updates hot_manager (whole 51 ∷ whole 42 ∷ [])).thermal_state ≡ warm)
    × ((thermal_updates hot_manager (whole 42 ∷ [])).thermal_state ≡ hot)
critical_forgets_hot_example =
    critical_forgets_hot hot_manager (whole 51) (whole 42) refl refl refl refl

since_last_on_example :
    (updates manager ((200, dark) ∷ (300, lit) ∷ (400, dark) ∷ (500, dark) ∷ [])).candidate_since
    ≡ some 400
since_last_on_example =
    since_last_on manager ((200, dark) ∷ []) ((400, dark) ∷ (500, dark) ∷ []) 300 lit refl
      (λ h. ground (arith, h), (λ h. ground (arith, h), tt))
