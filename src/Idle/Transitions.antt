-- ===== src/Idle/Transitions.antt =====
-- Thermal hysteresis over sequences of temperature readings.
use cache_cleaner.Base.{◌≡◌, true, false, List, [], ◌∷◌, All, arith}
use cache_cleaner.Base.Float.{Float, nan, below_zero, millionths, float_ge, float_gt}
use cache_cleaner.Idle.State.{warm, hot, next_state}
use cache_cleaner.Idle.Manager.{IdleManager, on_thermal_update}

-- The manager after a sequence of readings.
abbrev pub thermal_updates : IdleManager → List Float → IdleManager
thermal_updates m [] = m
thermal_updates m (t ∷ ts) = thermal_updates (on_thermal_update m t).0 ts

-- Above 40 and below 50 degrees.
abbrev pub IsWarmReading : Float → Type 0
IsWarmReading t = (float_gt t 40 ≡ true) × (float_ge t 50 ≡ false)

hot-step :
    (m : IdleManager) (t : Float)
    → m.thermal_state ≡ hot
    → IsWarmReading t
    → (on_thermal_update m t).0.thermal_state ≡ hot
unfolding on_thermal_update next_state
hot-step m t h r = ground arith

-- Once hot, the manager stays hot through any readings above 40 and below 50 degrees.
pub hot_stays :
    (m : IdleManager) (ts : List Float)
    → m.thermal_state ≡ hot
    → All IsWarmReading ts
    → (thermal_updates m ts).thermal_state ≡ hot
hot_stays m [] h r = h
hot_stays m (t ∷ ts) h r = hot_stays (on_thermal_update m t).0 ts (hot-step m t h r.0) r.1

-- A hot manager that reads 50 degrees or more and then between 40 and 45 is warm, so that the
-- hysteresis is lost; with the second reading alone it would have stayed hot.
pub critical_forgets_hot :
    (m : IdleManager) (peak t : Float)
    → m.thermal_state ≡ hot
    → float_ge peak 50 ≡ true
    → float_gt t 40 ≡ true
    → float_ge t 45 ≡ false
    → ((thermal_updates m (peak ∷ t ∷ [])).thermal_state ≡ warm)
      × ((thermal_updates m (t ∷ [])).thermal_state ≡ hot)
unfolding on_thermal_update next_state
critical_forgets_hot m nan t h p a b = cc
critical_forgets_hot m (below_zero n) t h p a b = cc
critical_forgets_hot m (millionths n) nan h p a b = cc
critical_forgets_hot m (millionths n) (below_zero k) h p a b = cc
critical_forgets_hot m (millionths n) (millionths k) h p a b = ground arith
