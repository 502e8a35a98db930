-- ===== src/Idle/Manager.antt =====
-- src/system/idle/mod.rs: the idle manager. Its clock enters as the instant `now` of each call.
use cache_cleaner.Base.{◌-◌, Option, none, some}
use cache_cleaner.Base.Float.{Float}
use cache_cleaner.Idle.State.{
  Duration, Instant, ScreenState, on, off, unknown, IdleState, active, ThermalState, normal,
  next_state, IdleContext, IdleAssessment,
}
use cache_cleaner.Idle.Policy.{evaluate}

pub record IdleManager : Type 0 where
  pub state : IdleState
  pub candidate_since : Option Instant
  pub last_activity : Option Instant
  pub thermal_state : ThermalState
  pub grace_period : Duration

unfoldable pub new : Duration → IdleManager
new grace = record {
  state = active;
  candidate_since = none;
  last_activity = none;
  thermal_state = normal;
  grace_period = grace;
}

-- The screen's part of `update`: when the screen went off.
unfoldable pub track_screen : ScreenState → Instant → Option Instant → Option Instant
track_screen off now none = some now
track_screen off now (some since) = some since
track_screen on now since = none
track_screen unknown now since = since

abbrev pub with_off_duration : Option Instant → Instant → IdleContext → IdleContext
with_off_duration none now ctx = ctx
with_off_duration (some since) now ctx = record ctx { screen_off_duration = some (now - since) }

abbrev pub track_thermal : Option Float → ThermalState → ThermalState
track_thermal none thermal = thermal
track_thermal (some temp) thermal = next_state thermal temp

-- `update`: the new manager, the context it wrote, and the assessment
unfoldable pub update :
    Instant → IdleManager → IdleContext → IdleManager × IdleContext × IdleAssessment
unfolding track_screen
update now m ctx =
    let since = track_screen ctx.screen now m.candidate_since in
    let ctx' = with_off_duration since now ctx in
    let thermal = track_thermal ctx.thermal_celsius.value m.thermal_state in
    let assessment = evaluate ctx' m.state thermal m.grace_period in
    (
      record m { candidate_since = since; thermal_state = thermal; state = assessment.state },
      ctx',
      assessment,
    )

-- `get_assessment`
unfoldable pub get_assessment : IdleManager → IdleContext → IdleAssessment
get_assessment m ctx = evaluate ctx m.state m.thermal_state m.grace_period

-- `on_screen_state_change`
unfoldable pub on_screen_state_change : Instant → IdleManager → ScreenState → IdleManager
unfolding track_screen
on_screen_state_change now m off = record m {
  candidate_since = track_screen off now m.candidate_since;
}
on_screen_state_change now m on = record m { candidate_since = none; state = active }
on_screen_state_change now m unknown = m

-- `on_thermal_update`
unfoldable pub on_thermal_update : IdleManager → Float → IdleManager × ThermalState
on_thermal_update m temp =
    let next = next_state m.thermal_state temp in (record m { thermal_state = next }, next)

-- `on_user_activity`
unfoldable pub on_user_activity : Instant → IdleManager → IdleManager
on_user_activity now m = record m { last_activity = some now; state = active }
