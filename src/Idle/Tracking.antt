-- ===== src/Idle/Tracking.antt =====
-- The grace period of the idle manager over sequences of updates.
use cache_cleaner.Base.{
  ◌≡◌, ◌≢◌, ◌≤◌, ◌-◌, ◌⊎◌, inl, inr, refl, false, Option, none, some, List, [], ◌∷◌, ◌++◌, All,
  Option-cases, arith,
}
use cache_cleaner.Idle.State.{Instant, on, off, idle, deep_idle, IdleContext}
use cache_cleaner.Idle.Policy.{evaluate, next_idle_state}
use cache_cleaner.Idle.Manager.{IdleManager, track_screen, update}

-- The manager after a sequence of updates, each with its instant.
abbrev pub updates : IdleManager → List (Instant × IdleContext) → IdleManager
updates m [] = m
updates m ((now, ctx) ∷ es) = updates (update now m ctx).0 es

-- The first instant at which the screen was off.
abbrev pub first_off : List (Instant × IdleContext) → Option Instant
first_off [] = none
first_off ((now, ctx) ∷ es) = elim ctx.screen [ off ↦ some now | _ ↦ first_off es ]

since-update :
    (now : Instant) (m : IdleManager) (ctx : IdleContext)
    → (update now m ctx).0.candidate_since ≡ track_screen ctx.screen now m.candidate_since
unfolding update
since-update now m ctx = refl

-- With no screen-on, a start of the grace period is kept, or is the first screen-off.
since-updates :
    (m : IdleManager) (es : List (Instant × IdleContext))
    → All (λ e. e.1.screen ≢ on) es
    → (updates m es).candidate_since
      ≡ elim m.candidate_since [ some since ↦ some since | none ↦ first_off es ]
unfolding track_screen
since-updates m [] h = ground arith
since-updates m ((now, ctx) ∷ es) h =
    ground (arith, h.0, since-update now m ctx, since-updates (update now m ctx).0 es h.1)

updates-append :
    (m : IdleManager) (es fs : List (Instant × IdleContext))
    → updates m (es ++ fs) ≡ updates (updates m es) fs
updates-append m [] fs = refl
updates-append m ((now, ctx) ∷ es) fs = updates-append (update now m ctx).0 es fs

-- The grace period is counted from the first screen-off after the last screen-on: after any
-- updates, one with the screen on and then some with no screen-on, `candidate_since` is the first
-- instant of the latter at which the screen was off.
pub since_last_on :
    (m : IdleManager) (es fs : List (Instant × IdleContext)) (now : Instant) (ctx : IdleContext)
    → ctx.screen ≡ on
    → All (λ e. e.1.screen ≢ on) fs
    → (updates m (es ++ (now, ctx) ∷ fs)).candidate_since ≡ first_off fs
unfolding track_screen
since_last_on m es fs now ctx lit h =
    let m' = updates m es in
    rw updates-append
      (ground (arith, since-update now m' ctx, since-updates (update now m' ctx).0 fs h))

-- An update that ends in idle or deep idle had the screen off, no active user, and a start of the
-- grace period that lies the whole period back.
pub idle_needs_grace :
    (now : Instant) (m : IdleManager) (ctx : IdleContext)
    → let m' = (update now m ctx).0 in
      (m'.state ≡ idle) ⊎ (m'.state ≡ deep_idle)
      → (ctx.screen ≡ off)
        × (ctx.user_active ≡ false)
        × ((since : Instant) × (m'.candidate_since ≡ some since) × (m.grace_period ≤ now - since))
unfolding update evaluate next_idle_state track_screen
idle_needs_grace now m ctx h = elim (Option-cases m.candidate_since) [
  | inl e ↦ (ground arith, ground arith, (now, ground arith, ground arith))
  | inr (since, e) ↦ (ground arith, ground arith, (since, ground arith, ground arith))
]
