-- ===== src/Routing/Autopause/Tests.antt =====
-- The tests of src/routing/autopause.rs, and the theorems at a full-screen window that closes.
use wwe_modify.Base.{◌+◌, ◌^◌, true, false, none, some, List, [], ◌∷◌, ◌≡◌, refl}
use wwe_modify.Base.Lists.{contains}
use wwe_modify.Routing.Autopause.{
  full_screen, max, any, decide, State, ResolvedAutopause, paused, update_display_window_state,
  resume_display, update_session_state, resume_session,
}
use wwe_modify.Routing.Autopause.Settling.{finish, Event, appears, reports, settles}
use wwe_modify.Routing.Autopause.Settling
use wwe_modify.Routing.Autopause.Sessions.{updates, session_settles}
use wwe_modify.Routing.Autopause.Sessions

program : Unit {0}
unfolding decide update_display_window_state resume_display update_session_state resume_session
    finish Settling.handle Settling.play Settling.wake_all Sessions.handle Sessions.play
    Sessions.wake_all contains
program = tt

maximized : decide max 4 ≡ true
unfolding program
maximized = refl

stray : decide any (2 ^ 30 + 8) ≡ false
unfolding program
stray = refl

abbrev resolved : ResolvedAutopause
resolved = record { mode = full_screen; resume_ms = 100 }

abbrev covered : List Event
covered = appears ∷ reports resolved 8 ∷ []

abbrev asking : State
asking = record { last_flags = 8; raw_want_pause = true; requested = true; gen = 1 }

settles_example :
    (t : State) × ((Settling.wake_all
        (2 ∷ [])
        (Settling.handle (reports resolved 0) (Settling.play covered Settling.start))).display
      ≡ some t)
    × (t.requested ≡ decide full_screen 0)
unfolding program
settles_example = settles covered resolved 0 asking (2 ∷ []) refl (λ g h. h)

abbrev unlocked : List Sessions.Event
unlocked = updates 500 (some true) none ∷ updates 500 (some false) none ∷ []

session_settles_example :
    (Sessions.wake_all (2 ∷ []) (Sessions.play unlocked Sessions.start)).seen
    ≡ paused (Sessions.play unlocked Sessions.start).session
unfolding program
session_settles_example = session_settles unlocked (2 ∷ []) (λ g h. h)
