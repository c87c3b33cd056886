-- ===== src/Routing/Autopause.antt =====
-- src/routing/autopause.rs, and the handlers of src/routing/router.rs that drive it:
-- update_display_window_state, update_session_state and the resume tasks that the two spawn. A
-- display's entry in `inner.displays` is an `Option`. `reconcile_lifecycle` and the sleep of
-- `resume_ms` are not modelled: a handler answers with what it asks for.
pub mod Settling
pub mod Sessions
mod Tests
use wwe_modify.Base.{
  ℕ, ◌+◌, ◌%◌, ◌^◌, bit_and, Bool, true, false, not, ◌&&◌, ◌||◌, Option, none, some,
}
use wwe_modify.Base.Tests.{◌==◌, if◌then◌else◌}

abbrev flag_non_minimized : ℕ
flag_non_minimized = 1

abbrev flag_active : ℕ
flag_active = 2

abbrev flag_maximized : ℕ
flag_maximized = 4

abbrev flag_fullscreen : ℕ
flag_fullscreen = 8

pub data AutopauseMode : Type 0 where
  never : AutopauseMode
  any : AutopauseMode
  max : AutopauseMode
  focus : AutopauseMode
  focus_or_max : AutopauseMode
  full_screen : AutopauseMode

pub has : ℕ → ℕ → Bool
has flags b = not (bit_and flags b == 0)

pub decide : AutopauseMode → ℕ → Bool
unfolding has
decide never flags = false
decide any flags = has flags flag_non_minimized
decide focus flags = has flags flag_active
decide max flags = has flags flag_maximized || has flags flag_fullscreen
decide focus_or_max flags =
    has flags flag_active || has flags flag_maximized || has flags flag_fullscreen
decide full_screen flags = has flags flag_fullscreen

pub record State : Type 0 where
  pub last_flags : ℕ
  pub raw_want_pause : Bool
  pub requested : Bool
  pub gen : ℕ

abbrev pub new : State
new = record { last_flags = 0; raw_want_pause = false; requested = false; gen = 0 }

pub record ResolvedAutopause : Type 0 where
  pub mode : AutopauseMode
  pub resume_ms : ℕ

pub data Action : Type 0 where
  schedule_resume : (gen ms : ℕ) → Action
  reconcile : Action
  noop : Action

-- `wrapping_add(1)`.
abbrev pub bump : ℕ → ℕ
bump gen = (gen + 1) % 2 ^ 64

bool_eq : Bool → Bool → Bool
bool_eq true b = b
bool_eq false b = not b

-- The raw signal has moved, or the flags have.
pub transition : Bool → ℕ → State → State × Action
transition true ms s = (
  record s { raw_want_pause = true; gen = bump s.gen; requested = true },
  if s.requested then noop else reconcile,
)
transition false ms s =
    if s.requested
    then (record s { raw_want_pause = false; gen = bump s.gen }, schedule_resume (bump s.gen) ms)
    else (record s { raw_want_pause = false }, noop)

pub report : ResolvedAutopause → ℕ → State → State × Action
unfolding decide transition bool_eq
report resolved flags s =
    let new_raw = decide resolved.mode flags in
    let s1 = record s { last_flags = flags } in
    if s.last_flags == flags && bool_eq new_raw s.raw_want_pause
    then (s1, noop)
    else transition new_raw resolved.resume_ms s1

pub update_display_window_state : ResolvedAutopause → ℕ → Option State → Option State × Action
unfolding report
update_display_window_state resolved flags none = (none, noop)
update_display_window_state resolved flags (some s) =
    let (s1, action) = report resolved flags s in (some s1, action)

-- The body of a resume task after its sleep.
pub resume : ℕ → State → State × Action
resume gen s =
    if not (s.gen == gen)
    then (s, noop)
    else if s.raw_want_pause
    then (s, noop)
    else if s.requested
    then (record s { requested = false }, reconcile)
    else (s, noop)

pub resume_display : ℕ → Option State → Option State × Action
unfolding resume
resume_display gen none = (none, noop)
resume_display gen (some s) = let (s1, action) = resume gen s in (some s1, action)

pub record Session : Type 0 where
  pub session_locked : Bool
  pub session_inactive : Bool
  pub session_gen : ℕ

abbrev pub paused : Session → Bool
paused s = s.session_locked || s.session_inactive

-- `if let Some(v) = ...`: the flag after it, and whether it changed.
pub set_flag : Option Bool → Bool → Bool × Bool
unfolding bool_eq
set_flag none flag = (flag, false)
set_flag (some v) flag = (v, not (bool_eq flag v))

pub update_session_state : ℕ → Option Bool → Option Bool → Session → Session × Action
unfolding set_flag
update_session_state resume_ms locked inactive s =
    let (l, changed_l) = set_flag locked s.session_locked in
    let (i, changed_i) = set_flag inactive s.session_inactive in
    let s1 : Session = record {
      session_locked = l;
      session_inactive = i;
      session_gen = s.session_gen;
    } in
    let s2 = record s1 { session_gen = bump s1.session_gen } in
    if not (changed_l || changed_i)
    then (s1, noop)
    else if paused s1
    then (s2, reconcile)
    else (s2, schedule_resume s2.session_gen resume_ms)

-- A session's resume task after its sleep.
pub resume_session : ℕ → Session → Action
resume_session gen s =
    if s.session_gen == gen && not s.session_locked && not s.session_inactive
    then reconcile
    else noop

-- `inner.manual_paused`, and what is asked for.
pub set_manual_pause : Bool → Bool → Bool × Action
unfolding bool_eq
set_manual_pause paused manual_paused =
    if bool_eq manual_paused paused then (manual_paused, noop) else (paused, reconcile)
