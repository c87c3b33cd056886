-- ===== src/Routing/Autopause/Sessions.antt =====
-- src/routing/router.rs, update_session_state: the session's pause flags, its resume tasks, and
-- the reconciliations that are asked for.
use wwe_modify.Base.{
  ℕ, Bool, true, false, Option, none, some, List, [], ◌∷◌, ◌≡◌, refl, ap, ◌∙◌, ◌⊎◌, inl, inr, arith,
}
use wwe_modify.Base.Tests.{if◌then◌else◌}
use wwe_modify.Base.Lists.{contains}
use wwe_modify.Routing.Autopause.Settling.{finish, contains-finish, spawn}
use wwe_modify.Routing.Autopause.{
  Action, reconcile, bool_eq, Session, paused, set_flag, update_session_state, resume_session,
}

-- The session, the generations of the tasks that sleep, and whether the last reconciliation found
-- the session paused.
pub record System : Type 0 where
  pub session : Session
  pub tasks : List ℕ
  pub seen : Bool

-- A change of the flags, or a task's wake-up.
pub data Event : Type 0 where
  updates : ℕ → Option Bool → Option Bool → Event
  wakes : ℕ → Event

abbrev look : Action → Session → Bool → Bool
look reconcile s seen = paused s
look _ s seen = seen

abbrev update : ℕ → Option Bool → Option Bool → System → System
update ms locked inactive y =
    let (s, action) = update_session_state ms locked inactive y.session in
    record { session = s; tasks = spawn action y.tasks; seen = look action s y.seen }

abbrev wake : ℕ → System → System
wake g y =
    if contains g y.tasks
    then record y {
      tasks = finish g y.tasks;
      seen = look (resume_session g y.session) y.session y.seen;
    }
    else y

unfoldable pub handle : Event → System → System
handle (updates ms locked inactive) y = update ms locked inactive y
handle (wakes g) y = wake g y

unfoldable pub play : List Event → System → System
unfolding handle
play [] y = y
play (e ∷ es) y = play es (handle e y)

-- The renderers lag behind only while a task for the newest generation sleeps.
abbrev Follows : List ℕ → System → Type 0
Follows tasks y =
    (y.seen ≡ paused y.session)
    ⊎ ((paused y.session ≡ false)
        × (contains y.session.session_gen tasks ≡ true)
        × (contains y.session.session_gen y.tasks ≡ true))

update-Follows :
    (ms : ℕ) (locked inactive : Option Bool) (y : System)
    → Follows y.tasks y
    → Follows (update ms locked inactive y).tasks (update ms locked inactive y)
unfolding update_session_state set_flag bool_eq contains
update-Follows ms none none y h = ground arith
update-Follows ms none (some i) y h = ground arith
update-Follows ms (some l) none y h = ground arith
update-Follows ms (some l) (some i) y h = ground arith

wake-Follows :
    (g : ℕ) (order : List ℕ) (y : System) → Follows (g ∷ order) y → Follows order (wake g y)
unfolding resume_session contains
wake-Follows g order y h = ground (arith, contains-finish y.session.session_gen g y.tasks)

wake-Follows_self : (g : ℕ) (y : System) → Follows y.tasks y → Follows (wake g y).tasks (wake g y)
unfolding resume_session
wake-Follows_self g y h = ground (arith, contains-finish y.session.session_gen g y.tasks)

handle-Follows :
    (e : Event) (y : System) → Follows y.tasks y → Follows (handle e y).tasks (handle e y)
unfolding handle
handle-Follows (updates ms locked inactive) y h = update-Follows ms locked inactive y h
handle-Follows (wakes g) y h = wake-Follows_self g y h

play-Follows :
    (es : List Event) (y : System) → Follows y.tasks y → Follows (play es y).tasks (play es y)
unfolding play
play-Follows [] y h = h
play-Follows (e ∷ es) y h = play-Follows es (handle e y) (handle-Follows e y h)

unfoldable pub wake_all : List ℕ → System → System
wake_all [] y = y
wake_all (g ∷ gs) y = wake_all gs (wake g y)

wake-session : (g : ℕ) (y : System) → (wake g y).session ≡ y.session
wake-session g y = ground arith

caught_up : (y : System) → Follows [] y → y.seen ≡ paused y.session
unfolding contains
caught_up y h = ground arith

wake_all_lem :
    (order : List ℕ) (y : System) → Follows order y → (wake_all order y).seen ≡ paused y.session
unfolding wake_all
wake_all_lem [] y h = caught_up y h
wake_all_lem (g ∷ order) y h =
    wake_all_lem order (wake g y) (wake-Follows g order y h) ∙ ap paused (wake-session g y)

abbrev pub start : System
start = record {
  session = record { session_locked = false; session_inactive = false; session_gen = 0 };
  tasks = [];
  seen = false;
}

-- After any events, once every sleeping task has woken up, in whatever order, the last
-- reconciliation that the handlers asked for found the session's present pause state.
pub session_settles :
    (es : List Event) (order : List ℕ)
    → ((g : ℕ) → contains g (play es start).tasks ≡ true → contains g order ≡ true)
    → (wake_all order (play es start)).seen ≡ paused (play es start).session
session_settles es order all =
    wake_all_lem order (play es start) (elim (play-Follows es start (inl refl)) [
      | inl e ↦ inl e
      | inr (p, c, d) ↦ inr (p, all (play es start).session.session_gen c, d)
    ])
