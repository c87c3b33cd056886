-- ===== src/Routing/Autopause/Settling.antt =====
-- src/routing/router.rs, update_display_window_state: a display's pause request, and its resume
-- tasks.
use wwe_modify.Base.{
  ℕ, true, false, Option, none, some, List, [], ◌∷◌, ◌≡◌, refl, ap, subst, ◌∙◌, sym, inl, inr,
  arith,
}
use wwe_modify.Base.Tests.{◌==◌, if◌then◌else◌, Bool-cases}
use wwe_modify.Base.Lists.{contains}
use wwe_modify.Routing.Autopause.{
  decide, State, new, ResolvedAutopause, Action, schedule_resume, bool_eq, transition, report,
  update_display_window_state, resume, resume_display,
}

-- A display, and the generations of the resume tasks that sleep.
pub record System : Type 0 where
  pub display : Option State
  pub tasks : List ℕ

-- What can happen: the display appears, a report, a task's wake-up, the display goes.
pub data Event : Type 0 where
  appears : Event
  reports : ResolvedAutopause → ℕ → Event
  wakes : ℕ → Event
  goes : Event

abbrev pub spawn : Action → List ℕ → List ℕ
spawn (schedule_resume gen ms) tasks = gen ∷ tasks
spawn _ tasks = tasks

-- The task is done.
unfoldable pub finish : ℕ → List ℕ → List ℕ
finish g [] = []
finish g (t ∷ ts) = let rest = finish g ts in if t == g then ts else t ∷ rest

abbrev appear : Option State → Option State
appear none = some new
appear (some s) = some s

unfoldable pub handle : Event → System → System
unfolding finish
handle appears y = record y { display = appear y.display }
handle (reports resolved flags) y =
    let (d, action) = update_display_window_state resolved flags y.display in
    record { display = d; tasks = spawn action y.tasks }
handle (wakes g) y =
    let (d, action) = resume_display g y.display in
    if contains g y.tasks then record { display = d; tasks = finish g y.tasks } else y
handle goes y = record y { display = none }

unfoldable pub play : List Event → System → System
unfolding handle
play [] y = y
play (e ∷ es) y = play es (handle e y)

-- A display that wants to pause has asked for it, and one that asks and no longer wants to has a
-- task for its generation.
abbrev Kept : List ℕ → State → Type 0
Kept tasks s =
    (s.raw_want_pause ≡ true → s.requested ≡ true)
    × (s.raw_want_pause ≡ false → s.requested ≡ true → contains s.gen tasks ≡ true)

abbrev KeptIn : List ℕ → Option State → Type 0
KeptIn tasks none = Unit {0}
KeptIn tasks (some s) = Kept tasks s

abbrev IsKept : System → Type 0
IsKept y = KeptIn y.tasks y.display

pub contains-finish :
    (j g : ℕ) (ts : List ℕ) → (j == g) ≡ false → contains j (finish g ts) ≡ contains j ts
unfolding contains finish
contains-finish j g [] h = refl
contains-finish j g (t ∷ ts) h = ground (arith, contains-finish j g ts h)

report-Kept :
    (resolved : ResolvedAutopause) (flags : ℕ) (tasks : List ℕ) (s : State)
    → Kept tasks s
    → Kept (spawn (report resolved flags s).1 tasks) (report resolved flags s).0
unfolding report transition contains
report-Kept resolved flags tasks s h = elim (Bool-cases (decide resolved.mode flags)) [
  | inl e ↦ rw e (ground arith)
  | inr e ↦ rw e (ground arith)
]

resume-Kept :
    (g : ℕ) (tasks : List ℕ) (s : State) → Kept tasks s → Kept (finish g tasks) (resume g s).0
unfolding resume
resume-Kept g tasks s h = ground (arith, contains-finish s.gen g tasks)

-- What the last report decided.
report-raw :
    (resolved : ResolvedAutopause) (flags : ℕ) (s : State)
    → (report resolved flags s).0.raw_want_pause ≡ decide resolved.mode flags
unfolding report transition bool_eq
report-raw resolved flags s = elim (Bool-cases (decide resolved.mode flags)) [
  | inl e ↦ rw e (ground arith)
  | inr e ↦ rw e (ground arith)
]

appear-KeptIn : (tasks : List ℕ) (d : Option State) → KeptIn tasks d → KeptIn tasks (appear d)
appear-KeptIn tasks none h = (λ e. absurd (cc), λ e f. absurd (cc))
appear-KeptIn tasks (some s) h = h

update-KeptIn :
    (resolved : ResolvedAutopause) (flags : ℕ) (tasks : List ℕ) (d : Option State)
    → KeptIn tasks d
    → KeptIn
        (spawn (update_display_window_state resolved flags d).1 tasks)
        (update_display_window_state resolved flags d).0
unfolding update_display_window_state
update-KeptIn resolved flags tasks none h = tt
update-KeptIn resolved flags tasks (some s) h = report-Kept resolved flags tasks s h

wake-KeptIn :
    (g : ℕ) (tasks : List ℕ) (d : Option State)
    → KeptIn tasks d
    → KeptIn (finish g tasks) (resume_display g d).0
unfolding resume_display
wake-KeptIn g tasks none h = tt
wake-KeptIn g tasks (some s) h = resume-Kept g tasks s h

handle-IsKept : (e : Event) (y : System) → IsKept y → IsKept (handle e y)
unfolding handle
handle-IsKept appears y h = appear-KeptIn y.tasks y.display h
handle-IsKept (reports resolved flags) y h = update-KeptIn resolved flags y.tasks y.display h
handle-IsKept (wakes g) y h = elim (Bool-cases (contains g y.tasks)) [
  | inl e ↦ rw e (wake-KeptIn g y.tasks y.display h)
  | inr e ↦ rw e h
]
handle-IsKept goes y h = tt

play-IsKept : (es : List Event) (y : System) → IsKept y → IsKept (play es y)
unfolding play
play-IsKept [] y h = h
play-IsKept (e ∷ es) y h = play-IsKept es (handle e y) (handle-IsKept e y h)

abbrev Awaited : List ℕ → List ℕ → State → Type 0
Awaited order tasks s =
    (s.raw_want_pause ≡ true → s.requested ≡ true)
    × (s.raw_want_pause ≡ false
        → s.requested ≡ true
        → (contains s.gen order ≡ true) × (contains s.gen tasks ≡ true))

resume-raw : (g : ℕ) (s : State) → (resume g s).0.raw_want_pause ≡ s.raw_want_pause
unfolding resume
resume-raw g s = ground arith

resume-Awaited :
    (g : ℕ) (order tasks : List ℕ) (s : State)
    → Awaited (g ∷ order) tasks s
    → Awaited order (finish g tasks) (resume g s).0
unfolding resume contains
resume-Awaited g order tasks s h = ground (arith, contains-finish s.gen g tasks)

skip-Awaited :
    (g : ℕ) (order tasks : List ℕ) (s : State)
    → contains g tasks ≡ false
    → Awaited (g ∷ order) tasks s
    → Awaited order tasks s
unfolding contains
skip-Awaited g order tasks s n h = ground arith

-- Every task of the order wakes up, in that order.
unfoldable pub wake_all : List ℕ → System → System
unfolding handle
wake_all [] y = y
wake_all (g ∷ gs) y = wake_all gs (handle (wakes g) y)

module _ (g : ℕ) (tasks : List ℕ) (s : State) where
  wakes_known :
      contains g tasks ≡ true
      → handle (wakes g) (record { display = some s; tasks = tasks })
        ≡ record { display = some (resume g s).0; tasks = finish g tasks }
  unfolding handle resume_display
  wakes_known e = rw e

  wakes_unknown :
      contains g tasks ≡ false
      → handle (wakes g) (record { display = some s; tasks = tasks })
        ≡ record { display = some s; tasks = tasks }
  unfolding handle
  wakes_unknown e = rw e

settled : (tasks : List ℕ) (s : State) → Awaited [] tasks s → s.requested ≡ s.raw_want_pause
unfolding contains
settled tasks s h = ground arith

wake_all_lem :
    (order tasks : List ℕ) (s : State)
    → Awaited order tasks s
    → (t : State) × ((wake_all order (record { display = some s; tasks = tasks })).display ≡ some t)
      × (t.requested ≡ s.raw_want_pause)
unfolding wake_all
wake_all_lem [] tasks s h = (s, refl, settled tasks s h)
wake_all_lem (g ∷ order) tasks s h = elim (Bool-cases (contains g tasks)) [
  | inl e ↦
      let (t, p, q) =
        wake_all_lem order (finish g tasks) (resume g s).0 (resume-Awaited g order tasks s h) in
      (t, ap (λ y. (wake_all order y).display) (wakes_known g tasks s e) ∙ p, q ∙ resume-raw g s)
  | inr e ↦
      let (t, p, q) = wake_all_lem order tasks s (skip-Awaited g order tasks s e h) in
      (t, ap (λ y. (wake_all order y).display) (wakes_unknown g tasks s e) ∙ p, q)
]

reported_known :
    (resolved : ResolvedAutopause) (flags : ℕ) (s : State) (order tasks : List ℕ)
    → Kept tasks s
    → ((g : ℕ)
        → contains g (spawn (report resolved flags s).1 tasks) ≡ true
        → contains g order ≡ true)
    → (t : State) × ((wake_all order (record {
      display = some (report resolved flags s).0;
      tasks = spawn (report resolved flags s).1 tasks;
    })).display
        ≡ some t)
      × (t.requested ≡ decide resolved.mode flags)
reported_known resolved flags s order tasks h all =
    let k = report-Kept resolved flags tasks s h in
    let u = (report resolved flags s).0 in
    let (t, p, q) =
      wake_all_lem order (spawn (report resolved flags s).1 tasks) u
        (k.0, λ e f. let c = k.1 e f in (all u.gen c, c)) in
    (t, p, q ∙ report-raw resolved flags s)

reported :
    (resolved : ResolvedAutopause) (flags : ℕ) (s : State) (order : List ℕ) (y : System)
    → y.display ≡ some s
    → IsKept y
    → ((g : ℕ)
        → contains g (handle (reports resolved flags) y).tasks ≡ true
        → contains g order ≡ true)
    → (t : State) × ((wake_all order (handle (reports resolved flags) y)).display ≡ some t)
      × (t.requested ≡ decide resolved.mode flags)
unfolding handle update_display_window_state
reported resolved flags s order y e =
    subst
      (λ d.
        KeptIn y.tasks d
        → ((g : ℕ)
            → contains g (spawn (update_display_window_state resolved flags d).1 y.tasks) ≡ true
            → contains g order ≡ true)
        → (t : State) × ((wake_all order (record {
          display = (update_display_window_state resolved flags d).0;
          tasks = spawn (update_display_window_state resolved flags d).1 y.tasks;
        })).display
            ≡ some t)
          × (t.requested ≡ decide resolved.mode flags))
      (sym e) (reported_known resolved flags s order y.tasks)

abbrev pub start : System
start = record { display = none; tasks = [] }

-- After any events from a display unknown and no tasks, if the display is known and reports
-- flags: once every sleeping task has woken up, in whatever order, the display requests a pause
-- if and only if `decide` says so of the mode and the flags of that report.
pub settles :
    (es : List Event) (resolved : ResolvedAutopause) (flags : ℕ) (s : State) (order : List ℕ)
    → (play es start).display ≡ some s
    → ((g : ℕ)
        → contains g (handle (reports resolved flags) (play es start)).tasks ≡ true
        → contains g order ≡ true)
    → (t : State) × ((wake_all order (handle (reports resolved flags) (play es start))).display
        ≡ some t)
      × (t.requested ≡ decide resolved.mode flags)
settles es resolved flags s order known all =
    reported resolved flags s order (play es start) known (play-IsKept es start tt) all
