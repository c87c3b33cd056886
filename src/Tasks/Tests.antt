-- ===== src/Tasks/Tests.antt =====
-- The theorems on src/tasks.rs at one task, and at two records.
use wwe_modify.Base.{ℕ, none, some, [], ◌∷◌, ◌≡◌, refl, ◌⊎◌, arith, ℕ_discrete}
use wwe_modify.Base.Map.{Map, get, insert, remove, modify, retain_entries}
use wwe_modify.Base.Words.{pos}
use wwe_modify.Tasks.Trimming.{Trimmed, trim_finished_lem}
use wwe_modify.Tasks.Locality.{record_of}
use wwe_modify.Tasks.Lifecycle.{ended_stays}
use wwe_modify.Tasks.Cancelling.{cancelled_stays}
use wwe_modify.Tasks.Sections.{
  records, sends, returns, passes, finds_cancelled, finalizes, System, takes_id, moves, marks, Run,
  here, next, init,
}
use wwe_modify.Tasks.{
  generic, TaskState, running, completed, cancelled, TaskRecord, started, cancels, completes,
  end_event, trim_finished, record_started, finalize, mark_cancelled,
}

program : Unit {0}
unfolding ℕ_discrete get insert remove modify retain_entries trim_finished record_started finalize
    end_event mark_cancelled
program = tt

abbrev row : ℕ → TaskState → TaskRecord
row id state = record { id = id; kind = generic; name = "t"; started_at_ms = pos 0; state = state }

abbrev rows : Map ℕ TaskRecord
rows = (1, row 1 completed) ∷ (2, row 2 running) ∷ []

trim_finished_lem_example : Trimmed rows (trim_finished rows)
unfolding program
trim_finished_lem_example = trim_finished_lem rows (refl, (refl, tt))

-- Task 1 is sent and comes back.
abbrev begun : (s : System) × Run init s
unfolding program
begun = (
  _,
  next (next (next here (takes_id (omega arith))) (moves 1 (records generic "t" (pos 0))))
      (moves 1 (sends refl)),
)

abbrev back : (s : System) × Run init s
unfolding program
back = (_, next begun.1 (moves 1 (returns none)))

-- It completes.
abbrev done : (s : System) × Run init s
unfolding program
done = (_, next (next back.1 (moves 1 (passes completed refl))) (moves 1 (finalizes completed)))

-- A second task is taken, and the first is cancelled too late.
abbrev after_done : (s : System) × Run done.0 s
unfolding program
after_done = (_, next (next here (takes_id (omega arith))) (marks 1))

ended_stays_example :
    (record_of 1 after_done.0.manager ≡ none)
    ⊎ (record_of 1 after_done.0.manager ≡ some (row 1 completed))
unfolding program
ended_stays_example = ended_stays 1 (row 1 completed) done.1 refl refl refl after_done.1

-- It is cancelled before the check.
abbrev in_time : (s : System) × Run init s
unfolding program
in_time = (_, next back.1 (marks 1))

abbrev after_in_time : (s : System) × Run in_time.0 s
unfolding program
after_in_time = (_, next here (moves 1 (finds_cancelled completed refl)))

cancelled_stays_example :
    (record_of 1 after_in_time.0.manager ≡ none)
    ⊎ (record_of 1 after_in_time.0.manager ≡ some (row 1 cancelled))
unfolding program
cancelled_stays_example =
    cancelled_stays 1 (row 1 cancelled) in_time.1 refl refl refl after_in_time.1

-- Cancelled between the check and the write: the record is overwritten, and a second event sent.
abbrev too_late : (s : System) × Run init s
unfolding program
too_late = (
  _,
  next (next (next back.1 (moves 1 (passes completed refl))) (marks 1))
      (moves 1 (finalizes completed)),
)

overwritten :
    (record_of 1 too_late.0.manager ≡ some (row 1 completed))
    × (too_late.0.manager.events ≡ completes 1 ∷ cancels 1 ∷ started (row 1 running) ∷ [])
unfolding program
overwritten = (refl, refl)
