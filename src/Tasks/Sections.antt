-- ===== src/Tasks/Sections.antt =====
-- src/tasks.rs: the sections under the manager's locks, which any threads run in any order. A task
-- has one thread at a time that acts for it: its caller up to the send, then the supervisor. Its
-- counter says where that thread stands. A call of `cancel` that has read the token may mark the
-- record at any later time, so marking is a step that is always allowed. The event that follows the
-- write of a record is sent with it.
use wwe_modify.Base.{◌+◌, ◌<◌, ◌^◌, String, true, false, Option, ◌∷◌, ◌≡◌, ℕ_discrete}
use wwe_modify.Base.Map.{get, insert}
use wwe_modify.Base.Words.{ℤ}
use wwe_modify.Base.Tests.{str_discrete}
use wwe_modify.Tasks.{
  TaskId, TaskKind, TaskState, failed, TaskManager, new, record_started, finalize, take_id,
  put_token, mark_cancelled, observed, already_cancelled, drop_token, drop_keys,
}

-- Where the thread of a task stands.
pub data Pc : Type 0 where
  unborn : Pc
  taken : Pc  -- the id is taken
  recorded : Pc  -- after record_started
  dropped : Pc  -- the send failed
  sent : Pc
  returned : TaskState → Pc  -- in handle_join, before the check
  checked : TaskState → Pc  -- past the check, before finalize
  over : Pc

-- One section of the thread of task `id`.
pub data Move (id : TaskId) (m : TaskManager) : Pc → TaskManager → Pc → Type 0 where
  puts_token : Move id m taken (put_token id m) taken
  records :
      (kind : TaskKind) (name : String) (now : ℤ)
      → Move id m taken (record_started id kind name now m) recorded
  sends : m.alive ≡ true → Move id m recorded (record m { in_flight = id ∷ m.in_flight }) sent
  drops : m.alive ≡ false → Move id m recorded m dropped
  drops_token : Move id m dropped (drop_token id m) dropped
  fails : Move id m dropped (finalize id (failed "supervisor gone") m) over
  returns : (error : Option String) → Move id m sent (drop_token id m) (returned (observed error))
  drops_keys : (state : TaskState) → Move id m (returned state) (drop_keys id m) (returned state)
  finds_cancelled :
      (state : TaskState)
      → already_cancelled (get ℕ_discrete id m.records) ≡ true
      → Move id m (returned state) m over
  passes :
      (state : TaskState)
      → already_cancelled (get ℕ_discrete id m.records) ≡ false
      → Move id m (returned state) m (checked state)
  finalizes : (state : TaskState) → Move id m (checked state) (finalize id state m) over
  is_lost : Move id m sent m over  -- aborted, or panicked

pub record System : Type 0 where
  pub manager : TaskManager
  pub pc : TaskId → Pc

abbrev pub set_pc : TaskId → Pc → (TaskId → Pc) → TaskId → Pc
set_pc id p pc j = elim (ℕ_discrete id j) [ yes _ ↦ p | no _ ↦ pc j ]

-- Ids are taken as long as their counter does not wrap.
pub data Step (s : System) : System → Type 0 where
  takes_id :
      s.manager.next_id + 1 < 2 ^ 64
      → Step s (record { manager = take_id s.manager; pc = set_pc s.manager.next_id taken s.pc })
  moves :
      (id : TaskId) {m : TaskManager} {p : Pc}
      → Move id s.manager (s.pc id) m p
      → Step s (record { manager = m; pc = set_pc id p s.pc })
  cancels_token :
      (token : TaskId)
      → Step s (record s {
        manager = record s.manager { cancelled_tokens = token ∷ s.manager.cancelled_tokens };
      })
  marks :
      (id : TaskId)
      → Step s
          (record s { manager = mark_cancelled id (get ℕ_discrete id s.manager.records) s.manager })
  puts_key :
      (key : String) (id : TaskId)
      → Step s (record s {
        manager = record s.manager {
          unique_keys = insert str_discrete key id s.manager.unique_keys;
        };
      })
  exits : Step s (record s { manager = record s.manager { alive = false } })

pub data Run (s : System) : System → Type 0 where
  here : Run s s
  next : {t u : System} → Run s t → Step t u → Run s u

abbrev pub init : System
init = record { manager = new; pc = λ _. unborn }
