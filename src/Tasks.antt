-- ===== src/Tasks.antt =====
-- src/tasks.rs: the records of the daemon's tasks, from their submission to their end. The
-- channel to the supervisor and its JoinSet are one list of the tasks that have been sent and not
-- joined yet; the futures themselves, the system time and the text of an error are parameters.
-- `events` is the log of what is broadcast, the newest first.
pub mod Trimming
pub mod Sections
mod Locality
mod Soundness
pub mod Lifecycle
pub mod Cancelling
mod Calls
mod Tests
use wwe_modify.Base.{
  ℕ, ◌+◌, ◌-◌, ◌%◌, ◌^◌, String, Bool, true, false, not, ◌&&◌, ◌||◌, Option, none, some, List, [],
  ◌∷◌, ℕ_discrete,
}
use wwe_modify.Base.Tests.{◌==◌, leb, if◌then◌else◌, is_some, str_discrete}
use wwe_modify.Base.Lists.{length, take, contains, drop_all}
use wwe_modify.Base.Map.{Map, get, insert, remove, modify, retain_entries, values}
use wwe_modify.Base.Sorted.{sort}
use wwe_modify.Base.Words.{ℤ}

pub data TaskKind : Type 0 where
  startup : TaskKind
  applying : TaskKind
  service : TaskKind
  generic : TaskKind

pub data TaskState : Type 0 where
  running : TaskState
  completed : TaskState
  failed : String → TaskState
  cancelled : TaskState

pub kind_label : TaskKind → String
kind_label startup = "startup"
kind_label applying = "apply"
kind_label service = "service"
kind_label generic = "generic"

pub state_label : TaskState → String
state_label running = "running"
state_label completed = "completed"
state_label (failed _) = "failed"
state_label cancelled = "cancelled"

abbrev pub TaskId : Type 0
TaskId = ℕ

pub record TaskRecord : Type 0 where
  pub id : TaskId
  pub kind : TaskKind
  pub name : String
  pub started_at_ms : ℤ
  pub state : TaskState

pub data TaskEvent : Type 0 where
  started : TaskRecord → TaskEvent
  completes : TaskId → TaskEvent
  fails : TaskId → String → TaskEvent
  cancels : TaskId → TaskEvent

-- A token is named by the task it was made for. `alive` says that the supervisor still receives.
pub record TaskManager : Type 0 where
  pub next_id : ℕ
  pub records : Map ℕ TaskRecord
  pub events : List TaskEvent
  pub cancel_tokens : Map ℕ TaskId
  pub cancelled_tokens : List TaskId
  pub unique_keys : Map String TaskId
  pub alive : Bool
  pub in_flight : List TaskId

abbrev pub new : TaskManager
new = record {
  next_id = 1;
  records = [];
  events = [];
  cancel_tokens = [];
  cancelled_tokens = [];
  unique_keys = [];
  alive = true;
  in_flight = [];
}

abbrev pub is_running : TaskState → Bool
is_running running = true
is_running _ = false

abbrev pub is_cancelled : TaskState → Bool
is_cancelled cancelled = true
is_cancelled _ = false

abbrev pub trim_finished_above : ℕ
trim_finished_above = 512

-- The ids of the records that do not run.
pub finished : Map ℕ TaskRecord → List TaskId
finished [] = []
finished ((id, r) ∷ recs) =
    let rest = finished recs in if is_running r.state then rest else id ∷ rest

pub remove_ids : List TaskId → Map ℕ TaskRecord → Map ℕ TaskRecord
remove_ids [] recs = recs
remove_ids (id ∷ ids) recs = remove_ids ids (remove ℕ_discrete id recs)

pub trim_finished : Map ℕ TaskRecord → Map ℕ TaskRecord
unfolding finished remove_ids sort
trim_finished recs =
    if leb (length recs) trim_finished_above
    then recs
    else remove_ids (take (length recs - trim_finished_above) (sort (finished recs))) recs

pub record_started : TaskId → TaskKind → String → ℤ → TaskManager → TaskManager
unfolding trim_finished insert
record_started id kind name now s =
    let r : TaskRecord = record {
      id = id;
      kind = kind;
      name = name;
      started_at_ms = now;
      state = running;
    } in
    record s {
      records = trim_finished (insert ℕ_discrete id r s.records);
      events = started r ∷ s.events;
    }

-- The event of a final state.
pub end_event : TaskId → TaskState → List TaskEvent
end_event id running = []
end_event id completed = completes id ∷ []
end_event id (failed msg) = fails id msg ∷ []
end_event id cancelled = cancels id ∷ []

abbrev pub emit : List TaskEvent → List TaskEvent → List TaskEvent
emit [] log = log
emit (e ∷ es) log = e ∷ emit es log

pub finalize : TaskId → TaskState → TaskManager → TaskManager
unfolding modify end_event
finalize id state s = record s {
  records = modify ℕ_discrete id (λ r. record r { state = state }) s.records;
  events = emit (end_event id state) s.events;
}

-- `next_id.fetch_add(1)` wraps around.
abbrev pub take_id : TaskManager → TaskManager
take_id s = record s { next_id = (s.next_id + 1) % 2 ^ 64 }

-- `cancel_tokens.write().unwrap().insert(id, token)`.
abbrev pub put_token : TaskId → TaskManager → TaskManager
put_token id s = record s { cancel_tokens = insert ℕ_discrete id id s.cancel_tokens }

-- The send, and what follows if the supervisor is gone.
pub send_async : TaskId → TaskManager → TaskManager
unfolding finalize remove
send_async id s =
    if s.alive
    then record s { in_flight = id ∷ s.in_flight }
    else finalize id (failed "supervisor gone")
        (record s { cancel_tokens = remove ℕ_discrete id s.cancel_tokens })

pub spawn_async : TaskKind → String → ℤ → TaskManager → TaskId × TaskManager
unfolding record_started send_async insert
spawn_async kind name now s =
    let id = s.next_id in
    (id, send_async id (record_started id kind name now (put_token id (take_id s))))

pub send_blocking : TaskId → TaskManager → TaskManager
unfolding finalize
send_blocking id s =
    if s.alive
    then record s { in_flight = id ∷ s.in_flight }
    else finalize id (failed "supervisor gone") s

pub spawn_blocking : TaskKind → String → ℤ → TaskManager → TaskId × TaskManager
unfolding record_started send_blocking
spawn_blocking kind name now s =
    let id = s.next_id in (id, send_blocking id (record_started id kind name now (take_id s)))

-- A record that runs is marked, and the event sent.
pub mark_cancelled : TaskId → Option TaskRecord → TaskManager → TaskManager
unfolding modify
mark_cancelled id none s = s
mark_cancelled id (some r) s =
    if is_running r.state
    then record s {
      records = modify ℕ_discrete id (λ r. record r { state = cancelled }) s.records;
      events = cancels id ∷ s.events;
    }
    else s

pub cancel_with : Option TaskId → TaskId → TaskManager → Bool × TaskManager
unfolding mark_cancelled get
cancel_with none id s = (false, s)
cancel_with (some token) id s = (
  true,
  mark_cancelled id (get ℕ_discrete id s.records)
      (record s { cancelled_tokens = token ∷ s.cancelled_tokens }),
)

-- The token is read in one section and the record marked in another, here with none between them.
pub cancel : TaskId → TaskManager → Bool × TaskManager
unfolding cancel_with get
cancel id s = cancel_with (get ℕ_discrete id s.cancel_tokens) id s

pub cancel_previous : Option TaskId → TaskManager → TaskManager
unfolding cancel
cancel_previous none s = s
cancel_previous (some prev) s = (cancel prev s).1

pub spawn_async_unique : TaskKind → String → String → ℤ → TaskManager → TaskId × TaskManager
unfolding cancel_previous spawn_async get insert
spawn_async_unique kind key name now s =
    let s1 = cancel_previous (get str_discrete key s.unique_keys) s in
    let (id, s2) = spawn_async kind name now s1 in
    (id, record s2 { unique_keys = insert str_discrete key id s2.unique_keys })

-- What `join_next` yields: a task that returned, with its error if it had one, or a join error.
pub data Joined : Type 0 where
  returned : TaskId → Option String → Joined
  aborted : Joined
  panicked : Joined

abbrev pub observed : Option String → TaskState
observed none = completed
observed (some msg) = failed msg

abbrev pub already_cancelled : Option TaskRecord → Bool
already_cancelled none = false
already_cancelled (some r) = is_cancelled r.state

-- `cancel_tokens.write().unwrap().remove(&id)`.
abbrev pub drop_token : TaskId → TaskManager → TaskManager
drop_token id s = record s { cancel_tokens = remove ℕ_discrete id s.cancel_tokens }

-- `unique_keys.write().unwrap().retain(|_, v| *v != id)`.
abbrev pub drop_keys : TaskId → TaskManager → TaskManager
drop_keys id s = record s { unique_keys = retain_entries (λ _ v. not (v == id)) s.unique_keys }

-- A returned task: its token and its keys are dropped, and a record that is not cancelled takes the
-- state observed. Each is a section of its own, here with no other between them.
pub settle : TaskId → TaskState → TaskManager → TaskManager
unfolding finalize remove retain_entries get
settle id state s =
    let s1 = drop_keys id (drop_token id s) in
    if already_cancelled (get ℕ_discrete id s1.records) then s1 else finalize id state s1

pub handle_join : Joined → TaskManager → TaskManager
unfolding settle
handle_join (returned id error) s = settle id (observed error) s
handle_join aborted s = s
handle_join panicked s = s

-- `records.values().cloned().collect()`.
pub list : TaskManager → List TaskRecord
list s = values s.records
