-- ===== src/Tasks/Locality.antt =====
-- src/tasks.rs: what a section of a task's thread leaves of the records, its own and the others'.
use wwe_modify.Base.{
  ℕ, String, Bool, true, false, ◌||◌, Option, none, some, ◌≡◌, refl, subst, sym, ap, ◌∙◌, ◌⊎◌, inl,
  inr, arith, ℕ_discrete,
}
use wwe_modify.Base.Tests.{◌==◌}
use wwe_modify.Base.Map.{
  Map, get, insert, Unique, get-insert, get-modify, insert-Unique, modify-Unique,
}
use wwe_modify.Base.Words.{ℤ}
use wwe_modify.Tasks.Trimming.{trim_finished_lem, Trimmed, trim_finished-Unique}
use wwe_modify.Tasks.{
  TaskId, TaskKind, TaskState, running, cancelled, TaskRecord, TaskManager, is_running,
  is_cancelled, trim_finished, record_started, finalize,
}
use wwe_modify.Tasks.Sections.{
  Pc, unborn, taken, recorded, over, Move, puts_token, records, sends, drops, drops_token, fails,
  returns, drops_keys, finds_cancelled, passes, finalizes, is_lost,
}

-- A record that may still end: it runs, or is cancelled and not joined; or it was trimmed.
abbrev pub is_open : Option TaskRecord → Bool
is_open none = true
is_open (some r) = is_running r.state || is_cancelled r.state

abbrev pub is_live : Option TaskRecord → Bool
is_live none = false
is_live (some r) = is_running r.state

abbrev pub is_over : Pc → Bool
is_over over = true
is_over _ = false

abbrev pub is_unborn : Pc → Bool
is_unborn unborn = true
is_unborn _ = false

abbrev pub record_of : TaskId → TaskManager → Option TaskRecord
record_of j m = get ℕ_discrete j m.records

-- Trimmed, or as it was.
abbrev pub Kept : Option TaskRecord → Option TaskRecord → Type 0
Kept o p = (p ≡ none) ⊎ (p ≡ o)

-- What a submission makes of the records.
module _ (id : ℕ) (r : TaskRecord) (recs : Map ℕ TaskRecord) (u : Unique ℕ_discrete recs) where
  abbrev started : Map ℕ TaskRecord
  started = trim_finished (insert ℕ_discrete id r recs)

  started-Trimmed : Trimmed (insert ℕ_discrete id r recs) started
  started-Trimmed =
      trim_finished_lem (insert ℕ_discrete id r recs) (insert-Unique ℕ_discrete id r recs u)

  started_self : is_running r.state ≡ true → get ℕ_discrete id started ≡ some r
  started_self h =
      started-Trimmed.running id r (ground (arith, get-insert ℕ_discrete id id r recs)) h

  started-other :
      (j : ℕ)
      → (j == id) ≡ false
      → (get ℕ_discrete j started ≡ none) ⊎ (get ℕ_discrete j started ≡ get ℕ_discrete j recs)
  started-other j h = ground (arith, started-Trimmed.unchanged j, get-insert ℕ_discrete j id r recs)

  started-Unique : Unique ℕ_discrete started
  started-Unique =
      trim_finished-Unique (insert ℕ_discrete id r recs) (insert-Unique ℕ_discrete id r recs u)

abbrev pub as_cancelled : TaskRecord → TaskRecord
as_cancelled x = record x { state = cancelled }

abbrev pub as_state : TaskState → TaskRecord → TaskRecord
as_state state x = record x { state = state }

-- What a section of a task leaves of the records, its own and the others'.
pub record IsLocal (id : TaskId) (m : TaskManager) (p : Pc) (n : TaskManager) (q : Pc)
    : Type 0 where
  pub alive : (is_over p ≡ false) × (is_unborn p ≡ false) × (is_unborn q ≡ false)
  pub unique : Unique ℕ_discrete n.records
  pub others : (j : TaskId) → (id == j) ≡ false → Kept (record_of j m) (record_of j n)
  pub opens :
      is_open (record_of id m) ≡ true → (is_over q ≡ true) ⊎ (is_open (record_of id n) ≡ true)
  pub counter : n.next_id ≡ m.next_id

same_records :
    (id : TaskId) (m n : TaskManager) (p q : Pc)
    → Unique ℕ_discrete m.records
    → (is_over p ≡ false) × (is_unborn p ≡ false) × (is_unborn q ≡ false)
    → n.records ≡ m.records
    → n.next_id ≡ m.next_id
    → IsLocal id m p n q
same_records id m n p q u l e c = record {
  alive = l;
  unique = subst (Unique ℕ_discrete) (sym e) u;
  others = λ j ne. inr (ap (get ℕ_discrete j) e);
  opens = λ h. inr (ap (λ r. is_open (get ℕ_discrete id r)) e ∙ h);
  counter = c;
}

finalize-IsLocal :
    (id : TaskId) (state : TaskState) (m : TaskManager) (p : Pc)
    → Unique ℕ_discrete m.records
    → (is_over p ≡ false) × (is_unborn p ≡ false)
    → IsLocal id m p (finalize id state m) over
unfolding finalize
finalize-IsLocal id state m p u l = record {
  alive = (l.0, l.1, refl);
  unique = modify-Unique ℕ_discrete id (as_state state) m.records u;
  others = λ j ne. ground (arith, get-modify ℕ_discrete j id (as_state state) m.records);
  opens = λ h. inl refl;
  counter = refl;
}

record_started-IsLocal :
    (id : TaskId) (kind : TaskKind) (name : String) (now : ℤ) (m : TaskManager)
    → Unique ℕ_discrete m.records
    → IsLocal id m taken (record_started id kind name now m) recorded
unfolding record_started
record_started-IsLocal id kind name now m u =
    let r : TaskRecord = record {
      id = id;
      kind = kind;
      name = name;
      started_at_ms = now;
      state = running;
    } in
    record {
      alive = (refl, refl, refl);
      unique = started-Unique id r m.records u;
      others = λ j ne. started-other id r m.records u j (ground arith);
      opens = λ h. inr (ap is_open (started_self id r m.records u refl));
      counter = refl;
    }

pub Move-IsLocal :
    (id : TaskId) (m n : TaskManager) (p q : Pc)
    → Move id m p n q
    → Unique ℕ_discrete m.records
    → IsLocal id m p n q
Move-IsLocal id m n p q puts_token u = same_records id m n p q u (refl, refl, refl) refl refl
Move-IsLocal id m n p q (records kind name now) u = record_started-IsLocal id kind name now m u
Move-IsLocal id m n p q (sends e) u = same_records id m n p q u (refl, refl, refl) refl refl
Move-IsLocal id m n p q (drops e) u = same_records id m n p q u (refl, refl, refl) refl refl
Move-IsLocal id m n p q drops_token u = same_records id m n p q u (refl, refl, refl) refl refl
Move-IsLocal id m n p q fails u = finalize-IsLocal id _ m p u (refl, refl)
Move-IsLocal id m n p q (returns e) u = same_records id m n p q u (refl, refl, refl) refl refl
Move-IsLocal id m n p q (drops_keys e) u = same_records id m n p q u (refl, refl, refl) refl refl
Move-IsLocal id m n p q (finds_cancelled e c) u =
    same_records id m n p q u (refl, refl, refl) refl refl
Move-IsLocal id m n p q (passes e c) u = same_records id m n p q u (refl, refl, refl) refl refl
Move-IsLocal id m n p q (finalizes state) u = finalize-IsLocal id state m p u (refl, refl)
Move-IsLocal id m n p q is_lost u = same_records id m n p q u (refl, refl, refl) refl refl
