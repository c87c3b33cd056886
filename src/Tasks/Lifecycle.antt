-- ===== src/Tasks/Lifecycle.antt =====
-- src/tasks.rs: the records of tasks that have completed or failed.
use wwe_modify.Base.{
  Bool, true, false, Option, none, some, ◌≡◌, refl, subst, ap, ◌∙◌, ◌⊎◌, inl, inr, arith,
  ℕ_discrete,
}
use wwe_modify.Base.Tests.{◌==◌, Bool-cases}
use wwe_modify.Tasks.{TaskId, TaskRecord, TaskManager, is_running, is_cancelled}
use wwe_modify.Tasks.Sections.{
  Pc, taken, System, set_pc, Step, takes_id, moves, cancels_token, marks, puts_key, exits, Run,
  here, next, init,
}
use wwe_modify.Tasks.Locality.{is_open, is_live, is_over, record_of, Kept, IsLocal, Move-IsLocal}
use wwe_modify.Tasks.Soundness.{
  marked, MarkFacts, marked-IsMarking, IsSound, set_pc-other, unborn_not_over, Run-IsSound,
  init-IsSound,
}

-- A task that is over takes no further section.
pub apart_over :
    (P : Pc → Bool) (id j : TaskId) (pc : TaskId → Pc)
    → P (pc id) ≡ false
    → P (pc j) ≡ true
    → (id == j) ≡ false
apart_over P id j pc h k = elim (ℕ_discrete id j) [
  | yes q ↦ absurd (both (subst (λ i. P (pc i) ≡ false) q h) k)
  | no q ↦ ground arith
]
  where
    both : {b : Bool} → b ≡ false → b ≡ true → ⊥
    both e f = cc

abbrev Quiet : TaskId → System → Type 0
Quiet j s = (is_over (s.pc j) ≡ true) × (is_live (record_of j s.manager) ≡ false)

still_dead : (o p : Option TaskRecord) → Kept o p → is_live o ≡ false → is_live p ≡ false
still_dead o p (inl e) h = ap is_live e
still_dead o p (inr e) h = ap is_live e ∙ h

Kept-trans : {o p q : Option TaskRecord} → Kept o p → Kept p q → Kept o q
Kept-trans (inl e) (inl f) = inl f
Kept-trans (inl e) (inr f) = inl (f ∙ e)
Kept-trans (inr e) (inl f) = inl f
Kept-trans (inr e) (inr f) = inr (f ∙ e)

abbrev Settled : TaskId → System → System → Type 0
Settled j s t = Quiet j t × Kept (record_of j s.manager) (record_of j t.manager)

moves-Settled :
    (s : System) (id j : TaskId) (m : TaskManager) (p : Pc)
    → IsLocal id s.manager (s.pc id) m p
    → Quiet j s
    → Settled j s (record { manager = m; pc = set_pc id p s.pc })
moves-Settled s id j m p l q =
    let apart = apart_over is_over id j s.pc l.alive.0 q.0 in
    let kept = l.others j apart in
    (
      (
        ap is_over (set_pc-other id j p s.pc apart) ∙ q.0,
        still_dead (record_of j s.manager) (record_of j m) kept q.1,
      ),
      kept,
    )

pub unmarked :
    (j : TaskId) (m n : TaskManager)
    → MarkFacts j m n
    → is_live (record_of j m) ≡ false
    → record_of j n ≡ record_of j m
unmarked j m n (inl e) h = e
unmarked j m n (inr (live, e)) h = absurd cc

Step-Settled : (j : TaskId) {s t : System} → Step s t → IsSound s → Quiet j s → Settled j s t
Step-Settled j {s} (takes_id low) h q =
    let n = s.manager.next_id in
    let unborn_n = unborn_not_over (s.pc n) (h.fresh n (omega arith)).1 in
    let apart = apart_over is_over n j s.pc unborn_n q.0 in
    ((ap is_over (set_pc-other n j taken s.pc apart) ∙ q.0, q.1), inr refl)
Step-Settled j {s} (moves id {m} {p} mv) h q =
    moves-Settled s id j m p (Move-IsLocal id s.manager m (s.pc id) p mv h.unique) q
Step-Settled j (cancels_token token) h q = (q, inr refl)
Step-Settled j {s} (marks id) h q =
    let same =
      unmarked j s.manager (marked id s.manager) ((marked-IsMarking id s.manager h.unique).each j)
        q.1 in
    ((q.0, ap is_live same ∙ q.1), inr same)
Step-Settled j (puts_key key id) h q = (q, inr refl)
Step-Settled j exits h q = (q, inr refl)

Run-Settled : (j : TaskId) {s t : System} → Run s t → IsSound s → Quiet j s → Settled j s t
Run-Settled j here h q = (q, inr refl)
Run-Settled j (next run step) h q =
    let (quiet, kept) = Run-Settled j run h q in
    let (quiet1, kept1) = Step-Settled j step (Run-IsSound run h) quiet in
    (quiet1, Kept-trans kept kept1)

-- Once a task's record says completed or failed, whatever sections of the manager's methods, of any
-- threads and in any order, led there and follow, the record stays as it is, or is trimmed away.
-- (Fewer than 2^64 - 1 ids are taken.)
pub ended_stays :
    {s t : System} (j : TaskId) (r : TaskRecord)
    → Run init s
    → record_of j s.manager ≡ some r
    → is_running r.state ≡ false
    → is_cancelled r.state ≡ false
    → Run s t
    → (record_of j t.manager ≡ none) ⊎ (record_of j t.manager ≡ some r)
ended_stays {s} j r before e stopped kept after =
    let h = Run-IsSound before init-IsSound in
    let (_, stays) = Run-Settled j after h (finished_over h, ap is_live e ∙ stopped) in
    elim stays [ inl f ↦ inl f | inr f ↦ inr (f ∙ e) ]
  where
    closed : is_open (record_of j s.manager) ≡ false
    closed = ap is_open e ∙ ground (arith, stopped, kept)

    finished_over : IsSound s → is_over (s.pc j) ≡ true
    finished_over h = elim (Bool-cases (is_over (s.pc j))) [
      | inl k ↦ k
      | inr k ↦ absurd (both closed (h.open_till_over j k))
    ]
      where
        both : {b : Bool} → b ≡ false → b ≡ true → ⊥
        both p q = cc
