-- ===== src/Tasks/Cancelling.antt =====
-- src/tasks.rs: the records of tasks that were cancelled.
use wwe_modify.Base.{
  Bool, true, false, Option, none, some, ◌≡◌, refl, subst, sym, ap, ◌∙◌, ◌⊎◌, inl, inr, arith,
  ℕ_discrete,
}
use wwe_modify.Base.Tests.{◌==◌}
use wwe_modify.Base.Map.{get-modify}
use wwe_modify.Tasks.{
  TaskId, TaskRecord, TaskManager, is_running, is_cancelled, already_cancelled, finalize,
}
use wwe_modify.Tasks.Sections.{
  Pc, unborn, taken, recorded, dropped, sent, returned, checked, over, Move, puts_token, records,
  sends, drops, drops_token, fails, returns, drops_keys, finds_cancelled, passes, finalizes,
  is_lost, System, set_pc, Step, takes_id, moves, cancels_token, marks, puts_key, exits, Run, here,
  next, init,
}
use wwe_modify.Tasks.Locality.{is_live, is_unborn, record_of, Kept, as_state, IsLocal, Move-IsLocal}
use wwe_modify.Tasks.Soundness.{
  marked, marked-IsMarking, IsSound, Run-IsSound, init-IsSound, set_pc-other, set_pc_self,
}
use wwe_modify.Tasks.Lifecycle.{apart_over, unmarked}

-- The task is with the supervisor and its end is not decided, or it is over.
abbrev pub awaits : Pc → Bool
awaits sent = true
awaits (returned _) = true
awaits over = true
awaits _ = false

-- The task was sent.
abbrev is_out : Pc → Bool
is_out sent = true
is_out (returned _) = true
is_out (checked _) = true
is_out over = true
is_out _ = false

awaits_out : (p : Pc) → awaits p ≡ true → is_out p ≡ true
awaits_out unborn h = h
awaits_out taken h = h
awaits_out recorded h = h
awaits_out dropped h = h
awaits_out sent h = h
awaits_out (returned _) h = h
awaits_out (checked _) h = refl
awaits_out over h = h

unborn_not_out : (p : Pc) → is_unborn p ≡ true → is_out p ≡ false
unborn_not_out unborn h = refl
unborn_not_out taken h = absurd cc
unborn_not_out recorded h = absurd cc
unborn_not_out dropped h = absurd cc
unborn_not_out sent h = absurd cc
unborn_not_out (returned _) h = absurd cc
unborn_not_out (checked _) h = absurd cc
unborn_not_out over h = absurd cc

refuted : {b : Bool} → b ≡ false → b ≡ true → ⊥
refuted e f = cc

-- The record is `r`, and nothing is on the way that would change it; or it was trimmed.
abbrev Safe : TaskRecord → Option TaskRecord → Pc → Type 0
Safe r o p = ((o ≡ none) × (is_out p ≡ true)) ⊎ ((o ≡ some r) × (awaits p ≡ true))

module _ (r : TaskRecord) (c : is_cancelled r.state ≡ true) where
  stopped : is_running r.state ≡ false
  stopped = ground arith

  Safe-out : (o : Option TaskRecord) (p : Pc) → Safe r o p → is_out p ≡ true
  Safe-out o p (inl h) = h.1
  Safe-out o p (inr h) = awaits_out p h.1

  Safe-dead : (o : Option TaskRecord) (p : Pc) → Safe r o p → is_live o ≡ false
  Safe-dead o p (inl h) = ap is_live h.0
  Safe-dead o p (inr h) = ap is_live h.0 ∙ stopped

  Safe-Kept : (o o' : Option TaskRecord) (p : Pc) → Kept o o' → Safe r o p → Safe r o' p
  Safe-Kept o o' p (inl e) h = inl (e, Safe-out o p h)
  Safe-Kept o o' p (inr e) (inl h) = inl (e ∙ h.0, h.1)
  Safe-Kept o o' p (inr e) (inr h) = inr (e ∙ h.0, h.1)

  early : (o : Option TaskRecord) (p : Pc) {A : Type 0} → is_out p ≡ false → Safe r o p → A
  early o p e h = absurd (refuted e (Safe-out o p h))

  -- The task's own sections.
  Move-Safe :
      (id : TaskId) (m n : TaskManager) (p q : Pc)
      → Move id m p n q
      → Safe r (record_of id m) p
      → Safe r (record_of id n) q
  unfolding finalize
  Move-Safe id m n p q puts_token h = early (record_of id m) p refl h
  Move-Safe id m n p q (records kind name now) h = early (record_of id m) p refl h
  Move-Safe id m n p q (sends e) h = early (record_of id m) p refl h
  Move-Safe id m n p q (drops e) h = early (record_of id m) p refl h
  Move-Safe id m n p q drops_token h = early (record_of id m) p refl h
  Move-Safe id m n p q fails h = early (record_of id m) p refl h
  Move-Safe id m n p q (returns error) (inl h) = inl (h.0, refl)
  Move-Safe id m n p q (returns error) (inr h) = inr (h.0, refl)
  Move-Safe id m n p q (drops_keys state) h = h
  Move-Safe id m n p q (finds_cancelled state e) (inl h) = inl (h.0, refl)
  Move-Safe id m n p q (finds_cancelled state e) (inr h) = inr (h.0, refl)
  Move-Safe id m n p q (passes state e) (inl h) = inl (h.0, refl)
  Move-Safe id m n p q (passes state e) (inr h) = absurd (refuted e (ap already_cancelled h.0 ∙ c))
  Move-Safe id m n p q (finalizes state) (inl h) =
      inl (ground (arith, h.0, get-modify ℕ_discrete id id (as_state state) m.records), refl)
  Move-Safe id m n p q (finalizes state) (inr h) = absurd (refuted refl h.1)
  Move-Safe id m n p q is_lost (inl h) = inl (h.0, refl)
  Move-Safe id m n p q is_lost (inr h) = inr (h.0, refl)

  abbrev SafeIn : TaskId → System → Type 0
  SafeIn j s = Safe r (record_of j s.manager) (s.pc j)

  moves-Safe :
      (s : System) (id j : TaskId) (m : TaskManager) (p : Pc)
      → Move id s.manager (s.pc id) m p
      → IsLocal id s.manager (s.pc id) m p
      → SafeIn j s
      → SafeIn j (record { manager = m; pc = set_pc id p s.pc })
  moves-Safe s id j m p mv l h = elim (ℕ_discrete id j) [
    | yes e ↦
        subst (λ k. SafeIn k (record { manager = m; pc = set_pc id p s.pc })) e
          (subst (Safe r (record_of id m)) (sym (set_pc_self id p s.pc))
            (Move-Safe id s.manager m (s.pc id) p mv (subst (λ k. SafeIn k s) (sym e) h)))
    | no ne ↦
        let apart : (id == j) ≡ false = ground arith in
        subst (Safe r (record_of j m)) (sym (set_pc-other id j p s.pc apart))
          (Safe-Kept (record_of j s.manager) (record_of j m) (s.pc j) (l.others j apart) h)
  ]

  Step-Safe : (j : TaskId) {s t : System} → Step s t → IsSound s → SafeIn j s → SafeIn j t
  Step-Safe j {s} (takes_id low) k h =
      let n = s.manager.next_id in
      let early_n = unborn_not_out (s.pc n) (k.fresh n (omega arith)).1 in
      let apart =
        apart_over is_out n j s.pc early_n (Safe-out (record_of j s.manager) (s.pc j) h) in
      subst (Safe r (record_of j s.manager)) (sym (set_pc-other n j taken s.pc apart)) h
  Step-Safe j {s} (moves id {m} {p} mv) k h =
      moves-Safe s id j m p mv (Move-IsLocal id s.manager m (s.pc id) p mv k.unique) h
  Step-Safe j (cancels_token token) k h = h
  Step-Safe j {s} (marks id) k h =
      let same =
        unmarked j s.manager (marked id s.manager) ((marked-IsMarking id s.manager k.unique).each j)
          (Safe-dead (record_of j s.manager) (s.pc j) h) in
      subst (λ o. Safe r o (s.pc j)) (sym same) h
  Step-Safe j (puts_key key id) k h = h
  Step-Safe j exits k h = h

  Run-Safe : (j : TaskId) {s t : System} → Run s t → IsSound s → SafeIn j s → SafeIn j t
  Run-Safe j here k h = h
  Run-Safe j (next run step) k h = Step-Safe j step (Run-IsSound run k) (Run-Safe j run k h)

-- A record that is marked as cancelled while its task is with the supervisor and handle_join is not
-- past its check for it, or after the task is over, stays as it is, or is trimmed away, whatever
-- sections of whatever threads led there and follow, and whatever the task returns. (Fewer than
-- 2^64 - 1 ids are taken.)
pub cancelled_stays :
    {s t : System} (j : TaskId) (r : TaskRecord)
    → Run init s
    → record_of j s.manager ≡ some r
    → is_cancelled r.state ≡ true
    → awaits (s.pc j) ≡ true
    → Run s t
    → (record_of j t.manager ≡ none) ⊎ (record_of j t.manager ≡ some r)
cancelled_stays j r before e c waits after =
    let h = Run-Safe r c j after (Run-IsSound before init-IsSound) (inr (e, waits)) in
    elim h [ inl k ↦ inl k.0 | inr k ↦ inr k.0 ]
