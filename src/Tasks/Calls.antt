-- ===== src/Tasks/Calls.antt =====
-- src/tasks.rs: a call of cancel, and handle_join on a task that returned, as runs of their sections
-- with no other between them.
use wwe_modify.Base.{Option, String, ◌≡◌, refl, sym, subst, inl, inr, ℕ_discrete}
use wwe_modify.Base.Tests.{Bool-cases, Option-cases}
use wwe_modify.Base.Map.{get}
use wwe_modify.Tasks.{
  TaskId, TaskManager, cancel, cancel_with, handle_join, Joined, settle, observed,
  already_cancelled, drop_token, drop_keys,
}
use wwe_modify.Tasks.Sections.{
  Pc, sent, returned, checked, over, Move, returns, drops_keys, finds_cancelled, passes, finalizes,
  System, set_pc, Step, moves, cancels_token, marks, Run, here, next,
}
use wwe_modify.Tasks.Soundness.{set_pc_self}

-- A call of cancel is a run.
cancel-Run : (id : TaskId) (s : System) → Run s (record s { manager = (cancel id s.manager).1 })
unfolding cancel cancel_with
cancel-Run id s = elim (Option-cases (get ℕ_discrete id s.manager.cancel_tokens)) [
  | inl e ↦ rw e here
  | inr (token, e) ↦ rw e (next (next here (cancels_token token)) (marks id))
]

takes_section :
    (s : System) (id : TaskId) {m : TaskManager} {p q : Pc}
    → s.pc id ≡ p
    → Move id s.manager p m q
    → Step s (record { manager = m; pc = set_pc id q s.pc })
takes_section s id {m} {p} {q} e mv = moves id (subst (λ x. Move id s.manager x m q) (sym e) mv)

-- The task is over, and the manager is `m`.
abbrev Ends : TaskId → System → TaskManager → Type 0
Ends id s m = (u : System) × Run s u × (u.manager ≡ m) × (u.pc id ≡ over)

-- handle_join on a task that was sent and returned is a run, to the end of the task.
handle_join-Run :
    (id : TaskId) (error : Option String) (s : System)
    → s.pc id ≡ sent
    → Ends id s (handle_join (Joined.returned id error) s.manager)
unfolding handle_join settle
handle_join-Run id error s e =
    let st = observed error in
    let m1 = drop_token id s.manager in
    let m2 = drop_keys id m1 in
    let s1 : System = record { manager = m1; pc = set_pc id (returned st) s.pc } in
    let s2 : System = record { manager = m2; pc = set_pc id (returned st) s1.pc } in
    let at1 = set_pc_self id (returned st) s.pc in
    let at2 = set_pc_self id (returned st) s1.pc in
    let run =
      next (next here (takes_section s id e (returns error)))
        (takes_section s1 id at1 (drops_keys st)) in
    elim (Bool-cases (already_cancelled (get ℕ_discrete id s.manager.records))) [
      | inl c ↦ rw c (
        _,
        next run (takes_section s2 id at2 (finds_cancelled st c)),
        refl,
        set_pc_self id over s2.pc,
      )
      | inr c ↦ rw c (
        _,
        next (next run (takes_section s2 id at2 (passes st c)))
            (takes_section _ id (set_pc_self id (checked st) s2.pc) (finalizes st)),
        refl,
        set_pc_self id over (set_pc id (checked st) s2.pc),
      )
    ]
