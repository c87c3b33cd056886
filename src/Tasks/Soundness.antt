-- ===== src/Tasks/Soundness.antt =====
-- src/tasks.rs: what holds in every state that the sections reach.
use wwe_modify.Base.{
  ◌+◌, ◌^◌, ◌≤◌, ◌<◌, Bool, true, false, Option, none, some, ◌≡◌, refl, subst, sym, ap, ◌∙◌, ◌⊎◌,
  inl, inr, arith, ℕ_discrete,
}
use mathlib.Core.Option
use wwe_modify.Base.Tests.{◌==◌, Bool-cases, Option-cases}
use wwe_modify.Base.Map.{get, modify, Unique, get-modify, modify-Unique}
use wwe_modify.Tasks.{TaskId, TaskRecord, TaskManager, is_running, take_id, mark_cancelled}
use wwe_modify.Tasks.Sections.{
  Pc, unborn, taken, recorded, dropped, sent, returned, checked, over, System, set_pc, Step,
  takes_id, moves, cancels_token, marks, puts_key, exits, Run, here, next, init,
}
use wwe_modify.Tasks.Locality.{
  is_open, is_live, is_over, is_unborn, record_of, Kept, as_cancelled, IsLocal, Move-IsLocal,
}

-- `cancel`, in its second section.
abbrev pub marked : TaskId → TaskManager → TaskManager
marked id m = mark_cancelled id (get ℕ_discrete id m.records) m

-- Marking changes a record that runs, and no other.
abbrev pub MarkFacts : TaskId → TaskManager → TaskManager → Type 0
MarkFacts j m n =
    (record_of j n ≡ record_of j m)
    ⊎ ((is_live (record_of j m) ≡ true) × (record_of j n ≡ Option.map as_cancelled (record_of j m)))

marks_one :
    (id j : TaskId) (m : TaskManager) (r : TaskRecord)
    → record_of id m ≡ some r
    → is_running r.state ≡ true
    → let n = record m { records = modify ℕ_discrete id as_cancelled m.records } in MarkFacts j m n
marks_one id j m r e live = elim (ℕ_discrete id j) [
  | yes p ↦ inr (
    subst (λ k. is_live (record_of k m) ≡ true) p (rw e live),
    ground (arith, p, get-modify ℕ_discrete j id as_cancelled m.records),
  )
  | no q ↦ inl (ground (arith, get-modify ℕ_discrete j id as_cancelled m.records))
]

pub record IsMarking (m n : TaskManager) : Type 0 where
  pub unique : Unique ℕ_discrete n.records
  pub each : (j : TaskId) → MarkFacts j m n
  pub counter : n.next_id ≡ m.next_id

pub marked-IsMarking :
    (id : TaskId) (m : TaskManager) → Unique ℕ_discrete m.records → IsMarking m (marked id m)
unfolding mark_cancelled
marked-IsMarking id m u = elim (Option-cases (get ℕ_discrete id m.records)) [
  | inl e ↦ rw e (record { unique = u; each = λ j. inl refl; counter = refl })
  | inr (r, e) ↦ elim (Bool-cases (is_running r.state)) [
    | inl live ↦ rw e (
        rw live (record {
          unique = modify-Unique ℕ_discrete id as_cancelled m.records u;
          each = λ j. marks_one id j m r e live;
          counter = refl;
        }))
    | inr ended ↦ rw e (rw ended (record { unique = u; each = λ j. inl refl; counter = refl }))
  ]
]

-- What holds in every state that is reached.
pub record IsSound (s : System) : Type 0 where
  pub unique : Unique ℕ_discrete s.manager.records
  pub fresh :
      (id : TaskId)
      → s.manager.next_id ≤ id
      → (record_of id s.manager ≡ none) × (is_unborn (s.pc id) ≡ true)
  pub open_till_over :
      (id : TaskId) → is_over (s.pc id) ≡ false → is_open (record_of id s.manager) ≡ true

still_open : (o p : Option TaskRecord) → Kept o p → is_open o ≡ true → is_open p ≡ true
still_open o p (inl e) h = ap is_open e
still_open o p (inr e) h = ap is_open e ∙ h

cancelled_open : (o : Option TaskRecord) → is_open (Option.map as_cancelled o) ≡ true
cancelled_open none = refl
cancelled_open (some r) = refl

cancelled_none :
    (o : Option TaskRecord) → is_live o ≡ true → o ≡ none → Option.map as_cancelled o ≡ none
cancelled_none none h e = refl
cancelled_none (some r) h e = absurd cc

-- The counters of other tasks.
pub set_pc-other :
    (id j : TaskId) (p : Pc) (pc : TaskId → Pc) → (id == j) ≡ false → set_pc id p pc j ≡ pc j
set_pc-other id j p pc h = ground arith

pub set_pc_self : (id : TaskId) (p : Pc) (pc : TaskId → Pc) → set_pc id p pc id ≡ p
set_pc_self id p pc = ground arith

by_id :
    (P : TaskId → Type 0) (id : TaskId)
    → P id
    → ((j : TaskId) → (id == j) ≡ false → P j)
    → (j : TaskId) → P j
by_id P id h k j = elim (ℕ_discrete id j) [ yes p ↦ subst P p h | no q ↦ k j (ground arith) ]

pub unborn_not_over : (p : Pc) → is_unborn p ≡ true → is_over p ≡ false
unborn_not_over unborn h = refl
unborn_not_over taken h = absurd cc
unborn_not_over recorded h = absurd cc
unborn_not_over dropped h = absurd cc
unborn_not_over sent h = absurd cc
unborn_not_over (returned _) h = absurd cc
unborn_not_over (checked _) h = absurd cc
unborn_not_over over h = absurd cc

moves-IsSound :
    (s : System) (id : TaskId) (m : TaskManager) (p : Pc)
    → IsSound s
    → IsLocal id s.manager (s.pc id) m p
    → IsSound (record { manager = m; pc = set_pc id p s.pc })
moves-IsSound s id m p h l = record {
  unique = l.unique;
  fresh = λ j up.
      let apart : (id == j) ≡ false = born j up in
      let (gone, early) = h.fresh j (omega (arith, up, l.counter)) in
      (
        elim (l.others j apart) [ inl e ↦ e | inr e ↦ e ∙ gone ],
        ap is_unborn (set_pc-other id j p s.pc apart) ∙ early,
      );
  open_till_over =
      by_id (λ j. is_over (set_pc id p s.pc j) ≡ false → is_open (record_of j m) ≡ true) id
        (λ e. elim (l.opens (h.open_till_over id l.alive.0)) [
          | inl o ↦ absurd (clash (sym (ap is_over (set_pc_self id p s.pc)) ∙ e) o)
          | inr o ↦ o
        ])
        (λ j apart e.
          still_open (record_of j s.manager) (record_of j m) (l.others j apart)
            (h.open_till_over j (sym (ap is_over (set_pc-other id j p s.pc apart)) ∙ e)));
}
  where
    clash : {b : Bool} → b ≡ false → b ≡ true → ⊥
    clash e f = cc

    born : (j : TaskId) → m.next_id ≤ j → (id == j) ≡ false
    born j up = elim (ℕ_discrete id j) [
      | yes q ↦ absurd (
          clash l.alive.1 (
            subst (λ k. is_unborn (s.pc k) ≡ true) (sym q)
              (h.fresh j (omega (arith, up, l.counter))).1))
      | no q ↦ ground arith
    ]

marks-IsSound :
    (s : System) (n : TaskManager)
    → IsSound s
    → IsMarking s.manager n
    → IsSound (record s { manager = n })
marks-IsSound s n h k = record {
  unique = k.unique;
  fresh = λ j up.
      let (gone, early) = h.fresh j (omega (arith, up, k.counter)) in
      (
        elim (k.each j) [
          | inl e ↦ e ∙ gone
          | inr (live, e) ↦ e ∙ cancelled_none (record_of j s.manager) live gone
        ],
        early,
      );
  open_till_over = λ j e. elim (k.each j) [
    | inl same ↦ ap is_open same ∙ h.open_till_over j e
    | inr (live, same) ↦ ap is_open same ∙ cancelled_open (record_of j s.manager)
  ];
}

takes_id-IsSound :
    (s : System)
    → IsSound s
    → s.manager.next_id + 1 < 2 ^ 64
    → IsSound (record { manager = take_id s.manager; pc = set_pc s.manager.next_id taken s.pc })
takes_id-IsSound s h low = record {
  unique = h.unique;
  fresh = λ j up.
      let n = s.manager.next_id in
      let (gone, early) = h.fresh j (omega (arith, up, low)) in
      (gone, ap is_unborn (set_pc-other n j taken s.pc (ground (arith, up, low))) ∙ early);
  open_till_over =
      by_id
        (λ j.
          is_over (set_pc s.manager.next_id taken s.pc j) ≡ false
          → is_open (record_of j s.manager) ≡ true)
        s.manager.next_id (λ e. ap is_open (h.fresh s.manager.next_id (omega arith)).0)
        (λ j apart e.
          h.open_till_over j
            (sym (ap is_over (set_pc-other s.manager.next_id j taken s.pc apart)) ∙ e));
}

Step-IsSound : {s t : System} → Step s t → IsSound s → IsSound t
Step-IsSound {s} (takes_id low) h = takes_id-IsSound s h low
Step-IsSound {s} (moves id {m} {p} mv) h =
    moves-IsSound s id m p h (Move-IsLocal id s.manager m (s.pc id) p mv h.unique)
Step-IsSound (cancels_token token) h = record {
  unique = h.unique;
  fresh = h.fresh;
  open_till_over = h.open_till_over;
}
Step-IsSound {s} (marks id) h =
    marks-IsSound s (marked id s.manager) h (marked-IsMarking id s.manager h.unique)
Step-IsSound (puts_key key id) h = record {
  unique = h.unique;
  fresh = h.fresh;
  open_till_over = h.open_till_over;
}
Step-IsSound exits h = record {
  unique = h.unique;
  fresh = h.fresh;
  open_till_over = h.open_till_over;
}

pub Run-IsSound : {s t : System} → Run s t → IsSound s → IsSound t
Run-IsSound here h = h
Run-IsSound (next run step) h = Step-IsSound step (Run-IsSound run h)

pub init-IsSound : IsSound init
unfolding get
init-IsSound = record { unique = tt; fresh = λ id up. (refl, refl); open_till_over = λ id e. refl }
