-- ===== src/Scheduler/Fanout.antt =====
-- src/scheduler.rs, begin_frame: who gets a frame.
use wwe_modify.Base.{
  ℕ, true, false, some, List, [], ◌∷◌, ◌≡◌, refl, sym, ◌∙◌, subst, arith, inl, inr,
}
use wwe_modify.Base.Tests.{is_some, Option-cases}
use wwe_modify.Base.Lists.{contains, is_empty}
use wwe_modify.Base.Map.{get-insert}
use wwe_modify.Base.Sorted.{AscendsFrom, sort-AscendsFrom, contains-sort, sort}
use wwe_modify.Scheduler.Pending.{owed_on, contains-bound_ids}
use wwe_modify.Scheduler.Soundness.{IsSound, display}
use wwe_modify.Scheduler.{
  DisplayId, ActiveBinding, FrameKey, FrameKey-discrete, Scheduler, bound_ids, begin_bound, frame,
  begin_frame,
}

-- While a pool is shown every registered display is bound.
all_bound :
    (s : Scheduler) (b : ActiveBinding)
    → IsSound s
    → s.active ≡ some b
    → (id : DisplayId) → contains id (bound_ids s.displays) ≡ is_some (display id s)
all_bound s b v e id = elim (Option-cases (display id s)) [
  | inl m ↦ ground (arith, contains-bound_ids id s.displays v.displays_unique)
  | inr (d, m) ↦ ground (arith, contains-bound_ids id s.displays v.displays_unique, v.keyed id d)
]

-- What a frame of the shown pool gives once some display is registered.
begin_bound-some :
    (s : Scheduler) (b : ActiveBinding) (k : FrameKey)
    → b.buffer_generation ≡ k.generation
    → is_empty (bound_ids s.displays) ≡ false
    → ((begin_bound (some b) k s).0 ≡ sort (bound_ids s.displays))
      × (owed_on k (begin_bound (some b) k s).1.pending ≡ some (bound_ids s.displays))
unfolding begin_bound
begin_bound-some s b k same n =
    ground (arith, get-insert FrameKey-discrete k k (bound_ids s.displays) s.pending)

pub not_empty : (j : ℕ) (xs : List ℕ) → contains j xs ≡ true → is_empty xs ≡ false
unfolding contains
not_empty j [] h = cc
not_empty j (x ∷ xs) h = refl

-- In a sound scheduler that shows a pool and has a display, a frame of that pool goes to exactly the
-- registered displays, in ascending order, and exactly those owe its release.
pub begin_frame_fan_out :
    (s : Scheduler) (b : ActiveBinding) (g i q : ℕ) (d : DisplayId)
    → IsSound s
    → s.active ≡ some b
    → b.buffer_generation ≡ g
    → is_some (display d s) ≡ true
    → let (out, u) = begin_frame g i q s in
      AscendsFrom 0 out
      × ((id : DisplayId) → contains id out ≡ is_some (display id s))
      × ((owed : List DisplayId) × (owed_on (frame g i q) u.pending ≡ some owed)
          × ((id : DisplayId) → contains id owed ≡ is_some (display id s)))
unfolding begin_frame
begin_frame_fan_out s b g i q d v e same some_display = (
  rw parts.0 (sort-AscendsFrom (bound_ids s.displays)),
  λ id. rw parts.0 (contains-sort id (bound_ids s.displays) ∙ all_bound s b v e id),
  (bound_ids s.displays, parts.1, all_bound s b v e),
)
  where
    parts :
        ((begin_bound s.active (frame g i q) s).0 ≡ sort (bound_ids s.displays))
        × (owed_on (frame g i q) (begin_bound s.active (frame g i q) s).1.pending
            ≡ some (bound_ids s.displays))
    parts =
        subst
          (λ a.
            ((begin_bound a (frame g i q) s).0 ≡ sort (bound_ids s.displays))
            × (owed_on (frame g i q) (begin_bound a (frame g i q) s).1.pending
                ≡ some (bound_ids s.displays)))
          (sym e)
          (begin_bound-some s b (frame g i q) same
            (not_empty d (bound_ids s.displays) (all_bound s b v e d ∙ some_display)))
