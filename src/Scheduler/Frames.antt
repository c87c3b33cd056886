-- ===== src/Scheduler/Frames.antt =====
-- A frame from its fan-out to its last release.
use wwe_modify.Base.{
  ℕ, true, Option, none, some, List, [], ◌≡◌, ◌≢◌, refl, sym, subst, arith, ℕ_discrete, inl, inr,
}
use wwe_modify.Base.Tests.{◌==◌, is_some, Option-cases, Bool-cases}
use wwe_modify.Base.Sorted.{sort}
use wwe_modify.Base.Lists.{contains, drop_all, is_empty, contains-drop_all}
use wwe_modify.Base.Map.{
  insert, remove, Unique, get-insert, get-remove, insert-Unique, remove-Unique,
}
use wwe_modify.Scheduler.Pending.{owed_on, contains-bound_ids}
use wwe_modify.Scheduler.{
  DisplayId, ActiveBinding, FrameKey, FrameKey-discrete, Scheduler, bound_ids, begin_bound, frame,
  begin_frame, release_owed, release_checked, release_frame,
}
use wwe_modify.Scheduler.Soundness.{IsSound, IsCurrent, display}

bound_known :
    (id : DisplayId) (s : Scheduler)
    → Unique ℕ_discrete s.displays
    → contains id (bound_ids s.displays) ≡ true
    → is_some (display id s) ≡ true
bound_known id s u m = elim (Option-cases (display id s)) [
  | inl e ↦ absurd (ground (arith, contains-bound_ids id s.displays u))
  | inr (d, e) ↦ rw e
]

-- The state once a frame is in flight.
abbrev started : FrameKey → Scheduler → Scheduler
started k s = record s { pending = insert FrameKey-discrete k (bound_ids s.displays) s.pending }

started-IsSound :
    (k : FrameKey) (s : Scheduler)
    → IsCurrent k.generation s.active
    → bound_ids s.displays ≢ []
    → IsSound s
    → IsSound (started k s)
started-IsSound k s c some_bound v = record {
  displays_unique = v.displays_unique;
  pending_unique = insert-Unique FrameKey-discrete k bound s.pending v.pending_unique;
  keyed = v.keyed;
  current = λ j owed e.
      ground (arith, get-insert FrameKey-discrete j k bound s.pending, v.current j owed);
  owing =
      λ j owed e. ground (arith, get-insert FrameKey-discrete j k bound s.pending, v.owing j owed);
  known = λ j owed id e m. ground (
    arith,
    get-insert FrameKey-discrete j k bound s.pending,
    v.known j owed id,
    bound_known id s v.displays_unique,
  );
}
  where
    bound : List DisplayId
    bound = bound_ids s.displays

-- Either nothing changes, or the frame is in flight for the displays that are bound.
pub data Begins (k : FrameKey) (s : Scheduler) : List DisplayId × Scheduler → Type 0 where
  idle : Begins k s ([], s)
  begins :
      IsCurrent k.generation s.active
      → bound_ids s.displays ≢ []
      → Begins k s (sort (bound_ids s.displays), started k s)

begin_bound-Begins :
    (a : Option ActiveBinding) (k : FrameKey) (s : Scheduler)
    → s.active ≡ a
    → Begins k s (begin_bound a k s)
unfolding begin_bound
begin_bound-Begins none k s e = idle
begin_bound-Begins (some b) k s e = elim (Bool-cases (b.buffer_generation == k.generation)) [
  | inr other ↦ rw other idle
  | inl same ↦ elim (Bool-cases (is_empty (bound_ids s.displays))) [
    | inl nobody ↦ rw (same, nobody) idle
    | inr some_bound ↦ rw (same, some_bound) (begins (current_of e same) (λ n. ground arith))
  ]
]
  where
    current_of :
        s.active ≡ some b
        → (b.buffer_generation == k.generation) ≡ true
        → IsCurrent k.generation s.active
    current_of e same = subst (IsCurrent k.generation) (sym e) (ground arith)

Begins-IsSound :
    (k : FrameKey) (s : Scheduler) (r : List DisplayId × Scheduler)
    → Begins k s r
    → IsSound s
    → IsSound r.1
Begins-IsSound k s r idle v = v
Begins-IsSound k s r (begins c n) v = started-IsSound k s c n v

pub begin_frame-IsSound : (g i q : ℕ) (s : Scheduler) → IsSound s → IsSound (begin_frame g i q s).1
unfolding begin_frame
begin_frame-IsSound g i q s v =
    Begins-IsSound (frame g i q) s _ (begin_bound-Begins s.active (frame g i q) s refl) v

-- A frame in flight is owed by fewer displays, or is gone.
smaller-IsSound :
    (k : FrameKey) (owed owed' : List DisplayId) (s : Scheduler)
    → owed_on k s.pending ≡ some owed
    → owed' ≢ []
    → ((id : DisplayId) → contains id owed' ≡ true → contains id owed ≡ true)
    → IsSound s
    → IsSound (record s { pending = insert FrameKey-discrete k owed' s.pending })
smaller-IsSound k owed owed' s e n sub v = record {
  displays_unique = v.displays_unique;
  pending_unique = insert-Unique FrameKey-discrete k owed' s.pending v.pending_unique;
  keyed = v.keyed;
  current = λ j o h.
      ground (
        arith,
        get-insert FrameKey-discrete j k owed' s.pending,
        v.current j o,
        v.current k owed e,
      );
  owing = λ j o h. ground (arith, get-insert FrameKey-discrete j k owed' s.pending, v.owing j o);
  known = λ j o id h m. ground (
    arith,
    get-insert FrameKey-discrete j k owed' s.pending,
    v.known j o id,
    v.known k owed id e,
    sub id,
  );
}

gone-IsSound :
    (k : FrameKey) (s : Scheduler)
    → IsSound s
    → IsSound (record s { pending = remove FrameKey-discrete k s.pending })
gone-IsSound k s v = record {
  displays_unique = v.displays_unique;
  pending_unique = remove-Unique FrameKey-discrete k s.pending v.pending_unique;
  keyed = v.keyed;
  current = λ j o h. ground (arith, get-remove FrameKey-discrete j k s.pending, v.current j o);
  owing = λ j o h. ground (arith, get-remove FrameKey-discrete j k s.pending, v.owing j o);
  known = λ j o id h m. ground (arith, get-remove FrameKey-discrete j k s.pending, v.known j o id);
}

release_owed-IsSound :
    (id : DisplayId) (k : FrameKey) (o : Option (List DisplayId)) (s : Scheduler)
    → owed_on k s.pending ≡ o
    → IsSound s
    → IsSound (release_owed id k o s).1
unfolding release_owed
release_owed-IsSound id k none s e v = v
release_owed-IsSound id k (some owed) s e v = elim (Bool-cases (contains id owed)) [
  | inr absent ↦ rw absent v
  | inl owes ↦ elim (Bool-cases (is_empty (drop_all id owed))) [
    | inl last ↦ rw (owes, last) (gone-IsSound k s v)
    | inr more ↦
        rw (owes, more)
          (smaller-IsSound k owed (drop_all id owed) s e (λ n. ground arith)
            (λ j h. ground (arith, contains-drop_all j id owed)) v)
  ]
]

release_checked-IsSound :
    (a : Option ActiveBinding) (id : DisplayId) (k : FrameKey) (s : Scheduler)
    → IsSound s
    → IsSound (release_checked a id k s).1
unfolding release_checked
release_checked-IsSound none id k s v = v
release_checked-IsSound (some b) id k s v =
    elim (Bool-cases (b.buffer_generation == k.generation)) [
      | inr other ↦ rw other v
      | inl same ↦ rw same (release_owed-IsSound id k (owed_on k s.pending) s refl v)
    ]

pub release_frame-IsSound :
    (id : DisplayId) (g i q : ℕ) (s : Scheduler) → IsSound s → IsSound (release_frame id g i q s).1
unfolding release_frame
release_frame-IsSound id g i q s v = release_checked-IsSound s.active id (frame g i q) s v
