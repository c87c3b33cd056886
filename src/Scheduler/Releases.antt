-- ===== src/Scheduler/Releases.antt =====
-- The releases of one frame, up to the last.
use wwe_modify.Base.{
  ℕ, true, false, Option, none, some, List, [], ◌∷◌, ◌≡◌, refl, ◌∙◌, sym, ap, subst, arith, inl,
  inr,
}
use wwe_modify.Base.Tests.{◌==◌, is_some, Option-cases, Bool-cases}
use wwe_modify.Base.Lists.{contains, drop_all, is_empty, contains-drop_all, nil_of_contains}
use wwe_modify.Base.Map.{insert, remove, get-insert, get-remove}
use wwe_modify.Scheduler.Pending.{
  owed_on, cleared, clear, lists_key, get-forget_display, freed-forget_display,
}
use wwe_modify.Base.Sorted.{AscendsFrom}
use wwe_modify.Scheduler.Soundness.{IsSound, display}
use wwe_modify.Scheduler.Fanout.{begin_frame_fan_out, not_empty}
use wwe_modify.Scheduler.{
  DisplayId, ActiveBinding, FrameKey, FrameKey-discrete, Scheduler, ReleaseOutcome, still_in_flight,
  all_released, unknown, begin_bound, frame, begin_frame, release_owed, release_checked,
  release_frame, unregister_display,
}

-- The displays release one after the other.
unfoldable pub releases : List DisplayId → ℕ → ℕ → ℕ → Scheduler → List ReleaseOutcome × Scheduler
releases [] g i q s = ([], s)
releases (d ∷ ds) g i q s =
    let (o, s') = release_frame d g i q s in let (os, s'') = releases ds g i q s' in (o ∷ os, s'')

-- All but the last find the frame still in flight.
abbrev pub last_releases : List DisplayId → List ReleaseOutcome
last_releases [] = []
last_releases (d ∷ []) = all_released ∷ []
last_releases (d ∷ e ∷ ds) = still_in_flight ∷ last_releases (e ∷ ds)

abbrev pub Distinct : List DisplayId → Type 0
Distinct [] = Unit {0}
Distinct (d ∷ ds) = (contains d ds ≡ false) × Distinct ds

-- On a frame of the shown pool the outcome turns on who owes the release.
released :
    (s : Scheduler) (b : ActiveBinding) (id : DisplayId) (k : FrameKey)
    (o : Option (List DisplayId))
    → s.active ≡ some b
    → b.buffer_generation ≡ k.generation
    → owed_on k s.pending ≡ o
    → release_frame id k.generation k.index k.seq s ≡ release_owed id k o s
unfolding release_frame
released s b id k o e same p =
    subst (λ a. release_checked a id k s ≡ release_owed id k o s) (sym e) checked
  where
    checked : release_checked (some b) id k s ≡ release_owed id k o s
    checked = unfold release_checked in (ground (arith, ap (λ x. release_owed id k x s) p))

-- The state after the last release, and after one before it.
abbrev finished : FrameKey → Scheduler → Scheduler
finished k s = record s { pending = remove FrameKey-discrete k s.pending }

abbrev waiting : FrameKey → List DisplayId → Scheduler → Scheduler
waiting k owed s = record s { pending = insert FrameKey-discrete k owed s.pending }

release_last :
    (id : DisplayId) (k : FrameKey) (owed : List DisplayId) (s : Scheduler)
    → contains id owed ≡ true
    → drop_all id owed ≡ []
    → release_owed id k (some owed) s ≡ (all_released, finished k s)
unfolding release_owed
release_last id k owed s owes e = rw (owes, e)

release_more :
    (id : DisplayId) (k : FrameKey) (owed : List DisplayId) (s : Scheduler)
    → contains id owed ≡ true
    → is_empty (drop_all id owed) ≡ false
    → release_owed id k (some owed) s ≡ (still_in_flight, waiting k (drop_all id owed) s)
unfolding release_owed
release_more id k owed s owes e = rw (owes, e)

-- What the displays of a list owe, they release: all but the last find the frame in flight.
abbrev Finishes : List DisplayId → FrameKey → List ReleaseOutcome × Scheduler → Type 0
Finishes ds k r = (r.0 ≡ last_releases ds) × (owed_on k r.1.pending ≡ none)

releases_owed :
    (d : DisplayId) (ds : List DisplayId) (s : Scheduler) (b : ActiveBinding) (k : FrameKey)
    (owed : List DisplayId)
    → s.active ≡ some b
    → b.buffer_generation ≡ k.generation
    → owed_on k s.pending ≡ some owed
    → ((id : DisplayId) → contains id owed ≡ contains id (d ∷ ds))
    → Distinct (d ∷ ds)
    → Finishes (d ∷ ds) k (releases (d ∷ ds) k.generation k.index k.seq s)
unfolding releases
releases_owed d [] s b k owed e same p exact u =
    rw (released s b d k (some owed) e same p, release_last d k owed s owes none_left)
      (refl, rw (get-remove FrameKey-discrete k k s.pending) (ground arith))
  where
    owes : contains d owed ≡ true
    owes = unfold contains in ground (arith, exact d)

    none_left : drop_all d owed ≡ []
    none_left =
        nil_of_contains _
          λ j. unfold contains in ground (arith, contains-drop_all j d owed, exact j)
releases_owed d (d' ∷ ds) s b k owed e same p exact u =
    rw (released s b d k (some owed) e same p, release_more d k owed s owes some_left)
      (let (outcomes, gone) =
          releases_owed d' ds (waiting k (drop_all d owed) s) b k (drop_all d owed) e same
            (rw (get-insert FrameKey-discrete k k (drop_all d owed) s.pending) (ground arith))
            exact' u.1 in
        (ap (◌∷◌ still_in_flight) outcomes, gone))
  where
    owes : contains d owed ≡ true
    owes = unfold contains in ground (arith, exact d)

    exact' : (id : DisplayId) → contains id (drop_all d owed) ≡ contains id (d' ∷ ds)
    exact' id = unfold contains in ground (arith, contains-drop_all id d owed, exact id, u.0)

    some_left : is_empty (drop_all d owed) ≡ false
    some_left = not_empty d' (drop_all d owed) (exact' d' ∙ (unfold contains in ground arith))

active-begin_bound :
    (a : Option ActiveBinding) (k : FrameKey) (s : Scheduler)
    → (begin_bound a k s).1.active ≡ s.active
unfolding begin_bound
active-begin_bound none k s = refl
active-begin_bound (some b) k s = ground arith

-- A sound scheduler sends out a frame of the shown pool. If then every registered display
-- releases it once, in any order, each release but the last is answered `StillInFlight`, the last
-- is answered `AllReleased`, and nothing is owed on the frame any more.
pub release_cycle :
    (s : Scheduler) (b : ActiveBinding) (g i q : ℕ) (d : DisplayId) (ds : List DisplayId)
    → IsSound s
    → s.active ≡ some b
    → b.buffer_generation ≡ g
    → Distinct (d ∷ ds)
    → ((id : DisplayId) → contains id (d ∷ ds) ≡ is_some (display id s))
    → let (outcomes, u) = releases (d ∷ ds) g i q (begin_frame g i q s).1 in
      (outcomes ≡ last_releases (d ∷ ds)) × (owed_on (frame g i q) u.pending ≡ none)
unfolding begin_frame
release_cycle s b g i q d ds v e same u all =
    releases_owed d ds _ b (frame g i q) (out.2).0 (active-begin_bound s.active (frame g i q) s ∙ e)
      same (out.2).1 (λ id. (out.2).2 id ∙ sym (all id)) u
  where
    out :
        (AscendsFrom 0 (begin_frame g i q s).0)
        × ((id : DisplayId) → contains id (begin_frame g i q s).0 ≡ is_some (display id s))
        × ((owed : List DisplayId) × (owed_on (frame g i q) (begin_frame g i q s).1.pending
              ≡ some owed)
            × ((id : DisplayId) → contains id owed ≡ is_some (display id s)))
    out = begin_frame_fan_out s b g i q d v e same (sym (all d) ∙ (unfold contains in ground arith))

-- The display was taken for a holder of the frame.
abbrev pub WasOwed : ReleaseOutcome → Type 0
WasOwed still_in_flight = Unit {0}
WasOwed all_released = Unit {0}
WasOwed _ = ⊥

release_owed_twice :
    (id : DisplayId) (k : FrameKey) (o : Option (List DisplayId)) (s : Scheduler)
    → WasOwed (release_owed id k o s).0
    → let u = (release_owed id k o s).1 in (release_owed id k (owed_on k u.pending) u).0 ≡ unknown
unfolding release_owed
release_owed_twice id k none s w = absurd w
release_owed_twice id k (some owed) s w = elim (Bool-cases (contains id owed)) [
  | inr absent ↦ absurd (rw absent at w)
  | inl owes ↦ elim (Bool-cases (is_empty (drop_all id owed))) [
    | inl last ↦
        rw (owes, last, get-remove FrameKey-discrete k k s.pending, release_owed) (ground arith)
    | inr more ↦
        rw (owes, more, get-insert FrameKey-discrete k k (drop_all id owed) s.pending)
          (ground (arith, contains-drop_all id id owed))
  ]
]

release_checked_twice :
    (a : Option ActiveBinding) (id : DisplayId) (k : FrameKey) (s : Scheduler)
    → WasOwed (release_checked a id k s).0
    → (release_checked a id k (release_checked a id k s).1).0 ≡ unknown
unfolding release_checked
release_checked_twice none id k s w = absurd w
release_checked_twice (some b) id k s w = elim (Bool-cases (b.buffer_generation == k.generation)) [
  | inr other ↦ absurd (rw other at w)
  | inl same ↦ rw same (release_owed_twice id k (owed_on k s.pending) s (rw same at w))
]

active-release_checked :
    (a : Option ActiveBinding) (id : DisplayId) (k : FrameKey) (s : Scheduler)
    → (release_checked a id k s).1.active ≡ s.active
unfolding release_checked release_owed
active-release_checked none id k s = refl
active-release_checked (some b) id k s = ground arith

-- Nobody releases a frame twice: after a release that counted, a second one of the same frame by
-- the same display is answered `Unknown`.
pub release_frame_twice :
    (id : DisplayId) (g i q : ℕ) (s : Scheduler)
    → WasOwed (release_frame id g i q s).0
    → (release_frame id g i q (release_frame id g i q s).1).0 ≡ unknown
unfolding release_frame
release_frame_twice id g i q s w =
    subst
      (λ a.
        (release_checked a id (frame g i q) (release_checked s.active id (frame g i q) s).1).0
        ≡ unknown)
      (sym (active-release_checked s.active id (frame g i q) s))
      (release_checked_twice s.active id (frame g i q) s w)

-- In a sound scheduler, when a display leaves, a frame is reported as free exactly if the display
-- was the last to owe it, and no frame is owed by the display any more.
pub unregister_display_frees :
    (id : DisplayId) (s : Scheduler) (k : FrameKey)
    → IsSound s
    → let (freed, u) = unregister_display id s in
      (lists_key k freed ≡ cleared id (owed_on k s.pending))
      × (owed_on k u.pending ≡ clear id (owed_on k s.pending))
      × ((owed : List DisplayId) → owed_on k u.pending ≡ some owed → contains id owed ≡ false)
unfolding unregister_display
unregister_display_frees id s k v = (
  freed-forget_display id k s.pending v.pending_unique,
  get-forget_display id k s.pending v.pending_unique,
  λ owed e. elim (Option-cases (owed_on k s.pending)) [
    | inl m ↦ absurd (ground (arith, get-forget_display id k s.pending v.pending_unique))
    | inr (o, m) ↦
        ground
          (arith, get-forget_display id k s.pending v.pending_unique, contains-drop_all id id o)
  ],
)
