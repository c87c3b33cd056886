-- ===== src/Scheduler/Soundness.antt =====
-- src/scheduler.rs: the invariant of the scheduler under its operations.
use wwe_modify.Base.{
  ℕ, ◌+◌, ◌≤◌, ◌<◌, ◌^◌, String, true, Option, none, some, List, [], ◌≡◌, ◌≢◌, arith, ℕ_discrete,
  inl, inr,
}
use wwe_modify.Base.Tests.{is_some, Option-cases}
use wwe_modify.Base.Lists.{contains, contains-drop_all}
use wwe_modify.Base.Map.{get, Unique, get-insert, get-remove, insert-Unique, remove-Unique}
use wwe_modify.Scheduler.Pending.{owed_on, get-forget_display, forget_display-Unique}
use wwe_modify.Scheduler.{
  DisplayId, DisplayInfo, ActiveBinding, FrameKey, FrameKey-discrete, Scheduler, new, next_id,
  new_display, register_display, unregister_display,
}

abbrev pub display : DisplayId → Scheduler → Option DisplayInfo
display id s = get ℕ_discrete id s.displays

-- The generation of the frames that may be in flight.
abbrev pub IsCurrent : ℕ → Option ActiveBinding → Type 0
IsCurrent g none = ⊥
IsCurrent g (some b) = b.buffer_generation ≡ g

pub record IsSound (s : Scheduler) : Type 0 where
  pub displays_unique : Unique ℕ_discrete s.displays
  pub pending_unique : Unique FrameKey-discrete s.pending
  -- Ids were handed out, and a display is bound exactly while a pool is shown.
  pub keyed :
      (id : DisplayId) (d : DisplayInfo)
      → display id s ≡ some d
      → (d.id ≡ id) × (id ≤ s.next_display_id) × (d.bound ≡ is_some s.active)
  -- A frame in flight belongs to the pool that is shown, is owed, and by registered displays only.
  pub current :
      (k : FrameKey) (owed : List DisplayId)
      → owed_on k s.pending ≡ some owed
      → IsCurrent k.generation s.active
  pub owing : (k : FrameKey) (owed : List DisplayId) → owed_on k s.pending ≡ some owed → owed ≢ []
  pub known :
      (k : FrameKey) (owed : List DisplayId) (id : DisplayId)
      → owed_on k s.pending ≡ some owed
      → contains id owed ≡ true
      → is_some (display id s) ≡ true

pub new-IsSound : IsSound new
unfolding new get
new-IsSound = record {
  displays_unique = tt;
  pending_unique = tt;
  keyed = λ id d e. absurd (ground arith);
  current = λ k owed e. absurd (ground arith);
  owing = λ k owed e. absurd (ground arith);
  known = λ k owed id e m. absurd (ground arith);
}

pub register_display-IsSound :
    (name : String) (w h r : ℕ) (ps : List (String × String)) (s : Scheduler)
    → s.next_display_id + 1 < 2 ^ 64
    → IsSound s
    → IsSound (register_display name w h r ps s).1
unfolding register_display new_display
register_display-IsSound name w h r ps s room v = record {
  displays_unique = insert-Unique ℕ_discrete (next_id s) info s.displays v.displays_unique;
  pending_unique = v.pending_unique;
  keyed =
      λ id d e. ground (arith, get-insert ℕ_discrete id (next_id s) info s.displays, v.keyed id d);
  current = v.current;
  owing = v.owing;
  known = λ k owed id e m.
      ground (arith, get-insert ℕ_discrete id (next_id s) info s.displays, v.known k owed id);
}
  where
    info : DisplayInfo
    info = new_display (next_id s) name w h r ps (is_some s.active)

pub unregister_display-IsSound :
    (id : DisplayId) (s : Scheduler) → IsSound s → IsSound (unregister_display id s).1
unfolding unregister_display
unregister_display-IsSound id s v = record {
  displays_unique = remove-Unique ℕ_discrete id s.displays v.displays_unique;
  pending_unique = forget_display-Unique id s.pending v.pending_unique;
  keyed = λ j d e. ground (arith, get-remove ℕ_discrete j id s.displays, v.keyed j d);
  current = λ k owed e. elim (Option-cases (owed_on k s.pending)) [
    | inl m ↦ absurd (ground (arith, get-forget_display id k s.pending v.pending_unique))
    | inr (o, m) ↦ v.current k o m
  ];
  owing = λ k owed e. elim (Option-cases (owed_on k s.pending)) [
    | inl m ↦ absurd (ground (arith, get-forget_display id k s.pending v.pending_unique))
    | inr (o, m) ↦ ground (arith, get-forget_display id k s.pending v.pending_unique)
  ];
  known = λ k owed j e h. elim (Option-cases (owed_on k s.pending)) [
    | inl m ↦ absurd (ground (arith, get-forget_display id k s.pending v.pending_unique))
    | inr (o, m) ↦ ground (
      arith,
      get-forget_display id k s.pending v.pending_unique,
      contains-drop_all j id o,
      get-remove ℕ_discrete j id s.displays,
      v.known k o j m,
    )
  ];
}
