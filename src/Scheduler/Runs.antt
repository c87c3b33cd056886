-- ===== src/Scheduler/Runs.antt =====
-- Every scheduler that the calls build from the empty one.
use wwe_modify.Base.{
  ℕ, ◌+◌, ◌^◌, ◌≤◌, ◌<◌, String, Option, none, some, List, [], ◌∷◌, ◌≡◌, refl, arith,
}
use wwe_modify.Base.Lists.{length}
use wwe_modify.Base.Words.{F32}
use wwe_modify.Scheduler.Soundness.{
  IsSound, new-IsSound, register_display-IsSound, unregister_display-IsSound,
}
use wwe_modify.Scheduler.Binding.{
  update_display_size-IsSound, set_active_binding-IsSound, clear_active_binding-IsSound,
  project_config-IsSound,
}
use wwe_modify.Scheduler.Frames.{begin_frame-IsSound, release_frame-IsSound}
use wwe_modify.Scheduler.{
  DisplayId, ActiveBinding, Scheduler, new, register_display, unregister_display,
  update_display_size, set_active_binding, clear_active_binding, project_config, begin_bound,
  begin_frame, release_owed, release_checked, release_frame,
}

-- The calls that change a scheduler.
pub data Call : Type 0 where
  registers : String → ℕ → ℕ → ℕ → List (String × String) → Call
  unregisters : DisplayId → Call
  resizes : DisplayId → ℕ → ℕ → Call
  binds : ActiveBinding → Call
  unbinds : Call
  projects : DisplayId → Call
  frames : ℕ → ℕ → ℕ → Call
  releases : DisplayId → ℕ → ℕ → ℕ → Call

module _ (as_f32 : ℕ → F32) where
  unfoldable pub step : Call → Scheduler → Scheduler
  step (registers name w h r ps) s = (register_display name w h r ps s).1
  step (unregisters id) s = (unregister_display id s).1
  step (resizes id w h) s = update_display_size id w h s
  step (binds b) s = (set_active_binding b s).1
  step unbinds s = (clear_active_binding s).1
  step (projects id) s = (project_config as_f32 id s).1
  step (frames g i q) s = (begin_frame g i q s).1
  step (releases id g i q) s = (release_frame id g i q s).1

  unfoldable pub run : List Call → Scheduler → Scheduler
  run [] s = s
  run (c ∷ cs) s = run cs (step c s)

  step-IsSound :
      (c : Call) (s : Scheduler) → s.next_display_id + 1 < 2 ^ 64 → IsSound s → IsSound (step c s)
  unfolding step
  step-IsSound (registers name w h r ps) s room v = register_display-IsSound name w h r ps s room v
  step-IsSound (unregisters id) s room v = unregister_display-IsSound id s v
  step-IsSound (resizes id w h) s room v = update_display_size-IsSound id w h s v
  step-IsSound (binds b) s room v = set_active_binding-IsSound s v b
  step-IsSound unbinds s room v = clear_active_binding-IsSound s v
  step-IsSound (projects id) s room v = project_config-IsSound s v as_f32 id
  step-IsSound (frames g i q) s room v = begin_frame-IsSound g i q s v
  step-IsSound (releases id g i q) s room v = release_frame-IsSound id g i q s v

  next-begin_bound :
      (a : Option ActiveBinding) (k : _) (s : Scheduler)
      → (begin_bound a k s).1.next_display_id ≡ s.next_display_id
  unfolding begin_bound
  next-begin_bound none k s = refl
  next-begin_bound (some b) k s = ground arith

  next-release_checked :
      (a : Option ActiveBinding) (id : DisplayId) (k : _) (s : Scheduler)
      → (release_checked a id k s).1.next_display_id ≡ s.next_display_id
  unfolding release_checked release_owed
  next-release_checked none id k s = refl
  next-release_checked (some b) id k s = ground arith

  next-step-le :
      (c : Call) (s : Scheduler)
      → s.next_display_id + 1 < 2 ^ 64
      → (step c s).next_display_id ≤ s.next_display_id + 1
  unfolding step
  next-step-le (registers name w h r ps) s room = unfold register_display in omega arith
  next-step-le (unregisters id) s room = unfold unregister_display in omega arith
  next-step-le (resizes id w h) s room = unfold update_display_size in omega arith
  next-step-le (binds b) s room = unfold set_active_binding in omega arith
  next-step-le unbinds s room = unfold clear_active_binding in omega arith
  next-step-le (projects id) s room = unfold project_config in ground arith
  next-step-le (frames g i q) s room =
      unfold begin_frame in omega (arith, next-begin_bound s.active _ s)
  next-step-le (releases id g i q) s room =
      unfold release_frame in omega (arith, next-release_checked s.active id _ s)

  run-IsSound_from :
      (cs : List Call) (s : Scheduler)
      → s.next_display_id + length cs < 2 ^ 64
      → IsSound s
      → IsSound (run cs s)
  unfolding run
  run-IsSound_from [] s room v = v
  run-IsSound_from (c ∷ cs) s room v =
      run-IsSound_from cs (step c s) (omega (arith, next-step-le c s (omega arith)))
        (step-IsSound c s (omega arith) v)

  -- After any sequence of fewer than 2^64 calls on a new scheduler: ids are those handed out, a
  -- display is bound exactly while a pool is shown, and every frame in flight belongs to the shown
  -- pool and is owed by at least one display, all of them registered.
  pub run-IsSound : (cs : List Call) → length cs < 2 ^ 64 → IsSound (run cs new)
  unfolding new
  run-IsSound cs room = run-IsSound_from cs new (omega arith) new-IsSound
