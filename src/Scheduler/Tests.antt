-- ===== src/Scheduler/Tests.antt =====
-- The tests of src/scheduler.rs, and the theorems at a scheduler with two displays.
use wwe_modify.Base.{ℕ, List, [], ◌∷◌, ◌≡◌, refl, none, some, false, arith, ℕ_discrete}
use wwe_modify.Base.Lists.{contains, retain, drop_all}
use wwe_modify.Base.Tests.{is_some}
use wwe_modify.Base.Map.{get, insert, remove, modify, map_values, retain_entries}
use wwe_modify.Base.Sorted.{AscendsFrom, sort}
use wwe_modify.Scheduler.Pending.{lists_key, cleared, clear, owed_on}
use wwe_modify.Scheduler.Soundness.{IsSound, display}
use wwe_modify.Scheduler.Frames.{begin_frame-IsSound}
use wwe_modify.Scheduler.Fanout.{begin_frame_fan_out}
use wwe_modify.Scheduler.Releases.{
  releases, release_cycle, release_frame_twice, unregister_display_frees,
}
use wwe_modify.Scheduler.Runs.{Call, registers, binds, step, run, run-IsSound}
use wwe_modify.Scheduler.{
  DisplayId, ActiveBinding, FrameKey-discrete, Scheduler, still_in_flight, all_released, unknown,
  new, new_display, register_display, forget_display, unregister_display, retire,
  set_active_binding, clear_active_binding, bound_ids, frame, begin_frame, release_frame,
}

program : Unit {0}
unfolding get insert remove modify map_values retain_entries contains retain drop_all sort
    ℕ_discrete FrameKey-discrete new new_display register_display forget_display unregister_display
    retire set_active_binding clear_active_binding bound_ids begin_frame release_frame step run
    releases
program = tt

abbrev pool : ℕ → ActiveBinding
pool g = record {
  renderer_id = "r";
  wp_type = "video";
  buffer_generation = g;
  tex_width = 1920;
  tex_height = 1080;
}

abbrev calls : List Call
calls =
    registers "DP-1" 1920 1080 60000 [] ∷ registers "DP-2" 1280 720 60000 [] ∷ binds (pool 7) ∷ []

run-IsSound_example : IsSound (run (λ n. n) calls new)
run-IsSound_example = run-IsSound (λ n. n) calls (omega arith)

two : Scheduler
two = run (λ n. n) calls new

two-IsSound : IsSound two
unfolding two
two-IsSound = run-IsSound (λ n. n) calls (omega arith)

two_active : two.active ≡ some (pool 7)
unfolding program two
two_active = refl

begin_frame_fan_out_example :
    let (out, u) = begin_frame 7 0 1 two in
    AscendsFrom 0 out
    × ((id : DisplayId) → contains id out ≡ is_some (display id two))
    × ((owed : List DisplayId) × (owed_on (frame 7 0 1) u.pending ≡ some owed)
        × ((id : DisplayId) → contains id owed ≡ is_some (display id two)))
unfolding program two
begin_frame_fan_out_example =
    begin_frame_fan_out two (pool 7) 7 0 1 2 two-IsSound two_active refl refl

both : (id : DisplayId) → contains id (2 ∷ 1 ∷ []) ≡ is_some (display id two)
unfolding program two
both id = ground arith

release_cycle_example :
    let (outcomes, u) = releases (2 ∷ 1 ∷ []) 7 0 1 (begin_frame 7 0 1 two).1 in
    (outcomes ≡ still_in_flight ∷ all_released ∷ []) × (owed_on (frame 7 0 1) u.pending ≡ none)
unfolding contains
release_cycle_example =
    release_cycle two (pool 7) 7 0 1 2 (1 ∷ []) two-IsSound two_active refl (refl, (refl, tt)) both

release_frame_twice_example :
    (release_frame 1 7 0 1 (release_frame 1 7 0 1 (begin_frame 7 0 1 two).1).1).0 ≡ unknown
unfolding program two
release_frame_twice_example = release_frame_twice 1 7 0 1 (begin_frame 7 0 1 two).1 tt

unregister_display_frees_example :
    let s = (begin_frame 7 0 1 two).1 in
    let (freed, u) = unregister_display 1 s in
    (lists_key (frame 7 0 1) freed ≡ cleared 1 (owed_on (frame 7 0 1) s.pending))
    × (owed_on (frame 7 0 1) u.pending ≡ clear 1 (owed_on (frame 7 0 1) s.pending))
    × ((owed : List DisplayId)
        → owed_on (frame 7 0 1) u.pending ≡ some owed
        → contains 1 owed ≡ false)
unregister_display_frees_example =
    unregister_display_frees 1 (begin_frame 7 0 1 two).1 (frame 7 0 1)
      (begin_frame-IsSound 7 0 1 two two-IsSound)
