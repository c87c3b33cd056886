-- ===== src/Routing/Router/Tests.antt =====
-- Runs of the router on two displays and a renderer, and the theorems applied to them.
use wwe_modify.Base.{◌⊎◌, true, false, none, some, [], ◌∷◌, ◌≡◌, refl, ℕ_discrete, ◌%◌, ◌^◌}
use mathlib.Core.Option
use wwe_modify.Base.Lists.{length}
use wwe_modify.Base.Tests.{◌==◌, if◌then◌else◌, leb, str_discrete}
use wwe_modify.Base.Map.{get, insert}
use wwe_modify.Display.Layout.{F32Ops}
use wwe_modify.Routing.Table.{
  RendererId, RoutingTable, Link, add_link, add_renderer, opaque_black, links_for_display,
  links_for_renderer, put_link, remove_links, collect, get_renderer, renderer_ids, new_link,
  next_id,
}
use wwe_modify.Routing.Table
use wwe_modify.Routing.Router.{RendererObject, DisplayState, Router, display, member, first_enabled}
use wwe_modify.Routing.Router.Sync.{sync_display, target_of, gated}
use wwe_modify.Routing.Router.Sync.Stream.{IsInStep, AllInStep}
use wwe_modify.Routing.Router.Sync.Targets.{
  sync_display-bound_pool, sync_display-sync_display, Rebound, unbound, bound_pool, wanted,
}
use wwe_modify.Routing.Router.Pause.{reconcile_lifecycle, should_pause}
use wwe_modify.Routing.Router.Pause.Controls.{
  told_paused, told_from, reconcile_lifecycle_lem, reconcile_lifecycle-told,
  reconcile_lifecycle-reconcile_lifecycle,
}
use wwe_modify.Routing.Router.Displays.{DisplayRegistration, insert_display, new_state}
use wwe_modify.Routing.Router.Events.{on_renderer_frame, recipients, audience, shows}
use wwe_modify.Routing.Router.Events.Frames.{on_renderer_frame-sent, count, times, frame_for}
use wwe_modify.Routing.Router.Runs.{Run, Step, Run-AllInStep, new_state-IsInStep}

-- The operations on floats, as far as the runs need them.
abbrev some_ops : F32Ops
some_ops = record {
  add = λ a b. a;
  sub = λ a b. a;
  mul = λ a b. a;
  div = λ a b. a;
  min = λ a b. a;
  max = λ a b. a;
  le = leb;
  of_u32 = λ n. n;
  round_u8 = λ a. a;
}

abbrev object : RendererObject
object = record {
  reachable = true;
  is_image = false;
  bind_snapshot =
      some (record { generation = 7; width = 640; height = 480; fourcc = 1; modifier = 0 });
  format_caps = none;
  current_scheme = none;
  latest_frame = none;
  clear_rgba = opaque_black;
  advanced = [];
}

abbrev empty_router : Router
empty_router = record {
  table = add_renderer (record { id = "a" }) Table.new;
  displays = [];
  paused_renderers = [];
  session_locked = false;
  session_inactive = false;
  manual_paused = false;
  orphan_timers = [];
  unbind_acks_pending = [];
  wallpaper_layout_overrides = [];
  next_display_id = 0;
  next_config_generation = 0;
  settings = none;
  objects = λ r. object;
  controls = [];
  killed = [];
  events = [];
}

abbrev registration : DisplayRegistration
registration = record {
  name = "HDMI-1";
  instance_id = none;
  width = 1920;
  height = 1080;
  refresh_mhz = 60000;
  properties = [];
  gpu = record { major = 0; minor = 0 };
  consumer_caps = none;
}

abbrev one_display : Router
one_display = insert_display registration empty_router

-- The display is linked to the renderer.
abbrev linked : Router
linked = record one_display { table = (add_link "a" 1 one_display.table).1 }

abbrev shown : Router
shown = sync_display some_ops 1 linked

abbrev bound_state : DisplayState
bound_state = record (new_state 1 registration) {
  last_renderer = some "a";
  last_buffer_generation = some 7;
}

-- The display shows the renderer's pool.
abbrev watching : Router
watching = record linked { displays = (1, bound_state) ∷ [] }

nothing_found : (st : DisplayState) → none ≡ some st → ⊥
nothing_found st e = cc

Run-AllInStep_example : AllInStep shown.displays
unfolding get
Run-AllInStep_example =
    Run-AllInStep some_ops
      (Run.next
        (Run.next (Run.next Run.here (Step.adds registration empty_router))
          (Step.elsewhere one_display linked refl))
        (Step.syncs 1 linked))
      (λ d st e. absurd (nothing_found st e))

sync_display-sync_display_example :
    sync_display some_ops 1 (sync_display some_ops 1 linked) ≡ sync_display some_ops 1 linked
sync_display-sync_display_example = sync_display-sync_display some_ops 1 linked

reconcile_lifecycle_lem_example : member "a" (reconcile_lifecycle empty_router).paused_renderers ≡ (
    if member "a" (renderer_ids empty_router.table)
    then should_pause "a" empty_router
    else member "a" empty_router.paused_renderers)
reconcile_lifecycle_lem_example = reconcile_lifecycle_lem "a" empty_router

reconcile_lifecycle-told_example :
    told_paused "a" (reconcile_lifecycle empty_router) ≡ should_pause "a" empty_router
unfolding member renderer_ids add_renderer insert Table.new told_from str_discrete
reconcile_lifecycle-told_example = reconcile_lifecycle-told "a" empty_router refl refl

reconcile_lifecycle-reconcile_lifecycle_example :
    reconcile_lifecycle (reconcile_lifecycle linked) ≡ reconcile_lifecycle linked
reconcile_lifecycle-reconcile_lifecycle_example = reconcile_lifecycle-reconcile_lifecycle linked

sync_display-bound_pool_example :
    (a : DisplayState) × (display 1 (sync_display some_ops 1 linked) ≡ some a)
    × (bound_pool a ≡ wanted (target_of 1 linked))
    × IsInStep a
    × (((bound_pool (new_state 1 registration) ≡ wanted (target_of 1 linked))
          × (a ≡ new_state 1 registration))
        ⊎ ((¬ bound_pool (new_state 1 registration) ≡ wanted (target_of 1 linked))
            × Rebound
                (target_of 1 linked)
                (unbound
                  (new_state 1 registration).last_buffer_generation
                  (new_state 1 registration).sent)
                a.sent))
unfolding target_of gated insert_display get insert add_link put_link remove_links links_for_display
    collect first_enabled get_renderer add_renderer Table.new new_link next_id ℕ_discrete
    str_discrete
sync_display-bound_pool_example =
    sync_display-bound_pool some_ops 1 (new_state 1 registration) linked refl refl
      (new_state-IsInStep 1 registration)

on_renderer_frame-sent_example :
    Option.map (λ st. st.sent) (display 1 (on_renderer_frame "a" 2 30 4 watching))
    ≡ Option.map
        (λ st.
          times
            (if length (recipients "a" 7 (audience "a" watching) watching) % 2 ^ 32 == 0
              then 0
              else if shows "a" 7 (some st)
              then count 1 (audience "a" watching)
              else 0)
            (frame_for "a" 7 2 30 4
              (length (recipients "a" 7 (audience "a" watching) watching) % 2 ^ 32))
            st.sent)
        (display 1 watching)
unfolding insert_display get insert add_link put_link remove_links get_renderer add_renderer
    Table.new new_link next_id ℕ_discrete str_discrete
on_renderer_frame-sent_example = on_renderer_frame-sent 1 "a" 7 2 30 4 watching refl refl
