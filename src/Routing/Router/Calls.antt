-- ===== src/Routing/Router/Calls.antt =====
-- src/routing/router.rs: the handlers of renderers as runs of the sections that hold the lock.
pub mod Displays
pub mod Events
pub mod Handlers
use wwe_modify.Base.{
  ℕ, String, Bool, true, false, not, ◌&&◌, ◌||◌, Option, none, some, inl, inr, List, [], ◌∷◌, ◌≡◌,
  refl, sym, ap, subst, ◌∙◌, arith, ℕ_discrete,
}
use wwe_modify.Base.Lists.{is_empty}
use wwe_modify.Base.Tests.{◌==◌, if◌then◌else◌, is_some, Option-cases, str_discrete}
use wwe_modify.Base.Words.{ℤ}
use wwe_modify.Display.Layout.{F32Ops}
use wwe_modify.Dma.Negotiate.{PeerCaps}
use wwe_modify.Routing.Autopause
use wwe_modify.Routing.Table.{
  DisplayId, RendererId, LinkId, LinkRect, Rgba, RendererHandle, Link, RoutingTable, get_renderer,
  renderer_ids, first_renderer, links_for_renderer, get_link, update_link_geometry, add_link,
  remove_renderer,
}
use wwe_modify.Routing.Router.{
  RendererObject, DisplayState, Router, drop_id, display, set_display, emit, display_upsert,
  display_removed, displays_replace, renderer_removed, renderer_upsert,
}
use wwe_modify.Routing.Router.Sync.{
  sync_display, sync_all, resync_all, resync_display_set_config, send_config, known,
}
use wwe_modify.Routing.Router.Pause.{reconcile_paused, reconcile_lifecycle, set_manual_pause}
use wwe_modify.Routing.Router.Formats.{
  reconcile_buffer_flags, set_consumer_caps, on_consumer_bind_failed, on_renderer_bind_failed,
  blacklist_format, set_caps, consumer_of, set_object, reject,
}
use wwe_modify.Routing.Router.Renderers.{
  forget, register_renderer, unregister_renderer, kill_orphan_now, reap, mark_orphans, mark_orphan,
  fire_orphan_reap, stop_renderers, orphans, is_orphan, removed_displays, replace_if, cancel_kept,
  cancel_orphan_timer, schedule_orphan_grace, lone_renderer,
}
use wwe_modify.Routing.Router.Displays.{
  DisplayRegistration, register_display, insert_display, forget_display, auto_link, upsert,
  fresh_display, unregister_display, relink_each, relinked, replace_unless, relink_displays_to,
  relink_all_displays_to, update_display_size, resize, set_size, set_link_geometry,
}
use wwe_modify.Routing.Router.Events.{
  on_renderer_frame, on_renderer_bind, on_renderer_state_changed, audience, upsert_renderer,
  set_renderer_wallpaper_layout_override, put_override,
}
use wwe_modify.Routing.Router.Runs
use wwe_modify.Routing.Router.Runs.{Step, Run, IsQuiet}
use wwe_modify.Settings.{WallpaperLayoutOverride}

module _ (ops : F32Ops) (s : Router) where
  pub either :
      (b : Bool) (t u : Router) → Run ops s t → Run ops s u → Run ops s (if b then t else u)
  either true t u h k = h
  either false t u h k = k

  -- A part that leaves the displays alone.
  pub aside : (t u : Router) → u.displays ≡ t.displays → Run ops s t → Run ops s u
  aside t u e run = Run.next run (Step.elsewhere t u e)

  pub reconcile_lifecycle-Run : (t : Router) → Run ops s t → Run ops s (reconcile_lifecycle t)
  unfolding reconcile_paused reconcile_lifecycle
  reconcile_lifecycle-Run t run = aside t (reconcile_lifecycle t) refl run

  pub reconcile_buffer_flags-Run : (t : Router) → Run ops s t → Run ops s (reconcile_buffer_flags t)
  unfolding reconcile_buffer_flags
  reconcile_buffer_flags-Run t run = aside t (reconcile_buffer_flags t) refl run

  pub sync_all-Run :
      (ds : List DisplayId) (t : Router) → Run ops s t → Run ops s (sync_all ops ds t)
  unfolding sync_all
  sync_all-Run [] t run = run
  sync_all-Run (d ∷ ds) t run =
      sync_all-Run ds (sync_display ops d t) (Run.next run (Step.syncs d t))

  pub resync_all-Run :
      (ds : List DisplayId) (t : Router) → Run ops s t → Run ops s (resync_all ops ds t)
  unfolding resync_all
  resync_all-Run [] t run = run
  resync_all-Run (d ∷ ds) t run =
      resync_all-Run ds (resync_display_set_config ops d t) (Run.next run (Step.resyncs d t))

  pub unregister_renderer-Run :
      (id : RendererId) (t : Router) → Run ops s t → Run ops s (unregister_renderer ops id t)
  unfolding unregister_renderer forget
  unregister_renderer-Run id t run =
      let affected = removed_displays (remove_renderer id t.table).0 in
      let t1 = emit (renderer_removed id) (forget id t) in
      let t2 = reconcile_lifecycle (sync_all ops affected t1) in
      let run2 =
        reconcile_lifecycle-Run (sync_all ops affected t1)
          (sync_all-Run affected t1 (aside t t1 refl run)) in
      either (not (is_empty affected)) (emit displays_replace t2) t2
        (aside t2 (emit displays_replace t2) refl run2) run2

  pub register_renderer-Run :
      (handle : RendererHandle) (object : RendererObject) (t : Router)
      → Run ops s t
      → Run ops s (register_renderer handle object t)
  unfolding register_renderer
  register_renderer-Run handle object t run = reconcile_lifecycle-Run _ (aside t _ refl run)

  pub kill_orphan_now-Run :
      (id : RendererId) (t : Router) → Run ops s t → Run ops s (kill_orphan_now ops id t)
  unfolding kill_orphan_now
  kill_orphan_now-Run id t run =
      aside (unregister_renderer ops id t) (kill_orphan_now ops id t) refl
        (unregister_renderer-Run id t run)

  pub stop_renderers-Run :
      (ids : List RendererId) (t : Router) → Run ops s t → Run ops s (stop_renderers ops ids t)
  unfolding stop_renderers
  stop_renderers-Run [] t run = run
  stop_renderers-Run (id ∷ ids) t run =
      stop_renderers-Run ids (kill_orphan_now ops id t) (kill_orphan_now-Run id t run)

  pub graced-Run :
      (grace : Bool) (id : RendererId) (t : Router)
      → Run ops s t
      → Run ops s (if grace then schedule_orphan_grace id t else kill_orphan_now ops id t)
  unfolding schedule_orphan_grace
  graced-Run grace id t run =
      either grace (schedule_orphan_grace id t) (kill_orphan_now ops id t)
        (aside t (schedule_orphan_grace id t) refl run) (kill_orphan_now-Run id t run)

  pub reap-Run :
      (grace : Bool) (ids : List RendererId) (t : Router)
      → Run ops s t
      → Run ops s (reap ops grace ids t)
  unfolding reap
  reap-Run grace [] t run = run
  reap-Run grace (id ∷ ids) t run = reap-Run grace ids _ (graced-Run grace id t run)

  pub mark_orphans-Run :
      (keep : Option RendererId) (t : Router) → Run ops s t → Run ops s (mark_orphans ops keep t)
  unfolding mark_orphans cancel_orphan_timer
  mark_orphans-Run none t run =
      reap-Run (lone_renderer t) (orphans none (renderer_ids t.table) t) t run
  mark_orphans-Run (some k) t run =
      aside _ (mark_orphans ops (some k) t) refl
        (reap-Run (lone_renderer t) (orphans (some k) (renderer_ids t.table) t) t run)

  pub mark_orphan-Run :
      (id : RendererId) (t : Router) → Run ops s t → Run ops s (mark_orphan ops id t)
  unfolding mark_orphan
  mark_orphan-Run id t run = graced-Run (lone_renderer t) id t run

  pub fire_orphan_reap-Run :
      (id : RendererId) (t : Router) → Run ops s t → Run ops s (fire_orphan_reap ops id t)
  unfolding fire_orphan_reap
  fire_orphan_reap-Run id t run =
      let t1 = record t { orphan_timers = drop_id id t.orphan_timers } in
      let run1 = aside t t1 refl run in
      either (not (known id t1)) t1 _ run1 (
        either (not (is_orphan id t1)) t1 (kill_orphan_now ops id t1) run1
          (kill_orphan_now-Run id t1 run1))
