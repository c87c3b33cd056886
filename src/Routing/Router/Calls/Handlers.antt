-- ===== src/Routing/Router/Calls/Handlers.antt =====
-- src/routing/router.rs: the calls of handlers that are modelled, as runs.
use wwe_modify.Base.{ℕ, Bool, Option, List}
use wwe_modify.Base.Words.{ℤ}
use wwe_modify.Base.Map.{keys}
use wwe_modify.Display.Layout.{F32Ops}
use wwe_modify.Dma.Negotiate.{PeerCaps}
use wwe_modify.Routing.Table.{DisplayId, RendererId, LinkId, LinkRect, Rgba, RendererHandle}
use wwe_modify.Routing.Router.{RendererObject, Router}
use wwe_modify.Routing.Router.Pause.{set_manual_pause, update_display_window_state, resume_display}
use wwe_modify.Routing.Router.Formats.{
  set_consumer_caps, on_consumer_bind_failed, on_renderer_bind_failed,
}
use wwe_modify.Routing.Router.Renderers.{
  register_renderer, unregister_renderer, mark_orphans, mark_orphan, fire_orphan_reap,
  stop_renderers,
}
use wwe_modify.Routing.Router.Displays.{
  DisplayRegistration, register_display, unregister_display, relink_displays_to,
  relink_all_displays_to, update_display_size, set_link_geometry,
}
use wwe_modify.Routing.Router.Events.{
  on_renderer_frame, on_renderer_bind, on_renderer_state_changed,
  set_renderer_wallpaper_layout_override,
}
use wwe_modify.Routing.Router.Runs.{Step, Run}
use wwe_modify.Routing.Router.Sync.{resync_all_set_configs}
use wwe_modify.Routing.Router.Calls.{
  resync_all-Run, mark_orphans-Run, unregister_renderer-Run, register_renderer-Run,
  stop_renderers-Run, mark_orphan-Run, fire_orphan_reap-Run,
}
use wwe_modify.Settings.{WallpaperLayoutOverride}
use wwe_modify.Routing.Router.Calls.Displays.{
  register_display-Run, unregister_display-Run, relink_displays_to-Run, update_display_size-Run,
}
use wwe_modify.Routing.Router.Calls.Events.{
  on_renderer_bind-Run, on_renderer_state_changed-Run, set_override-Run, set_link_geometry-Run,
  set_consumer_caps-Run, on_consumer_bind_failed-Run, on_renderer_bind_failed-Run,
  update_display_window_state-Run, resume_display-Run, set_manual_pause-Run,
}

-- A call of a handler.
pub data Call (ops : F32Ops) : Router → Router → Type 0 where
  registers_display :
      (reg : DisplayRegistration) (s : Router) → Call ops s (register_display ops reg s).1
  unregisters_display : (d : DisplayId) (s : Router) → Call ops s (unregister_display ops d s)
  registers_renderer :
      (handle : RendererHandle) (object : RendererObject) (s : Router)
      → Call ops s (register_renderer handle object s)
  unregisters_renderer : (id : RendererId) (s : Router) → Call ops s (unregister_renderer ops id s)
  stops_renderers : (ids : List RendererId) (s : Router) → Call ops s (stop_renderers ops ids s)
  marks_orphans : (keep : Option RendererId) (s : Router) → Call ops s (mark_orphans ops keep s)
  marks_orphan : (id : RendererId) (s : Router) → Call ops s (mark_orphan ops id s)
  fires_orphan_reap : (id : RendererId) (s : Router) → Call ops s (fire_orphan_reap ops id s)
  relinks :
      (ds : List DisplayId) (r : RendererId) (s : Router)
      → Call ops s (relink_displays_to ops ds r s)
  relinks_all : (r : RendererId) (s : Router) → Call ops s (relink_all_displays_to ops r s)
  resizes :
      (d : DisplayId) (width height : ℕ) (s : Router)
      → Call ops s (update_display_size ops d width height s)
  sets_geometry :
      (lid : LinkId) (src dst : Option LinkRect) (transform : Option ℕ) (clear_rgba : Option Rgba)
      (z_order : Option ℤ) (s : Router)
      → Call ops s (set_link_geometry ops lid src dst transform clear_rgba z_order s).1
  overrides_layout :
      (r : RendererId) (layout : WallpaperLayoutOverride) (s : Router)
      → Call ops s (set_renderer_wallpaper_layout_override ops r layout s).1
  sets_caps :
      (d : DisplayId) (caps : PeerCaps) (s : Router) → Call ops s (set_consumer_caps d caps s)
  consumer_bind_fails :
      (d : DisplayId) (fourcc modifier : ℕ) (s : Router)
      → Call ops s (on_consumer_bind_failed d fourcc modifier s)
  renderer_bind_fails :
      (r : RendererId) (fourcc modifier : ℕ) (s : Router)
      → Call ops s (on_renderer_bind_failed r fourcc modifier s)
  renderer_binds : (r : RendererId) (s : Router) → Call ops s (on_renderer_bind ops r s)
  renderer_publishes :
      (r : RendererId) (buffer_index seq release_point : ℕ) (s : Router)
      → Call ops s (on_renderer_frame r buffer_index seq release_point s)
  renderer_changes : (r : RendererId) (s : Router) → Call ops s (on_renderer_state_changed ops r s)
  reports_windows :
      (d : DisplayId) (flags : ℕ) (s : Router) → Call ops s (update_display_window_state d flags s)
  resumes : (d : DisplayId) (gen : ℕ) (s : Router) → Call ops s (resume_display d gen s)
  resyncs_all : (s : Router) → Call ops s (resync_all_set_configs ops s)
  pauses : (paused : Bool) (s : Router) → Call ops s (set_manual_pause paused s)

-- Each call of a handler that `Call` lists, with no section of another between its own, is a run.
pub Call-Run : (ops : F32Ops) {s u : Router} → Call ops s u → Run ops s u
unfolding relink_all_displays_to resync_all_set_configs
Call-Run ops (registers_display reg s) = register_display-Run ops s reg s Run.here
Call-Run ops (unregisters_display d s) = unregister_display-Run ops s d s Run.here
Call-Run ops (registers_renderer handle object s) =
    register_renderer-Run ops s handle object s Run.here
Call-Run ops (unregisters_renderer id s) = unregister_renderer-Run ops s id s Run.here
Call-Run ops (stops_renderers ids s) = stop_renderers-Run ops s ids s Run.here
Call-Run ops (marks_orphans keep s) = mark_orphans-Run ops s keep s Run.here
Call-Run ops (marks_orphan id s) = mark_orphan-Run ops s id s Run.here
Call-Run ops (fires_orphan_reap id s) = fire_orphan_reap-Run ops s id s Run.here
Call-Run ops (relinks ds r s) = relink_displays_to-Run ops s ds r s Run.here
Call-Run ops (relinks_all r s) = relink_displays_to-Run ops s (keys s.displays) r s Run.here
Call-Run ops (resizes d width height s) = update_display_size-Run ops s d width height s Run.here
Call-Run ops (sets_geometry lid src dst transform clear_rgba z_order s) =
    set_link_geometry-Run ops s lid src dst transform clear_rgba z_order s Run.here
Call-Run ops (overrides_layout r layout s) = set_override-Run ops s r layout s Run.here
Call-Run ops (sets_caps d caps s) = set_consumer_caps-Run ops s d caps s Run.here
Call-Run ops (consumer_bind_fails d fourcc modifier s) =
    on_consumer_bind_failed-Run ops s d fourcc modifier s Run.here
Call-Run ops (renderer_bind_fails r fourcc modifier s) =
    on_renderer_bind_failed-Run ops s r fourcc modifier s Run.here
Call-Run ops (renderer_binds r s) = on_renderer_bind-Run ops s r s Run.here
Call-Run ops (renderer_publishes r i q p s) = Run.next Run.here (Step.shows_frame r i q p s)
Call-Run ops (renderer_changes r s) = on_renderer_state_changed-Run ops s r s Run.here
Call-Run ops (reports_windows d flags s) = update_display_window_state-Run ops s d flags s Run.here
Call-Run ops (resumes d gen s) = resume_display-Run ops s d gen s Run.here
Call-Run ops (resyncs_all s) = resync_all-Run ops s (keys s.displays) s Run.here
Call-Run ops (pauses paused s) = set_manual_pause-Run ops s paused s Run.here
