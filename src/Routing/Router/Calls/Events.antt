-- ===== src/Routing/Router/Calls/Events.antt =====
-- src/routing/router.rs: the handlers of renderers' events and of windows as runs.
use wwe_modify.Base.{ℕ, Bool, true, false, Option, none, some, List, refl, ◌≡◌}
use wwe_modify.Base.Tests.{if◌then◌else◌, is_some}
use wwe_modify.Base.Words.{ℤ}
use wwe_modify.Display.Layout.{F32Ops}
use wwe_modify.Dma.Negotiate.{PeerCaps}
use wwe_modify.Routing.Autopause
use wwe_modify.Routing.Table.{
  DisplayId, RendererId, LinkId, LinkRect, Rgba, Link, RoutingTable, get_renderer,
  links_for_renderer, get_link, update_link_geometry,
}
use wwe_modify.Routing.Router.{DisplayState, Router, display, set_display, emit, renderer_upsert}
use wwe_modify.Routing.Router.Sync.{tell, sync_all, resync_all, known}
use wwe_modify.Scheduler.{ProjectedConfig}
use wwe_modify.Routing.Router.Pause.{
  set_manual_pause, act, put_autopause, report_on, resume_on, update_display_window_state,
  resume_display,
}
use wwe_modify.Routing.Router.Project.{resolved_autopause}
use wwe_modify.Routing.Router.Formats.{
  reconcile_buffer_flags, set_consumer_caps, on_consumer_bind_failed, on_renderer_bind_failed,
  blacklist_format, set_caps, consumer_of, set_object, reject,
}
use wwe_modify.Routing.Router.Displays.{
  replace_unless, set_link_geometry, change_link_geometry, config_for, config_if_bound,
  tell_payload, bound_to,
}
use wwe_modify.Routing.Router.Events.{
  on_renderer_bind, on_renderer_state_changed, audience, set_renderer_wallpaper_layout_override,
  put_override, recolour,
}
use wwe_modify.Routing.Router.Runs.{Step, Run}
use wwe_modify.Routing.Router.Calls.{
  either, aside, reconcile_lifecycle-Run, reconcile_buffer_flags-Run, sync_all-Run, resync_all-Run,
}
use wwe_modify.Settings.{WallpaperLayoutOverride}
use wwe_modify.Routing.Router.Calls.Displays.{upsert-Run, replace_unless-Run}

-- Where the first section of set_link_geometry ends, the displays are as before.
abbrev Payload : Type 0
Payload = Bool × Option (DisplayId × ProjectedConfig) × Router

either-displays :
    (b : Bool) (p q : Payload) (t : Router)
    → p.2.displays ≡ t.displays
    → q.2.displays ≡ t.displays
    → (if b then p else q).2.displays ≡ t.displays
either-displays true p q t h k = h
either-displays false p q t h k = k

config_if_bound-displays :
    (ops : F32Ops) (l : Link) (o : Option DisplayState) (t : Router)
    → (config_if_bound ops l o t).2.displays ≡ t.displays
config_if_bound-displays ops l none t = refl
config_if_bound-displays ops l (some st) t =
    either-displays (bound_to l.renderer_id st) _ (true, none, t) t refl refl

config_for-displays :
    (ops : F32Ops) (o : Option Link) (t : Router) → (config_for ops o t).2.displays ≡ t.displays
config_for-displays ops none t = refl
config_for-displays ops (some l) t =
    either-displays (known l.renderer_id t) _ (false, none, t) t
      (config_if_bound-displays ops l (display l.display_id t) t) refl

change_link_geometry-displays :
    (ops : F32Ops) (lid : LinkId) (src dst : Option LinkRect) (transform : Option ℕ)
    (clear_rgba : Option Rgba) (z_order : Option ℤ) (t : Router)
    → (change_link_geometry ops lid src dst transform clear_rgba z_order t).2.displays ≡ t.displays
unfolding change_link_geometry
change_link_geometry-displays ops lid src dst transform clear_rgba z_order t =
    let (changed, table) = update_link_geometry lid src dst transform clear_rgba z_order t.table in
    let t1 = record t { table = table } in
    either-displays changed _ (false, none, t1) t (config_for-displays ops (get_link lid table) t1)
      refl

module _ (ops : F32Ops) (s : Router) where
  pub on_renderer_bind-Run :
      (r : RendererId) (t : Router) → Run ops s t → Run ops s (on_renderer_bind ops r t)
  unfolding on_renderer_bind
  on_renderer_bind-Run r t run =
      let t1 = reconcile_buffer_flags (sync_all ops (audience r t) t) in
      let run1 =
        reconcile_buffer_flags-Run ops s (sync_all ops (audience r t) t)
          (sync_all-Run ops s (audience r t) t run) in
      either ops s (is_some (get_renderer r t1.table)) (emit (renderer_upsert r) t1) t1
        (aside ops s t1 (emit (renderer_upsert r) t1) refl run1) run1

  pub resync_affected-Run :
      (p : List DisplayId × RoutingTable) (t : Router)
      → Run ops s t
      → Run ops s (resync_all ops p.0 (record t { table = p.1 }))
  resync_affected-Run p t run =
      resync_all-Run ops s p.0 (record t { table = p.1 }) (aside ops s t _ refl run)

  pub on_renderer_state_changed-Run :
      (r : RendererId) (t : Router) → Run ops s t → Run ops s (on_renderer_state_changed ops r t)
  unfolding on_renderer_state_changed
  on_renderer_state_changed-Run r t run =
      either ops s (is_some (get_renderer r t.table)) _ t
        (resync_affected-Run
          (recolour ops (t.objects r).clear_rgba (links_for_renderer r t.table) t.table) t run)
        run

  -- A result beside the state.
  pub either_beside :
      (b : Bool) (p q : Bool × Router)
      → Run ops s p.1
      → Run ops s q.1
      → Run ops s (if b then p else q).1
  either_beside true p q h k = h
  either_beside false p q h k = k

  pub set_override-Run :
      (r : RendererId) (layout : WallpaperLayoutOverride) (t : Router)
      → Run ops s t
      → Run ops s (set_renderer_wallpaper_layout_override ops r layout t).1
  unfolding set_renderer_wallpaper_layout_override
  set_override-Run r layout t run =
      let t1 = put_override ops r layout t in
      either_beside (is_some (get_renderer r t.table))
        (true, replace_unless (audience r t) (resync_all ops (audience r t) t1)) (false, t)
        (replace_unless-Run ops s (audience r t) (resync_all ops (audience r t) t1)
          (resync_all-Run ops s (audience r t) t1 (aside ops s t t1 refl run)))
        run

  tell_payload-Run :
      (payload : Option (DisplayId × ProjectedConfig)) (t : Router)
      → Run ops s t
      → Run ops s (tell_payload ops payload t)
  tell_payload-Run none t run = run
  tell_payload-Run (some (d, cfg)) t run =
      upsert-Run ops s d (tell d cfg t) (Run.next run (Step.tells d cfg t))

  pub set_link_geometry-Run :
      (lid : LinkId) (src dst : Option LinkRect) (transform : Option ℕ) (clear_rgba : Option Rgba)
      (z_order : Option ℤ) (t : Router)
      → Run ops s t
      → Run ops s (set_link_geometry ops lid src dst transform clear_rgba z_order t).1
  unfolding set_link_geometry
  set_link_geometry-Run lid src dst transform clear_rgba z_order t run =
      let p = change_link_geometry ops lid src dst transform clear_rgba z_order t in
      tell_payload-Run p.1 p.2 (
        aside ops s t p.2
          (change_link_geometry-displays ops lid src dst transform clear_rgba z_order t) run)

  pub set_caps-Run :
      (d : DisplayId) (caps : PeerCaps) (t : Router)
      → Run ops s t
      → Run ops s (reconcile_buffer_flags (set_display d (set_caps caps) t))
  set_caps-Run d caps t run = reconcile_buffer_flags-Run ops s _ (
      Run.next run (
        Step.tunes d (set_caps caps) t
          (record { sent = λ st. refl; renderer = λ st. refl; generation = λ st. refl })))

  pub set_consumer_caps-Run :
      (d : DisplayId) (caps : PeerCaps) (t : Router)
      → Run ops s t
      → Run ops s (set_consumer_caps d caps t)
  unfolding set_consumer_caps
  set_consumer_caps-Run d caps t run =
      either ops s (is_some (display d t)) _ t (set_caps-Run d caps t run) run

  pub on_consumer_bind_failed-Run :
      (d : DisplayId) (fourcc modifier : ℕ) (t : Router)
      → Run ops s t
      → Run ops s (on_consumer_bind_failed d fourcc modifier t)
  unfolding on_consumer_bind_failed
  on_consumer_bind_failed-Run d fourcc modifier t run =
      elim (consumer_of (display d t))
        as (λ o. Run ops s (elim o as (λ _. Router) [
          | none ↦ t
          | some caps ↦
              reconcile_buffer_flags
                (set_display d (set_caps (blacklist_format fourcc modifier caps)) t)
        ])) [
          | none ↦ run
          | some caps ↦ set_caps-Run d (blacklist_format fourcc modifier caps) t run
        ]

  pub on_renderer_bind_failed-Run :
      (r : RendererId) (fourcc modifier : ℕ) (t : Router)
      → Run ops s t
      → Run ops s (on_renderer_bind_failed r fourcc modifier t)
  unfolding on_renderer_bind_failed
  on_renderer_bind_failed-Run r fourcc modifier t run =
      either ops s (is_some (get_renderer r t.table)) _ t
        (reconcile_buffer_flags-Run ops s _
          (aside ops s t (set_object r (reject fourcc modifier) t) refl run))
        run

  pub act-Run : (action : Autopause.Action) (t : Router) → Run ops s t → Run ops s (act action t)
  act-Run Autopause.reconcile t run = reconcile_lifecycle-Run ops s t run
  act-Run (Autopause.schedule_resume gen ms) t run = run
  act-Run Autopause.noop t run = run

  pub put_autopause-Run :
      (d : DisplayId) (p : Autopause.State × Autopause.Action) (t : Router)
      → Run ops s t
      → Run ops s (act p.1 (set_display d (put_autopause p.0) t))
  put_autopause-Run d p t run = act-Run p.1 _ (
      Run.next run (
        Step.tunes d (put_autopause p.0) t
          (record { sent = λ st. refl; renderer = λ st. refl; generation = λ st. refl })))

  pub report_on-Run :
      (d : DisplayId) (flags : ℕ) (o : Option DisplayState) (t : Router)
      → Run ops s t
      → Run ops s (report_on d flags o t)
  report_on-Run d flags none t run = run
  report_on-Run d flags (some st) t run =
      put_autopause-Run d (Autopause.report (resolved_autopause st.info t) flags st.autopause) t run

  pub update_display_window_state-Run :
      (d : DisplayId) (flags : ℕ) (t : Router)
      → Run ops s t
      → Run ops s (update_display_window_state d flags t)
  unfolding update_display_window_state
  update_display_window_state-Run d flags t run = report_on-Run d flags (display d t) t run

  pub resume_on-Run :
      (d : DisplayId) (gen : ℕ) (o : Option DisplayState) (t : Router)
      → Run ops s t
      → Run ops s (resume_on d gen o t)
  resume_on-Run d gen none t run = run
  resume_on-Run d gen (some st) t run =
      put_autopause-Run d (Autopause.resume gen st.autopause) t run

  pub resume_display-Run :
      (d : DisplayId) (gen : ℕ) (t : Router) → Run ops s t → Run ops s (resume_display d gen t)
  unfolding resume_display
  resume_display-Run d gen t run = resume_on-Run d gen (display d t) t run

  pub set_manual_pause-Run :
      (paused : Bool) (t : Router) → Run ops s t → Run ops s (set_manual_pause paused t)
  unfolding set_manual_pause
  set_manual_pause-Run paused t run =
      let p = Autopause.set_manual_pause paused t.manual_paused in
      let t1 = record t { manual_paused = p.0 } in act-Run p.1 t1 (aside ops s t t1 refl run)
