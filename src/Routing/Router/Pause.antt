-- ===== src/Routing/Router/Pause.antt =====
-- src/routing/router.rs, reconcile_lifecycle: which renderers are to pause, and the controls that
-- make them.
pub mod Controls
use wwe_modify.Base.{
  ℕ, ◌+◌, ◌%◌, ◌^◌, String, Bool, true, false, not, ◌&&◌, ◌||◌, Option, none, some, List, [], ◌∷◌,
  ◌++◌, ℕ_discrete,
}
use wwe_modify.Base.Tests.{◌==◌, if◌then◌else◌, str_discrete, is_some}
use wwe_modify.Base.Lists.{length, contains, is_empty}
use wwe_modify.Base.Map.{Map, get, insert, remove, modify, keys, map_values}
use wwe_modify.Display.Layout.{F32Ops}
use wwe_modify.Routing.Table.{
  DisplayId, RendererId, LinkId, Link, LinkRect, Rgba, RendererHandle, RoutingTable, add_renderer,
  remove_renderer, get_renderer, renderer_ids, first_renderer, links_for_display,
  links_for_renderer, add_link, get_link, remove_link, remove_links, remove_display,
  update_link_geometry,
}
use wwe_modify.Routing.Router.{
  BindSnapshot, FrameSnapshot, RendererObject, DisplayOutEvent, frame, set_config, DisplayState,
  Control, play, pause, Router, RouterEvent, renderer_upsert, renderer_removed, display_upsert,
  display_removed, displays_replace, display, set_display, emit, enabled_links, member, drop_id,
}
use wwe_modify.Routing.Autopause
use wwe_modify.Routing.Router.Project.{resolved_autopause}
use wwe_modify.Settings.{default_autopause, AutopauseDefaults}

-- A link's display asks for a pause.
abbrev pub wants_pause : Option DisplayState → Bool
wants_pause none = false
wants_pause (some st) = st.autopause.requested

pub any_autopaused : List Link → Router → Bool
any_autopaused [] s = false
any_autopaused (l ∷ ls) s = wants_pause (display l.display_id s) || any_autopaused ls s

pub session_paused : Router → Bool
session_paused s =
    let ap : AutopauseDefaults = elim s.settings [
      | none ↦ default_autopause
      | some t ↦ t.global.autopause
    ] in
    (ap.pause_on_lock && s.session_locked) || (ap.pause_on_user_switch && s.session_inactive)

-- Nobody watches, a display or the session or the user asks for a pause.
pub should_pause : RendererId → Router → Bool
unfolding any_autopaused session_paused
should_pause rid s =
    let links = enabled_links (links_for_renderer rid s.table) in
    s.manual_paused || is_empty links || any_autopaused links s || session_paused s

-- The diff for one renderer: the new set, and the control that is sent.
pub pause_diff : Bool → RendererId → List RendererId → List RendererId × List (RendererId × Control)
pause_diff should rid paused =
    if not should && member rid paused
    then (drop_id rid paused, (rid, play) ∷ [])
    else if should && not (member rid paused)
    then (rid ∷ paused, (rid, pause) ∷ [])
    else (paused, [])

-- The loop over the renderers: nothing that `should_pause` reads changes in it.
pub pause_diffs :
    (RendererId → Bool)
    → List RendererId
    → List RendererId
    → List RendererId × List (RendererId × Control)
unfolding pause_diff
pause_diffs should [] paused = (paused, [])
pause_diffs should (rid ∷ rids) paused =
    let (paused1, out1) = pause_diff (should rid) rid paused in
    let (paused2, out2) = pause_diffs should rids paused1 in (paused2, out1 ++ out2)

-- The controls are sent, and then an event for each renderer.
abbrev pub changed_events : List (RendererId × Control) → List RouterEvent
changed_events [] = []
changed_events ((rid, _) ∷ out) = changed_events out ++ renderer_upsert rid ∷ []

abbrev pub newest_first : List (RendererId × Control) → List (RendererId × Control)
newest_first [] = []
newest_first (c ∷ out) = newest_first out ++ c ∷ []

-- The section under the lock: the set is updated, and the controls to send are handed out.
unfoldable pub reconcile_paused : Router → Router × List (RendererId × Control)
unfolding should_pause pause_diffs
reconcile_paused s =
    let (paused, out) =
      pause_diffs (λ rid. should_pause rid s) (renderer_ids s.table) s.paused_renderers in
    (record s { paused_renderers = paused }, out)

-- After it, `send_control` is called for each, and an event sent for each, whatever the calls answer.
abbrev pub send_controls : List (RendererId × Control) → Router → Router
send_controls out s = record s {
  controls = newest_first out ++ s.controls;
  events = changed_events out ++ s.events;
}

unfoldable pub reconcile_lifecycle : Router → Router
unfolding reconcile_paused
reconcile_lifecycle s = let (u, out) = reconcile_paused s in send_controls out u

-- What is done at once; a resume that is scheduled comes later, by itself.
abbrev pub act : Autopause.Action → Router → Router
act Autopause.reconcile s = reconcile_lifecycle s
act (Autopause.schedule_resume gen ms) s = s
act Autopause.noop s = s

unfoldable pub set_manual_pause : Bool → Router → Router
set_manual_pause paused s =
    let (now, action) = Autopause.set_manual_pause paused s.manual_paused in
    act action (record s { manual_paused = now })

abbrev pub put_autopause : Autopause.State → DisplayState → DisplayState
put_autopause a st = record st { autopause = a }

abbrev pub report_on : DisplayId → ℕ → Option DisplayState → Router → Router
report_on d flags none s = s
report_on d flags (some st) s =
    let (a, action) = Autopause.report (resolved_autopause st.info s) flags st.autopause in
    act action (set_display d (put_autopause a) s)

unfoldable pub update_display_window_state : DisplayId → ℕ → Router → Router
update_display_window_state d flags s = report_on d flags (display d s) s

abbrev pub resume_on : DisplayId → ℕ → Option DisplayState → Router → Router
resume_on d gen none s = s
resume_on d gen (some st) s =
    let (a, action) = Autopause.resume gen st.autopause in
    act action (set_display d (put_autopause a) s)

-- The resume task of a display, after its sleep.
unfoldable pub resume_display : DisplayId → ℕ → Router → Router
resume_display d gen s = resume_on d gen (display d s) s
