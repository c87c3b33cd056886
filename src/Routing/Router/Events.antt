-- ===== src/Routing/Router/Events.antt =====
-- src/routing/router.rs: what the router does on an event of a renderer, and the tracking of the
-- answers to an unbind.
pub mod Frames
use wwe_modify.Base.{
  ℕ, ◌+◌, ◌%◌, ◌^◌, String, Bool, true, false, not, ◌&&◌, ◌||◌, Option, none, some, List, [], ◌∷◌,
  ◌++◌, ℕ_discrete,
}
use wwe_modify.Base.Tests.{◌==◌, if◌then◌else◌, str_discrete, is_some}
use wwe_modify.Base.Lists.{length, contains, is_empty}
use wwe_modify.Base.Map.{Map, get, insert, remove, modify, keys, map_values}
use wwe_modify.Display.Layout.{F32Ops}
use wwe_modify.Routing.Table.{
  DisplayId, RendererId, LinkId, Link, LinkRect, Rgba, RendererHandle, RoutingTable, add_renderer,
  remove_renderer, get_renderer, renderer_ids, first_renderer, links_for_display,
  links_for_renderer, add_link, get_link, remove_link, remove_links, remove_display,
  update_link_geometry,
}
use wwe_modify.Routing.Router.{
  BindSnapshot, FrameSnapshot, RendererObject, DisplayOutEvent, frame, set_config, DisplayState,
  Control, play, pause, Router, RouterEvent, renderer_upsert, renderer_removed, display_upsert,
  display_removed, displays_replace, display, set_display, emit, enabled_links, member, drop_id,
}
use wwe_modify.Routing.Router.Sync.{sync_all, resync_all, generation_of, same_id}
use wwe_modify.Routing.Router.Formats.{reconcile_buffer_flags, set_object}
use wwe_modify.Routing.Router.Displays.{replace_unless}
use wwe_modify.Settings.{WallpaperLayoutOverride, override_is_empty}

abbrev pub watchers : List Link → List DisplayId
watchers [] = []
watchers (l ∷ ls) = l.display_id ∷ watchers ls

-- The displays of the renderer's enabled links.
abbrev pub audience : RendererId → Router → List DisplayId
audience r s = watchers (enabled_links (links_for_renderer r s.table))

abbrev pub shows_pool : RendererId → ℕ → Option RendererId → Option ℕ → Bool
shows_pool r g (some b) (some h) = h == g && same_id b r
shows_pool r g _ _ = false

-- The display has bound this pool of this renderer.
abbrev pub shows : RendererId → ℕ → Option DisplayState → Bool
shows r g none = false
shows r g (some st) = shows_pool r g st.last_renderer st.last_buffer_generation

pub recipients : RendererId → ℕ → List DisplayId → Router → List DisplayId
recipients r g [] s = []
recipients r g (d ∷ ds) s =
    let rest = recipients r g ds s in if shows r g (display d s) then d ∷ rest else rest

abbrev pub deliver : DisplayOutEvent → DisplayState → DisplayState
deliver e st = record st { sent = e ∷ st.sent }

pub send_each : DisplayOutEvent → List DisplayId → Router → Router
send_each e [] s = s
send_each e (d ∷ ds) s = send_each e ds (set_display d (deliver e) s)

-- A record without a recipient: the reaper signals its point itself.
abbrev pub advance : ℕ → RendererObject → RendererObject
advance release_point o = record o { advanced = release_point ∷ o.advanced }

-- The two passes, for the pool that is bound.
pub fan_out : RendererId → FrameSnapshot → List DisplayId → Router → Router
unfolding send_each
fan_out r f ds s =
    let expected_count = length ds % 2 ^ 32 in
    if expected_count == 0
    then set_object r (advance f.release_point) s
    else send_each (frame r f expected_count) ds s

pub on_renderer_frame : RendererId → ℕ → ℕ → ℕ → Router → Router
unfolding fan_out recipients
on_renderer_frame r buffer_index seq release_point s =
    if is_some (get_renderer r s.table)
    then (elim (generation_of (s.objects r)) [
      | none ↦ s
      | some g ↦
          fan_out r
            (record {
              buffer_generation = g;
              buffer_index = buffer_index;
              seq = seq;
              release_point = release_point;
            })
            (recipients r g (audience r s) s) s
    ])
    else s

-- `entry(..).or_insert_with(HashSet::new)`.
pub begin_unbind_ack_tracking : RendererId → Router → Router
begin_unbind_ack_tracking r s = elim (get str_discrete r s.unbind_acks_pending) [
  | none ↦ record s { unbind_acks_pending = insert str_discrete r [] s.unbind_acks_pending }
  | some _ ↦ s
]

-- `HashSet::remove` of a pair.
pub drop_pair : DisplayId × ℕ → List (DisplayId × ℕ) → List (DisplayId × ℕ)
drop_pair p [] = []
drop_pair p (q ∷ qs) =
    let rest = drop_pair p qs in if p.0 == q.0 && p.1 == q.1 then rest else q ∷ rest

pub record_unbind_done : DisplayId → ℕ → Router → Router
unfolding drop_pair
record_unbind_done d g s = record s {
  unbind_acks_pending = map_values (drop_pair (d, g)) s.unbind_acks_pending;
}

-- The test in the loop of `await_unbind_acks_for`: there is nothing to wait for.
pub acks_done : RendererId → Router → Bool
acks_done r s = elim (get str_discrete r s.unbind_acks_pending) [
  | none ↦ true
  | some pairs ↦ is_empty pairs
]

-- What it does when the wait has ended, with the answers or without.
pub end_unbind_ack_tracking : RendererId → Router → Router
end_unbind_ack_tracking r s = record s {
  unbind_acks_pending = remove str_discrete r s.unbind_acks_pending;
}

module _ (ops : F32Ops) where
  abbrev pub upsert_renderer : RendererId → Router → Router
  upsert_renderer r s = if is_some (get_renderer r s.table) then emit (renderer_upsert r) s else s

  unfoldable pub on_renderer_bind : RendererId → Router → Router
  on_renderer_bind r s = upsert_renderer r (reconcile_buffer_flags (sync_all ops (audience r s) s))

  -- The loop over the links: those whose colour changes are noted.
  pub recolour : Rgba → List Link → RoutingTable → List DisplayId × RoutingTable
  recolour c [] t = ([], t)
  recolour c (l ∷ ls) t =
      let (changed, t1) = update_link_geometry l.id none none none (some c) none t in
      let (out, t2) = recolour c ls t1 in
      (
        (if changed
            then (elim (get_link l.id t1) [ none ↦ out | some k ↦ k.display_id ∷ out ])
            else out),
        t2,
      )

  unfoldable pub on_renderer_state_changed : RendererId → Router → Router
  unfolding recolour
  on_renderer_state_changed r s =
      if is_some (get_renderer r s.table)
      then (let (affected, t) =
            recolour (s.objects r).clear_rgba (links_for_renderer r s.table) s.table in
          resync_all ops affected (record s { table = t }))
      else s

  abbrev pub put_override : RendererId → WallpaperLayoutOverride → Router → Router
  put_override r layout s = record s {
    wallpaper_layout_overrides =
        if override_is_empty layout
        then remove str_discrete r s.wallpaper_layout_overrides
        else insert str_discrete r layout s.wallpaper_layout_overrides;
  }

  unfoldable pub set_renderer_wallpaper_layout_override :
      RendererId → WallpaperLayoutOverride → Router → Bool × Router
  set_renderer_wallpaper_layout_override r layout s =
      if is_some (get_renderer r s.table)
      then (
        true,
        replace_unless (audience r s) (resync_all ops (audience r s) (put_override r layout s)),
      )
      else (false, s)
