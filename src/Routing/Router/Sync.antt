-- ===== src/Routing/Router/Sync.antt =====
-- src/routing/router.rs: the core that brings a display in line with its link (sync_display), and
-- the configs sent again to it.
pub mod Stream
pub mod Targets
use wwe_modify.Base.{
  ℕ, ◌+◌, ◌%◌, ◌^◌, String, Bool, true, false, not, ◌&&◌, ◌||◌, Option, none, some, List, [], ◌∷◌,
  ◌++◌, ℕ_discrete,
}
use wwe_modify.Base.Tests.{◌==◌, if◌then◌else◌, str_discrete, is_some}
use wwe_modify.Base.Lists.{length}
use wwe_modify.Base.Map.{Map, get, insert, modify, keys}
use wwe_modify.Display.Layout.{F32Ops}
use wwe_modify.Dma.Negotiate.{NegotiatedScheme, PeerCaps, Result, ok, err, pick, blacklisted}
use wwe_modify.Routing.Table.{
  DisplayId, RendererId, LinkId, Link, Rgba, get_renderer, renderer_ids, links_for_display,
  links_for_renderer, update_link_geometry, get_link,
}
use wwe_modify.Routing.Router.{
  BindSnapshot, FrameSnapshot, RendererObject, DisplayOutEvent, bind, unbind, set_config, frame,
  DisplayState, Router, RouterEvent, renderer_upsert, display_upsert, display, set_display, emit,
  enabled_links, first_enabled,
}
use wwe_modify.Scheduler.{ProjectedConfig}
use wwe_modify.Routing.Router.Project.{project_link, resolved_layout_for_renderer}

-- The generation of the pool that a renderer has bound.
abbrev pub generation_of : RendererObject → Option ℕ
generation_of o = elim o.bind_snapshot [ none ↦ none | some b ↦ some b.generation ]

abbrev pub known : RendererId → Router → Bool
known r s = is_some (get_renderer r s.table)

abbrev with_generation : Link → Option ℕ → Option (Link × ℕ)
with_generation l none = none
with_generation l (some g) = some (l, g)

abbrev ready : Router → Option Link → Option (Link × ℕ)
ready s none = none
ready s (some l) =
    if known l.renderer_id s
    then with_generation l (generation_of (s.objects l.renderer_id))
    else none

-- The display's enabled link, if its renderer is known and has bound a pool.
unfoldable pub target_of : DisplayId → Router → Option (Link × ℕ)
target_of d s = ready s (first_enabled (links_for_display d s.table))

-- `RendererHandle::scheme_satisfied`.
unfoldable pub scheme_satisfied : RendererObject → Bool
scheme_satisfied o = elim o.current_scheme [
  | none ↦ false
  | some scheme ↦ elim o.bind_snapshot [
    | none ↦ false
    | some b ↦ b.fourcc == scheme.fourcc && b.modifier == scheme.modifier
  ]
]

-- Both sides negotiate, and the pool bound is not what was negotiated.
unfoldable pub gated : Option (Link × ℕ) → DisplayState → Router → Bool
unfolding scheme_satisfied
gated none st s = false
gated (some (l, g)) st s =
    let o = s.objects l.renderer_id in
    is_some o.format_caps && is_some st.consumer_caps && not (scheme_satisfied o)

abbrev pub same_id : RendererId → RendererId → Bool
same_id a b = elim (str_discrete a b) [ yes _ ↦ true | no _ ↦ false ]

pub needs_update : Option RendererId → Option ℕ → Option (Link × ℕ) → Bool
needs_update (some r) (some g) (some (l, h)) = not (same_id r l.renderer_id) || not (g == h)
needs_update none none none = false
needs_update _ _ _ = true

-- The prior pool is retired.
abbrev pub retire : DisplayState → DisplayState
retire st = elim st.last_buffer_generation [
  | none ↦ st
  | some g ↦ record st { sent = unbind g ∷ st.sent }
]

-- `HashSet::insert` of a pair.
pub add_pair : DisplayId × ℕ → List (DisplayId × ℕ) → List (DisplayId × ℕ)
add_pair p [] = p ∷ []
add_pair p (q ∷ qs) =
    let rest = add_pair p qs in if p.0 == q.0 && p.1 == q.1 then q ∷ qs else q ∷ rest

-- An unbind for a renderer that is being torn down awaits its answer.
pub await_unbind : DisplayId → Option RendererId → Option ℕ → Router → Router
unfolding add_pair
await_unbind d (some r) (some g) s = record s {
  unbind_acks_pending = modify str_discrete r (add_pair (d, g)) s.unbind_acks_pending;
}
await_unbind d _ _ s = s

-- An image renderer's last frame is shown again on its new display.
abbrev replay_of : RendererId → ℕ → RendererObject → List DisplayOutEvent
replay_of r g o =
    if o.is_image
    then (elim o.latest_frame as (λ _. List DisplayOutEvent) [
      | none ↦ []
      | some f ↦ if f.buffer_generation == g then frame r f 1 ∷ [] else []
    ])
    else []

-- `tx.send(SetConfig(cfg))`, of a config that was computed before.
pub tell : DisplayId → ProjectedConfig → Router → Router
tell d cfg s = set_display d (λ st. record st { sent = set_config cfg ∷ st.sent }) s

module _ (ops : F32Ops) where
  -- The new pool is bound.
  pub bind_new : Link → ℕ → DisplayState → Router → DisplayState
  bind_new l g st s =
      let o = s.objects l.renderer_id in
      let cfg =
        project_link ops l o st.info s.next_config_generation
          (resolved_layout_for_renderer ops st.info l.renderer_id s) in
      record st {
        sent = replay_of l.renderer_id g o ++ set_config cfg ∷ bind l.renderer_id ∷ st.sent;
        last_renderer = some l.renderer_id;
        last_buffer_generation = some g;
      }

  -- `inner.next_config_generation += 1`.
  abbrev pub next_config : Router → Router
  next_config s = record s { next_config_generation = (s.next_config_generation + 1) % 2 ^ 64 }

  pub rebind : DisplayId → Option (Link × ℕ) → Router → Router
  unfolding bind_new
  rebind d none s =
      set_display d (λ st. record st { last_renderer = none; last_buffer_generation = none }) s
  rebind d (some (l, g)) s = let s1 = next_config s in set_display d (λ st. bind_new l g st s1) s1

  -- The part of `sync_display` for a display that is known.
  pub sync_found : DisplayId → DisplayState → Option (Link × ℕ) → Router → Router
  unfolding gated needs_update await_unbind rebind
  sync_found d st target s =
      if gated target st s
      then s
      else if not (needs_update st.last_renderer st.last_buffer_generation target)
      then s
      else rebind d target
          (await_unbind d st.last_renderer st.last_buffer_generation (set_display d retire s))

  pub sync_display : DisplayId → Router → Router
  unfolding sync_found target_of
  sync_display d s = elim (display d s) [ none ↦ s | some st ↦ sync_found d st (target_of d s) s ]

  unfoldable pub sync_all : List DisplayId → Router → Router
  unfolding sync_display
  sync_all [] s = s
  sync_all (d ∷ ds) s = sync_all ds (sync_display d s)

  -- A config computed and sent in one section.
  pub send_config : DisplayId → Link → Router → Router
  send_config d l s =
      let s1 = next_config s in
      set_display d
        (λ st. record st {
          sent =
              set_config (
                project_link ops l (s1.objects l.renderer_id) st.info s1.next_config_generation
                  (resolved_layout_for_renderer ops st.info l.renderer_id s1))
              ∷ st.sent;
        })
        s1

  abbrev pub resync_target : DisplayId → Option (Link × ℕ) → Router → Router
  resync_target d none s = s
  resync_target d (some (l, _)) s = send_config d l s

  pub resync_display_set_config : DisplayId → Router → Router
  unfolding send_config target_of
  resync_display_set_config d s =
      if is_some (display d s) then resync_target d (target_of d s) s else s

  unfoldable pub resync_all : List DisplayId → Router → Router
  unfolding resync_display_set_config
  resync_all [] s = s
  resync_all (d ∷ ds) s = resync_all ds (resync_display_set_config d s)

  unfoldable pub resync_all_set_configs : Router → Router
  unfolding resync_all
  resync_all_set_configs s = resync_all (keys s.displays) s
