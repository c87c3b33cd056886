-- ===== src/Routing/Router.antt =====
-- src/routing/router.rs: the state behind the router's lock, and what it sends. A renderer's
-- handle is shared with the thread that reads its socket, so what it holds is a store beside the
-- table; src/renderer_manager.rs fills it. The settings are those of the moment. A display's
-- channel is the list of what was sent on it, the newest first, as are the kills, the events and
-- the controls: the calls of `send_control`, whether they reach the renderer or not. An event's
-- snapshot is left out, its subject kept. The timer of an orphan is its entry.
pub mod Project
pub mod Sync
pub mod Pause
pub mod Formats
pub mod Renderers
pub mod Displays
pub mod Events
pub mod Runs
pub mod Calls
mod Tests
use wwe_modify.Base.{
  ℕ, String, Bool, true, false, not, ◌&&◌, Option, none, some, List, [], ◌∷◌, ℕ_discrete,
}
use wwe_modify.Base.Tests.{◌==◌, if◌then◌else◌, str_discrete}
use wwe_modify.Base.Map.{Map, get, modify}
use wwe_modify.Display.Layout.{F32Ops}
use wwe_modify.Dma.Negotiate.{DrmNode, PeerCaps, NegotiatedScheme}
use wwe_modify.Routing.Autopause
use wwe_modify.Routing.Table.{DisplayId, RendererId, Link, Rgba, RoutingTable}
use wwe_modify.Scheduler.{DisplayInfo, ProjectedConfig}
use wwe_modify.Settings.{Settings, WallpaperLayoutOverride}

pub record BindSnapshot : Type 0 where
  pub generation : ℕ
  pub width : ℕ
  pub height : ℕ
  pub fourcc : ℕ
  pub modifier : ℕ

pub record FrameSnapshot : Type 0 where
  pub buffer_generation : ℕ
  pub buffer_index : ℕ
  pub seq : ℕ
  pub release_point : ℕ

-- What a `RendererHandle` holds at the moment; `advanced` are the release points that its reaper was
-- told to advance to for want of a recipient. `reachable` says that what the manager sends it arrives. `is_image` says that its `wp_type` is "image" in some
-- mix of cases, `latest_frame` is what the method of that name answers.
pub record RendererObject : Type 0 where
  pub reachable : Bool
  pub is_image : Bool
  pub bind_snapshot : Option BindSnapshot
  pub format_caps : Option PeerCaps
  pub current_scheme : Option NegotiatedScheme
  pub latest_frame : Option FrameSnapshot
  pub clear_rgba : Rgba
  pub advanced : List ℕ

-- `bind` names the renderer alone: the endpoint reads the pool from its handle when it comes to the
-- message, which may be a later one than the router noted.
pub data DisplayOutEvent : Type 0 where
  bind : RendererId → DisplayOutEvent
  unbind : ℕ → DisplayOutEvent
  set_config : ProjectedConfig → DisplayOutEvent
  frame : RendererId → FrameSnapshot → ℕ → DisplayOutEvent

pub record DisplayState : Type 0 where
  pub info : DisplayInfo
  pub gpu : DrmNode
  pub sent : List DisplayOutEvent
  pub last_renderer : Option RendererId
  pub last_buffer_generation : Option ℕ
  pub consumer_caps : Option PeerCaps
  pub autopause : Autopause.State

pub data Control : Type 0 where
  play pause : Control

pub data RouterEvent : Type 0 where
  display_upsert : DisplayId → RouterEvent
  display_removed : DisplayId → RouterEvent
  displays_replace : RouterEvent
  renderer_upsert : RendererId → RouterEvent
  renderer_removed : RendererId → RouterEvent

pub record Router : Type 0 where
  pub table : RoutingTable
  pub displays : Map DisplayId DisplayState
  pub paused_renderers : List RendererId
  pub session_locked : Bool
  pub session_inactive : Bool
  pub manual_paused : Bool
  pub orphan_timers : List RendererId
  pub unbind_acks_pending : Map RendererId (List (DisplayId × ℕ))
  pub wallpaper_layout_overrides : Map RendererId WallpaperLayoutOverride
  pub next_display_id : ℕ
  pub next_config_generation : ℕ
  pub settings : Option Settings
  pub objects : RendererId → RendererObject
  pub controls : List (RendererId × Control)
  pub killed : List RendererId
  pub events : List RouterEvent

abbrev pub display : DisplayId → Router → Option DisplayState
display d s = get ℕ_discrete d s.displays

abbrev pub set_display : DisplayId → (DisplayState → DisplayState) → Router → Router
set_display d f s = record s { displays = modify ℕ_discrete d f s.displays }

-- Sets of renderer ids.
pub member : RendererId → List RendererId → Bool
member r [] = false
member r (x ∷ xs) = elim (str_discrete x r) [ yes _ ↦ true | no _ ↦ member r xs ]

pub drop_id : RendererId → List RendererId → List RendererId
drop_id r [] = []
drop_id r (x ∷ xs) =
    let rest = drop_id r xs in elim (str_discrete x r) [ yes _ ↦ rest | no _ ↦ x ∷ rest ]

abbrev pub emit : RouterEvent → Router → Router
emit e s = record s { events = e ∷ s.events }

-- `filter(|l| l.enabled)`.
pub enabled_links : List Link → List Link
enabled_links [] = []
enabled_links (l ∷ ls) = let rest = enabled_links ls in if l.enabled then l ∷ rest else rest

-- `find(|l| l.enabled)`.
pub first_enabled : List Link → Option Link
first_enabled [] = none
first_enabled (l ∷ ls) = let rest = first_enabled ls in if l.enabled then some l else rest
