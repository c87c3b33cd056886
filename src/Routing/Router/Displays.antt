-- ===== src/Routing/Router/Displays.antt =====
-- src/routing/router.rs: displays come and go, and are linked to another renderer.
use wwe_modify.Base.{
  ℕ, ◌+◌, ◌%◌, ◌^◌, String, Bool, true, false, ◌&&◌, ◌||◌, Option, none, some, List, [], ◌∷◌,
  ℕ_discrete,
}
use wwe_modify.Base.Tests.{◌==◌, if◌then◌else◌, str_discrete, is_some}
use wwe_modify.Base.Lists.{is_empty}
use wwe_modify.Base.Map.{insert, remove, keys}
use wwe_modify.Display.Layout.{F32Ops}
use wwe_modify.Routing.Table.{
  DisplayId, RendererId, LinkId, Link, LinkRect, Rgba, RoutingTable, first_renderer,
  links_for_display, add_link, get_link, remove_links, remove_display, update_link_geometry,
}
use wwe_modify.Routing.Router.{
  DisplayState, Router, display_upsert, display_removed, displays_replace, display, set_display,
  emit,
}
use wwe_modify.Dma.Negotiate.{DrmNode, PeerCaps}
use wwe_modify.Base.Words.{ℤ}
use wwe_modify.Scheduler.{ProjectedConfig}
use wwe_modify.Routing.Router.Project.{project_link, resolved_layout_for_renderer}
use wwe_modify.Routing.Autopause
use wwe_modify.Routing.Router.Sync.{
  tell, next_config, sync_display, sync_all, resync_display_set_config, same_id, known,
}
use wwe_modify.Routing.Router.Pause.{reconcile_lifecycle}
use wwe_modify.Routing.Router.Formats.{reconcile_buffer_flags}
use wwe_modify.Routing.Router.Renderers.{mark_orphans, cancel_orphan_timer}
use wwe_modify.Settings.{Settings, display_prefs}

pub record DisplayRegistration : Type 0 where
  pub name : String
  pub instance_id : Option String
  pub width : ℕ
  pub height : ℕ
  pub refresh_mhz : ℕ
  pub properties : List (String × String)
  pub gpu : DrmNode
  pub consumer_caps : Option PeerCaps

-- The one-time migration: an instance id without an entry gets the name's.
unfoldable pub migrate : Option String → String → Settings → Settings
migrate none name t = t
migrate (some iid) name t =
    if is_some (display_prefs iid t) then t else (elim (display_prefs name t) [
      | none ↦ t
      | some legacy ↦ record t { displays = insert str_discrete iid legacy t.displays }
    ])

abbrev pub migrate_settings : DisplayRegistration → Option Settings → Option Settings
unfolding migrate
migrate_settings reg none = none
migrate_settings reg (some t) = some (migrate reg.instance_id reg.name t)

unfoldable pub new_state : DisplayId → DisplayRegistration → DisplayState
new_state d reg = record {
  info = record {
    id = d;
    name = reg.name;
    instance_id = reg.instance_id;
    width = reg.width;
    height = reg.height;
    refresh_mhz = reg.refresh_mhz;
    properties = reg.properties;
    bound = false;
  };
  gpu = reg.gpu;
  sent = [];
  last_renderer = none;
  last_buffer_generation = none;
  consumer_caps = reg.consumer_caps;
  autopause = Autopause.new;
}

-- `inner.next_display_id += 1`.
abbrev pub fresh_display : Router → DisplayId
fresh_display s = (s.next_display_id + 1) % 2 ^ 64

unfoldable pub insert_display : DisplayRegistration → Router → Router
unfolding new_state
insert_display reg s =
    let d = fresh_display s in
    record s {
      settings = migrate_settings reg s.settings;
      next_display_id = d;
      displays = insert ℕ_discrete d (new_state d reg) s.displays;
    }

-- The new display is linked to the first renderer, which then has an audience.
unfoldable pub auto_link : DisplayId → Option RendererId → Router → Router
auto_link d none s = s
auto_link d (some r) s = cancel_orphan_timer r (record s { table = (add_link r d s.table).1 })

-- `snapshot_display` finds a display that is there.
abbrev pub upsert : DisplayId → Router → Router
upsert d s = if is_some (display d s) then emit (display_upsert d) s else s

-- The links of `remove_link` in the loops below.
abbrev link_ids : List Link → List LinkId
link_ids [] = []
link_ids (l ∷ ls) = l.id ∷ link_ids ls

-- A display's links go, and the new one comes.
pub relink : RendererId → DisplayId → RoutingTable → RoutingTable
relink r d t = (add_link r d (remove_links (link_ids (links_for_display d t)) t)).1

-- The loop over the displays that are known, which are noted.
unfoldable pub relink_each : RendererId → List DisplayId → Router → List DisplayId × Router
unfolding relink
relink_each r [] s = ([], s)
relink_each r (d ∷ ds) s =
    if is_some (display d s)
    then (let (out, s1) = relink_each r ds (record s { table = relink r d s.table }) in
        (d ∷ out, s1))
    else relink_each r ds s

abbrev pub replace_unless : List DisplayId → Router → Router
replace_unless ds s = if is_empty ds then s else emit displays_replace s

unfoldable pub forget_display : DisplayId → Router → Router
forget_display d s = record s {
  displays = remove ℕ_discrete d s.displays;
  table = (remove_display d s.table).1;
}

abbrev pub set_size : ℕ → ℕ → DisplayState → DisplayState
set_size width height st = record st { info = record st.info { width = width; height = height } }

abbrev pub bound_to : RendererId → DisplayState → Bool
bound_to r st = elim st.last_renderer [ none ↦ false | some b ↦ same_id b r ]

module _ (ops : F32Ops) where
  unfoldable pub register_display : DisplayRegistration → Router → DisplayId × Router
  unfolding insert_display auto_link
  register_display reg s =
      let d = fresh_display s in
      let s1 = insert_display reg s in
      let s2 = auto_link d (first_renderer s1.table) s1 in
      (d, upsert d (reconcile_buffer_flags (reconcile_lifecycle (sync_display ops d s2))))

  unfoldable pub unregister_display : DisplayId → Router → Router
  unfolding forget_display
  unregister_display d s =
      emit (display_removed d)
        (reconcile_buffer_flags (reconcile_lifecycle (mark_orphans ops none (forget_display d s))))

  -- What follows once the links stand.
  unfoldable pub relinked : RendererId → List DisplayId → Router → Router
  relinked r applied s = replace_unless applied (
      reconcile_buffer_flags
        (mark_orphans ops (some r) (reconcile_lifecycle (sync_all ops applied s))))

  unfoldable pub relink_displays_to : List DisplayId → RendererId → Router → Router
  unfolding relink_each relinked
  relink_displays_to ds r s = let (applied, s1) = relink_each r ds s in relinked r applied s1

  unfoldable pub relink_all_displays_to : RendererId → Router → Router
  unfolding relink_displays_to
  relink_all_displays_to r s = relink_displays_to (keys s.displays) r s

  abbrev pub resize : DisplayId → ℕ → ℕ → Option DisplayState → Router → Router
  resize d width height none s = s
  resize d width height (some st) s =
      let s1 = set_display d (set_size width height) s in
      upsert d (
        if st.info.width == width && st.info.height == height
        then s1
        else resync_display_set_config ops d s1)

  unfoldable pub update_display_size : DisplayId → ℕ → ℕ → Router → Router
  update_display_size d width height s =
      if width == 0 || height == 0 then s else resize d width height (display d s) s

  -- Whether the link is found, the config that it asks for, and the counter after it.
  abbrev pub config_if_bound :
      Link → Option DisplayState → Router → Bool × Option (DisplayId × ProjectedConfig) × Router
  config_if_bound l none s = (false, none, s)
  config_if_bound l (some st) s =
      let s1 = next_config ops s in
      let layout = resolved_layout_for_renderer ops st.info l.renderer_id s1 in
      let cfg =
        project_link ops l (s1.objects l.renderer_id) st.info s1.next_config_generation layout in
      if bound_to l.renderer_id st then (true, some (l.display_id, cfg), s1) else (true, none, s)

  abbrev pub config_for :
      Option Link → Router → Bool × Option (DisplayId × ProjectedConfig) × Router
  config_for none s = (false, none, s)
  config_for (some l) s =
      if known l.renderer_id s
      then config_if_bound l (display l.display_id s) s
      else (false, none, s)

  -- The first section: the link is changed, and the config of its display computed.
  unfoldable pub change_link_geometry :
      LinkId
      → Option LinkRect
      → Option LinkRect
      → Option ℕ
      → Option Rgba
      → Option ℤ
      → Router
      → Bool × Option (DisplayId × ProjectedConfig) × Router
  change_link_geometry lid src dst transform clear_rgba z_order s =
      let (changed, t) = update_link_geometry lid src dst transform clear_rgba z_order s.table in
      let s1 = record s { table = t } in
      if changed then config_for (get_link lid t) s1 else (false, none, s1)

  -- The second section, in which the config is sent, and the event.
  abbrev pub tell_payload : Option (DisplayId × ProjectedConfig) → Router → Router
  tell_payload none s = s
  tell_payload (some (d, cfg)) s = upsert d (tell d cfg s)

  -- The sections where no other comes between; Runs has them apart.
  unfoldable pub set_link_geometry :
      LinkId
      → Option LinkRect
      → Option LinkRect
      → Option ℕ
      → Option Rgba
      → Option ℤ
      → Router
      → Bool × Router
  unfolding change_link_geometry
  set_link_geometry lid src dst transform clear_rgba z_order s =
      let (changed, payload, s1) =
        change_link_geometry lid src dst transform clear_rgba z_order s in
      (changed, tell_payload payload s1)
