-- ===== src/Routing/Router/Renderers.antt =====
-- src/routing/router.rs: renderers are registered, taken out, and reaped when nobody watches. A
-- handler's parts run one after the other, as its awaits do when no other handler runs between.
use wwe_modify.Base.{Bool, true, false, not, ◌&&◌, Option, none, some, List, [], ◌∷◌}
use wwe_modify.Base.Tests.{◌==◌, if◌then◌else◌, str_discrete}
use wwe_modify.Base.Lists.{length, contains, is_empty}
use wwe_modify.Base.Map.{remove}
use wwe_modify.Display.Layout.{F32Ops}
use wwe_modify.Routing.Table.{
  DisplayId, RendererId, LinkId, Link, RendererHandle, add_renderer, remove_renderer, renderer_ids,
  links_for_renderer,
}
use wwe_modify.Routing.Router.{
  RendererObject, Router, renderer_removed, displays_replace, emit, enabled_links, drop_id,
}
use wwe_modify.Routing.Router.Sync.{sync_all, known}
use wwe_modify.Routing.Router.Pause.{reconcile_lifecycle}

-- `all(|l| ts.contains(&l.display_id))`.
abbrev all_covered : List DisplayId → List Link → Bool
all_covered ts [] = true
all_covered ts (l ∷ ls) = contains l.display_id ts && all_covered ts ls

abbrev replaced_by : Option (List DisplayId) → List Link → Bool
replaced_by none links = true
replaced_by (some ts) links = all_covered ts links

-- A renderer without enabled links passes too.
pub replaced : Option (List DisplayId) → List RendererId → Router → List RendererId
replaced target [] s = []
replaced target (id ∷ ids) s =
    let rest = replaced target ids s in
    if replaced_by target (enabled_links (links_for_renderer id s.table)) then id ∷ rest else rest

pub renderers_fully_replaced_by : Option (List DisplayId) → Router → List RendererId
unfolding replaced
renderers_fully_replaced_by target s = replaced target (renderer_ids s.table) s

-- The lock's part of `unregister_renderer`.
unfoldable pub forget : RendererId → Router → Router
forget id s = record s {
  table = (remove_renderer id s.table).1;
  wallpaper_layout_overrides = remove str_discrete id s.wallpaper_layout_overrides;
  orphan_timers = drop_id id s.orphan_timers;
  paused_renderers = drop_id id s.paused_renderers;
}

abbrev pub removed_displays : List (LinkId × DisplayId) → List DisplayId
removed_displays [] = []
removed_displays ((_, d) ∷ rest) = d ∷ removed_displays rest

abbrev pub replace_if : Bool → Router → Router
replace_if had s = if had then emit displays_replace s else s

-- The handle's object is the one registered.
unfoldable pub register_renderer : RendererHandle → RendererObject → Router → Router
register_renderer handle object s = reconcile_lifecycle (record s {
  table = add_renderer handle s.table;
  objects = λ rid. elim (str_discrete handle.id rid) [ yes _ ↦ object | no _ ↦ s.objects rid ];
})

-- `HashMap::insert` of the timer; the one before it is aborted.
unfoldable pub schedule_orphan_grace : RendererId → Router → Router
schedule_orphan_grace id s = record s { orphan_timers = id ∷ drop_id id s.orphan_timers }

unfoldable pub cancel_orphan_timer : RendererId → Router → Router
cancel_orphan_timer id s = record s { orphan_timers = drop_id id s.orphan_timers }

abbrev pub is_orphan : RendererId → Router → Bool
is_orphan id s = is_empty (enabled_links (links_for_renderer id s.table))

abbrev kept : Option RendererId → RendererId → Bool
kept none id = false
kept (some k) id = elim (str_discrete id k) [ yes _ ↦ true | no _ ↦ false ]

pub orphans : Option RendererId → List RendererId → Router → List RendererId
orphans keep [] s = []
orphans keep (id ∷ ids) s =
    let rest = orphans keep ids s in
    if not (kept keep id) && is_orphan id s then id ∷ rest else rest

abbrev pub lone_renderer : Router → Bool
lone_renderer s = is_empty s.displays && length (renderer_ids s.table) == 1

abbrev pub cancel_kept : Option RendererId → Router → Router
cancel_kept none s = s
cancel_kept (some k) s = cancel_orphan_timer k s

module _ (ops : F32Ops) where
  unfoldable pub unregister_renderer : RendererId → Router → Router
  unfolding forget
  unregister_renderer id s =
      let affected = removed_displays (remove_renderer id s.table).0 in
      replace_if (not (is_empty affected))
        (reconcile_lifecycle (sync_all ops affected (emit (renderer_removed id) (forget id s))))

  unfoldable pub kill_orphan_now : RendererId → Router → Router
  unfolding unregister_renderer
  kill_orphan_now id s = let s1 = unregister_renderer id s in record s1 { killed = id ∷ s1.killed }

  -- The loop over the candidates.
  unfoldable pub reap : Bool → List RendererId → Router → Router
  unfolding schedule_orphan_grace kill_orphan_now
  reap grace [] s = s
  reap grace (id ∷ ids) s =
      reap grace ids (if grace then schedule_orphan_grace id s else kill_orphan_now id s)

  unfoldable pub mark_orphans : Option RendererId → Router → Router
  unfolding orphans reap cancel_orphan_timer
  mark_orphans keep s =
      cancel_kept keep (reap (lone_renderer s) (orphans keep (renderer_ids s.table) s) s)

  unfoldable pub mark_orphan : RendererId → Router → Router
  unfolding schedule_orphan_grace kill_orphan_now
  mark_orphan id s = if lone_renderer s then schedule_orphan_grace id s else kill_orphan_now id s

  -- A timer that fires.
  unfoldable pub fire_orphan_reap : RendererId → Router → Router
  unfolding kill_orphan_now
  fire_orphan_reap id s =
      let s1 = record s { orphan_timers = drop_id id s.orphan_timers } in
      if not (known id s1) then s1 else if not (is_orphan id s1) then s1 else kill_orphan_now id s1

  unfoldable pub stop_renderers : List RendererId → Router → Router
  unfolding kill_orphan_now
  stop_renderers [] s = s
  stop_renderers (id ∷ ids) s = stop_renderers ids (kill_orphan_now id s)
