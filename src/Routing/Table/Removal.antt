-- ===== src/Routing/Table/Removal.antt =====
-- `remove_renderer` and `remove_display` on a consistent table.
use wwe_modify.Base.{none, [], ◌≡◌, arith, ℕ_discrete, ite, if_pos, if_neg}
use wwe_modify.Base.Tests.{◌==◌, if◌then◌else◌, str_discrete}
use wwe_modify.Base.Lists.{contains}
use wwe_modify.Base.Map.{get-remove}
use wwe_modify.Routing.Table.Unlink.{shows, drives, stored}
use wwe_modify.Routing.Table.Loops.{
  LeftDisplays, drop_from_displays-LeftDisplays, LeftRenderers, drop_from_renderers-LeftRenderers,
}
use wwe_modify.Routing.Table.{
  LinkId, DisplayId, RendererId, RoutingTable, display_ids, renderer_links, forget_renderer,
  remove_renderer, forget_display, remove_display,
}
use wwe_modify.Routing.Table.Consistency.{IsConsistent}

module _ (r : RendererId) (t : RoutingTable) where
  pub remove_renderer-LeftDisplays :
      LeftDisplays (renderer_links r t) (forget_renderer r t) (remove_renderer r t).1
  unfolding remove_renderer
  remove_renderer-LeftDisplays =
      drop_from_displays-LeftDisplays (renderer_links r t) [] (forget_renderer r t)

  module _ (c : IsConsistent t) where
    -- No link from the renderer is left, and every other link is as it was.
    pub stored-remove_renderer :
        (j : LinkId)
        → stored j (remove_renderer r t).1 ≡ (if drives r (stored j t) then none else stored j t)
    unfolding forget_renderer
    stored-remove_renderer j =
        ground (arith, remove_renderer-LeftDisplays.store j, c.renderer_exact j r)

    pub renderer_links-remove_renderer :
        (r' : RendererId)
        → renderer_links r' (remove_renderer r t).1
          ≡ ite (str_discrete r r') [] (renderer_links r' t)
    unfolding forget_renderer
    renderer_links-remove_renderer r' = ground (
      arith,
      remove_renderer-LeftDisplays.by_renderer,
      get-remove str_discrete r' r t.by_renderer,
    )

    renderer_links-remove_renderer_exact :
        (j : LinkId) (r' : RendererId)
        → contains j (renderer_links r' (remove_renderer r t).1)
          ≡ drives r' (stored j (remove_renderer r t).1)
    unfolding contains
    renderer_links-remove_renderer_exact j r' =
        rw (renderer_links-remove_renderer r', stored-remove_renderer j)
          (elim (str_discrete r r') [
            | yes p ↦ rw (if_pos _ p) (ground (arith, p))
            | no p ↦ rw (if_neg _ p) (ground (arith, p, c.renderer_exact j r'))
          ])

    pub remove_renderer-IsConsistent : IsConsistent (remove_renderer r t).1
    unfolding forget_renderer
    remove_renderer-IsConsistent = record {
      keyed = λ j l e.
          ground (arith, stored-remove_renderer j, c.keyed j l, remove_renderer-LeftDisplays.next);
      display_exact = λ j d. ground (
        arith,
        stored-remove_renderer j,
        remove_renderer-LeftDisplays.display j d,
        c.display_exact j d,
        c.renderer_exact j r,
      );
      renderer_exact = renderer_links-remove_renderer_exact;
      single = λ d. omega (arith, remove_renderer-LeftDisplays.shorter d, c.single d);
    }

module _ (d : DisplayId) (t : RoutingTable) where
  pub remove_display-LeftRenderers :
      LeftRenderers (display_ids d t) (forget_display d t) (remove_display d t).1
  unfolding remove_display
  remove_display-LeftRenderers =
      drop_from_renderers-LeftRenderers (display_ids d t) [] (forget_display d t)

  display_ids-remove_display :
      (d' : DisplayId)
      → display_ids d' (remove_display d t).1 ≡ (if d == d' then [] else display_ids d' t)
  unfolding forget_display
  display_ids-remove_display d' =
      ground
        (arith, remove_display-LeftRenderers.by_display, get-remove ℕ_discrete d' d t.by_display)

  module _ (c : IsConsistent t) where
    pub stored-remove_display :
        (j : LinkId)
        → stored j (remove_display d t).1 ≡ (if shows d (stored j t) then none else stored j t)
    unfolding forget_display
    stored-remove_display j =
        ground (arith, remove_display-LeftRenderers.store j, c.display_exact j d)

    pub remove_display-IsConsistent : IsConsistent (remove_display d t).1
    unfolding forget_display contains
    remove_display-IsConsistent = record {
      keyed = λ j l e.
          ground (arith, stored-remove_display j, c.keyed j l, remove_display-LeftRenderers.next);
      display_exact = λ j d'.
          ground
            (arith, stored-remove_display j, display_ids-remove_display d', c.display_exact j d');
      renderer_exact = λ j r. ground (
        arith,
        stored-remove_display j,
        remove_display-LeftRenderers.renderer j r,
        c.renderer_exact j r,
        c.display_exact j d,
      );
      single = λ d'. ground (arith, display_ids-remove_display d', c.single d');
    }
