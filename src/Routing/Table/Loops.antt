-- ===== src/Routing/Table/Loops.antt =====
-- What the three removal loops leave of the link store and of the two indexes, at every key.
use wwe_modify.Base.{
  not, ◌&&◌, none, some, List, [], ◌∷◌, ◌++◌, ◌≡◌, refl, ◌∙◌, arith, inl, inr, ◌≤◌,
}
use wwe_modify.Base.Tests.{if◌then◌else◌, Option-cases}
use wwe_modify.Base.Lists.{contains, length}
use wwe_modify.Routing.Table.Unlink.{
  shows, drives, stored, stored-remove_link, display_ids-remove_link, renderer_links-remove_link,
  length-remove_link-le, next-remove_link, stored-leave_display, display_ids-leave_display,
  length-leave_display-le, stored-leave_renderer, renderer_links-leave_renderer,
}
use wwe_modify.Routing.Table.{
  Link, LinkId, DisplayId, RendererId, RoutingTable, display_ids, renderer_links, remove_link,
  remove_links, leave_display, leave_renderer, drop_from_displays, drop_from_renderers,
}

pub stored-remove_links :
    (j : LinkId) (ids : List LinkId) (t : RoutingTable)
    → stored j (remove_links ids t) ≡ (if contains j ids then none else stored j t)
unfolding remove_links contains
stored-remove_links j [] t = refl
stored-remove_links j (lid ∷ ids) t =
    ground (arith, stored-remove_links j ids (remove_link lid t).1, stored-remove_link lid t j)

pub display_ids-remove_links :
    (j : LinkId) (d : DisplayId) (ids : List LinkId) (t : RoutingTable)
    → contains j (display_ids d (remove_links ids t))
      ≡ (contains j (display_ids d t) && not (contains j ids && shows d (stored j t)))
unfolding remove_links contains
display_ids-remove_links j d [] t = ground arith
display_ids-remove_links j d (lid ∷ ids) t = ground (
  arith,
  display_ids-remove_links j d ids (remove_link lid t).1,
  stored-remove_link lid t j,
  display_ids-remove_link lid t j d,
)

pub renderer_links-remove_links :
    (j : LinkId) (r : RendererId) (ids : List LinkId) (t : RoutingTable)
    → contains j (renderer_links r (remove_links ids t))
      ≡ (contains j (renderer_links r t) && not (contains j ids && drives r (stored j t)))
unfolding remove_links contains
renderer_links-remove_links j r [] t = ground arith
renderer_links-remove_links j r (lid ∷ ids) t = ground (
  arith,
  renderer_links-remove_links j r ids (remove_link lid t).1,
  stored-remove_link lid t j,
  renderer_links-remove_link lid t j r,
)

pub length-remove_links-le :
    (d : DisplayId) (ids : List LinkId) (t : RoutingTable)
    → length (display_ids d (remove_links ids t)) ≤ length (display_ids d t)
unfolding remove_links
length-remove_links-le d [] t = omega arith
length-remove_links-le d (lid ∷ ids) t =
    omega (arith, length-remove_links-le d ids (remove_link lid t).1, length-remove_link-le lid t d)

pub next-remove_links :
    (ids : List LinkId) (t : RoutingTable) → (remove_links ids t).next_link_id ≡ t.next_link_id
unfolding remove_links
next-remove_links [] t = refl
next-remove_links (lid ∷ ids) t =
    next-remove_links ids (remove_link lid t).1 ∙ next-remove_link lid t

-- What the loop of `remove_renderer` over `ids` makes of a table.
pub record LeftDisplays (ids : List LinkId) (t u : RoutingTable) : Type 0 where
  pub store : (j : LinkId) → stored j u ≡ (if contains j ids then none else stored j t)
  pub display :
      (j : LinkId) (d : DisplayId)
      → contains j (display_ids d u)
        ≡ (contains j (display_ids d t) && not (contains j ids && shows d (stored j t)))
  pub shorter : (d : DisplayId) → length (display_ids d u) ≤ length (display_ids d t)
  pub by_renderer : u.by_renderer ≡ t.by_renderer
  pub renderers : u.renderers ≡ t.renderers
  pub next : u.next_link_id ≡ t.next_link_id

LeftDisplays-none :
    (lid : LinkId) (ids : List LinkId) (t u : RoutingTable)
    → stored lid t ≡ none
    → LeftDisplays ids t u
    → LeftDisplays (lid ∷ ids) t u
unfolding contains
LeftDisplays-none lid ids t u e h = record {
  store = λ j. ground (arith, h.store j);
  display = λ j d. ground (arith, h.display j d);
  shorter = h.shorter;
  by_renderer = h.by_renderer;
  renderers = h.renderers;
  next = h.next;
}

LeftDisplays-some :
    (lid : LinkId) (l : Link) (ids : List LinkId) (t u : RoutingTable)
    → stored lid t ≡ some l
    → LeftDisplays ids (leave_display lid l t) u
    → LeftDisplays (lid ∷ ids) t u
unfolding contains
LeftDisplays-some lid l ids t u e h = record {
  store = λ j. ground (arith, h.store j, stored-leave_display lid l t e j);
  display = λ j d. ground (
    arith,
    h.display j d,
    stored-leave_display lid l t e j,
    display_ids-leave_display lid l t e j d,
  );
  shorter = λ d. omega (arith, h.shorter d, length-leave_display-le lid l t e d);
  by_renderer = unfold leave_display in h.by_renderer;
  renderers = unfold leave_display in h.renderers;
  next = unfold leave_display in h.next;
}

pub drop_from_displays-LeftDisplays :
    (ids : List LinkId) (out : List (LinkId × DisplayId)) (t : RoutingTable)
    → LeftDisplays ids t (drop_from_displays ids out t).1
unfolding drop_from_displays contains
drop_from_displays-LeftDisplays [] out t = record {
  store = λ j. refl;
  display = λ j d. ground arith;
  shorter = λ d. omega arith;
  by_renderer = refl;
  renderers = refl;
  next = refl;
}
drop_from_displays-LeftDisplays (lid ∷ ids) out t = elim (Option-cases (stored lid t)) [
  | inl e ↦
      rw (e, drop_from_displays)
        (LeftDisplays-none lid ids t _ e (drop_from_displays-LeftDisplays ids out t))
  | inr (l, e) ↦
      rw (e, drop_from_displays)
        (LeftDisplays-some lid l ids t _ e (
          drop_from_displays-LeftDisplays ids (out ++ (lid, l.display_id) ∷ [])
            (leave_display lid l t)))
]

-- What the loop of `remove_display` over `ids` makes of a table.
pub record LeftRenderers (ids : List LinkId) (t u : RoutingTable) : Type 0 where
  pub store : (j : LinkId) → stored j u ≡ (if contains j ids then none else stored j t)
  pub renderer :
      (j : LinkId) (r : RendererId)
      → contains j (renderer_links r u)
        ≡ (contains j (renderer_links r t) && not (contains j ids && drives r (stored j t)))
  pub by_display : u.by_display ≡ t.by_display
  pub next : u.next_link_id ≡ t.next_link_id

LeftRenderers-none :
    (lid : LinkId) (ids : List LinkId) (t u : RoutingTable)
    → stored lid t ≡ none
    → LeftRenderers ids t u
    → LeftRenderers (lid ∷ ids) t u
unfolding contains
LeftRenderers-none lid ids t u e h = record {
  store = λ j. ground (arith, h.store j);
  renderer = λ j r. ground (arith, h.renderer j r);
  by_display = h.by_display;
  next = h.next;
}

LeftRenderers-some :
    (lid : LinkId) (l : Link) (ids : List LinkId) (t u : RoutingTable)
    → stored lid t ≡ some l
    → LeftRenderers ids (leave_renderer lid l t) u
    → LeftRenderers (lid ∷ ids) t u
unfolding contains
LeftRenderers-some lid l ids t u e h = record {
  store = λ j. ground (arith, h.store j, stored-leave_renderer lid l t e j);
  renderer = λ j r. ground (
    arith,
    h.renderer j r,
    stored-leave_renderer lid l t e j,
    renderer_links-leave_renderer lid l t e j r,
  );
  by_display = unfold leave_renderer in h.by_display;
  next = unfold leave_renderer in h.next;
}

pub drop_from_renderers-LeftRenderers :
    (ids : List LinkId) (removed : List Link) (t : RoutingTable)
    → LeftRenderers ids t (drop_from_renderers ids removed t).1
unfolding drop_from_renderers contains
drop_from_renderers-LeftRenderers [] removed t = record {
  store = λ j. refl;
  renderer = λ j r. ground arith;
  by_display = refl;
  next = refl;
}
drop_from_renderers-LeftRenderers (lid ∷ ids) removed t = elim (Option-cases (stored lid t)) [
  | inl e ↦
      rw (e, drop_from_renderers)
        (LeftRenderers-none lid ids t _ e (drop_from_renderers-LeftRenderers ids removed t))
  | inr (l, e) ↦
      rw (e, drop_from_renderers)
        (LeftRenderers-some lid l ids t _ e
          (drop_from_renderers-LeftRenderers ids (removed ++ l ∷ []) (leave_renderer lid l t)))
]
