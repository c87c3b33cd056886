-- ===== src/Routing/Table/Queries.antt =====
-- What the queries return after an operation.
use wwe_modify.Base.{
  true, false, ◌≢◌, Option, none, List, [], ◌∷◌, ◌≡◌, refl, subst, ◌∙◌, arith, ℕ_discrete, if_pos,
  if_neg, inl, inr, ◌<◌, ◌+◌, ◌^◌, sym,
}
use wwe_modify.Base.Tests.{if◌then◌else◌, str_discrete, Option-cases}
use wwe_modify.Base.Lists.{contains}
use wwe_modify.Base.Map.{get-remove, get-modify}
use wwe_modify.Routing.Table.Unlink.{shows, drives, stored, stored-remove_link}
use wwe_modify.Routing.Table.Loops.{stored-remove_links, next-remove_links}
use wwe_modify.Routing.Table.Consistency.{
  IsConsistent, stored-put_link, display_ids-put_link, display_ids-cleared, next_id_fresh,
}
use wwe_modify.Routing.Table.Removal.{
  stored-remove_renderer, remove_renderer-LeftDisplays, renderer_links-remove_renderer,
}
use wwe_modify.Routing.Table.{
  Link, LinkId, DisplayId, RendererId, RoutingTable, display_ids, renderer_links, get_renderer,
  get_link, remove_link, remove_links, next_id, new_link, put_link, add_link, without,
  forget_renderer, remove_renderer, collect, links_for_display, links_for_renderer,
}

collect_congruence :
    (f g : LinkId → Option Link) (ids : List LinkId)
    → ((j : LinkId) → contains j ids ≡ true → f j ≡ g j)
    → collect f ids ≡ collect g ids
unfolding collect contains
collect_congruence f g [] h = refl
collect_congruence f g (lid ∷ ids) h =
    ground (arith, h lid, collect_congruence f g ids (λ j e. h j (ground arith)))

-- Links of other displays can go without a trace in the index of this one.
display_ids-remove_links_other :
    (d : DisplayId) (ids : List LinkId) (t : RoutingTable)
    → ((j : LinkId) → contains j ids ≡ true → shows d (stored j t) ≡ false)
    → display_ids d (remove_links ids t) ≡ display_ids d t
unfolding remove_links remove_link contains
display_ids-remove_links_other d [] t h = refl
display_ids-remove_links_other d (lid ∷ ids) t h =
    display_ids-remove_links_other d ids (remove_link lid t).1
      (λ j e. ground (arith, stored-remove_link lid t j, h j))
    ∙ one
  where
    one : display_ids d (remove_link lid t).1 ≡ display_ids d t
    one = elim (Option-cases (stored lid t)) [
      | inl e ↦ ground arith
      | inr (link, e) ↦
          ground (arith, h lid, get-modify ℕ_discrete d link.display_id (without lid) t.by_display)
    ]

pub next_id-remove_links :
    (ids : List LinkId) (t : RoutingTable) → next_id (remove_links ids t) ≡ next_id t
unfolding next_id
next_id-remove_links ids t = rw (next-remove_links ids t)

put_links :
    (r : RendererId) (d : DisplayId) (t : RoutingTable)
    → display_ids d t ≡ []
    → links_for_display d (put_link r d t).1 ≡ new_link (next_id t) r d ∷ []
unfolding links_for_display collect
put_links r d t e =
    let ids : display_ids d (put_link r d t).1 ≡ next_id t ∷ [] =
      ground (arith, display_ids-put_link r d t d) in
    rw ids (ground (arith, stored-put_link r d t (next_id t)))

module _ (r : RendererId) (d : DisplayId) (t : RoutingTable) (room : t.next_link_id + 1 < 2 ^ 64)
    (c : IsConsistent t) where
  pub added_links : links_for_display d (add_link r d t).1 ≡ new_link (next_id t) r d ∷ []
  unfolding add_link
  added_links =
      subst (λ k. links_for_display d (put_link r d cleared).1 ≡ new_link k r d ∷ [])
        (next_id-remove_links (display_ids d t) t)
        (put_links r d cleared (display_ids-cleared d t c))
    where
      cleared : RoutingTable
      cleared = remove_links (display_ids d t) t

  stored-add_link_other :
      (d' : DisplayId) (j : LinkId)
      → d' ≢ d
      → contains j (display_ids d' t) ≡ true
      → stored j (add_link r d t).1 ≡ stored j t
  unfolding add_link next_id
  stored-add_link_other d' j ne e = elim (Option-cases (stored j t)) [
    | inl m ↦ absurd (ground (arith, c.display_exact j d'))
    | inr (l, m) ↦ ground (
      arith,
      stored-put_link r d (remove_links (display_ids d t) t) j,
      stored-remove_links j (display_ids d t) t,
      next-remove_links (display_ids d t) t,
      c.keyed j l,
      c.display_exact j d',
      c.display_exact j d,
    )
  ]

  display_ids-add_link_other :
      (d' : DisplayId) → d' ≢ d → display_ids d' (add_link r d t).1 ≡ display_ids d' t
  unfolding add_link
  display_ids-add_link_other d' ne = ground (
    arith,
    display_ids-put_link r d (remove_links (display_ids d t) t) d',
    display_ids-remove_links_other d' (display_ids d t) t (shown_here d' ne),
  )
    where
      shown_here :
          (d' : DisplayId)
          → d' ≢ d
          → (j : LinkId) → contains j (display_ids d t) ≡ true
          → shows d' (stored j t) ≡ false
      shown_here d' ne j e = elim (Option-cases (stored j t)) [
        | inl m ↦ ground arith
        | inr (l, m) ↦ ground (arith, c.display_exact j d)
      ]

  added_links_other :
      (d' : DisplayId) → d' ≢ d → links_for_display d' (add_link r d t).1 ≡ links_for_display d' t
  unfolding links_for_display
  added_links_other d' ne =
      rw (display_ids-add_link_other d' ne)
        (collect_congruence _ _ (display_ids d' t) (λ j. stored-add_link_other d' j ne))

added_id : (r : RendererId) (d : DisplayId) (t : RoutingTable) → (add_link r d t).0 ≡ next_id t
unfolding add_link put_link
added_id r d t = next_id-remove_links (display_ids d t) t

-- On a consistent table with ids to spare, `add_link` leaves the display with the one new link,
-- which it returns the id of, whatever was linked before, and no other display's links change.
pub add_link-links_for_display :
    (r : RendererId) (d : DisplayId) (t : RoutingTable)
    → t.next_link_id + 1 < 2 ^ 64
    → IsConsistent t
    → let (lid, u) = add_link r d t in
      (links_for_display d u ≡ new_link lid r d ∷ [])
      × (stored lid t ≡ none)
      × ((d' : DisplayId) → d' ≢ d → links_for_display d' u ≡ links_for_display d' t)
add_link-links_for_display r d t room c = (
  rw (added_id r d t) (added_links r d t room c),
  rw (added_id r d t) (next_id_fresh r d t room c),
  added_links_other r d t room c,
)

collect_none : (f : LinkId → Option Link) (ids : List LinkId) → ids ≡ [] → collect f ids ≡ []
unfolding collect
collect_none f [] e = refl
collect_none f (lid ∷ ids) e = cc

get-remove_renderer :
    (r : RendererId) (t : RoutingTable) → get_renderer r (remove_renderer r t).1 ≡ none
unfolding get_renderer forget_renderer
get-remove_renderer r t =
    ground
      (arith, (remove_renderer-LeftDisplays r t).renderers, get-remove str_discrete r r t.renderers)

remove_renderer_other :
    (r r' : RendererId) (t : RoutingTable)
    → IsConsistent t
    → r' ≢ r
    → links_for_renderer r' (remove_renderer r t).1 ≡ links_for_renderer r' t
unfolding links_for_renderer
remove_renderer_other r r' t c ne =
    rw (renderer_links-remove_renderer r t c r', if_neg _ (λ e. ne (sym e)))
      (collect_congruence _ _ (renderer_links r' t) kept)
  where
    kept :
        (j : LinkId)
        → contains j (renderer_links r' t) ≡ true
        → stored j (remove_renderer r t).1 ≡ stored j t
    kept j e = elim (Option-cases (stored j t)) [
      | inl m ↦ ground (arith, stored-remove_renderer r t c j)
      | inr (l, m) ↦ ground (arith, stored-remove_renderer r t c j, c.renderer_exact j r')
    ]

-- On a consistent table, after `remove_renderer` the renderer is unknown and has no links, its
-- links are gone from the store and every other link is as it was, and the links of the other
-- renderers are as they were.
pub remove_renderer_clears :
    (r : RendererId) (t : RoutingTable)
    → IsConsistent t
    → let u = (remove_renderer r t).1 in
      (get_renderer r u ≡ none)
      × (links_for_renderer r u ≡ [])
      × ((j : LinkId) → get_link j u ≡ (if drives r (get_link j t) then none else get_link j t))
      × ((r' : RendererId) → r' ≢ r → links_for_renderer r' u ≡ links_for_renderer r' t)
unfolding get_link links_for_renderer
remove_renderer_clears r t c = (
  get-remove_renderer r t,
  collect_none _ _ (rw (renderer_links-remove_renderer r t c r, if_pos _ refl) refl),
  stored-remove_renderer r t c,
  λ r' ne. remove_renderer_other r r' t c ne,
)
