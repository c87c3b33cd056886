-- ===== src/Routing/Table/Unlink.antt =====
-- What each removal leaves of the link store and of the two indexes, at every key.
use wwe_modify.Base.{
  Bool, true, false, not, ◌&&◌, Option, none, some, List, ◌≡◌, arith, ℕ_discrete, ite, inl, inr,
  ◌≤◌,
}
use wwe_modify.Base.Tests.{◌==◌, if◌then◌else◌, str_discrete, Option-cases}
use wwe_modify.Base.Lists.{contains, contains-retain, length, length-retain-le}
use wwe_modify.Base.Map.{Map, get, modify, get-remove, get-modify}
use wwe_modify.Routing.Table.{
  or_default, Link, LinkId, DisplayId, RendererId, RoutingTable, display_ids, renderer_links,
  without, remove_link, leave_display, leave_renderer,
}

-- Does the stored link point at the display; does it come from the renderer?
abbrev pub shows : DisplayId → Option Link → Bool
shows d none = false
shows d (some l) = l.display_id == d

abbrev pub drives : RendererId → Option Link → Bool
drives r none = false
drives r (some l) = ite (str_discrete l.renderer_id r) true false

abbrev pub stored : LinkId → RoutingTable → Option Link
stored j t = get ℕ_discrete j t.links

contains-without :
    (j lid : LinkId) (ids : List LinkId)
    → contains j (without lid ids) ≡ (not (j == lid) && contains j ids)
unfolding without
contains-without j lid ids = contains-retain j (λ x. not (x == lid)) ids

-- An index after `lid` has left the entry `k`.
contains-modify :
    {K : Type 0} (dec : Discrete K) (k0 k : K) (j lid : LinkId) (m : Map K (List LinkId))
    → contains j (or_default (get dec k (modify dec k0 (without lid) m)))
      ≡ (contains j (or_default (get dec k m)) && not (j == lid && ite (dec k0 k) true false))
unfolding contains
contains-modify dec k0 k j lid m = elim (Option-cases (get dec k m)) [
  | inl e ↦ ground (arith, get-modify dec k k0 (without lid) m)
  | inr (ids, e) ↦ ground (arith, get-modify dec k k0 (without lid) m, contains-without j lid ids)
]

length-modify-le :
    {K : Type 0} (dec : Discrete K) (k0 k : K) (lid : LinkId) (m : Map K (List LinkId))
    → length (or_default (get dec k (modify dec k0 (without lid) m)))
      ≤ length (or_default (get dec k m))
unfolding without
length-modify-le dec k0 k lid m = elim (Option-cases (get dec k m)) [
  | inl e ↦ ground (arith, get-modify dec k k0 (without lid) m)
  | inr (ids, e) ↦
      ground
        (arith, get-modify dec k k0 (without lid) m, length-retain-le (λ x. not (x == lid)) ids)
]

module _ (lid : LinkId) (t : RoutingTable) where
  pub stored-remove_link :
      (j : LinkId) → stored j (remove_link lid t).1 ≡ (if j == lid then none else stored j t)
  unfolding remove_link
  stored-remove_link j = ground (arith, get-remove ℕ_discrete j lid t.links)

  pub display_ids-remove_link :
      (j : LinkId) (d : DisplayId)
      → contains j (display_ids d (remove_link lid t).1)
        ≡ (contains j (display_ids d t) && not (j == lid && shows d (stored j t)))
  unfolding remove_link
  display_ids-remove_link j d = elim (Option-cases (stored lid t)) [
    | inl e ↦ ground arith
    | inr (link, e) ↦
        ground (arith, contains-modify ℕ_discrete link.display_id d j lid t.by_display)
  ]

  pub renderer_links-remove_link :
      (j : LinkId) (r : RendererId)
      → contains j (renderer_links r (remove_link lid t).1)
        ≡ (contains j (renderer_links r t) && not (j == lid && drives r (stored j t)))
  unfolding remove_link
  renderer_links-remove_link j r = elim (Option-cases (stored lid t)) [
    | inl e ↦ ground arith
    | inr (link, e) ↦
        ground (arith, contains-modify str_discrete link.renderer_id r j lid t.by_renderer)
  ]

  pub length-remove_link-le :
      (d : DisplayId) → length (display_ids d (remove_link lid t).1) ≤ length (display_ids d t)
  unfolding remove_link
  length-remove_link-le d = elim (Option-cases (stored lid t)) [
    | inl e ↦ ground arith
    | inr (link, e) ↦ ground (arith, length-modify-le ℕ_discrete link.display_id d lid t.by_display)
  ]

  pub next-remove_link : (remove_link lid t).1.next_link_id ≡ t.next_link_id
  unfolding remove_link
  next-remove_link = ground arith

module _ (lid : LinkId) (link : Link) (t : RoutingTable) (e : stored lid t ≡ some link) where
  pub stored-leave_display :
      (j : LinkId) → stored j (leave_display lid link t) ≡ (if j == lid then none else stored j t)
  unfolding leave_display
  stored-leave_display j = ground (arith, get-remove ℕ_discrete j lid t.links)

  pub display_ids-leave_display :
      (j : LinkId) (d : DisplayId)
      → contains j (display_ids d (leave_display lid link t))
        ≡ (contains j (display_ids d t) && not (j == lid && shows d (stored j t)))
  unfolding leave_display
  display_ids-leave_display j d =
      ground (arith, contains-modify ℕ_discrete link.display_id d j lid t.by_display)

  pub length-leave_display-le :
      (d : DisplayId) → length (display_ids d (leave_display lid link t)) ≤ length (display_ids d t)
  unfolding leave_display
  length-leave_display-le d =
      ground (arith, length-modify-le ℕ_discrete link.display_id d lid t.by_display)

  pub stored-leave_renderer :
      (j : LinkId) → stored j (leave_renderer lid link t) ≡ (if j == lid then none else stored j t)
  unfolding leave_renderer
  stored-leave_renderer j = ground (arith, get-remove ℕ_discrete j lid t.links)

  pub renderer_links-leave_renderer :
      (j : LinkId) (r : RendererId)
      → contains j (renderer_links r (leave_renderer lid link t))
        ≡ (contains j (renderer_links r t) && not (j == lid && drives r (stored j t)))
  unfolding leave_renderer
  renderer_links-leave_renderer j r =
      ground (arith, contains-modify str_discrete link.renderer_id r j lid t.by_renderer)
