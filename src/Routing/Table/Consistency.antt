-- ===== src/Routing/Table/Consistency.antt =====
-- src/routing/table.rs: how the link store and its two indexes go together.
use wwe_modify.Base.{
  none, some, List, [], ◌∷◌, ◌++◌, ◌≡◌, refl, arith, ℕ_discrete, ite, if_pos, if_neg, inl, inr, ◌≤◌,
  ◌<◌, ◌+◌, ◌^◌,
}
use wwe_modify.Base.Tests.{◌==◌, if◌then◌else◌, str_discrete, Option-cases}
use wwe_modify.Base.Lists.{contains, length, contains-append, nil_of_contains}
use wwe_modify.Base.Map.{get, get-insert}
use wwe_modify.Routing.Table.Unlink.{shows, drives, stored}
use wwe_modify.Routing.Table.Loops.{
  stored-remove_links, display_ids-remove_links, renderer_links-remove_links,
  length-remove_links-le, next-remove_links,
}
use wwe_modify.Routing.Table.{
  Link, LinkId, DisplayId, RendererId, RoutingTable, new, display_ids, renderer_links, remove_link,
  remove_links, next_id, new_link, put_link, add_link,
}

pub record IsConsistent (t : RoutingTable) : Type 0 where
  pub keyed : (j : LinkId) (l : Link) → stored j t ≡ some l → (l.id ≡ j) × (j ≤ t.next_link_id)
  pub display_exact :
      (j : LinkId) (d : DisplayId) → contains j (display_ids d t) ≡ shows d (stored j t)
  pub renderer_exact :
      (j : LinkId) (r : RendererId) → contains j (renderer_links r t) ≡ drives r (stored j t)
  pub single : (d : DisplayId) → length (display_ids d t) ≤ 1

pub new-IsConsistent : IsConsistent new
unfolding new get contains
new-IsConsistent = record {
  keyed = λ j l e. absurd (ground arith);
  display_exact = λ j d. refl;
  renderer_exact = λ j r. refl;
  single = λ d. omega arith;
}

pub remove_links-IsConsistent :
    (ids : List LinkId) (t : RoutingTable) → IsConsistent t → IsConsistent (remove_links ids t)
remove_links-IsConsistent ids t c = record {
  keyed =
      λ j l e. ground (arith, stored-remove_links j ids t, c.keyed j l, next-remove_links ids t);
  display_exact = λ j d.
      ground (
        arith,
        stored-remove_links j ids t,
        display_ids-remove_links j d ids t,
        c.display_exact j d,
      );
  renderer_exact = λ j r. ground (
    arith,
    stored-remove_links j ids t,
    renderer_links-remove_links j r ids t,
    c.renderer_exact j r,
  );
  single = λ d. omega (arith, c.single d, length-remove_links-le d ids t);
}

pub remove_link-IsConsistent :
    (lid : LinkId) (t : RoutingTable) → IsConsistent t → IsConsistent (remove_link lid t).1
unfolding remove_links
remove_link-IsConsistent lid t c = remove_links-IsConsistent (lid ∷ []) t c

-- After the loop of `add_link` the display has no link.
pub display_ids-cleared :
    (d : DisplayId) (t : RoutingTable)
    → IsConsistent t
    → display_ids d (remove_links (display_ids d t) t) ≡ []
display_ids-cleared d t c =
    nil_of_contains _
      λ j. ground (arith, display_ids-remove_links j d (display_ids d t) t, c.display_exact j d)

stored_above :
    (j : LinkId) (t : RoutingTable) → IsConsistent t → t.next_link_id < j → stored j t ≡ none
stored_above j t c h = elim (Option-cases (stored j t)) [
  | inl e ↦ e
  | inr (l, e) ↦ absurd (omega (arith, c.keyed j l e))
]

module _ (r : RendererId) (d : DisplayId) (t : RoutingTable) where
  pub stored-put_link :
      (j : LinkId)
      → stored j (put_link r d t).1
        ≡ (if j == next_id t then some (new_link (next_id t) r d) else stored j t)
  unfolding put_link
  stored-put_link j =
      ground (arith, get-insert ℕ_discrete j (next_id t) (new_link (next_id t) r d) t.links)

  pub display_ids-put_link :
      (d' : DisplayId)
      → display_ids d' (put_link r d t).1
        ≡ (if d == d' then display_ids d t ++ next_id t ∷ [] else display_ids d' t)
  unfolding put_link
  display_ids-put_link d' =
      ground (arith, get-insert ℕ_discrete d' d (display_ids d t ++ next_id t ∷ []) t.by_display)

  renderer_links-put_link :
      (r' : RendererId)
      → renderer_links r' (put_link r d t).1
        ≡ ite (str_discrete r r') (renderer_links r t ++ next_id t ∷ []) (renderer_links r' t)
  unfolding put_link
  renderer_links-put_link r' =
      ground
        (arith, get-insert str_discrete r' r (renderer_links r t ++ next_id t ∷ []) t.by_renderer)

  module _ (room : t.next_link_id + 1 < 2 ^ 64) (c : IsConsistent t) where
    pub next_id_fresh : stored (next_id t) t ≡ none
    unfolding next_id
    next_id_fresh = stored_above (next_id t) t c (omega arith)

    renderer_links-put_link_exact :
        (j : LinkId) (r' : RendererId)
        → contains j (renderer_links r' (put_link r d t).1)
          ≡ drives r' (stored j (put_link r d t).1)
    unfolding contains new_link
    renderer_links-put_link_exact j r' =
        rw (renderer_links-put_link r', stored-put_link j)
          (elim (str_discrete r r') [
            | yes p ↦
                rw (if_pos _ p, contains-append j (renderer_links r t) (next_id t ∷ []))
                  (ground (arith, p, c.renderer_exact j r, next_id_fresh))
            | no p ↦ rw (if_neg _ p) (ground (arith, p, c.renderer_exact j r', next_id_fresh))
          ])

    put_link-IsConsistent : display_ids d t ≡ [] → IsConsistent (put_link r d t).1
    unfolding contains new_link
    put_link-IsConsistent free = record {
      keyed = λ j l e. unfold put_link next_id in ground (arith, stored-put_link j, c.keyed j l);
      display_exact = λ j d'. ground (
        arith,
        stored-put_link j,
        display_ids-put_link d',
        c.display_exact j d,
        c.display_exact j d',
        next_id_fresh,
      );
      renderer_exact = renderer_links-put_link_exact;
      single = λ d'. ground (arith, display_ids-put_link d', c.single d');
    }

pub add_link-IsConsistent :
    (r : RendererId) (d : DisplayId) (t : RoutingTable)
    → t.next_link_id + 1 < 2 ^ 64
    → IsConsistent t
    → IsConsistent (add_link r d t).1
unfolding add_link
add_link-IsConsistent r d t room c =
    put_link-IsConsistent r d (remove_links (display_ids d t) t)
      (omega (arith, next-remove_links (display_ids d t) t))
      (remove_links-IsConsistent (display_ids d t) t c) (display_ids-cleared d t c)
