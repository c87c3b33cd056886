-- ===== src/Routing/Table/Runs.antt =====
-- Every table that the operations build from the empty one.
use wwe_modify.Base.{◌+◌, ◌^◌, ◌≤◌, ◌<◌, List, [], ◌∷◌, arith}
use wwe_modify.Base.Lists.{length}
use wwe_modify.Routing.Table.Loops.{next-remove_links}
use wwe_modify.Routing.Table.Unlink.{next-remove_link}
use wwe_modify.Routing.Table.Consistency.{
  IsConsistent, new-IsConsistent, remove_link-IsConsistent, add_link-IsConsistent,
}
use wwe_modify.Routing.Table.Removal.{
  remove_renderer-IsConsistent, remove_display-IsConsistent, remove_renderer-LeftDisplays,
  remove_display-LeftRenderers,
}
use wwe_modify.Routing.Table.Geometry.{Change, update, update-IsConsistent, next-update}
use wwe_modify.Routing.Table.{
  LinkId, DisplayId, RendererId, RendererHandle, RoutingTable, new, add_renderer, remove_renderer,
  forget_renderer, add_link, put_link, next_id, display_ids, remove_link, remove_display,
  forget_display,
}

-- The operations that change a table.
pub data Op : Type 0 where
  adds_renderer : RendererHandle → Op
  removes_renderer : RendererId → Op
  adds_link : RendererId → DisplayId → Op
  updates_link : LinkId → Change → Op
  removes_link : LinkId → Op
  removes_display : DisplayId → Op

unfoldable pub apply : Op → RoutingTable → RoutingTable
apply (adds_renderer h) t = add_renderer h t
apply (removes_renderer r) t = (remove_renderer r t).1
apply (adds_link r d) t = (add_link r d t).1
apply (updates_link lid c) t = (update lid c t).1
apply (removes_link lid) t = (remove_link lid t).1
apply (removes_display d) t = (remove_display d t).1

unfoldable pub run : List Op → RoutingTable → RoutingTable
run [] t = t
run (op ∷ ops) t = run ops (apply op t)

add_renderer-IsConsistent :
    (h : RendererHandle) (t : RoutingTable) → IsConsistent t → IsConsistent (add_renderer h t)
unfolding add_renderer
add_renderer-IsConsistent h t c = record {
  keyed = c.keyed;
  display_exact = c.display_exact;
  renderer_exact = c.renderer_exact;
  single = c.single;
}

apply-IsConsistent :
    (op : Op) (t : RoutingTable)
    → t.next_link_id + 1 < 2 ^ 64
    → IsConsistent t
    → IsConsistent (apply op t)
unfolding apply
apply-IsConsistent (adds_renderer h) t room c = add_renderer-IsConsistent h t c
apply-IsConsistent (removes_renderer r) t room c = remove_renderer-IsConsistent r t c
apply-IsConsistent (adds_link r d) t room c = add_link-IsConsistent r d t room c
apply-IsConsistent (updates_link lid ch) t room c = update-IsConsistent lid ch t c
apply-IsConsistent (removes_link lid) t room c = remove_link-IsConsistent lid t c
apply-IsConsistent (removes_display d) t room c = remove_display-IsConsistent d t c

-- One operation uses up one id at most.
next-apply-le :
    (op : Op) (t : RoutingTable)
    → t.next_link_id + 1 < 2 ^ 64
    → (apply op t).next_link_id ≤ t.next_link_id + 1
unfolding apply
next-apply-le (adds_renderer h) t room = unfold add_renderer in omega arith
next-apply-le (removes_renderer r) t room =
    unfold forget_renderer in omega (arith, (remove_renderer-LeftDisplays r t).next)
next-apply-le (adds_link r d) t room =
    unfold add_link put_link next_id in omega (arith, next-remove_links (display_ids d t) t)
next-apply-le (updates_link lid ch) t room = omega (arith, next-update lid ch t)
next-apply-le (removes_link lid) t room = omega (arith, next-remove_link lid t)
next-apply-le (removes_display d) t room =
    unfold forget_display in omega (arith, (remove_display-LeftRenderers d t).next)

run-IsConsistent_from :
    (ops : List Op) (t : RoutingTable)
    → t.next_link_id + length ops < 2 ^ 64
    → IsConsistent t
    → IsConsistent (run ops t)
unfolding run
run-IsConsistent_from [] t room c = c
run-IsConsistent_from (op ∷ ops) t room c =
    run-IsConsistent_from ops (apply op t) (omega (arith, next-apply-le op t (omega arith)))
      (apply-IsConsistent op t (omega arith) c)

-- After any sequence of fewer than 2^64 operations on an empty table, the link store and its two
-- indexes name the same links, and no display has two links.
pub run-IsConsistent : (ops : List Op) → length ops < 2 ^ 64 → IsConsistent (run ops new)
unfolding new
run-IsConsistent ops room = run-IsConsistent_from ops new (omega arith) new-IsConsistent
