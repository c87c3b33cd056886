-- ===== src/Routing/Table/Tests.antt =====
-- The tests of src/routing/table.rs, and the theorems at small tables.
use wwe_modify.Base.{
  ℕ, List, [], ◌∷◌, ◌≡◌, ◌≢◌, ◌⊎◌, refl, none, some, true, false, arith, ℕ_discrete,
}
use wwe_modify.Base.Lists.{contains, length, retain}
use wwe_modify.Base.Tests.{str_discrete, if◌then◌else◌}
use wwe_modify.Base.Map.{get, insert, remove, modify}
use wwe_modify.Base.Words.{is_nan, f32_eq, eq_ℤ}
use wwe_modify.Routing.Table.Unlink.{drives, stored}
use wwe_modify.Routing.Table.Consistency.{IsConsistent}
use wwe_modify.Routing.Table.Queries.{add_link-links_for_display, remove_renderer_clears}
use wwe_modify.Routing.Table.Runs.{Op, adds_renderer, adds_link, apply, run, run-IsConsistent}
use wwe_modify.Routing.Table.Geometry.{
  Change, ChangeIsNumber, IsChanged, update, update_link_geometry_reports,
}
use wwe_modify.Routing.Table.{
  DisplayId, RendererId, Link, RoutingTable, new, add_renderer, get_renderer, get_link, remove_link,
  remove_links, without, next_id, new_link, put_link, add_link, remove_renderer, remove_display,
  collect, links_for_display, links_for_renderer, choose, rect_eq, rgba_eq, set_geometry,
  update_link_geometry,
}

program : Unit {0}
unfolding get insert remove modify str_discrete ℕ_discrete is_nan f32_eq eq_ℤ contains retain new
    without add_renderer get_renderer get_link remove_link remove_links next_id new_link put_link
    add_link remove_renderer remove_display collect links_for_display links_for_renderer choose
    rect_eq rgba_eq set_geometry update_link_geometry apply run
program = tt

abbrev ops : List Op
ops =
    adds_renderer (record { id = "rA" })
    ∷ adds_renderer (record { id = "rB" })
    ∷ adds_link "rA" 1
    ∷ adds_link "rA" 2
    ∷ adds_link "rB" 1
    ∷ []

-- `add_link_evicts_prior_link_on_same_display`.
evicts :
    (links_for_display 1 (run ops new) ≡ new_link 3 "rB" 1 ∷ [])
    × (length (links_for_renderer "rA" (run ops new)) ≡ 1)
    × (length (links_for_renderer "rB" (run ops new)) ≡ 1)
unfolding program
evicts = (refl, refl, refl)

run-IsConsistent_example : IsConsistent (run ops new)
run-IsConsistent_example = run-IsConsistent ops (omega arith)

table : RoutingTable
table = run ops new

table-IsConsistent : IsConsistent table
unfolding table
table-IsConsistent = run-IsConsistent ops (omega arith)

add_link-links_for_display_example :
    (links_for_display 2 (add_link "rB" 2 table).1 ≡ new_link (add_link "rB" 2 table).0 "rB" 2 ∷ [])
    × (stored (add_link "rB" 2 table).0 table ≡ none)
    × ((d' : DisplayId)
        → d' ≢ 2
        → links_for_display d' (add_link "rB" 2 table).1 ≡ links_for_display d' table)
unfolding program table
add_link-links_for_display_example =
    add_link-links_for_display "rB" 2 table (omega arith) table-IsConsistent

remove_renderer_clears_example :
    (get_renderer "rA" (remove_renderer "rA" table).1 ≡ none)
    × (links_for_renderer "rA" (remove_renderer "rA" table).1 ≡ [])
    × ((j : ℕ)
        → get_link j (remove_renderer "rA" table).1
          ≡ (if drives "rA" (get_link j table) then none else get_link j table))
    × ((r' : RendererId)
        → r' ≢ "rA"
        → links_for_renderer r' (remove_renderer "rA" table).1 ≡ links_for_renderer r' table)
remove_renderer_clears_example = remove_renderer_clears "rA" table table-IsConsistent

abbrev turn : Change
turn = record {
  src = some (record { x = 0; y = 0; w = 0x3f800000; h = 0x3f800000 });
  dst = none;
  transform = some 1;
  clear_rgba = none;
  z_order = none;
}

turn-IsNumber : ChangeIsNumber turn
unfolding is_nan
turn-IsNumber = record {
  src = λ r e. ground arith;
  dst = λ r e. absurd (ground arith);
  clear_rgba = λ x e. absurd (ground arith);
}

turns : (update 3 turn table).0 ≡ true
unfolding program table
turns = refl

abbrev turned : Link
turned = new_link 3 "rB" 1

update_link_geometry_reports_example :
    ((l : Link) × (stored 3 (update 3 turn table).1 ≡ some l) × IsChanged turn turned l)
    × (((update 3 turn table).0 ≡ true) ⊎ ((update 3 turn table).1 ≡ table))
    × (update 3 turn (update 3 turn table).1 ≡ (false, (update 3 turn table).1))
unfolding program table
update_link_geometry_reports_example =
    update_link_geometry_reports 3 turn table turned refl turn-IsNumber
