-- ===== src/Routing/Table.antt =====
-- src/routing/table.rs: renderers, the links from a renderer to a display, and two indexes of the
-- links. A `HashMap` is a finite map; of a renderer's handle the table reads the id alone.
pub mod Unlink
pub mod Loops
pub mod Consistency
pub mod Removal
pub mod Geometry
pub mod Queries
pub mod Runs
mod Tests
use wwe_modify.Base.{
  ℕ, ◌+◌, ◌%◌, ◌^◌, String, Bool, true, false, not, ◌&&◌, ◌||◌, Option, none, some, List, [], ◌∷◌,
  ◌++◌, ℕ_discrete,
}
use wwe_modify.Base.Tests.{◌==◌, if◌then◌else◌, str_discrete}
use wwe_modify.Base.Lists.{retain}
use wwe_modify.Base.Map.{Map, keys, get, insert, remove, modify}
use wwe_modify.Base.Words.{F32, f32_zero, f32_one, f32_infinity, f32_eq, ℤ, pos, eq_ℤ}
use mathlib.Core.Option as Opt
use Prim.Native.Nat.{Ordering}
use Prim.Native.String.{compare}

abbrev pub LinkId : Type 0
LinkId = ℕ

abbrev pub DisplayId : Type 0
DisplayId = ℕ

abbrev pub RendererId : Type 0
RendererId = String

pub record LinkRect : Type 0 where
  pub x : F32
  pub y : F32
  pub w : F32
  pub h : F32

-- `derive(PartialEq)`.
pub rect_eq : LinkRect → LinkRect → Bool
rect_eq a b = f32_eq a.x b.x && f32_eq a.y b.y && f32_eq a.w b.w && f32_eq a.h b.h

-- `FULL_SRC` and `FULL_DST`.
abbrev pub full_rect : LinkRect
full_rect = record { x = f32_zero; y = f32_zero; w = f32_infinity; h = f32_infinity }

-- `[f32; 4]`.
pub record Rgba : Type 0 where
  pub red : F32
  pub green : F32
  pub blue : F32
  pub alpha : F32

pub rgba_eq : Rgba → Rgba → Bool
rgba_eq a b =
    f32_eq a.red b.red && f32_eq a.green b.green && f32_eq a.blue b.blue && f32_eq a.alpha b.alpha

abbrev pub opaque_black : Rgba
opaque_black = record { red = f32_zero; green = f32_zero; blue = f32_zero; alpha = f32_one }

pub record Link : Type 0 where
  pub id : LinkId
  pub renderer_id : RendererId
  pub display_id : DisplayId
  pub enabled : Bool
  pub src_rect : LinkRect
  pub dst_rect : LinkRect
  pub transform : ℕ
  pub clear_rgba : Rgba
  pub z_order : ℤ

pub record RendererHandle : Type 0 where
  pub id : RendererId

pub record RoutingTable : Type 0 where
  pub next_link_id : ℕ
  pub renderers : Map RendererId RendererHandle
  pub links : Map LinkId Link
  pub by_display : Map DisplayId (List LinkId)
  pub by_renderer : Map RendererId (List LinkId)

unfoldable pub new : RoutingTable
new = record { next_link_id = 0; renderers = []; links = []; by_display = []; by_renderer = [] }

-- `get(key).unwrap_or_default()` on an index.
abbrev pub or_default : Option (List LinkId) → List LinkId
or_default none = []
or_default (some ids) = ids

abbrev pub display_ids : DisplayId → RoutingTable → List LinkId
display_ids d t = or_default (get ℕ_discrete d t.by_display)

abbrev pub renderer_links : RendererId → RoutingTable → List LinkId
renderer_links r t = or_default (get str_discrete r t.by_renderer)

-- `v.retain(|x| *x != lid)`.
pub without : LinkId → List LinkId → List LinkId
without lid ids = retain (λ x. not (x == lid)) ids

unfoldable pub add_renderer : RendererHandle → RoutingTable → RoutingTable
add_renderer handle t = record t { renderers = insert str_discrete handle.id handle t.renderers }

unfoldable pub get_renderer : RendererId → RoutingTable → Option RendererHandle
get_renderer id t = get str_discrete id t.renderers

unfoldable pub renderer_ids : RoutingTable → List RendererId
renderer_ids t = keys t.renderers

abbrev earlier : RendererId → RendererId → RendererId
earlier a b = elim (compare a b) [ Ordering.gt ↦ b | _ ↦ a ]

-- The first of the sorted ids, in the order of texts.
pub first_id : List RendererId → Option RendererId
first_id [] = none
first_id (r ∷ rs) = elim (first_id rs) [ none ↦ some r | some b ↦ some (earlier r b) ]

pub first_renderer : RoutingTable → Option RendererId
unfolding first_id
first_renderer t = first_id (renderer_ids t)

pub get_link : LinkId → RoutingTable → Option Link
get_link lid t = get ℕ_discrete lid t.links

-- The body of `remove_link` once the link is found.
unfoldable pub take_out : LinkId → Link → RoutingTable → RoutingTable
take_out lid link t = record t {
  links = remove ℕ_discrete lid t.links;
  by_display = modify ℕ_discrete link.display_id (without lid) t.by_display;
  by_renderer = modify str_discrete link.renderer_id (without lid) t.by_renderer;
}

unfoldable pub remove_link : LinkId → RoutingTable → Option Link × RoutingTable
unfolding take_out
remove_link lid t = elim (get ℕ_discrete lid t.links) [
  | none ↦ (none, t)
  | some link ↦ (some link, take_out lid link t)
]

-- The loop of `add_link` over the links of the display.
unfoldable pub remove_links : List LinkId → RoutingTable → RoutingTable
remove_links [] t = t
remove_links (lid ∷ ids) t = remove_links ids (remove_link lid t).1

unfoldable pub next_id : RoutingTable → LinkId
next_id t = (t.next_link_id + 1) % 2 ^ 64

unfoldable pub new_link : LinkId → RendererId → DisplayId → Link
new_link lid r d = record {
  id = lid;
  renderer_id = r;
  display_id = d;
  enabled = true;
  src_rect = full_rect;
  dst_rect = full_rect;
  transform = 0;
  clear_rgba = opaque_black;
  z_order = pos 0;
}

-- The rest of `add_link`: a fresh id, the new link and its two index entries.
unfoldable pub put_link : RendererId → DisplayId → RoutingTable → LinkId × RoutingTable
put_link r d t =
    let lid = next_id t in
    (
      lid,
      record t {
        next_link_id = lid;
        links = insert ℕ_discrete lid (new_link lid r d) t.links;
        by_display = insert ℕ_discrete d (display_ids d t ++ lid ∷ []) t.by_display;
        by_renderer = insert str_discrete r (renderer_links r t ++ lid ∷ []) t.by_renderer;
      },
    )

unfoldable pub add_link : RendererId → DisplayId → RoutingTable → LinkId × RoutingTable
unfolding put_link remove_links
add_link r d t = put_link r d (remove_links (display_ids d t) t)

-- The body of the loop of `remove_renderer`, for a link that is found.
pub leave_display : LinkId → Link → RoutingTable → RoutingTable
leave_display lid link t = record t {
  links = remove ℕ_discrete lid t.links;
  by_display = modify ℕ_discrete link.display_id (without lid) t.by_display;
}

-- The loop of `remove_renderer`: the links go from the store and from the displays' index.
pub drop_from_displays :
    List LinkId
    → List (LinkId × DisplayId)
    → RoutingTable
    → List (LinkId × DisplayId) × RoutingTable
unfolding leave_display
drop_from_displays [] out t = (out, t)
drop_from_displays (lid ∷ ids) out t = elim (get ℕ_discrete lid t.links) [
  | none ↦ drop_from_displays ids out t
  | some link ↦
      drop_from_displays ids (out ++ (lid, link.display_id) ∷ []) (leave_display lid link t)
]

pub forget_renderer : RendererId → RoutingTable → RoutingTable
forget_renderer id t = record t {
  renderers = remove str_discrete id t.renderers;
  by_renderer = remove str_discrete id t.by_renderer;
}

pub remove_renderer : RendererId → RoutingTable → List (LinkId × DisplayId) × RoutingTable
unfolding forget_renderer drop_from_displays
remove_renderer id t = drop_from_displays (renderer_links id t) [] (forget_renderer id t)

-- The body of the loop of `remove_display`, for a link that is found.
pub leave_renderer : LinkId → Link → RoutingTable → RoutingTable
leave_renderer lid link t = record t {
  links = remove ℕ_discrete lid t.links;
  by_renderer = modify str_discrete link.renderer_id (without lid) t.by_renderer;
}

-- The loop of `remove_display`: the links go from the store and from the renderers' index.
pub drop_from_renderers : List LinkId → List Link → RoutingTable → List Link × RoutingTable
unfolding leave_renderer
drop_from_renderers [] removed t = (removed, t)
drop_from_renderers (lid ∷ ids) removed t = elim (get ℕ_discrete lid t.links) [
  | none ↦ drop_from_renderers ids removed t
  | some link ↦ drop_from_renderers ids (removed ++ link ∷ []) (leave_renderer lid link t)
]

pub forget_display : DisplayId → RoutingTable → RoutingTable
forget_display d t = record t { by_display = remove ℕ_discrete d t.by_display }

pub remove_display : DisplayId → RoutingTable → List Link × RoutingTable
unfolding forget_display drop_from_renderers
remove_display d t = drop_from_renderers (display_ids d t) [] (forget_display d t)

-- `filter_map(|id| self.links.get(id).cloned())`.
unfoldable pub collect : (LinkId → Option Link) → List LinkId → List Link
collect f [] = []
collect f (lid ∷ ids) =
    let rest = collect f ids in elim (f lid) [ none ↦ rest | some link ↦ link ∷ rest ]

unfoldable pub links_for_display : DisplayId → RoutingTable → List Link
links_for_display d t = collect (λ lid. get ℕ_discrete lid t.links) (display_ids d t)

unfoldable pub links_for_renderer : RendererId → RoutingTable → List Link
links_for_renderer r t = collect (λ lid. get ℕ_discrete lid t.links) (renderer_links r t)

-- One field of `update_link_geometry`: a supplied value that differs is written, and noted.
pub choose {ℓ} : {A : Type ℓ} → (A → A → Bool) → A → Option A → A × Bool
choose eq old none = (old, false)
choose eq old (some v) = if eq old v then (old, false) else (v, true)

pub set_geometry :
    Link → Option LinkRect → Option LinkRect → Option ℕ → Option Rgba → Option ℤ → Link × Bool
set_geometry link src dst transform clear_rgba z_order =
    let (s, c1) = choose rect_eq link.src_rect src in
    let (d, c2) = choose rect_eq link.dst_rect dst in
    let (t, c3) = choose ◌==◌ link.transform transform in
    let (c, c4) = choose rgba_eq link.clear_rgba clear_rgba in
    let (z, c5) = choose eq_ℤ link.z_order z_order in
    (
      record link { src_rect = s; dst_rect = d; transform = t; clear_rgba = c; z_order = z },
      c1 || c2 || c3 || c4 || c5,
    )

pub update_link_geometry :
    LinkId
    → Option LinkRect
    → Option LinkRect
    → Option ℕ
    → Option Rgba
    → Option ℤ
    → RoutingTable
    → Bool × RoutingTable
update_link_geometry lid src dst transform clear_rgba z_order t =
    elim (get ℕ_discrete lid t.links) [
      | none ↦ (false, t)
      | some link ↦
          let (link', changed) = set_geometry link src dst transform clear_rgba z_order in
          (changed, record t { links = modify ℕ_discrete lid (λ _. link') t.links })
    ]
