-- ===== src/Routing/Table/Geometry.antt =====
-- src/routing/table.rs, update_link_geometry: its answer, the link and the table after it.
use mathlib.Core.Option as Opt
use wwe_modify.Base.{
  ℕ, Bool, true, false, Option, none, some, [], ◌∷◌, ◌≡◌, refl, arith, ℕ_discrete, if_pos, if_neg,
  inl, inr, ◌⊎◌, ◌≤◌, ap,
}
use wwe_modify.Base.Tests.{◌==◌, if◌then◌else◌, Option-cases}
use wwe_modify.Base.Map.{Map, get, modify, get-modify}
use wwe_modify.Base.Words.{is_nan, f32_eq_refl, ℤ, eq_ℤ, eq_ℤ_refl}
use wwe_modify.Routing.Table.Unlink.{shows, drives, stored}
use wwe_modify.Routing.Table.Consistency.{IsConsistent}
use wwe_modify.Routing.Table.{
  LinkRect, rect_eq, Rgba, rgba_eq, Link, LinkId, DisplayId, RendererId, RoutingTable, choose,
  set_geometry, update_link_geometry,
}

modify_self :
    {K V : Type 0} (dec : Discrete K) (k : K) (v : V) (m : Map K V)
    → get dec k m ≡ some v
    → modify dec k (λ _. v) m ≡ m
unfolding get modify
modify_self dec k v [] e = refl
modify_self dec k v ((j, w) ∷ m) e = elim (dec j k) [
  | yes p ↦ rw (if_pos _ p) (ap (λ (x : _). (j, x) ∷ m) (same p))
  | no p ↦ rw (if_neg _ p) (ap (◌∷◌ (j, w)) (modify_self dec k v m (rw (if_neg _ p) at e)))
]
  where
    same : j ≡ k → v ≡ w
    same p = ground arith

choose_unchanged {ℓ} :
    {A : Type ℓ} (eq : A → A → Bool) (old : A) (v : Option A)
    → (choose eq old v).1 ≡ false
    → (choose eq old v).0 ≡ old
unfolding choose
choose_unchanged eq old none h = refl
choose_unchanged eq old (some v) h = ground arith

-- A second call with the same value finds nothing to do, if the value equals itself.
choose_twice {ℓ} :
    {A : Type ℓ} (eq : A → A → Bool) (old : A) (v : Option A)
    → ((x : A) → v ≡ some x → eq x x ≡ true)
    → choose eq (choose eq old v).0 v ≡ ((choose eq old v).0, false)
unfolding choose
choose_twice eq old none h = refl
choose_twice eq old (some v) h = ground (arith, h v refl)

abbrev pub RectIsNumber : LinkRect → Type 0
RectIsNumber r =
    (is_nan r.x ≡ false) × (is_nan r.y ≡ false) × (is_nan r.w ≡ false) × (is_nan r.h ≡ false)

abbrev pub RgbaIsNumber : Rgba → Type 0
RgbaIsNumber c =
    (is_nan c.red ≡ false)
    × (is_nan c.green ≡ false)
    × (is_nan c.blue ≡ false)
    × (is_nan c.alpha ≡ false)

rect_eq_refl : (r : LinkRect) → RectIsNumber r → rect_eq r r ≡ true
unfolding rect_eq
rect_eq_refl r h =
    ground (arith, f32_eq_refl r.x, f32_eq_refl r.y, f32_eq_refl r.w, f32_eq_refl r.h)

rgba_eq_refl : (c : Rgba) → RgbaIsNumber c → rgba_eq c c ≡ true
unfolding rgba_eq
rgba_eq_refl c h =
    ground (arith, f32_eq_refl c.red, f32_eq_refl c.green, f32_eq_refl c.blue, f32_eq_refl c.alpha)

-- The five arguments of a call.
pub record Change : Type 0 where
  pub src : Option LinkRect
  pub dst : Option LinkRect
  pub transform : Option ℕ
  pub clear_rgba : Option Rgba
  pub z_order : Option ℤ

-- No supplied number is a NaN.
pub record ChangeIsNumber (c : Change) : Type 0 where
  pub src : (r : LinkRect) → c.src ≡ some r → RectIsNumber r
  pub dst : (r : LinkRect) → c.dst ≡ some r → RectIsNumber r
  pub clear_rgba : (x : Rgba) → c.clear_rgba ≡ some x → RgbaIsNumber x

abbrev pub set_all : Change → Link → Link × Bool
set_all c link = set_geometry link c.src c.dst c.transform c.clear_rgba c.z_order

abbrev pub update : LinkId → Change → RoutingTable → Bool × RoutingTable
update lid c t = update_link_geometry lid c.src c.dst c.transform c.clear_rgba c.z_order t

set_all_unchanged :
    (c : Change) (link : Link) → (set_all c link).1 ≡ false → (set_all c link).0 ≡ link
unfolding set_geometry
set_all_unchanged c link h = ground (
  arith,
  choose_unchanged rect_eq link.src_rect c.src,
  choose_unchanged rect_eq link.dst_rect c.dst,
  choose_unchanged ◌==◌ link.transform c.transform,
  choose_unchanged rgba_eq link.clear_rgba c.clear_rgba,
  choose_unchanged eq_ℤ link.z_order c.z_order,
)

set_all_twice :
    (c : Change) (link : Link)
    → ChangeIsNumber c
    → set_all c (set_all c link).0 ≡ ((set_all c link).0, false)
unfolding set_geometry
set_all_twice c link n = rw (
  choose_twice rect_eq link.src_rect c.src (λ r e. rect_eq_refl r (n.src r e)),
  choose_twice rect_eq link.dst_rect c.dst (λ r e. rect_eq_refl r (n.dst r e)),
  choose_twice ◌==◌ link.transform c.transform (λ x e. ground arith),
  choose_twice rgba_eq link.clear_rgba c.clear_rgba (λ x e. rgba_eq_refl x (n.clear_rgba x e)),
  choose_twice eq_ℤ link.z_order c.z_order (λ x e. eq_ℤ_refl x),
)

-- The ids of a link stay.
set_all_ids :
    (c : Change) (link : Link)
    → let l = (set_all c link).0 in
      (l.id ≡ link.id) × (l.renderer_id ≡ link.renderer_id) × (l.display_id ≡ link.display_id)
unfolding set_geometry
set_all_ids c link = (refl, refl, refl)

module _ (lid : LinkId) (c : Change) (t : RoutingTable) where
  stored-update :
      (j : LinkId)
      → stored j (update lid c t).1
        ≡ (if lid == j then Opt.map (λ l. (set_all c l).0) (stored j t) else stored j t)
  unfolding update_link_geometry
  stored-update j = elim (Option-cases (stored lid t)) [
    | inl e ↦ rw (e, update_link_geometry) (ground arith)
    | inr (link, e) ↦
        rw (e, update_link_geometry)
          (ground (arith, get-modify ℕ_discrete j lid (λ _. (set_all c link).0) t.links))
  ]

  update_unchanged : (update lid c t).0 ≡ false → (update lid c t).1 ≡ t
  unfolding update_link_geometry
  update_unchanged h = elim (Option-cases (stored lid t)) [
    | inl e ↦ ground arith
    | inr (link, e) ↦
        ground (arith, set_all_unchanged c link, modify_self ℕ_discrete lid link t.links e)
  ]

  by_display-update : (update lid c t).1.by_display ≡ t.by_display
  unfolding update_link_geometry
  by_display-update = ground arith

  by_renderer-update : (update lid c t).1.by_renderer ≡ t.by_renderer
  unfolding update_link_geometry
  by_renderer-update = ground arith

  pub next-update : (update lid c t).1.next_link_id ≡ t.next_link_id
  unfolding update_link_geometry
  next-update = ground arith

  keyed-update :
      IsConsistent t
      → (j : LinkId) (l : Link) → stored j (update lid c t).1 ≡ some l
      → (l.id ≡ j) × (j ≤ (update lid c t).1.next_link_id)
  keyed-update v j l e = elim (Option-cases (stored j t)) [
    | inl m ↦ absurd (ground (arith, stored-update j))
    | inr (k, m) ↦ ground (arith, stored-update j, v.keyed j k m, set_all_ids c k, next-update)
  ]

  shows-update :
      (j : LinkId) (d : DisplayId) → shows d (stored j (update lid c t).1) ≡ shows d (stored j t)
  shows-update j d = elim (Option-cases (stored j t)) [
    | inl m ↦ ground (arith, stored-update j)
    | inr (k, m) ↦ ground (arith, stored-update j, set_all_ids c k)
  ]

  drives-update :
      (j : LinkId) (r : RendererId) → drives r (stored j (update lid c t).1) ≡ drives r (stored j t)
  drives-update j r = elim (Option-cases (stored j t)) [
    | inl m ↦ ground (arith, stored-update j)
    | inr (k, m) ↦ ground (arith, stored-update j, set_all_ids c k)
  ]

  -- Geometry does not touch routing.
  pub update-IsConsistent : IsConsistent t → IsConsistent (update lid c t).1
  update-IsConsistent v = record {
    keyed = keyed-update v;
    display_exact = λ j d. rw (by_display-update, shows-update j d) (v.display_exact j d);
    renderer_exact = λ j r. rw (by_renderer-update, drives-update j r) (v.renderer_exact j r);
    single = λ d. rw by_display-update (v.single d);
  }

answer-update :
    (lid : LinkId) (c : Change) (t : RoutingTable) (link : Link)
    → stored lid t ≡ some link
    → (update lid c t).0 ≡ (set_all c link).1
unfolding update_link_geometry
answer-update lid c t link e = ground arith

again-update :
    (lid : LinkId) (c : Change) (t : RoutingTable)
    → ChangeIsNumber c
    → (update lid c (update lid c t).1).0 ≡ false
again-update lid c t n = elim (Option-cases (stored lid t)) [
  | inl e ↦ unfold update_link_geometry in ground arith
  | inr (link, e) ↦ ground (
    arith,
    stored-update lid c t lid,
    answer-update lid c (update lid c t).1 (set_all c link).0,
    set_all_twice c link n,
  )
]

-- What one argument asks of its field: that it equals the value supplied, or is left.
abbrev pub Takes : {A : Type 0} → (A → A → Bool) → A → Option A → A → Type 0
Takes eq old none now = now ≡ old
Takes eq old (some v) now = eq now v ≡ true

Takes-choose :
    {A : Type 0} (eq : A → A → Bool) (old : A) (v : Option A)
    → ((x : A) → v ≡ some x → eq x x ≡ true)
    → Takes eq old v (choose eq old v).0
unfolding choose
Takes-choose eq old none h = refl
Takes-choose eq old (some v) h = ground (arith, h v refl)

-- The link after a call.
pub record IsChanged (c : Change) (link l : Link) : Type 0 where
  pub src : Takes rect_eq link.src_rect c.src l.src_rect
  pub dst : Takes rect_eq link.dst_rect c.dst l.dst_rect
  pub transform : Takes ◌==◌ link.transform c.transform l.transform
  pub clear_rgba : Takes rgba_eq link.clear_rgba c.clear_rgba l.clear_rgba
  pub z_order : Takes eq_ℤ link.z_order c.z_order l.z_order
  pub ids : (l.id ≡ link.id) × (l.renderer_id ≡ link.renderer_id) × (l.display_id ≡ link.display_id)
  pub enabled : l.enabled ≡ link.enabled

set_all-IsChanged :
    (c : Change) (link : Link) → ChangeIsNumber c → IsChanged c link (set_all c link).0
unfolding set_geometry
set_all-IsChanged c link n = record {
  src = Takes-choose rect_eq link.src_rect c.src (λ r e. rect_eq_refl r (n.src r e));
  dst = Takes-choose rect_eq link.dst_rect c.dst (λ r e. rect_eq_refl r (n.dst r e));
  transform = Takes-choose ◌==◌ link.transform c.transform (λ x e. ground arith);
  clear_rgba =
      Takes-choose rgba_eq link.clear_rgba c.clear_rgba (λ x e. rgba_eq_refl x (n.clear_rgba x e));
  z_order = Takes-choose eq_ℤ link.z_order c.z_order (λ x e. eq_ℤ_refl x);
  ids = (refl, refl, refl);
  enabled = refl;
}

changed_or_same :
    (lid : LinkId) (c : Change) (t : RoutingTable) (b : Bool)
    → (update lid c t).0 ≡ b
    → ((update lid c t).0 ≡ true) ⊎ ((update lid c t).1 ≡ t)
changed_or_same lid c t true h = inl h
changed_or_same lid c t false h = inr (update_unchanged lid c t h)

-- For a link that stands and supplied values none of which is a NaN: afterwards each field that was
-- supplied equals the value supplied, the others are left, and so are the link's ids; a call that
-- reports no change leaves the table as it was; and a repeated call with the same values reports no
-- change and changes nothing.
pub update_link_geometry_reports :
    (lid : LinkId) (c : Change) (t : RoutingTable) (link : Link)
    → stored lid t ≡ some link
    → ChangeIsNumber c
    → ((l : Link) × (stored lid (update lid c t).1 ≡ some l) × IsChanged c link l)
      × (((update lid c t).0 ≡ true) ⊎ ((update lid c t).1 ≡ t))
      × (update lid c (update lid c t).1 ≡ (false, (update lid c t).1))
update_link_geometry_reports lid c t link e n =
    let again = again-update lid c t n in
    (
      (
        (set_all c link).0,
        ground (arith, e, stored-update lid c t lid),
        set_all-IsChanged c link n,
      ),
      changed_or_same lid c t (update lid c t).0 refl,
      λ i. (again i, update_unchanged lid c (update lid c t).1 again i),
    )
