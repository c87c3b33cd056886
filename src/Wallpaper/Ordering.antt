-- ===== src/Wallpaper/Ordering.antt =====
-- src/wallpaper/sort.rs: the order that sorting by each rule in turn leaves.
use wwe_modify.Base.{Bool, true, false, Option, none, some, List, [], ◌∷◌, Perm, ◌≡◌, refl, arith}
use mathlib.Core.List.Perm
use wwe_modify.Base.Words.{ℤ, pos, negsuc}
use wwe_modify.Base.Stable.{IsOrder, Pairwise, then_by, sort_by-Pairwise, sort_by-perm}
use wwe_modify.Wallpaper.{
  WallpaperEntry, WallpaperSortRule, WallpaperSortKey, by_name, by_wp_type, by_size,
  by_last_modified, key_from, is_desc, TextOps, le_ℤ, or_zero, key_le, directed, apply_key,
  apply_wallpaper_sorts,
}

le_ℤ_total : (x y : ℤ) → le_ℤ x y ≡ false → le_ℤ y x ≡ true
unfolding le_ℤ
le_ℤ_total (pos a) (pos b) h = ground (arith, h)
le_ℤ_total (pos a) (negsuc b) h = refl
le_ℤ_total (negsuc a) (pos b) h = absurd cc
le_ℤ_total (negsuc a) (negsuc b) h = ground (arith, h)

le_ℤ_trans : (x y z : ℤ) → le_ℤ x y ≡ true → le_ℤ y z ≡ true → le_ℤ x z ≡ true
unfolding le_ℤ
le_ℤ_trans (pos a) (pos b) (pos c) h k = ground (arith, h, k)
le_ℤ_trans (pos a) (pos b) (negsuc c) h k = absurd cc
le_ℤ_trans (pos a) (negsuc b) z h k = absurd cc
le_ℤ_trans (negsuc a) y (pos c) h k = refl
le_ℤ_trans (negsuc a) (pos b) (negsuc c) h k = absurd cc
le_ℤ_trans (negsuc a) (negsuc b) (negsuc c) h k = ground (arith, h, k)

le_ℤ-IsOrder : IsOrder le_ℤ
le_ℤ-IsOrder = record { total = le_ℤ_total; trans = le_ℤ_trans }

module _ (text : TextOps) where
  -- What the rules ask for, from the first on, and where all tie what `r` does.
  abbrev pub by_key :
      Option WallpaperSortKey
      → Bool
      → (WallpaperEntry → WallpaperEntry → Bool)
      → WallpaperEntry
      → WallpaperEntry
      → Bool
  by_key none desc r = r
  by_key (some key) desc r = then_by (directed text desc key) r

  pub by_rules :
      List WallpaperSortRule
      → (WallpaperEntry → WallpaperEntry → Bool)
      → WallpaperEntry
      → WallpaperEntry
      → Bool
  by_rules [] r = r
  by_rules (rule ∷ rules) r = by_key (key_from rule.key) (is_desc rule.direction) (by_rules rules r)

module _ (text : TextOps) (order : IsOrder text.le) where
  key_le-IsOrder : (key : WallpaperSortKey) → IsOrder (key_le text key)
  unfolding key_le
  key_le-IsOrder by_name = record {
    total = λ x y. order.total (text.to_lowercase x.name) (text.to_lowercase y.name);
    trans = λ x y z.
        order.trans (text.to_lowercase x.name) (text.to_lowercase y.name)
          (text.to_lowercase z.name);
  }
  key_le-IsOrder by_wp_type = record {
    total = λ x y. order.total x.wp_type y.wp_type;
    trans = λ x y z. order.trans x.wp_type y.wp_type z.wp_type;
  }
  key_le-IsOrder by_size = record {
    total = λ x y. le_ℤ-IsOrder.total (or_zero x.size) (or_zero y.size);
    trans = λ x y z. le_ℤ-IsOrder.trans (or_zero x.size) (or_zero y.size) (or_zero z.size);
  }
  key_le-IsOrder by_last_modified = record {
    total = λ x y. le_ℤ-IsOrder.total (or_zero x.modified_at) (or_zero y.modified_at);
    trans = λ x y z.
        le_ℤ-IsOrder.trans (or_zero x.modified_at) (or_zero y.modified_at) (or_zero z.modified_at);
  }

  directed-IsOrder : (desc : Bool) (key : WallpaperSortKey) → IsOrder (directed text desc key)
  directed-IsOrder false key = key_le-IsOrder key
  directed-IsOrder true key =
      let o = key_le-IsOrder key in
      record { total = λ x y. o.total y x; trans = λ x y z h k. o.trans z y x k h }

  apply_key-Pairwise :
      (key : Option WallpaperSortKey) (desc : Bool) (r : WallpaperEntry → WallpaperEntry → Bool)
      (entries : List WallpaperEntry)
      → Pairwise r entries
      → Pairwise (by_key text key desc r) (apply_key text key desc entries)
        × Perm (apply_key text key desc entries) entries
  apply_key-Pairwise none desc r entries p = (p, Perm.refl entries)
  apply_key-Pairwise (some key) desc r entries p = (
    sort_by-Pairwise (directed text desc key) r (directed-IsOrder desc key) entries p,
    sort_by-perm (directed text desc key) r entries,
  )

  -- Where the entries stand one after the other by `r`, apply_wallpaper_sorts leaves the same
  -- entries, each before the next by the first rule that tells them apart, and by `r`, so as
  -- they stood before, where none does; an unknown key tells nothing apart.
  pub apply_wallpaper_sorts-Pairwise :
      (rules : List WallpaperSortRule) (r : WallpaperEntry → WallpaperEntry → Bool)
      (entries : List WallpaperEntry)
      → Pairwise r entries
      → Pairwise (by_rules text rules r) (apply_wallpaper_sorts text rules entries)
        × Perm (apply_wallpaper_sorts text rules entries) entries
  unfolding apply_wallpaper_sorts by_rules
  apply_wallpaper_sorts-Pairwise [] r entries p = (p, Perm.refl entries)
  apply_wallpaper_sorts-Pairwise (rule ∷ rules) r entries p =
      let (sorted, same) = apply_wallpaper_sorts-Pairwise rules r entries p in
      let (done, kept) =
        apply_key-Pairwise (key_from rule.key) (is_desc rule.direction) (by_rules text rules r)
          (apply_wallpaper_sorts text rules entries) sorted in
      (done, Perm.trans kept same)
