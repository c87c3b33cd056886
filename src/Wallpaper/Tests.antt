-- ===== src/Wallpaper/Tests.antt =====
-- Three wallpapers, sorted by size with the largest first and then by name.
use wwe_modify.Base.{ℕ, Bool, true, none, some, List, [], ◌∷◌, Perm, ◌≡◌, refl}
use wwe_modify.Base.Words.{pos}
use wwe_modify.Base.Stable.{sort_by, sort_insert, IsOrder, Pairwise}
use wwe_modify.Wallpaper.{
  WallpaperEntry, WallpaperSortRule, TextOps, key_le, le_ℤ, apply_wallpaper_sorts, key_from,
  is_desc,
}
use wwe_modify.Wallpaper.Ordering.{by_rules, apply_wallpaper_sorts-Pairwise}

-- An order in which all texts tie.
abbrev flat : TextOps
flat = record { to_lowercase = λ a. a; le = λ a b. true }

flat-IsOrder : IsOrder flat.le
flat-IsOrder = record { total = λ x y h. refl; trans = λ x y z h k. refl }

abbrev entry : ℕ → ℕ → WallpaperEntry
entry id size = record {
  item_id = pos id;
  name = "a";
  wp_type = "image";
  size = some (pos size);
  modified_at = none;
}

abbrev rules : List WallpaperSortRule
rules = record { key = pos 3; direction = pos 2 } ∷ record { key = pos 1; direction = pos 1 } ∷ []

abbrev entries : List WallpaperEntry
entries = entry 1 20 ∷ entry 2 30 ∷ entry 3 20 ∷ []

abbrev any : WallpaperEntry → WallpaperEntry → Bool
any a b = true

largest_first : apply_wallpaper_sorts flat rules entries ≡ entry 2 30 ∷ entry 1 20 ∷ entry 3 20 ∷ []
unfolding apply_wallpaper_sorts sort_by sort_insert key_le le_ℤ key_from is_desc
largest_first = refl

apply_wallpaper_sorts-Pairwise_example :
    Pairwise (by_rules flat rules any) (apply_wallpaper_sorts flat rules entries)
    × Perm (apply_wallpaper_sorts flat rules entries) entries
apply_wallpaper_sorts-Pairwise_example =
    apply_wallpaper_sorts-Pairwise flat flat-IsOrder rules any entries
      ((refl, (refl, tt)), ((refl, tt), (tt, tt)))
