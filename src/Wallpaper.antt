-- ===== src/Wallpaper.antt =====
-- src/wallpaper/sort.rs, apply_wallpaper_sorts. The order of texts and their lower case are the
-- standard library's, and parameters.
pub mod Ordering
mod Tests
use wwe_modify.Base.{ℕ, String, Bool, true, false, Option, none, some, List, [], ◌∷◌}
use wwe_modify.Base.Tests.{◌==◌, leb, if◌then◌else◌}
use wwe_modify.Base.Stable.{sort_by}
use wwe_modify.Base.Words.{ℤ, pos, negsuc}

-- Of a `WallpaperEntry`, its id and what the sort reads.
pub record WallpaperEntry : Type 0 where
  pub item_id : ℤ
  pub name : String
  pub wp_type : String
  pub size : Option ℤ
  pub modified_at : Option ℤ

-- The wire's numbers.
pub record WallpaperSortRule : Type 0 where
  pub key : ℤ
  pub direction : ℤ

pub data WallpaperSortKey : Type 0 where
  by_name by_wp_type by_size by_last_modified : WallpaperSortKey

-- `try_from`, with `Unspecified` and what is unknown left out.
unfoldable pub key_from : ℤ → Option WallpaperSortKey
key_from (negsuc n) = none
key_from (pos n) =
    if n == 1
    then some by_name
    else if n == 2
    then some by_wp_type
    else if n == 3
    then some by_size
    else if n == 4
    then some by_last_modified
    else none

unfoldable pub is_desc : ℤ → Bool
is_desc (pos n) = n == 2
is_desc (negsuc n) = false

pub record TextOps : Type 0 where
  pub to_lowercase : String → String
  pub le : String → String → Bool

pub le_ℤ : ℤ → ℤ → Bool
le_ℤ (pos a) (pos b) = leb a b
le_ℤ (pos a) (negsuc b) = false
le_ℤ (negsuc a) (pos b) = true
le_ℤ (negsuc a) (negsuc b) = leb b a

abbrev pub or_zero : Option ℤ → ℤ
or_zero none = pos 0
or_zero (some z) = z

module _ (text : TextOps) where
  -- The comparison is not `Greater`.
  pub key_le : WallpaperSortKey → WallpaperEntry → WallpaperEntry → Bool
  unfolding le_ℤ
  key_le by_name a b = text.le (text.to_lowercase a.name) (text.to_lowercase b.name)
  key_le by_wp_type a b = text.le a.wp_type b.wp_type
  key_le by_size a b = le_ℤ (or_zero a.size) (or_zero b.size)
  key_le by_last_modified a b = le_ℤ (or_zero a.modified_at) (or_zero b.modified_at)

  -- `ord.reverse()`.
  abbrev pub directed : Bool → WallpaperSortKey → WallpaperEntry → WallpaperEntry → Bool
  directed true key a b = key_le key b a
  directed false key a b = key_le key a b

  abbrev pub apply_key : Option WallpaperSortKey → Bool → List WallpaperEntry → List WallpaperEntry
  apply_key none desc entries = entries
  apply_key (some key) desc entries = sort_by (directed desc key) entries

  -- `sorts.iter().rev()`: the last rule is applied first.
  pub apply_wallpaper_sorts : List WallpaperSortRule → List WallpaperEntry → List WallpaperEntry
  unfolding key_le
  apply_wallpaper_sorts [] entries = entries
  apply_wallpaper_sorts (rule ∷ rules) entries =
      apply_key (key_from rule.key) (is_desc rule.direction) (apply_wallpaper_sorts rules entries)
