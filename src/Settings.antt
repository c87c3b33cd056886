-- ===== src/Settings.antt =====
-- src/settings.rs: what a display inherits from the global defaults. Reading and writing the
-- file is not modelled. The overrides of a wallpaper are in src/wallpaper/properties.rs.
use wwe_modify.Base.{ℕ, String, Bool, true, not, ◌&&◌, Option, none, some}
use wwe_modify.Base.Tests.{str_discrete, is_some}
use wwe_modify.Base.Map.{Map, get}
use wwe_modify.Base.Words.{ℤ}
use wwe_modify.Display.Layout.{
  F32Ops, FillMode, preserve_aspect_crop, Rotation, normal, Align, Location, default_location,
  from_align,
}
use wwe_modify.Routing.Autopause.{AutopauseMode, never, ResolvedAutopause}

pub record LayoutDefaults : Type 0 where
  pub fillmode : FillMode
  pub location : Option Location
  pub align : Align
  pub rotation : Rotation

pub record DisplayPrefs : Type 0 where
  pub fillmode : Option FillMode
  pub location : Option Location
  pub align : Option Align
  pub rotation : Option Rotation
  pub autopause_mode : Option AutopauseMode
  pub autopause_resume_ms : Option ℕ
  pub last_wallpaper : Option String
  pub alias : Option String
  pub active_playlist_id : Option ℤ

pub prefs_is_empty : DisplayPrefs → Bool
prefs_is_empty p =
    not (is_some p.fillmode)
    && not (is_some p.location)
    && not (is_some p.align)
    && not (is_some p.rotation)
    && not (is_some p.autopause_mode)
    && not (is_some p.autopause_resume_ms)
    && not (is_some p.last_wallpaper)
    && not (is_some p.alias)
    && not (is_some p.active_playlist_id)

pub record ResolvedLayout : Type 0 where
  pub fillmode : FillMode
  pub location : Location
  pub rotation : Rotation

pub record AutopauseDefaults : Type 0 where
  pub mode : AutopauseMode
  pub resume_ms : ℕ
  pub pause_on_lock : Bool
  pub pause_on_user_switch : Bool

abbrev pub default_autopause : AutopauseDefaults
default_autopause = record {
  mode = never;
  resume_ms = 500;
  pause_on_lock = true;
  pause_on_user_switch = true;
}

-- The fields of `GlobalSettings` that a display inherits.
pub record GlobalSettings : Type 0 where
  pub last_wallpaper : Option String
  pub layout : LayoutDefaults
  pub autopause : AutopauseDefaults

pub record Settings : Type 0 where
  pub global : GlobalSettings
  pub displays : Map String DisplayPrefs

abbrev pub unwrap_or {ℓ} : {A : Type ℓ} → Option A → A → A
unwrap_or none d = d
unwrap_or (some a) d = a

-- `a.or_else(|| b)`.
abbrev pub or_else {ℓ} : {A : Type ℓ} → Option A → Option A → Option A
or_else none b = b
or_else (some a) b = some a

-- `prefs.and_then(|p| p.field)`.
abbrev pub field {ℓ} : {A : Type ℓ} → (DisplayPrefs → Option A) → Option DisplayPrefs → Option A
field f none = none
field f (some p) = f p

abbrev pub map_option {ℓ κ} : {A : Type ℓ} {B : Type κ} → (A → B) → Option A → Option B
map_option f none = none
map_option f (some a) = some (f a)

pub display_prefs : String → Settings → Option DisplayPrefs
display_prefs name s = get str_discrete name s.displays

pub resolved_layout : F32Ops → String → Settings → ResolvedLayout
unfolding display_prefs
resolved_layout ops name s =
    let defaults = s.global.layout in
    let prefs = display_prefs name s in
    record {
      fillmode = unwrap_or (field (λ p. p.fillmode) prefs) defaults.fillmode;
      location =
          unwrap_or
            (or_else (field (λ p. p.location) prefs)
              (map_option (from_align ops) (field (λ p. p.align) prefs)))
            (unwrap_or defaults.location (from_align ops defaults.align));
      rotation = unwrap_or (field (λ p. p.rotation) prefs) defaults.rotation;
    }

pub resolved_autopause : String → Settings → ResolvedAutopause
unfolding display_prefs
resolved_autopause name s =
    let d = s.global.autopause in
    let prefs = display_prefs name s in
    record {
      mode = unwrap_or (field (λ p. p.autopause_mode) prefs) d.mode;
      resume_ms = unwrap_or (field (λ p. p.autopause_resume_ms) prefs) d.resume_ms;
    }

pub resolved_last_wallpaper : String → Settings → Option String
unfolding display_prefs
resolved_last_wallpaper key s =
    or_else (field (λ p. p.last_wallpaper) (display_prefs key s)) s.global.last_wallpaper

-- `WallpaperLayoutOverride` of src/wallpaper/properties.rs.
pub record WallpaperLayoutOverride : Type 0 where
  pub fillmode : Option FillMode
  pub location : Option Location
  pub rotation : Option Rotation

abbrev pub no_override : WallpaperLayoutOverride
no_override = record { fillmode = none; location = none; rotation = none }

pub apply_to : WallpaperLayoutOverride → ResolvedLayout → ResolvedLayout
apply_to o base = record {
  fillmode = unwrap_or o.fillmode base.fillmode;
  location = unwrap_or o.location base.location;
  rotation = unwrap_or o.rotation base.rotation;
}

pub from_resolved : ResolvedLayout → WallpaperLayoutOverride
from_resolved l = record {
  fillmode = some l.fillmode;
  location = some l.location;
  rotation = some l.rotation;
}

pub materialize : WallpaperLayoutOverride → ResolvedLayout
unfolding apply_to
materialize o =
    apply_to o
      (record { fillmode = preserve_aspect_crop; location = default_location; rotation = normal })

pub override_is_empty : WallpaperLayoutOverride → Bool
override_is_empty o =
    not (is_some o.fillmode) && not (is_some o.location) && not (is_some o.rotation)
