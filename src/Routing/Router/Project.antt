-- ===== src/Routing/Router/Project.antt =====
-- What a display is told of a link's geometry.
use wwe_modify.Base.{ℕ, ◌%◌, ◌^◌, String, Bool, ◌&&◌, none, some}
use wwe_modify.Base.Tests.{◌==◌, if◌then◌else◌, is_some, str_discrete}
use wwe_modify.Base.Words.{F32, f32_infinity}
use wwe_modify.Base.Map.{get}
use wwe_modify.Display.Layout.{
  F32Ops, Rotation, normal, cw90, cw270, to_wl_transform, preserve_aspect_crop, default_location,
  compute,
}
use wwe_modify.Routing.Autopause.{never, ResolvedAutopause}
use wwe_modify.Routing.Table.{Link, RendererId, rect_eq, full_rect}
use wwe_modify.Routing.Router.{RendererObject, Router}
use wwe_modify.Scheduler.{DisplayInfo, ProjectedConfig}
use wwe_modify.Settings.{Settings, ResolvedLayout, unwrap_or, no_override, display_prefs, apply_to}
use wwe_modify.Settings

-- (0, 0) before the first `BindBuffers`.
pub texture_size : RendererObject → ℕ × ℕ
texture_size o = elim o.bind_snapshot [ none ↦ (0, 0) | some b ↦ (b.width, b.height) ]

-- The key under which the settings know the display: its instance id if they know that one.
pub resolve_key : DisplayInfo → Settings → String
resolve_key info s = elim info.instance_id [
  | none ↦ info.name
  | some iid ↦ if is_some (display_prefs iid s) then iid else info.name
]

-- The display's sides before the rotation.
pub before_rotation : Rotation → DisplayInfo → ℕ × ℕ
before_rotation cw90 info = (info.height, info.width)
before_rotation cw270 info = (info.height, info.width)
before_rotation _ info = (info.width, info.height)

module _ (ops : F32Ops) where
  pub resolved_layout : DisplayInfo → Router → ResolvedLayout
  unfolding resolve_key
  resolved_layout info s = elim s.settings [
    | none ↦ record {
      fillmode = preserve_aspect_crop;
      location = default_location;
      rotation = normal;
    }
    | some t ↦ Settings.resolved_layout ops (resolve_key info t) t
  ]

  pub resolved_layout_for_renderer : DisplayInfo → RendererId → Router → ResolvedLayout
  unfolding resolved_layout
  resolved_layout_for_renderer info rid s =
      apply_to (unwrap_or (get str_discrete rid s.wallpaper_layout_overrides) no_override)
        (resolved_layout info s)

  -- `is_infinite`.
  abbrev is_infinite : F32 → Bool
  is_infinite a = a % 2 ^ 31 == f32_infinity

  -- A sentinel side is the side of the whole.
  abbrev resolve_side : F32 → ℕ → F32
  resolve_side a whole = if is_infinite a then ops.of_u32 whole else a

  pub project_full : Link → RendererObject → DisplayInfo → ℕ → ResolvedLayout → ProjectedConfig
  unfolding texture_size before_rotation
  project_full link o info generation layout =
      let (tex_w, tex_h) = texture_size o in
      let (disp_w, disp_h) = before_rotation layout.rotation info in
      let out = compute ops (record {
        tex_w = ops.of_u32 tex_w;
        tex_h = ops.of_u32 tex_h;
        disp_w = ops.of_u32 disp_w;
        disp_h = ops.of_u32 disp_h;
        fillmode = layout.fillmode;
        location = layout.location;
        clear_rgba = link.clear_rgba;
      }) in
      let c = out.clear_rgba in
      record {
        config_generation = generation;
        source_x = out.source.0;
        source_y = out.source.1;
        source_w = out.source.2;
        source_h = out.source.3;
        dest_x = out.dest.0;
        dest_y = out.dest.1;
        dest_w = out.dest.2;
        dest_h = out.dest.3;
        transform = to_wl_transform layout.rotation;
        clear_rgba = (c.red, c.green, c.blue, c.alpha);
      }

  pub project_link : Link → RendererObject → DisplayInfo → ℕ → ResolvedLayout → ProjectedConfig
  unfolding project_full
  project_link link o info generation layout =
      let (tex_w, tex_h) = texture_size o in
      let c = link.clear_rgba in
      if rect_eq link.src_rect full_rect && rect_eq link.dst_rect full_rect
      then project_full link o info generation layout
      else record {
        config_generation = generation;
        source_x = link.src_rect.x;
        source_y = link.src_rect.y;
        source_w = resolve_side link.src_rect.w tex_w;
        source_h = resolve_side link.src_rect.h tex_h;
        dest_x = link.dst_rect.x;
        dest_y = link.dst_rect.y;
        dest_w = resolve_side link.dst_rect.w info.width;
        dest_h = resolve_side link.dst_rect.h info.height;
        transform = to_wl_transform layout.rotation;
        clear_rgba = (c.red, c.green, c.blue, c.alpha);
      }

pub resolved_autopause : DisplayInfo → Router → ResolvedAutopause
unfolding resolve_key
resolved_autopause info s = elim s.settings [
  | none ↦ record { mode = never; resume_ms = 500 }
  | some t ↦ Settings.resolved_autopause (resolve_key info t) t
]
