-- ===== src/Display/Layout.antt =====
-- src/display/layout.rs. The machine's operations on `f32` are a parameter.
pub mod Alignment
mod Tests
use wwe_modify.Base.{ℕ, ◌-◌, Bool, true, false, ◌&&◌, ◌||◌, Option, none, some}
use wwe_modify.Base.Tests.{◌==◌, leb, if◌then◌else◌}
use wwe_modify.Base.Words.{F32, f32_zero, f32_half, f32_one, f32_hundred}
use wwe_modify.Routing.Table.{Rgba}
use wwe_modify.Scheduler.{ProjectedConfig}

-- IEEE 754 singles: arithmetic, order, `as f32`, and `round() as u8`.
pub record F32Ops : Type 0 where
  pub add : F32 → F32 → F32
  pub sub : F32 → F32 → F32
  pub mul : F32 → F32 → F32
  pub div : F32 → F32 → F32
  pub min : F32 → F32 → F32
  pub max : F32 → F32 → F32
  pub le : F32 → F32 → Bool
  pub of_u32 : ℕ → F32
  pub round_u8 : F32 → ℕ

pub data FillMode : Type 0 where
  stretched preserve_aspect_fit preserve_aspect_crop centered : FillMode

pub data Rotation : Type 0 where
  normal cw90 cw180 cw270 : Rotation

pub to_wl_transform : Rotation → ℕ
to_wl_transform normal = 0
to_wl_transform cw90 = 1
to_wl_transform cw180 = 2
to_wl_transform cw270 = 3

pub data Align : Type 0 where
  top_left top top_right left center right bottom_left bottom bottom_right : Align

pub align_h : Align → F32
align_h top_left = f32_zero
align_h left = f32_zero
align_h bottom_left = f32_zero
align_h top = f32_half
align_h center = f32_half
align_h bottom = f32_half
align_h _ = f32_one

pub align_v : Align → F32
align_v top_left = f32_zero
align_v top = f32_zero
align_v top_right = f32_zero
align_v left = f32_half
align_v center = f32_half
align_v right = f32_half
align_v _ = f32_one

pub record Location : Type 0 where
  pub x : ℕ
  pub y : ℕ

abbrev pub default_location : Location
default_location = record { x = 50; y = 50 }

-- `v.min(100)`.
abbrev pub cap : ℕ → ℕ
cap v = if leb v 100 then v else 100

pub new_location : ℕ → ℕ → Location
new_location x y = record { x = cap x; y = cap y }

-- The three parts of an axis: `bucket` answers 0, 1 and 2.
pub data Third : Type 0 where
  low middle high : Third

pub bucket : ℕ → Third
bucket v = if leb v 25 then low else if leb 75 v then high else middle

pub align_of : Third → Third → Align
align_of low low = top_left
align_of middle low = top
align_of high low = top_right
align_of low middle = left
align_of middle middle = center
align_of high middle = right
align_of low high = bottom_left
align_of middle high = bottom
align_of high high = bottom_right

pub to_align : Location → Align
unfolding bucket align_of
to_align l = align_of (bucket l.x) (bucket l.y)

pub record LayoutInput : Type 0 where
  pub tex_w : F32
  pub tex_h : F32
  pub disp_w : F32
  pub disp_h : F32
  pub fillmode : FillMode
  pub location : Location
  pub clear_rgba : Rgba

abbrev pub Rect : Type 0
Rect = F32 × F32 × F32 × F32

pub record LayoutOutput : Type 0 where
  pub source : Rect
  pub dest : Rect
  pub clear_rgba : Rgba

module _ (ops : F32Ops) where
  pub from_align : Align → Location
  unfolding align_h align_v new_location
  from_align a =
      new_location (ops.round_u8 (ops.mul (align_h a) f32_hundred))
        (ops.round_u8 (ops.mul (align_v a) f32_hundred))

  -- `f32::from(v.min(100)) / 100.0`.
  pub factor : ℕ → F32
  factor v = ops.div (ops.of_u32 (cap v)) f32_hundred

  -- One axis of `Centered`: the offsets and lengths in the source and on the display.
  pub axis_centered : F32 → F32 → F32 → Rect
  axis_centered tex disp f =
      if ops.le tex disp
      then (f32_zero, tex, ops.mul (ops.sub disp tex) f, tex)
      else (ops.mul (ops.sub tex disp) f, disp, f32_zero, disp)

  pub place : FillMode → LayoutInput → LayoutOutput
  unfolding factor axis_centered
  place stretched i = record {
    source = (f32_zero, f32_zero, i.tex_w, i.tex_h);
    dest = (f32_zero, f32_zero, i.disp_w, i.disp_h);
    clear_rgba = i.clear_rgba;
  }
  place preserve_aspect_fit i =
      let scale = ops.min (ops.div i.disp_w i.tex_w) (ops.div i.disp_h i.tex_h) in
      let dw = ops.mul i.tex_w scale in
      let dh = ops.mul i.tex_h scale in
      record {
        source = (f32_zero, f32_zero, i.tex_w, i.tex_h);
        dest = (
          ops.mul (ops.sub i.disp_w dw) (factor i.location.x),
          ops.mul (ops.sub i.disp_h dh) (factor i.location.y),
          dw,
          dh,
        );
        clear_rgba = i.clear_rgba;
      }
  place preserve_aspect_crop i =
      let scale = ops.max (ops.div i.disp_w i.tex_w) (ops.div i.disp_h i.tex_h) in
      let sw = ops.div i.disp_w scale in
      let sh = ops.div i.disp_h scale in
      record {
        source = (
          ops.mul (ops.sub i.tex_w sw) (factor i.location.x),
          ops.mul (ops.sub i.tex_h sh) (factor i.location.y),
          sw,
          sh,
        );
        dest = (f32_zero, f32_zero, i.disp_w, i.disp_h);
        clear_rgba = i.clear_rgba;
      }
  place centered i =
      let (sx, sw, dx, dw) = axis_centered i.tex_w i.disp_w (factor i.location.x) in
      let (sy, sh, dy, dh) = axis_centered i.tex_h i.disp_h (factor i.location.y) in
      record { source = (sx, sy, sw, sh); dest = (dx, dy, dw, dh); clear_rgba = i.clear_rgba }

  abbrev pub degenerate : LayoutInput → Bool
  degenerate i =
      ops.le i.tex_w f32_zero
      || ops.le i.tex_h f32_zero
      || ops.le i.disp_w f32_zero
      || ops.le i.disp_h f32_zero

  pub compute : LayoutInput → LayoutOutput
  unfolding place
  compute i =
      if degenerate i
      then record {
        source = (f32_zero, f32_zero, ops.max i.tex_w f32_zero, ops.max i.tex_h f32_zero);
        dest = (f32_zero, f32_zero, ops.max i.disp_w f32_zero, ops.max i.disp_h f32_zero);
        clear_rgba = i.clear_rgba;
      }
      else place i.fillmode i

  -- The inverse of `wl_output.transform` on the unit square.
  pub unturn : ℕ → F32 → F32 → F32 × F32
  unturn t u v =
      if t == 1
      then (ops.sub f32_one v, u)
      else if t == 2
      then (ops.sub f32_one u, ops.sub f32_one v)
      else if t == 3
      then (v, ops.sub f32_one u)
      else if t == 4
      then (ops.sub f32_one u, v)
      else if t == 5
      then (v, u)
      else if t == 6
      then (u, ops.sub f32_one v)
      else if t == 7
      then (ops.sub f32_one v, ops.sub f32_one u)
      else (u, v)

  abbrev pub in_unit : F32 → Bool
  in_unit u = ops.le f32_zero u && ops.le u f32_one

  pub display_point_to_texture : F32 → F32 → ProjectedConfig → Option (F32 × F32)
  unfolding unturn
  display_point_to_texture disp_x disp_y cfg =
      let u = ops.div (ops.sub disp_x cfg.dest_x) cfg.dest_w in
      let v = ops.div (ops.sub disp_y cfg.dest_y) cfg.dest_h in
      let (uu, vv) = unturn cfg.transform u v in
      if ops.le cfg.dest_w f32_zero || ops.le cfg.dest_h f32_zero
      then none
      else if in_unit u && in_unit v
      then some (
        ops.add cfg.source_x (ops.mul uu cfg.source_w),
        ops.add cfg.source_y (ops.mul vv cfg.source_h),
      )
      else none
