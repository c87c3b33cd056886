-- ===== src/Display/Layout/Alignment.antt =====
-- src/display/layout.rs: an alignment and the location that stands for it.
use wwe_modify.Base.{◌≡◌}
use wwe_modify.Base.Words.{f32_zero, f32_half, f32_one, f32_hundred}
use wwe_modify.Display.Layout.{
  F32Ops, Align, top_left, top, top_right, left, center, right, bottom_left, bottom, bottom_right,
  to_align, from_align,
}

-- Where the machine computes 0, 0.5 and 1 times 100 exactly, an alignment survives being stored as a
-- location.
pub to_align-from_align :
    (ops : F32Ops) (a : Align)
    → ops.round_u8 (ops.mul f32_zero f32_hundred) ≡ 0
    → ops.round_u8 (ops.mul f32_half f32_hundred) ≡ 50
    → ops.round_u8 (ops.mul f32_one f32_hundred) ≡ 100
    → to_align (from_align ops a) ≡ a
unfolding to_align from_align
to_align-from_align ops top_left p q r = rw p
to_align-from_align ops top p q r = rw (p, q)
to_align-from_align ops top_right p q r = rw (p, r)
to_align-from_align ops left p q r = rw (p, q)
to_align-from_align ops center p q r = rw q
to_align-from_align ops right p q r = rw (q, r)
to_align-from_align ops bottom_left p q r = rw (p, r)
to_align-from_align ops bottom p q r = rw (q, r)
to_align-from_align ops bottom_right p q r = rw r
