-- ===== src/Display/Layout/Tests.antt =====
-- The tests of src/display/layout.rs that need no rounding, on operations that are exact at them.
use wwe_modify.Base.{◌≡◌, refl}
use wwe_modify.Base.Words.{F32, f32_half, f32_one}
use wwe_modify.Base.Tests.{◌==◌, leb, if◌then◌else◌}
use wwe_modify.Display.Layout.{F32Ops, bottom, to_align, from_align}
use wwe_modify.Display.Layout.Alignment.{to_align-from_align}

-- Exact at the products by 100 that an alignment needs.
abbrev times_hundred : F32 → F32
times_hundred a = if a == f32_half then 50 else if a == f32_one then 100 else 0

abbrev exact_ops : F32Ops
exact_ops = record {
  add = λ a b. a;
  sub = λ a b. a;
  mul = λ a b. times_hundred a;
  div = λ a b. a;
  min = λ a b. a;
  max = λ a b. a;
  le = leb;
  of_u32 = λ n. n;
  round_u8 = λ a. a;
}

to_align-from_align_example : to_align (from_align exact_ops bottom) ≡ bottom
to_align-from_align_example = to_align-from_align exact_ops bottom refl refl refl
