-- ===== src/Playlist/Cursor/Order.antt =====
-- src/playlist/cursor.rs, build_order: the shuffled indices.
use wwe_modify.Base.{
  ℕ, zero, suc, ◌+◌, ◌-◌, ◌≤◌, ◌<◌, some, ◌≡◌, refl, ap, ◌∙◌, sym, ◌⊎◌, inl, inr, arith, Perm,
}
use mathlib.Core.List.Perm
use mathlib.Core.List.{Mem, mem-cons, not-mem-nil}
use mathlib.Core.Logic.Or
use native.Mathlib.Bridge.{le_prop}
use wwe_modify.Base.Tests.{◌==◌, Bool-cases}
use wwe_modify.Base.Lists.{length, get_elem?}
use wwe_modify.Base.Shuffle.{shuffle_lem, mem-get_elem?}
use wwe_modify.Playlist.Cursor.{PlaylistCursor, rng_range, draw, indices, build_order, ensure_order}

-- Once it has an entry for each item, the order is a permutation of their indices.
abbrev pub IsValid : PlaylistCursor → Type 0
IsValid c = length c.order ≡ length c.items → Perm c.order (indices 0 (length c.items))

-- What no call changes.
pub record Keeps (c d : PlaylistCursor) : Type 0 where
  pub items : d.items ≡ c.items
  pub mode : d.mode ≡ c.mode
  pub valid : IsValid d

pub record HasOrder (c d : PlaylistCursor) : Type 0 where
  pub keeps : Keeps c d
  pub full : length d.order ≡ length c.items

length-indices : (from n : ℕ) → length (indices from n) ≡ n
unfolding indices
length-indices from zero = refl
length-indices from (suc n) = ap suc (length-indices (suc from) n)

lt_of_mem_indices : (from n k : ℕ) → Mem k (indices from n) → k < from + n
unfolding indices
lt_of_mem_indices from zero k m = absurd (not-mem-nil m)
lt_of_mem_indices from (suc n) k m =
    Or.elim le_prop (mem-cons.0 m) (λ e. omega arith)
      (λ r. omega (arith, lt_of_mem_indices (suc from) n k r))

pub rng_range-lt : (rng n : ℕ) → 0 < n → (rng_range rng n).0 < n
unfolding rng_range
rng_range-lt rng n h = ground arith

draw-le : (rng i : ℕ) → (draw rng i).0 ≤ i
unfolding draw
draw-le rng i = omega (arith, rng_range-lt rng (i + 1) (omega arith))

-- `build_order` never panics, for any state of the generator.
pub build_order_lem :
    (c : PlaylistCursor)
    → (d : PlaylistCursor) × (build_order c ≡ some d) × HasOrder c d × (d.order_pos ≡ 0)
unfolding build_order
build_order_lem c =
    let n = length c.items in
    let (order, rng, e, p, l) = shuffle_lem draw draw-le (n - 1) c.rng (indices 0 n) (starts n) in
    (
      record c { order = order; order_pos = 0; rng = rng },
      rw e,
      record {
        keeps = record { items = refl; mode = refl; valid = λ _. p };
        full = l ∙ length-indices 0 n;
      },
      refl,
    )
  where
    starts : (n : ℕ) → (n - 1 < length (indices 0 n)) ⊎ (n - 1 ≡ 0)
    starts zero = inr (omega arith)
    starts (suc n) = inl (omega (arith, length-indices 0 (suc n)))

pub ensure_order_lem :
    (c : PlaylistCursor)
    → IsValid c
    → (d : PlaylistCursor) × (ensure_order c ≡ some d) × HasOrder c d
unfolding ensure_order
ensure_order_lem c v = elim (Bool-cases (length c.order == length c.items)) [
  | inl same ↦ (
    c,
    rw same,
    record { keeps = record { items = refl; mode = refl; valid = v }; full = ground arith },
  )
  | inr other ↦ let (d, e, h, _) = build_order_lem c in (d, rw other e, h)
]

-- An entry of a full order is the index of an item.
pub order-lt :
    (c d : PlaylistCursor) (i k : ℕ)
    → HasOrder c d
    → get_elem? d.order i ≡ some k
    → k < length c.items
order-lt c d i k h e =
    let below : k < 0 + length d.items = lt_of_mem_indices 0 (length d.items) k (
      (Perm.mem_iff (h.keeps.valid (h.full ∙ ap length (sym h.keeps.items)))).0
        (mem-get_elem? d.order i k e)) in
    omega (arith, below, ap length h.keeps.items)
