-- ===== src/Playlist/Cursor/Random.antt =====
-- src/playlist/cursor.rs, next in random mode: the item beside the one that was current.
use wwe_modify.Base.{
  ℕ, ◌+◌, ◌%◌, ◌<◌, String, Bool, true, false, ◌&&◌, Option, none, some, ◌≡◌, ◌≢◌, ◌↔◌, ap, ◌∙◌,
  sym, inl, inr, arith,
}
use mathlib.Core.List.{Nodup}
use wwe_modify.Base.Tests.{◌==◌, ltb, if◌then◌else◌, Bool-cases, Option-cases}
use wwe_modify.Base.Lists.{length, get_elem?}
use wwe_modify.Base.Words.{ℤ}
use wwe_modify.Base.Shuffle.{◌>>=◌, get_elem?-injective}
use wwe_modify.Queue.{random}
use wwe_modify.Playlist.Cursor.{PlaylistCursor, rng_range, is_current, next_index, take_item, next}

is_current_iff : (o : Option String) (id : String) → (is_current o (some id) ≡ true) ↔ (o ≡ some id)
unfolding is_current
is_current_iff none id = (λ e. absurd (cc), λ e. absurd (cc))
is_current_iff (some a) id = (λ e. ground arith, λ e. ground arith)

-- The index that `next` draws, moved on by one if it would repeat the current item.
abbrev drawn : PlaylistCursor → ℕ
drawn c = (rng_range c.rng (length c.items)).0

abbrev repeats : PlaylistCursor → Bool
repeats c = ltb 1 (length c.items) && is_current (get_elem? c.items (drawn c)) c.current

abbrev index : PlaylistCursor → ℕ
index c = if repeats c then (drawn c + 1) % length c.items else drawn c

take_item_inverse :
    (i : ℕ) (c d : PlaylistCursor) (id : String)
    → take_item (i, c) ≡ some (some id, d)
    → get_elem? c.items i ≡ some id
unfolding take_item
take_item_inverse i c d id e = elim (Option-cases (get_elem? c.items i)) [
  | inl n ↦ absurd (ground arith)
  | inr (x, f) ↦ ground arith
]

next_of_random :
    (delta : ℤ) (c : PlaylistCursor)
    → c.mode ≡ random
    → 1 < length c.items
    → next delta c
      ≡ take_item (index c, record c { rng = (rng_range c.rng (length c.items)).1; pos = index c })
unfolding next
next_of_random delta c m more =
    nonempty (length c.items) more ∙ ap (λ mode. next_index mode delta c >>= take_item) m
  where
    nonempty :
        (n : ℕ)
        → 1 < n
        → (if n == 0 then some (none, c) else (next_index c.mode delta c >>= take_item))
          ≡ (next_index c.mode delta c >>= take_item)
    nonempty n h = ground arith

next_random_item :
    (delta : ℤ) (c d : PlaylistCursor) (id : String)
    → c.mode ≡ random
    → 1 < length c.items
    → next delta c ≡ some (some id, d)
    → get_elem? c.items (index c) ≡ some id
next_random_item delta c d id m more e =
    take_item_inverse (index c)
      (record c { rng = (rng_range c.rng (length c.items)).1; pos = index c }) d id
      (sym (next_of_random delta c m more) ∙ e)

-- `idx + 1` is another index if there are at least two.
moves_on : (i n : ℕ) → 1 < n → (i + 1) % n ≢ i
moves_on i n h e = grind arith

-- In random mode, with at least two items and none twice, the item that `next` answers is not the
-- one that was current.
pub next_random-ne_current :
    (delta : ℤ) (c d : PlaylistCursor) (id : String)
    → c.mode ≡ random
    → 1 < length c.items
    → Nodup c.items
    → next delta c ≡ some (some id, d)
    → c.current ≢ some id
next_random-ne_current delta c d id m more u e current =
    let item = next_random_item delta c d id m more e in
    elim (Bool-cases (is_current (get_elem? c.items (drawn c)) (some id))) [
      | inl same ↦ moves_on (drawn c) (length c.items) more (
          get_elem?-injective c.items ((drawn c + 1) % length c.items) (drawn c) id u
            (moved same item) ((is_current_iff (get_elem? c.items (drawn c)) id).0 same))
      | inr other ↦
          ground (arith, is_current_iff (get_elem? c.items (drawn c)) id, stayed other item)
    ]
  where
    moved :
        is_current (get_elem? c.items (drawn c)) (some id) ≡ true
        → get_elem? c.items (index c) ≡ some id
        → get_elem? c.items ((drawn c + 1) % length c.items) ≡ some id
    moved same item = ground arith

    stayed :
        is_current (get_elem? c.items (drawn c)) (some id) ≡ false
        → get_elem? c.items (index c) ≡ some id
        → get_elem? c.items (drawn c) ≡ some id
    stayed other item = ground arith
