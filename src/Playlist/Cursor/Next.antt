-- ===== src/Playlist/Cursor/Next.antt =====
-- src/playlist/cursor.rs, next: its answer and the cursor after it.
use wwe_modify.Base.{
  ℕ, ◌+◌, ◌%◌, ◌^◌, ◌<◌, String, false, Option, some, ◌≡◌, refl, ap, ◌∙◌, inl, inr, arith,
}
use wwe_modify.Base.Tests.{◌==◌, Bool-cases}
use wwe_modify.Base.Lists.{length, get_elem?}
use wwe_modify.Base.Words.{ℤ, rem_euclid}
use wwe_modify.Base.Shuffle.{◌>>=◌, get_elem?-some}
use wwe_modify.Queue.{Mode, sequential, shuffled, random}
use wwe_modify.Playlist.Cursor.Order.{
  IsValid, Keeps, HasOrder, rng_range-lt, build_order_lem, ensure_order_lem, order-lt,
}
use wwe_modify.Playlist.Cursor.{
  PlaylistCursor, step_of, next_sequential, next_random, turn_round, next_shuffled, next_index,
  take_item, next,
}

pub step_of_lem :
    (delta : ℤ) (n : ℕ) → 0 < n → n < 2 ^ 31 → step_of delta n ≡ some (rem_euclid delta n)
unfolding step_of
step_of_lem delta n low high = ground arith

-- An index into the items, and a cursor that goes on with the same items and mode.
abbrev pub Finds : PlaylistCursor → Option (ℕ × PlaylistCursor) → Type 0
Finds c r =
    (idx : ℕ) × (d : PlaylistCursor) × (r ≡ some (idx, d)) × (idx < length c.items) × Keeps c d

next_sequential_lem :
    (delta : ℤ) (c : PlaylistCursor)
    → 0 < length c.items
    → length c.items < 2 ^ 31
    → IsValid c
    → Finds c (next_sequential delta c)
unfolding next_sequential
next_sequential_lem delta c low high v =
    let n = length c.items in
    let pos = (c.pos + rem_euclid delta n) % n in
    (
      pos,
      record c { pos = pos },
      rw (step_of_lem delta n low high),
      omega arith,
      record { items = refl; mode = refl; valid = v },
    )

next_random_lem : (c : PlaylistCursor) → 0 < length c.items → IsValid c → Finds c (next_random c)
unfolding next_random
next_random_lem c low v = (
  _,
  _,
  refl,
  ground (arith, rng_range-lt c.rng (length c.items) low),
  record { items = refl; mode = refl; valid = v },
)

turn_round_lem :
    (c d : PlaylistCursor)
    → HasOrder c d
    → d.order_pos < length c.items
    → (e : PlaylistCursor) × (turn_round d ≡ some e) × HasOrder c e × (e.order_pos ≡ d.order_pos)
unfolding turn_round
turn_round_lem c d h low = elim (Bool-cases (d.order_pos == 0)) [
  | inr going ↦ (d, rw going, h, refl)
  | inl over ↦
      let (e, built, h', start) = build_order_lem d in
      (
        e,
        rw over built,
        record {
          keeps = record {
            items = h'.keeps.items ∙ h.keeps.items;
            mode = h'.keeps.mode ∙ h.keeps.mode;
            valid = h'.keeps.valid;
          };
          full = h'.full ∙ ap length h.keeps.items;
        },
        ground arith,
      )
]

next_shuffled_lem :
    (delta : ℤ) (c : PlaylistCursor)
    → 0 < length c.items
    → length c.items < 2 ^ 31
    → IsValid c
    → Finds c (next_shuffled delta c)
unfolding next_shuffled
next_shuffled_lem delta c low high v =
    let (c1, ensured, h1) = ensure_order_lem c v in
    let m = length c1.order in
    let at = (c1.order_pos + rem_euclid delta m) % m in
    let moved : PlaylistCursor = record c1 { order_pos = at } in
    let h2 : HasOrder c moved = record {
      keeps = record { items = h1.keeps.items; mode = h1.keeps.mode; valid = h1.keeps.valid };
      full = h1.full;
    } in
    let (c2, turned, h3, same) = turn_round_lem c moved h2 (omega (arith, h1.full)) in
    let (idx, found) =
      get_elem?-some c2.order c2.order_pos (omega (arith, h1.full, h3.full, same)) in
    (
      idx,
      c2,
      rw (
        ensured,
        step_of_lem delta m (omega (arith, h1.full)) (omega (arith, h1.full)),
        turned,
        found,
      ),
      order-lt c c2 c2.order_pos idx h3 found,
      h3.keeps,
    )

next_index_lem :
    (mode : Mode) (delta : ℤ) (c : PlaylistCursor)
    → 0 < length c.items
    → length c.items < 2 ^ 31
    → IsValid c
    → Finds c (next_index mode delta c)
unfolding next_index
next_index_lem sequential delta c low high v = next_sequential_lem delta c low high v
next_index_lem random delta c low high v = next_random_lem c low v
next_index_lem shuffled delta c low high v = next_shuffled_lem delta c low high v

-- The answer is an item, it is made current, and the items, the mode and the order are kept.
pub record Plays (c : PlaylistCursor) (r : Option (Option String × PlaylistCursor)) : Type 0 where
  pub index : ℕ
  pub id : String
  pub after : PlaylistCursor
  pub answer : r ≡ some (some id, after)
  pub item : get_elem? c.items index ≡ some id
  pub current : after.current ≡ some id
  pub keeps : Keeps c after

pub Finds-Plays :
    (c : PlaylistCursor) (r : Option (ℕ × PlaylistCursor)) → Finds c r → Plays c (r >>= take_item)
unfolding take_item
Finds-Plays c r (idx, d, e, low, k) =
    let (id, found) = get_elem?-some c.items idx low in
    record {
      index = idx;
      id = id;
      after = record d { current = some id };
      answer = rw (e, k.items, found);
      item = found;
      current = refl;
      keeps = record { items = k.items; mode = k.mode; valid = k.valid };
    }

-- On a valid cursor with at least one and fewer than 2^31 items, `next` does not panic in any mode
-- and for any delta: it answers with an item of the list, which becomes the current one, and the
-- cursor stays valid over the same items.
pub next-Plays :
    (delta : ℤ) (c : PlaylistCursor)
    → 0 < length c.items
    → length c.items < 2 ^ 31
    → IsValid c
    → Plays c (next delta c)
unfolding next
next-Plays delta c low high v =
    rw (nonempty c low)
      (Finds-Plays c (next_index c.mode delta c) (next_index_lem c.mode delta c low high v))
  where
    nonempty : (c : PlaylistCursor) → 0 < length c.items → (length c.items == 0) ≡ false
    nonempty c h = ground arith
