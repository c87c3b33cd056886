-- ===== src/Playlist/Cursor.antt =====
-- src/playlist/cursor.rs. An outer `none` is a panic: an index out of range, or `rem_euclid` by
-- zero or past `i32::MIN`. A `Vec` has fewer than 2^63 entries, so sums of positions do not overflow.
pub mod Order
pub mod Next
pub mod Random
pub mod Cycle
mod Tests
use wwe_modify.Base.{
  ℕ, zero, suc, ◌+◌, ◌-◌, ◌*◌, ◌/◌, ◌%◌, ◌^◌, String, Bool, true, false, ◌&&◌, Option, none, some,
  List, [], ◌∷◌, ◌++◌,
}
use wwe_modify.Base.Tests.{◌==◌, ltb, leb, if◌then◌else◌, str_discrete}
use wwe_modify.Base.Lists.{length, get_elem?}
use wwe_modify.Base.Words.{ℤ, negsuc, eq_ℤ, rem_euclid}
use wwe_modify.Base.Shuffle.{shuffle, ◌>>=◌}
use wwe_modify.Queue.{Mode, sequential, shuffled, random, xorshift, fallback_seed}

pub record PlaylistCursor : Type 0 where
  pub items : List String
  pub mode : Mode
  pub pos : ℕ
  pub order : List ℕ
  pub order_pos : ℕ
  pub rng : ℕ
  pub current : Option String

pub rng_next : ℕ → ℕ × ℕ
rng_next rng = let x = xorshift (if rng == 0 then fallback_seed else rng) in (x, x)

pub rng_range : ℕ → ℕ → ℕ × ℕ
unfolding rng_next
rng_range rng n = if n == 0 then (0, rng) else ((rng_next rng).0 % n, (rng_next rng).1)

-- `self.rng_range(i + 1)`.
pub draw : ℕ → ℕ → ℕ × ℕ
unfolding rng_range
draw rng i = rng_range rng (i + 1)

-- `(from..from + n).collect()`.
pub indices : ℕ → ℕ → List ℕ
indices from zero = []
indices from (suc n) = from ∷ indices (suc from) n

pub build_order : PlaylistCursor → Option PlaylistCursor
unfolding draw indices
build_order c = do
  let n = length c.items
  (order, rng) ← shuffle draw (n - 1) c.rng (indices 0 n)
  some (record c { order = order; order_pos = 0; rng = rng })

pub new : List String → Mode → ℕ → Option PlaylistCursor
unfolding build_order
new items mode seed =
    let c : PlaylistCursor = record {
      items = items;
      mode = mode;
      pos = 0;
      order = [];
      order_pos = 0;
      rng = if seed == 0 then fallback_seed else seed;
      current = none;
    } in
    elim mode [ shuffled ↦ build_order c | _ ↦ some c ]

-- `delta.rem_euclid(n as i32) as usize`, for an `i32` delta.
pub step_of : ℤ → ℕ → Option ℕ
step_of delta n =
    let m = n % 2 ^ 32 in
    if m == 0
    then none
    else if ltb m (2 ^ 31)
    then some (rem_euclid delta m)
    else if m == 2 ^ 32 - 1 && eq_ℤ delta (negsuc (2 ^ 31 - 1))
    then none
    else some (rem_euclid delta (2 ^ 32 - m))

-- `if self.order.len() != self.items.len() { self.build_order(); }`
pub ensure_order : PlaylistCursor → Option PlaylistCursor
unfolding build_order
ensure_order c = if length c.order == length c.items then some c else build_order c

is_current : Option String → Option String → Bool
is_current (some a) (some b) = elim (str_discrete a b) [ yes _ ↦ true | no _ ↦ false ]
is_current _ _ = false

-- The three arms of `next`, each with the index into `items`.
pub next_sequential : ℤ → PlaylistCursor → Option (ℕ × PlaylistCursor)
unfolding step_of
next_sequential delta c = do
  step ← step_of delta (length c.items)
  let pos = (c.pos + step) % length c.items
  some (pos, record c { pos = pos })

pub next_random : PlaylistCursor → Option (ℕ × PlaylistCursor)
unfolding rng_range is_current
next_random c =
    let n = length c.items in
    let (drawn, rng) = rng_range c.rng n in
    let idx =
      if ltb 1 n && is_current (get_elem? c.items drawn) c.current
      then (drawn + 1) % n
      else drawn in
    some (idx, record c { rng = rng; pos = idx })

-- A round that is played out is shuffled anew.
pub turn_round : PlaylistCursor → Option PlaylistCursor
unfolding build_order
turn_round c = if c.order_pos == 0 then build_order c else some c

pub next_shuffled : ℤ → PlaylistCursor → Option (ℕ × PlaylistCursor)
unfolding ensure_order step_of turn_round
next_shuffled delta c = do
  c1 ← ensure_order c
  step ← step_of delta (length c1.order)
  c2 ← turn_round (record c1 { order_pos = (c1.order_pos + step) % length c1.order })
  idx ← get_elem? c2.order c2.order_pos
  some (idx, c2)

pub next_index : Mode → ℤ → PlaylistCursor → Option (ℕ × PlaylistCursor)
unfolding next_sequential next_random next_shuffled
next_index sequential delta c = next_sequential delta c
next_index random delta c = next_random c
next_index shuffled delta c = next_shuffled delta c

-- `items[idx].clone()`, made current.
pub take_item : ℕ × PlaylistCursor → Option (Option String × PlaylistCursor)
take_item (idx, c) = do id ← get_elem? c.items idx; some (some id, record c { current = some id })

pub next : ℤ → PlaylistCursor → Option (Option String × PlaylistCursor)
unfolding next_index take_item
next delta c =
    let found = next_index c.mode delta c >>= take_item in
    if length c.items == 0 then some (none, c) else found

pub first_index : Mode → PlaylistCursor → Option (ℕ × PlaylistCursor)
unfolding ensure_order rng_range
first_index shuffled c = do
  c1 ← ensure_order c
  idx ← get_elem? c1.order 0
  some (idx, record c1 { order_pos = 0 })
first_index random c =
    let (idx, rng) = rng_range c.rng (length c.items) in
    some (idx, record c { rng = rng; pos = idx })
first_index sequential c = some (0, record c { pos = 0 })

pub first : PlaylistCursor → Option (Option String × PlaylistCursor)
unfolding first_index take_item
first c =
    let found = first_index c.mode c >>= take_item in
    if length c.items == 0 then some (none, c) else found

-- `iter().position`.
pub position : String → List String → Option ℕ
position id [] = none
position id (x ∷ xs) =
    let rest = position id xs >>= λ i. some (suc i) in
    elim (str_discrete x id) [ yes _ ↦ some 0 | no _ ↦ rest ]

pub index_of : ℕ → List ℕ → Option ℕ
index_of k [] = none
index_of k (x ∷ xs) =
    let rest = index_of k xs >>= λ i. some (suc i) in if x == k then some 0 else rest

abbrev place_in_order : ℕ → PlaylistCursor → PlaylistCursor
place_in_order idx c = elim (index_of idx c.order) [
  | none ↦ c
  | some op ↦ record c { order_pos = op }
]

-- The mode's part of `set_current`.
pub seek : Mode → ℕ → PlaylistCursor → Option PlaylistCursor
unfolding ensure_order index_of
seek shuffled idx c = do c1 ← ensure_order c; some (place_in_order idx c1)
seek _ idx c = some c

pub set_current : String → PlaylistCursor → Option (Bool × PlaylistCursor)
unfolding position seek
set_current id c = elim (position id c.items) [
  | none ↦ some (false, c)
  | some idx ↦ do
    c1 ← seek c.mode idx (record c { pos = idx })
    some (true, record c1 { current = some id })
]

pub len : PlaylistCursor → ℕ
len c = length c.items

pub is_empty : PlaylistCursor → Bool
is_empty c = length c.items == 0
