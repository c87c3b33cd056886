-- ===== src/Playlist/Cursor/Cycle.antt =====
-- src/playlist/cursor.rs, next in shuffled mode: a round of the playlist.
use wwe_modify.Base.{
  ℕ, zero, suc, ◌+◌, ◌%◌, ◌^◌, ◌<◌, String, Option, none, some, List, [], ◌∷◌, ◌≡◌, refl, ap, ◌∙◌,
  sym, subst, arith, map, Perm,
}
use mathlib.Core.List.Perm
use wwe_modify.Base.Tests.{◌==◌, if◌then◌else◌}
use wwe_modify.Base.Lists.{length, get_elem?, take, drop}
use wwe_modify.Base.Words.{pos, rem_euclid}
use wwe_modify.Base.Shuffle.{◌>>=◌, get_elem?-some}
use wwe_modify.Queue.{shuffled}
use wwe_modify.Playlist.Cursor.Order.{IsValid, HasOrder, ensure_order_lem, order-lt}
use wwe_modify.Playlist.Cursor.Next.{step_of_lem}
use wwe_modify.Playlist.Cursor.{
  PlaylistCursor, indices, ensure_order, turn_round, next_shuffled, next_index, take_item, next,
  first_index, first,
}

-- `next(1)`, so many times.
unfoldable pub play : ℕ → PlaylistCursor → Option (List (Option String) × PlaylistCursor)
play zero c = some ([], c)
play (suc k) c = do (id, c1) ← next (pos 1) c; (ids, c2) ← play k c1; some (id ∷ ids, c2)

-- `first`, and `next(1)` so many times.
unfoldable pub play_from_first : ℕ → PlaylistCursor → Option (List (Option String) × PlaylistCursor)
unfolding play
play_from_first k c = do (id, c1) ← first c; (ids, c2) ← play k c1; some (id ∷ ids, c2)

advance : (p n : ℕ) → suc p < n → (p + 1 % n) % n ≡ suc p
advance p n h = grind arith

module _ (c : PlaylistCursor) (full : length c.order ≡ length c.items)
    (high : length c.items < 2 ^ 31) (inside : suc c.order_pos < length c.items) where
  next_shuffled_step :
      (k : ℕ)
      → get_elem? c.order (suc c.order_pos) ≡ some k
      → next_shuffled (pos 1) c ≡ some (k, record c { order_pos = suc c.order_pos })
  unfolding next_shuffled
  next_shuffled_step k found =
      rw (ensured, step_of_lem (pos 1) (length c.order) (omega arith) (omega arith), turned, found)
    where
      ensured : ensure_order c ≡ some c
      ensured = unfold ensure_order in ground arith

      turned :
          turn_round (record c {
            order_pos = (c.order_pos + rem_euclid (pos 1) (length c.order)) % length c.order;
          })
          ≡ some (record c { order_pos = suc c.order_pos })
      turned =
          unfold turn_round rem_euclid in
          (rw (advance c.order_pos (length c.order) (omega arith)) (ground arith))

  next_step :
      (k : ℕ) (id : String)
      → c.mode ≡ shuffled
      → get_elem? c.order (suc c.order_pos) ≡ some k
      → get_elem? c.items k ≡ some id
      → next (pos 1) c ≡ some (some id, record c { order_pos = suc c.order_pos; current = some id })
  unfolding next
  next_step k id m found item =
      nonempty (length c.items) (omega arith)
      ∙ ap (λ mode. next_index mode (pos 1) c >>= take_item) m
      ∙ taken
    where
      nonempty :
          (n : ℕ)
          → 0 < n
          → (if n == 0 then some (none, c) else (next_index c.mode (pos 1) c >>= take_item))
            ≡ (next_index c.mode (pos 1) c >>= take_item)
      nonempty n h = ground arith

      taken :
          (next_index shuffled (pos 1) c >>= take_item)
          ≡ some (some id, record c { order_pos = suc c.order_pos; current = some id })
      taken = ap (λ r. r >>= take_item) (next_shuffled_step k found) ∙ rw item

drop-suc {ℓ} :
    {A : Type ℓ} (xs : List A) (i : ℕ) (a : A)
    → get_elem? xs i ≡ some a
    → drop i xs ≡ a ∷ drop (suc i) xs
drop-suc [] i a e = cc
drop-suc (x ∷ xs) zero a e = ap (λ y. y ∷ xs) (same e)
  where
    same : get_elem? (x ∷ xs) zero ≡ some a → x ≡ a
    same p = cc
drop-suc (x ∷ xs) (suc i) a e = drop-suc xs i a e

-- The items that the next entries of the order name.
play_lem :
    (k : ℕ) (c : PlaylistCursor)
    → c.mode ≡ shuffled
    → length c.order ≡ length c.items
    → length c.items < 2 ^ 31
    → ((i a : ℕ) → get_elem? c.order i ≡ some a → a < length c.items)
    → c.order_pos + k < length c.items
    → (d : PlaylistCursor) × (play k c
        ≡ some (map (get_elem? c.items) (take k (drop (suc c.order_pos) c.order)), d))
unfolding play
play_lem zero c m full high entries inside = (c, refl)
play_lem (suc k) c m full high entries inside =
    let (a, found) = get_elem?-some c.order (suc c.order_pos) (omega arith) in
    let (id, item) = get_elem?-some c.items a (entries (suc c.order_pos) a found) in
    let (d, rest) =
      play_lem k (record c { order_pos = suc c.order_pos; current = some id }) m full high entries
        (omega arith) in
    (
      d,
      rw (
        next_step c full high (omega arith) a id m found item,
        rest,
        drop-suc c.order (suc c.order_pos) a found,
        item,
      ),
    )

first_shuffled :
    (c : PlaylistCursor)
    → c.mode ≡ shuffled
    → IsValid c
    → 0 < length c.items
    → (d : PlaylistCursor) × (k : ℕ) × (id : String) × HasOrder c d
      × (d.order_pos ≡ 0)
      × (get_elem? d.order 0 ≡ some k)
      × (get_elem? d.items k ≡ some id)
      × (first c ≡ some (some id, record d { current = some id }))
unfolding first first_index
first_shuffled c m v low =
    let (c1, ensured, h) = ensure_order_lem c v in
    let (k, found) = get_elem?-some c1.order 0 (omega (arith, h.full)) in
    let (id, item) =
      get_elem?-some c1.items k
        (omega (arith, order-lt c c1 0 k h found, ap length h.keeps.items)) in
    (
      record c1 { order_pos = 0 },
      k,
      id,
      record {
        keeps = record { items = h.keeps.items; mode = h.keeps.mode; valid = h.keeps.valid };
        full = h.full;
      },
      refl,
      found,
      item,
      nonempty (length c.items) low
          ∙ ap (λ mode. first_index mode c >>= take_item) m
          ∙ rw (ensured, found, item),
    )
  where
    nonempty :
        (n : ℕ)
        → 0 < n
        → (if n == 0 then some (none, c) else (first_index c.mode c >>= take_item))
          ≡ (first_index c.mode c >>= take_item)
    nonempty n h = ground arith

indices-suc : (from n : ℕ) → indices (suc from) n ≡ map suc (indices from n)
unfolding indices
indices-suc from zero = refl
indices-suc from (suc n) = ap (◌∷◌ (suc from)) (indices-suc (suc from) n)

map-get-suc :
    (x : String) (xs : List String) (is : List ℕ)
    → map (get_elem? (x ∷ xs)) (map suc is) ≡ map (get_elem? xs) is
map-get-suc x xs [] = refl
map-get-suc x xs (i ∷ is) = ap (◌∷◌ (get_elem? xs i)) (map-get-suc x xs is)

map-get-indices : (xs : List String) → map (get_elem? xs) (indices 0 (length xs)) ≡ map some xs
unfolding indices
map-get-indices [] = refl
map-get-indices (x ∷ xs) = ap (◌∷◌ (some x)) (
    ap (map (get_elem? (x ∷ xs))) (indices-suc 0 (length xs))
    ∙ map-get-suc x xs (indices 0 (length xs))
    ∙ map-get-indices xs)

take-length {ℓ} : {A : Type ℓ} (xs : List A) → take (length xs) xs ≡ xs
take-length [] = refl
take-length (x ∷ xs) = ap (◌∷◌ x) (take-length xs)

-- The order, its first entry apart.
split_first :
    (order : List ℕ) (k r : ℕ)
    → get_elem? order 0 ≡ some k
    → length order ≡ suc r
    → order ≡ k ∷ take r (drop 1 order)
split_first [] k r e l = cc
split_first (x ∷ xs) k r e l =
    drop-suc (x ∷ xs) 0 k e ∙ ap (◌∷◌ k) (sym (ap (λ m. take m xs) (lengths l) ∙ take-length xs))
  where
    lengths : length (x ∷ xs) ≡ suc r → r ≡ length xs
    lengths p = omega arith

-- The first entry and the others of an order that permutes the positions name every item once.
answers-perm :
    (c d : PlaylistCursor) (k r : ℕ) (id : String)
    → IsValid c
    → HasOrder c d
    → get_elem? d.order 0 ≡ some k
    → get_elem? d.items k ≡ some id
    → length c.items ≡ suc r
    → Perm (some id ∷ map (get_elem? d.items) (take r (drop 1 d.order))) (map some c.items)
answers-perm c d k r id v h found item n =
    subst (λ xs. Perm xs (map some c.items)) named
      (subst (Perm (map (get_elem? d.items) d.order)) all
        (Perm.map (get_elem? d.items) (h.keeps.valid (h.full ∙ ap length (sym h.keeps.items)))))
  where
    named :
        map (get_elem? d.items) d.order
        ≡ some id ∷ map (get_elem? d.items) (take r (drop 1 d.order))
    named =
        ap (map (get_elem? d.items)) (split_first d.order k r found (h.full ∙ n))
        ∙ ap (λ o. o ∷ map (get_elem? d.items) (take r (drop 1 d.order))) item

    all : map (get_elem? d.items) (indices 0 (length d.items)) ≡ map some c.items
    all = map-get-indices d.items ∙ ap (map some) h.keeps.items

-- On a valid shuffled cursor with n items, 0 < n < 2^31, `first` and n - 1 calls `next(1)` do not
-- panic, and their answers are the n items in some order: each item once.
pub play_from_first-perm :
    (r : ℕ) (c : PlaylistCursor)
    → c.mode ≡ shuffled
    → IsValid c
    → length c.items ≡ suc r
    → length c.items < 2 ^ 31
    → (answers : List (Option String)) × (d : PlaylistCursor) × (play_from_first r c
        ≡ some (answers, d))
      × Perm answers (map some c.items)
unfolding play_from_first
play_from_first-perm r c m v n high =
    let (d, k, id, h, start, found, item, e) = first_shuffled c m v (omega arith) in
    let (d', played) =
      play_lem r (record d { current = some id }) (h.keeps.mode ∙ m)
        (h.full ∙ ap length (sym h.keeps.items)) (omega (arith, ap length h.keeps.items))
        (λ i a g. omega (arith, order-lt c d i a h g, ap length h.keeps.items))
        (omega (arith, start, ap length h.keeps.items)) in
    let answers = some id ∷ map (get_elem? d.items) (take r (drop 1 d.order)) in
    (
      answers,
      d',
      rw e (
          rw played (
            ap (λ p. some (some id ∷ map (get_elem? d.items) (take r (drop (suc p) d.order)), d'))
              start)),
      answers-perm c d k r id v h found item n,
    )
