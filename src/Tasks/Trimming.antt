-- ===== src/Tasks/Trimming.antt =====
-- src/tasks.rs, trim_finished: which finished records are dropped.
use wwe_modify.Base.{
  ℕ, zero, suc, ◌+◌, ◌-◌, ◌≤◌, ◌<◌, Bool, true, false, not, Option, none, some, List, [], ◌∷◌, ◌≡◌,
  refl, ap, ◌∙◌, sym, ◌⊎◌, inl, inr, arith, ℕ_discrete,
}
use wwe_modify.Base.Tests.{leb, if◌then◌else◌, Bool-cases, is_some}
use wwe_modify.Base.Lists.{length, take, contains}
use wwe_modify.Base.Map.{Map, get, remove, Unique, get-remove, remove-Unique}
use wwe_modify.Base.Sorted.{
  sort, sort_insert, AscendsFrom, sort-AscendsFrom, contains-sort, contains-sort_insert,
}
use wwe_modify.Tasks.{
  TaskRecord, is_running, finished, remove_ids, trim_finished, trim_finished_above,
}

abbrev pub is_finished : Option TaskRecord → Bool
is_finished none = false
is_finished (some r) = not (is_running r.state)

contains-finished :
    (j : ℕ) (recs : Map ℕ TaskRecord)
    → Unique ℕ_discrete recs
    → contains j (finished recs) ≡ is_finished (get ℕ_discrete j recs)
unfolding contains finished get
contains-finished j [] u = refl
contains-finished j ((id, r) ∷ recs) u = ground (arith, contains-finished j recs u.1)

get-remove_ids :
    (j : ℕ) (ids : List ℕ) (recs : Map ℕ TaskRecord)
    → get ℕ_discrete j (remove_ids ids recs)
      ≡ (if contains j ids then none else get ℕ_discrete j recs)
unfolding contains remove_ids
get-remove_ids j [] recs = refl
get-remove_ids j (id ∷ ids) recs =
    ground
      (arith, get-remove_ids j ids (remove ℕ_discrete id recs), get-remove ℕ_discrete j id recs)

contains-take : (j n : ℕ) (xs : List ℕ) → contains j (take n xs) ≡ true → contains j xs ≡ true
unfolding contains
contains-take j zero xs h = absurd (cc)
contains-take j (suc n) [] h = h
contains-take j (suc n) (x ∷ xs) h = ground (arith, contains-take j n xs)

take-all : (n : ℕ) (xs : List ℕ) → length xs ≤ n → take n xs ≡ xs
take-all zero [] h = refl
take-all zero (x ∷ xs) h = absurd (omega arith)
take-all (suc n) [] h = refl
take-all (suc n) (x ∷ xs) h = ap (◌∷◌ x) (take-all n xs (omega arith))

length-take : (n : ℕ) (xs : List ℕ) → n ≤ length xs → length (take n xs) ≡ n
length-take zero xs h = refl
length-take (suc n) [] h = absurd (omega arith)
length-take (suc n) (x ∷ xs) h = ap suc (length-take n xs (omega arith))

from_bound : (n j : ℕ) (xs : List ℕ) → AscendsFrom n xs → contains j xs ≡ true → n ≤ j
unfolding contains
from_bound n j [] a h = absurd (cc)
from_bound n j (x ∷ xs) a h = ground (arith, from_bound x j xs a.1)

-- What is taken is at most what is left.
take-le :
    (b n i j : ℕ) (xs : List ℕ)
    → AscendsFrom b xs
    → contains i (take n xs) ≡ true
    → contains j xs ≡ true
    → contains j (take n xs) ≡ false
    → i ≤ j
unfolding contains
take-le b zero i j xs a hi hj hn = absurd (cc)
take-le b (suc n) i j [] a hi hj hn = absurd (cc)
take-le b (suc n) i j (x ∷ xs) a hi hj hn =
    ground (arith, take-le x n i j xs a.1, from_bound x j xs a.1)

abbrev pub Distinct : List ℕ → Type 0
Distinct [] = Unit {0}
Distinct (x ∷ xs) = (contains x xs ≡ false) × Distinct xs

finished-Distinct : (recs : Map ℕ TaskRecord) → Unique ℕ_discrete recs → Distinct (finished recs)
unfolding finished get
finished-Distinct [] u = tt
finished-Distinct ((id, r) ∷ recs) u =
    ground (arith, finished-Distinct recs u.1, contains-finished id recs u.1)

sort_insert-Distinct :
    (k : ℕ) (xs : List ℕ) → contains k xs ≡ false → Distinct xs → Distinct (sort_insert k xs)
unfolding sort_insert contains
sort_insert-Distinct k [] h d = (refl, tt)
sort_insert-Distinct k (x ∷ xs) h d =
    ground (arith, sort_insert-Distinct k xs, contains-sort_insert x k xs)

sort-Distinct : (xs : List ℕ) → Distinct xs → Distinct (sort xs)
unfolding sort
sort-Distinct [] d = tt
sort-Distinct (x ∷ xs) d =
    sort_insert-Distinct x (sort xs) (contains-sort x xs ∙ d.0) (sort-Distinct xs d.1)

take-Distinct : (n : ℕ) (xs : List ℕ) → Distinct xs → Distinct (take n xs)
take-Distinct zero xs d = tt
take-Distinct (suc n) [] d = tt
take-Distinct (suc n) (x ∷ xs) d =
    ground
      (arith, take-Distinct n xs d.1, contains-take x n xs, Bool-cases (contains x (take n xs)))

remove_absent :
    (k : ℕ) (recs : Map ℕ TaskRecord)
    → get ℕ_discrete k recs ≡ none
    → length (remove ℕ_discrete k recs) ≡ length recs
unfolding get remove
remove_absent k [] h = refl
remove_absent k ((id, r) ∷ recs) h = ground (arith, remove_absent k recs)

length-remove :
    (k : ℕ) (recs : Map ℕ TaskRecord)
    → Unique ℕ_discrete recs
    → is_some (get ℕ_discrete k recs) ≡ true
    → length (remove ℕ_discrete k recs) + 1 ≡ length recs
unfolding get remove
length-remove k [] u h = absurd (cc)
length-remove k ((id, r) ∷ recs) u h =
    ground (arith, length-remove k recs u.1, remove_absent k recs)

length-remove_ids :
    (ids : List ℕ) (recs : Map ℕ TaskRecord)
    → Unique ℕ_discrete recs
    → Distinct ids
    → ((i : ℕ) → contains i ids ≡ true → is_some (get ℕ_discrete i recs) ≡ true)
    → length (remove_ids ids recs) + length ids ≡ length recs
unfolding contains remove_ids
length-remove_ids [] recs u d h = omega arith
length-remove_ids (id ∷ ids) recs u d h =
    let present = h id (ground arith) in
    let rest =
      length-remove_ids ids (remove ℕ_discrete id recs) (remove-Unique ℕ_discrete id recs u) d.1
        (λ i m. ground (arith, h i, get-remove ℕ_discrete i id recs, d.0)) in
    omega (arith, rest, length-remove id recs u present)

length-take-le : (n : ℕ) (xs : List ℕ) → length (take n xs) ≤ n
length-take-le zero xs = omega arith
length-take-le (suc n) [] = omega arith
length-take-le (suc n) (x ∷ xs) = omega (arith, length-take-le n xs)

-- What trimming promises of the records it keeps.
pub record Trimmed (recs kept : Map ℕ TaskRecord) : Type 0 where
  pub running :
      (j : ℕ) (r : TaskRecord)
      → get ℕ_discrete j recs ≡ some r
      → is_running r.state ≡ true
      → get ℕ_discrete j kept ≡ some r
  pub unchanged :
      (j : ℕ) → (get ℕ_discrete j kept ≡ none) ⊎ (get ℕ_discrete j kept ≡ get ℕ_discrete j recs)
  pub oldest :
      (i j : ℕ)
      → is_some (get ℕ_discrete i recs) ≡ true
      → get ℕ_discrete i kept ≡ none
      → is_finished (get ℕ_discrete j kept) ≡ true
      → i ≤ j
  pub least : (kept ≡ recs) ⊎ (trim_finished_above ≤ length kept)
  pub within : length recs ≤ trim_finished_above → kept ≡ recs
  pub bounded :
      (length kept ≤ trim_finished_above) ⊎ ((j : ℕ) → is_finished (get ℕ_discrete j kept) ≡ false)

contains-sorted :
    (j : ℕ) (recs : Map ℕ TaskRecord)
    → Unique ℕ_discrete recs
    → contains j (sort (finished recs)) ≡ is_finished (get ℕ_discrete j recs)
contains-sorted j recs u = contains-sort j (finished recs) ∙ contains-finished j recs u

finished-some : (o : Option TaskRecord) → is_finished o ≡ true → is_some o ≡ true
finished-some none h = absurd (cc)
finished-some (some r) h = refl

module _ (recs : Map ℕ TaskRecord) (u : Unique ℕ_discrete recs) (n : ℕ) where
  abbrev dropped : List ℕ
  dropped = take n (sort (finished recs))

  abbrev kept : Map ℕ TaskRecord
  kept = remove_ids dropped recs

  dropped-finished :
      (j : ℕ) → contains j dropped ≡ true → is_finished (get ℕ_discrete j recs) ≡ true
  dropped-finished j h = sym (contains-sorted j recs u) ∙ contains-take j n (sort (finished recs)) h

  kept-running :
      (j : ℕ) (r : TaskRecord)
      → get ℕ_discrete j recs ≡ some r
      → is_running r.state ≡ true
      → get ℕ_discrete j kept ≡ some r
  kept-running j r e h =
      ground
        (arith, get-remove_ids j dropped recs, dropped-finished j, Bool-cases (contains j dropped))

  kept-unchanged :
      (j : ℕ) → (get ℕ_discrete j kept ≡ none) ⊎ (get ℕ_discrete j kept ≡ get ℕ_discrete j recs)
  kept-unchanged j = ground (arith, get-remove_ids j dropped recs)

  kept-oldest :
      (i j : ℕ)
      → is_some (get ℕ_discrete i recs) ≡ true
      → get ℕ_discrete i kept ≡ none
      → is_finished (get ℕ_discrete j kept) ≡ true
      → i ≤ j
  kept-oldest i j p q h = ground (
    arith,
    get-remove_ids i dropped recs,
    get-remove_ids j dropped recs,
    contains-sorted j recs u,
    take-le 0 n i j (sort (finished recs)) (sort-AscendsFrom (finished recs)),
  )

  length-kept : length kept + length dropped ≡ length recs
  length-kept =
      length-remove_ids dropped recs u
        (take-Distinct n (sort (finished recs))
          (sort-Distinct (finished recs) (finished-Distinct recs u)))
        (λ i m. finished-some (get ℕ_discrete i recs) (dropped-finished i m))

  all_running :
      length (sort (finished recs)) ≤ n → (j : ℕ) → is_finished (get ℕ_discrete j kept) ≡ false
  all_running h j = ground (
    arith,
    get-remove_ids j dropped recs,
    contains-sorted j recs u,
    ap (contains j) (take-all n (sort (finished recs)) h),
  )

leb-cases : (a b : ℕ) → (a ≤ b) ⊎ (b ≤ a)
leb-cases a b = ground arith

-- The ids of a table of records being unique, trimming keeps every running record; it changes no
-- record that it keeps; it drops no record younger than a finished one that it keeps; it drops
-- none of 512 records or fewer, and of more it keeps at least 512; and it leaves at most 512
-- records, or no finished one.
pub trim_finished_lem :
    (recs : Map ℕ TaskRecord) → Unique ℕ_discrete recs → Trimmed recs (trim_finished recs)
unfolding trim_finished
trim_finished_lem recs u = elim (Bool-cases (leb (length recs) trim_finished_above)) [
  | inl e ↦ rw e (record {
    running = λ j r p q. p;
    unchanged = λ j. inr refl;
    oldest = λ i j p q h. absurd (ground (arith, p, q));
    least = inl refl;
    within = λ h. refl;
    bounded = inl (ground arith);
  })
  | inr e ↦
      rw e
        (trimmed (length recs - trim_finished_above) (ground arith) (ground arith) (ground arith))
]
  where
    trimmed :
        (n : ℕ)
        → length recs ≤ n + trim_finished_above
        → n + trim_finished_above ≤ length recs
        → trim_finished_above < length recs
        → Trimmed recs (remove_ids (take n (sort (finished recs))) recs)
    trimmed n low high many = record {
      running = kept-running recs u n;
      unchanged = kept-unchanged recs u n;
      oldest = kept-oldest recs u n;
      least =
          inr (omega (arith, length-kept recs u n, length-take-le n (sort (finished recs)), high));
      within = λ h. absurd (omega (arith, h, many));
      bounded = elim (leb-cases (length (sort (finished recs))) n) [
        | inl h ↦ inr (all_running recs u n h)
        | inr h ↦
            inl (omega (arith, length-kept recs u n, length-take n (sort (finished recs)) h, low))
      ];
    }

remove_ids-Unique :
    (ids : List ℕ) (recs : Map ℕ TaskRecord)
    → Unique ℕ_discrete recs
    → Unique ℕ_discrete (remove_ids ids recs)
unfolding remove_ids
remove_ids-Unique [] recs u = u
remove_ids-Unique (id ∷ ids) recs u =
    remove_ids-Unique ids (remove ℕ_discrete id recs) (remove-Unique ℕ_discrete id recs u)

pub trim_finished-Unique :
    (recs : Map ℕ TaskRecord) → Unique ℕ_discrete recs → Unique ℕ_discrete (trim_finished recs)
unfolding trim_finished
trim_finished-Unique recs u = ground (
  arith,
  u,
  remove_ids-Unique (take (length recs - trim_finished_above) (sort (finished recs))) recs u,
)
