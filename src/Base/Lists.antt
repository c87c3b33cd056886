-- ===== src/Base/Lists.antt =====
-- Lists measured and indexed by native numbers, under the library's names, and what the program
-- uses of `Vec`: `contains`, `retain`, `position`.
use Prim.Native.Nat.{ℕ, zero, suc, ◌+◌, ◌≤◌}
use mathlib.Core.Path.{◌≡◌, refl}
use mathlib.Core.Bool.{Bool, not, true, false, ◌||◌, ◌&&◌}
use mathlib.Core.List.{List, [], ◌∷◌, ◌++◌}
use mathlib.Core.Option.{Option, none, some}
use native.Mathlib.Omega.{arith}
use wwe_modify.Base.Tests.{◌==◌, if◌then◌else◌}

module _ {ℓ} {A : Type ℓ} where
  abbrev pub length : List A → ℕ
  length [] = 0
  length (x ∷ xs) = suc (length xs)

  abbrev pub get_elem? : List A → ℕ → Option A
  get_elem? [] i = none
  get_elem? (x ∷ xs) zero = some x
  get_elem? (x ∷ xs) (suc i) = get_elem? xs i

  -- A write out of bounds changes nothing.
  abbrev pub set : List A → ℕ → A → List A
  set [] i v = []
  set (x ∷ xs) zero v = v ∷ xs
  set (x ∷ xs) (suc i) v = x ∷ set xs i v

  abbrev pub take : ℕ → List A → List A
  take zero xs = []
  take (suc n) [] = []
  take (suc n) (x ∷ xs) = x ∷ take n xs

  abbrev pub drop : ℕ → List A → List A
  drop zero xs = xs
  drop (suc n) [] = []
  drop (suc n) (x ∷ xs) = drop n xs

  -- `Vec::retain`.
  unfoldable pub retain : (A → Bool) → List A → List A
  retain p [] = []
  retain p (x ∷ xs) = let rest = retain p xs in if p x then x ∷ rest else rest

  pub length-append : (xs ys : List A) → length (xs ++ ys) ≡ length xs + length ys
  length-append [] ys = omega arith
  length-append (x ∷ xs) ys = omega (arith, length-append xs ys)

  pub length-retain-le : (p : A → Bool) (xs : List A) → length (retain p xs) ≤ length xs
  unfolding retain
  length-retain-le p [] = omega arith
  length-retain-le p (x ∷ xs) = ground (arith, length-retain-le p xs)

-- `slice::contains` on numbers.
unfoldable pub contains : ℕ → List ℕ → Bool
contains k [] = false
contains k (x ∷ xs) = k == x || contains k xs

pub contains-append :
    (k : ℕ) (xs ys : List ℕ) → contains k (xs ++ ys) ≡ (contains k xs || contains k ys)
unfolding contains
contains-append k [] ys = refl
contains-append k (x ∷ xs) ys = ground (arith, contains-append k xs ys)

pub contains-retain :
    (k : ℕ) (p : ℕ → Bool) (xs : List ℕ) → contains k (retain p xs) ≡ (p k && contains k xs)
unfolding contains retain
contains-retain k p [] = ground arith
contains-retain k p (x ∷ xs) = ground (arith, contains-retain k p xs)

pub nil_of_contains : (xs : List ℕ) → ((j : ℕ) → contains j xs ≡ false) → xs ≡ []
unfolding contains
nil_of_contains [] h = refl
nil_of_contains (x ∷ xs) h = absurd (ground (arith, h x))

abbrev pub is_empty {ℓ} : {A : Type ℓ} → List A → Bool
is_empty [] = true
is_empty (_ ∷ _) = false

-- Every entry but `k`, and its members.
unfoldable pub drop_all : ℕ → List ℕ → List ℕ
unfolding retain
drop_all k xs = retain (λ x. not (x == k)) xs

pub contains-drop_all :
    (j k : ℕ) (xs : List ℕ) → contains j (drop_all k xs) ≡ (not (j == k) && contains j xs)
unfolding drop_all
contains-drop_all j k xs = contains-retain j (λ x. not (x == k)) xs
