-- ===== src/Base/Sorted.antt =====
-- `sort_unstable` on numbers, as an insertion sort.
use Prim.Native.Nat.{ℕ, ◌≤◌}
use mathlib.Core.Path.{◌≡◌, refl}
use mathlib.Core.Bool.{◌||◌}
use mathlib.Core.List.{List, [], ◌∷◌, Perm}
use mathlib.Core.List.Perm
use native.Mathlib.Omega.{arith}
use wwe_modify.Base.Tests.{◌==◌, leb, if◌then◌else◌}
use wwe_modify.Base.Lists.{contains}

unfoldable pub sort_insert : ℕ → List ℕ → List ℕ
sort_insert k [] = k ∷ []
sort_insert k (x ∷ xs) = if leb k x then k ∷ x ∷ xs else x ∷ sort_insert k xs

unfoldable pub sort : List ℕ → List ℕ
unfolding sort_insert
sort [] = []
sort (x ∷ xs) = sort_insert x (sort xs)

-- Every entry is at least the bound and at most the entries behind it.
abbrev pub AscendsFrom : ℕ → List ℕ → Type 0
AscendsFrom n [] = Unit {0}
AscendsFrom n (x ∷ xs) = (n ≤ x) × AscendsFrom x xs

pub sort_insert-AscendsFrom :
    (n k : ℕ) (xs : List ℕ) → n ≤ k → AscendsFrom n xs → AscendsFrom n (sort_insert k xs)
unfolding sort_insert
sort_insert-AscendsFrom n k [] h a = (h, tt)
sort_insert-AscendsFrom n k (x ∷ xs) h a = ground (arith, sort_insert-AscendsFrom x k xs)

pub sort-AscendsFrom : (xs : List ℕ) → AscendsFrom 0 (sort xs)
unfolding sort
sort-AscendsFrom [] = tt
sort-AscendsFrom (x ∷ xs) =
    sort_insert-AscendsFrom 0 x (sort xs) (omega arith) (sort-AscendsFrom xs)

sort_insert-perm : (k : ℕ) (xs : List ℕ) → Perm (sort_insert k xs) (k ∷ xs)
unfolding sort_insert
sort_insert-perm k [] = Perm.refl (k ∷ [])
sort_insert-perm k (x ∷ xs) =
    let rest = Perm.trans (Perm.cons x (sort_insert-perm k xs)) (Perm.swap k x xs) in
    ground (arith, rest, Perm.refl (k ∷ x ∷ xs))

pub sort-perm : (xs : List ℕ) → Perm (sort xs) xs
unfolding sort
sort-perm [] = Perm.refl []
sort-perm (x ∷ xs) = Perm.trans (sort_insert-perm x (sort xs)) (Perm.cons x (sort-perm xs))

pub contains-sort_insert :
    (j k : ℕ) (xs : List ℕ) → contains j (sort_insert k xs) ≡ (j == k || contains j xs)
unfolding sort_insert contains
contains-sort_insert j k [] = refl
contains-sort_insert j k (x ∷ xs) = ground (arith, contains-sort_insert j k xs)

pub contains-sort : (j : ℕ) (xs : List ℕ) → contains j (sort xs) ≡ contains j xs
unfolding sort contains
contains-sort j [] = refl
contains-sort j (x ∷ xs) = ground (arith, contains-sort_insert j x (sort xs), contains-sort j xs)
