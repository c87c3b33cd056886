-- ===== src/Base/Stable.antt =====
-- `slice::sort_by`, a stable sort, and what it makes of the order before it.
use mathlib.Core.Path.{◌≡◌, sym, ap, subst}
use mathlib.Core.Logic.{inl, inr}
use mathlib.Core.Bool.{Bool, true, false, not, ◌&&◌, ◌||◌}
use mathlib.Core.List.{List, [], ◌∷◌, Perm}
use mathlib.Core.List.Perm
use native.Mathlib.Omega.{arith}
use wwe_modify.Base.Tests.{if◌then◌else◌, Bool-cases}

-- `sort_by` of the standard library is stable: here by insertion, before what is not less.
unfoldable pub sort_insert {ℓ} : {A : Type ℓ} → (A → A → Bool) → A → List A → List A
sort_insert le x [] = x ∷ []
sort_insert le x (y ∷ ys) =
    let rest = sort_insert le x ys in if le x y then x ∷ y ∷ ys else y ∷ rest

unfoldable pub sort_by {ℓ} : {A : Type ℓ} → (A → A → Bool) → List A → List A
unfolding sort_insert
sort_by le [] = []
sort_by le (x ∷ xs) = sort_insert le x (sort_by le xs)

pub record IsOrder {ℓ} {A : Type ℓ} (le : A → A → Bool) : Type ℓ where
  pub total : (x y : A) → le x y ≡ false → le y x ≡ true
  pub trans : (x y z : A) → le x y ≡ true → le y z ≡ true → le x z ≡ true

-- `x` stands in the relation to each entry of a list, and each entry to the later ones.
abbrev pub Before {ℓ} : {A : Type ℓ} → (A → A → Bool) → A → List A → Type 0
Before r x [] = Unit
Before r x (y ∷ ys) = (r x y ≡ true) × Before r x ys

abbrev pub Pairwise {ℓ} : {A : Type ℓ} → (A → A → Bool) → List A → Type 0
Pairwise r [] = Unit
Pairwise r (x ∷ xs) = Before r x xs × Pairwise r xs

-- By one key, and where it ties by `r`.
abbrev pub then_by {ℓ} : {A : Type ℓ} → (A → A → Bool) → (A → A → Bool) → A → A → Bool
then_by le r x y = le x y && (not (le y x) || r x y)

module _ {ℓ} {A : Type ℓ} (le r : A → A → Bool) where
  insert_here : (x y : A) (ys : List A) → le x y ≡ true → sort_insert le x (y ∷ ys) ≡ x ∷ y ∷ ys
  unfolding sort_insert
  insert_here x y ys e = ap (λ b. if b then x ∷ y ∷ ys else y ∷ sort_insert le x ys) e

  insert_later :
      (x y : A) (ys : List A) → le x y ≡ false → sort_insert le x (y ∷ ys) ≡ y ∷ sort_insert le x ys
  unfolding sort_insert
  insert_later x y ys e = ap (λ b. if b then x ∷ y ∷ ys else y ∷ sort_insert le x ys) e

  pub Before-inserted :
      (q : A → A → Bool) (z x : A) (ys : List A)
      → q z x ≡ true
      → Before q z ys
      → Before q z (sort_insert le x ys)
  unfolding sort_insert
  Before-inserted q z x [] h b = (h, tt)
  Before-inserted q z x (y ∷ ys) h b = elim (Bool-cases (le x y)) [
    | inl e ↦ subst (Before q z) (sym (insert_here x y ys e)) (h, b)
    | inr e ↦ subst (Before q z) (sym (insert_later x y ys e)) (b.0, Before-inserted q z x ys h b.1)
  ]

  Before-sorted : (z : A) (ys : List A) → Before r z ys → Before r z (sort_by le ys)
  unfolding sort_by
  Before-sorted z [] b = tt
  Before-sorted z (y ∷ ys) b = Before-inserted r z y (sort_by le ys) b.0 (Before-sorted z ys b.1)

  -- `x` is least by the key, and comes before all by `r`.
  Before-all :
      (order : IsOrder le) (x y : A) (ys : List A)
      → le x y ≡ true
      → Before r x ys
      → Before (then_by le r) y ys
      → Before (then_by le r) x ys
  Before-all order x y [] h b c = tt
  Before-all order x y (z ∷ zs) h b c =
      (ground (arith, b.0, c.0, h, order.trans x y z), Before-all order x y zs h b.1 c.1)

  inserted-Pairwise :
      (order : IsOrder le) (x : A) (ys : List A)
      → Before r x ys
      → Pairwise (then_by le r) ys
      → Pairwise (then_by le r) (sort_insert le x ys)
  unfolding sort_insert
  inserted-Pairwise order x [] b p = (tt, tt)
  inserted-Pairwise order x (y ∷ ys) b p = elim (Bool-cases (le x y)) [
    | inl e ↦
        subst (Pairwise (then_by le r)) (sym (insert_here x y ys e))
          ((ground (arith, e, b.0), Before-all order x y ys e b.1 p.0), p)
    | inr e ↦ subst (Pairwise (then_by le r)) (sym (insert_later x y ys e)) (
      Before-inserted (then_by le r) y x ys (ground (arith, e, order.total x y e)) p.0,
      inserted-Pairwise order x ys b.1 p.1,
    )
  ]

  pub sort_by-Pairwise :
      (order : IsOrder le) (xs : List A) → Pairwise r xs → Pairwise (then_by le r) (sort_by le xs)
  unfolding sort_by
  sort_by-Pairwise order [] p = tt
  sort_by-Pairwise order (x ∷ xs) p =
      inserted-Pairwise order x (sort_by le xs) (Before-sorted x xs p.0)
        (sort_by-Pairwise order xs p.1)

  pub sort_insert-perm : (x : A) (ys : List A) → Perm (sort_insert le x ys) (x ∷ ys)
  unfolding sort_insert
  sort_insert-perm x [] = Perm.refl (x ∷ [])
  sort_insert-perm x (y ∷ ys) = elim (Bool-cases (le x y)) [
    | inl e ↦ subst (λ l. Perm l (x ∷ y ∷ ys)) (sym (insert_here x y ys e)) (Perm.refl (x ∷ y ∷ ys))
    | inr e ↦
        subst (λ l. Perm l (x ∷ y ∷ ys)) (sym (insert_later x y ys e))
          (Perm.trans (Perm.cons y (sort_insert-perm x ys)) (Perm.swap x y ys))
  ]

  pub sort_by-perm : (xs : List A) → Perm (sort_by le xs) xs
  unfolding sort_by
  sort_by-perm [] = Perm.refl []
  sort_by-perm (x ∷ xs) =
      Perm.trans (sort_insert-perm x (sort_by le xs)) (Perm.cons x (sort_by-perm xs))
