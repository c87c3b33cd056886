-- ===== src/Base/Shuffle.antt =====
-- `slice::swap`, which panics out of range, and the Fisher-Yates loop over it. `none` is a panic.
use Prim.Native.Nat.{ℕ, zero, suc, ◌≤◌, ◌<◌}
use mathlib.Core.Path.{◌≡◌, refl, ap, sym, subst, ◌∙◌}
use mathlib.Core.Logic.{◌≢◌, ◌⊎◌, inl, inr}
use mathlib.Core.Option.{Option, none, some}
use mathlib.Core.List.{List, [], ◌∷◌, Perm, Nodup, Nodup-cons, Mem, mem-cons_of_mem, mem-cons_self}
use mathlib.Core.List.Perm
use native.Mathlib.Omega.{arith}
use wwe_modify.Base.Lists.{length, get_elem?, set}

infixl 5 ◌>>=◌
abbrev pub ◌>>=◌ {ℓ κ} : {A : Type ℓ} {B : Type κ} → Option A → (A → Option B) → Option B
none >>= f = none
some a >>= f = f a

module _ {ℓ} {A : Type ℓ} where
  unfoldable pub swap : ℕ → ℕ → List A → Option (List A)
  swap i j xs = do a ← get_elem? xs i; b ← get_elem? xs j; some (set (set xs i b) j a)

  pub get_elem?-some : (xs : List A) (i : ℕ) → i < length xs → (a : A) × (get_elem? xs i ≡ some a)
  get_elem?-some [] i h = elim h [ ]
  get_elem?-some (x ∷ xs) zero h = (x, refl)
  get_elem?-some (x ∷ xs) (suc i) h = get_elem?-some xs i (omega arith)

  pub lt-length : (xs : List A) (i : ℕ) (a : A) → get_elem? xs i ≡ some a → i < length xs
  lt-length [] i a e = cc
  lt-length (x ∷ xs) zero a e = omega arith
  lt-length (x ∷ xs) (suc i) a e = omega (arith, lt-length xs i a e)

  pub length-set : (xs : List A) (i : ℕ) (v : A) → length (set xs i v) ≡ length xs
  length-set [] i v = refl
  length-set (x ∷ xs) zero v = refl
  length-set (x ∷ xs) (suc i) v = ap suc (length-set xs i v)

  get_elem?-set_self :
      (xs : List A) (i : ℕ) (v a : A) → get_elem? xs i ≡ some a → get_elem? (set xs i v) i ≡ some v
  get_elem?-set_self [] i v a e = cc
  get_elem?-set_self (x ∷ xs) zero v a e = refl
  get_elem?-set_self (x ∷ xs) (suc i) v a e = get_elem?-set_self xs i v a e

  get_elem?-set_ne :
      (xs : List A) (i j : ℕ) (v : A) → i ≢ j → get_elem? (set xs i v) j ≡ get_elem? xs j
  get_elem?-set_ne [] i j v h = refl
  get_elem?-set_ne (x ∷ xs) zero zero v h = absurd (h refl)
  get_elem?-set_ne (x ∷ xs) zero (suc j) v h = refl
  get_elem?-set_ne (x ∷ xs) (suc i) zero v h = refl
  get_elem?-set_ne (x ∷ xs) (suc i) (suc j) v h = get_elem?-set_ne xs i j v (λ e. h (ap suc e))

  -- Writing `b` over `a` is to exchange the two.
  set-perm :
      (xs : List A) (i : ℕ) (a b : A) → get_elem? xs i ≡ some a → Perm (b ∷ xs) (a ∷ set xs i b)
  set-perm [] i a b e = absurd (cc)
  set-perm (x ∷ xs) zero a b e =
      Perm.trans (Perm.swap x b xs) (Perm.cons' (same e) (Perm.refl (b ∷ xs)))
    where
      same : get_elem? (x ∷ xs) zero ≡ some a → x ≡ a
      same p = cc
  set-perm (x ∷ xs) (suc i) a b e =
      Perm.trans (Perm.swap x b xs)
        (Perm.trans (Perm.cons x (set-perm xs i a b e)) (Perm.swap a x (set xs i b)))

  get_elem?-set_either :
      (xs : List A) (i j : ℕ) (b : A)
      → get_elem? xs i ≢ none
      → get_elem? xs j ≡ some b
      → get_elem? (set xs i b) j ≡ some b
  get_elem?-set_either [] i j b n e = cc
  get_elem?-set_either (x ∷ xs) zero zero b n e = refl
  get_elem?-set_either (x ∷ xs) zero (suc j) b n e = e
  get_elem?-set_either (x ∷ xs) (suc i) zero b n e = e
  get_elem?-set_either (x ∷ xs) (suc i) (suc j) b n e = get_elem?-set_either xs i j b n e

  -- In range a swap does not panic: it permutes the list and puts the entry at `j` in place `i`.
  pub record Swapped (i j : ℕ) (xs ys : List A) : Type ℓ where
    pub perm : Perm ys xs
    pub length_eq : length ys ≡ length xs
    pub moved : i ≢ j → get_elem? ys i ≡ get_elem? xs j

  pub swap_lem :
      (i j : ℕ) (xs : List A)
      → i < length xs
      → j < length xs
      → (ys : List A) × (swap i j xs ≡ some ys) × Swapped i j xs ys
  unfolding swap
  swap_lem i j xs hi hj =
      let (a, ea) = get_elem?-some xs i hi in
      let (b, eb) = get_elem?-some xs j hj in (set (set xs i b) j a, rw (ea, eb), swapped a b ea eb)
    where
      swapped :
          (a b : A)
          → get_elem? xs i ≡ some a
          → get_elem? xs j ≡ some b
          → Swapped i j xs (set (set xs i b) j a)
      swapped a b ea eb = record {
        perm = Perm.symm (
            Perm.cons_inv (
              Perm.trans (set-perm xs i a b ea)
                (set-perm (set xs i b) j b a (get_elem?-set_either xs i j b (λ n. cc) eb))));
        length_eq = length-set (set xs i b) j a ∙ length-set xs i b;
        moved = λ ne.
            get_elem?-set_ne (set xs i b) j i a (λ e. ne (sym e))
            ∙ get_elem?-set_self xs i b a ea
            ∙ sym eb;
      }

  -- The loop `for i in (1..n).rev()`: `draw s i` is the index drawn, and the generator after it.
  module _ {S : Type 0} (draw : S → ℕ → ℕ × S) where
    unfoldable pub shuffle : ℕ → S → List A → Option (List A × S)
    shuffle zero s xs = some (xs, s)
    shuffle (suc i) s xs = let (j, s') = draw s (suc i) in swap (suc i) j xs >>= shuffle i s'

    -- If each draw stays at or below its index the loop does not panic, and permutes the list.
    pub shuffle_lem :
        ((s : S) (i : ℕ) → (draw s i).0 ≤ i)
        → (i : ℕ) (s : S) (xs : List A) → (i < length xs) ⊎ (i ≡ 0)
        → (ys : List A) × (s' : S) × (shuffle i s xs ≡ some (ys, s'))
          × Perm ys xs
          × (length ys ≡ length xs)
    unfolding shuffle
    shuffle_lem low zero s xs h = (xs, s, refl, Perm.refl xs, refl)
    shuffle_lem low (suc i) s xs (inr h) = absurd (omega arith)
    shuffle_lem low (suc i) s xs (inl h) =
        let (ys, e, sw) = swap_lem (suc i) (draw s (suc i)).0 xs h (omega (arith, low s (suc i))) in
        let (zs, s', e', p, l) =
          shuffle_lem low i (draw s (suc i)).1 ys (inl (omega (arith, sw.length_eq))) in
        (zs, s', rw e e', Perm.trans p sw.perm, l ∙ sw.length_eq)

  pub mem-get_elem? : (xs : List A) (i : ℕ) (a : A) → get_elem? xs i ≡ some a → Mem a xs
  mem-get_elem? [] i a e = absurd (cc)
  mem-get_elem? (x ∷ xs) zero a e = here e
    where
      here : get_elem? (x ∷ xs) zero ≡ some a → Mem a (x ∷ xs)
      here p = subst (λ y. Mem a (y ∷ xs)) (sym (same p)) mem-cons_self
        where
          same : get_elem? (x ∷ xs) zero ≡ some a → x ≡ a
          same q = cc
  mem-get_elem? (x ∷ xs) (suc i) a e = mem-cons_of_mem x (mem-get_elem? xs i a e)

  -- No entry of a list without repetition stands in two places.
  pub get_elem?-injective :
      (xs : List A) (i j : ℕ) (a : A)
      → Nodup xs
      → get_elem? xs i ≡ some a
      → get_elem? xs j ≡ some a
      → i ≡ j
  get_elem?-injective [] i j a u p q = cc
  get_elem?-injective (x ∷ xs) zero zero a u p q = refl
  get_elem?-injective (x ∷ xs) zero (suc j) a u p q =
      absurd ((Nodup-cons.0 u).0 (subst (λ y. Mem y xs) (same p) (mem-get_elem? xs j a q)))
    where
      same : get_elem? (x ∷ xs) zero ≡ some a → a ≡ x
      same e = cc
  get_elem?-injective (x ∷ xs) (suc i) zero a u p q =
      absurd ((Nodup-cons.0 u).0 (subst (λ y. Mem y xs) (same q) (mem-get_elem? xs i a p)))
    where
      same : get_elem? (x ∷ xs) zero ≡ some a → a ≡ x
      same e = cc
  get_elem?-injective (x ∷ xs) (suc i) (suc j) a u p q =
      ap suc (get_elem?-injective xs i j a (Nodup-cons.0 u).1 p q)
