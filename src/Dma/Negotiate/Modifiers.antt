-- ===== src/Dma/Negotiate/Modifiers.antt =====
-- The modifiers that two peers have in common.
use wwe_modify.Base.{
  ℕ, Bool, true, false, not, ◌&&◌, ◌||◌, none, some, List, [], ◌∷◌, ◌≡◌, refl, ap, ◌∙◌, arith,
  ℕ_discrete,
}
use wwe_modify.Base.Tests.{◌==◌, if◌then◌else◌}
use wwe_modify.Dma.Negotiate.{ModCap, Blacklist, blacklisted, matches_mod, intersect_mods, find_mod}

-- The peer lists the modifier with that number of planes.
unfoldable pub lists_cap : ℕ → ℕ → List ModCap → Bool
lists_cap m n [] = false
lists_cap m n (c ∷ caps) = (c.modifier == m && c.plane_count == n) || lists_cap m n caps

unfoldable pub contains_pair : ℕ → ℕ → List (ℕ × ℕ) → Bool
contains_pair m n [] = false
contains_pair m n ((a, b) ∷ rest) = (a == m && b == n) || contains_pair m n rest

module _ (fourcc : ℕ) (p_bl c_bl : Blacklist) where
  matches_mod_lem :
      (pc : ModCap) (c_mods : List ModCap)
      → matches_mod fourcc c_bl pc c_mods
        ≡ (not (blacklisted fourcc pc.modifier c_bl) && lists_cap pc.modifier pc.plane_count c_mods)
  unfolding matches_mod lists_cap
  matches_mod_lem pc [] = ground arith
  matches_mod_lem pc (cc ∷ c_mods) = elim (ℕ_discrete cc.modifier pc.modifier) [
    | yes e ↦ ground (arith, matches_mod_lem pc c_mods, ap (λ m. blacklisted fourcc m c_bl) e)
    | no ne ↦ ground (arith, matches_mod_lem pc c_mods)
  ]

  -- What both list, and neither has refused.
  abbrev pub both : ℕ → ℕ → List ModCap → List ModCap → Bool
  both m n p_mods c_mods =
      lists_cap m n p_mods
      && lists_cap m n c_mods
      && not (blacklisted fourcc m p_bl)
      && not (blacklisted fourcc m c_bl)

  pub intersect_lem :
      (m n : ℕ) (p_mods c_mods : List ModCap)
      → contains_pair m n (intersect_mods fourcc p_bl c_bl p_mods c_mods) ≡ both m n p_mods c_mods
  unfolding contains_pair intersect_mods lists_cap
  intersect_lem m n [] c_mods = refl
  intersect_lem m n (pc ∷ p_mods) c_mods = elim (ℕ_discrete pc.modifier m) [
    | no ne ↦ ground (arith, intersect_lem m n p_mods c_mods)
    | yes e ↦ elim (ℕ_discrete pc.plane_count n) [
      | no ne ↦ ground (arith, intersect_lem m n p_mods c_mods)
      | yes f ↦ ground (
        arith,
        intersect_lem m n p_mods c_mods,
        matches_mod_lem pc c_mods,
        ap (λ x. blacklisted fourcc x p_bl) e,
        ap (λ x. blacklisted fourcc x c_bl) e,
        ap (λ x. lists_cap x pc.plane_count c_mods) e ∙ ap (λ x. lists_cap m x c_mods) f,
      )
    ]
  ]

-- The pairs that `find_mod` looks for.
abbrev pub sought : Bool → ℕ → Bool
sought linear m = if linear then m == 0 else not (m == 0)

pub find_mod-none :
    (linear : Bool) (xs : List (ℕ × ℕ)) (m n : ℕ)
    → find_mod linear xs ≡ none
    → sought linear m ≡ true
    → contains_pair m n xs ≡ false
unfolding find_mod contains_pair
find_mod-none linear [] m n e s = refl
find_mod-none true ((a, b) ∷ xs) m n e s = ground (arith, find_mod-none true xs m n)
find_mod-none false ((a, b) ∷ xs) m n e s = ground (arith, find_mod-none false xs m n)

pub find_mod-some :
    (linear : Bool) (xs : List (ℕ × ℕ)) (m n : ℕ)
    → find_mod linear xs ≡ some (m, n)
    → (sought linear m ≡ true) × (contains_pair m n xs ≡ true)
unfolding find_mod contains_pair
find_mod-some linear [] m n e = absurd (cc)
find_mod-some true ((a, b) ∷ xs) m n e = ground (arith, find_mod-some true xs m n)
find_mod-some false ((a, b) ∷ xs) m n e = ground (arith, find_mod-some false xs m n)
