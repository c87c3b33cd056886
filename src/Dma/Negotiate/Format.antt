-- ===== src/Dma/Negotiate/Format.antt =====
-- Which format two peers on one device agree on.
use wwe_modify.Base.{
  ℕ, ◌≤◌, Bool, true, false, Option, none, some, List, [], ◌∷◌, ◌≡◌, refl, ap, subst, ◌∙◌, sym, inl,
  inr, arith, ℕ_discrete,
}
use wwe_modify.Base.Tests.{◌==◌, Bool-cases, Option-cases, is_some}
use wwe_modify.Base.Map.{get, Unique}
use wwe_modify.Dma.Negotiate.{
  ModCap, FormatCaps, Blacklist, intersect_mods, find_mod, Pick, visit_common, visit, scan, Result,
  ok, err, no_format_intersection, choose, pick_format_same_device,
}
use wwe_modify.Dma.Negotiate.Modifiers.{
  both, contains_pair, intersect_lem, find_mod-none, find_mod-some,
}
use wwe_modify.Dma.Negotiate.Lowest.{Entry, offer, entry_at, seen, fold, Lowest, fold-Lowest}

-- Both peers list the format, the modifier and its number of planes, and neither refused it.
abbrev pub agrees :
    ℕ → ℕ → ℕ → Blacklist → Blacklist → Option (List ModCap) → Option (List ModCap) → Bool
agrees f m n p_bl c_bl (some p_mods) (some c_mods) = both f p_bl c_bl m n p_mods c_mods
agrees f m n p_bl c_bl _ _ = false

module _ (consumer : FormatCaps) (p_bl c_bl : Blacklist) where
  abbrev common_mods : ℕ → List ModCap → List ModCap → List (ℕ × ℕ)
  common_mods f p_mods c_mods = intersect_mods f p_bl c_bl p_mods c_mods

  tiled_with : ℕ → List ModCap → Option (List ModCap) → Option (ℕ × ℕ)
  tiled_with f p_mods none = none
  tiled_with f p_mods (some c_mods) = find_mod false (common_mods f p_mods c_mods)

  abbrev as_linear : Option (ℕ × ℕ) → Option (ℕ × ℕ) → Option (ℕ × ℕ)
  as_linear (some _) _ = none
  as_linear none none = none
  as_linear none (some (_, n)) = some (0, n)

  linear_with : ℕ → List ModCap → Option (List ModCap) → Option (ℕ × ℕ)
  linear_with f p_mods none = none
  linear_with f p_mods (some c_mods) =
      as_linear (find_mod false (common_mods f p_mods c_mods))
        (find_mod true (common_mods f p_mods c_mods))

  abbrev tiled : Entry
  tiled f p_mods = tiled_with f p_mods (get ℕ_discrete f consumer)

  abbrev linear : Entry
  linear f p_mods = linear_with f p_mods (get ℕ_discrete f consumer)

  visit_common-split :
      (f : ℕ) (x y : Option (ℕ × ℕ)) (b l : Option Pick)
      → visit_common f x y (b, l) ≡ (offer f x b, offer f (as_linear x y) l)
  unfolding visit_common
  visit_common-split f (some x) y b l = refl
  visit_common-split f none (some y) b l = refl
  visit_common-split f none none b l = refl

  visit-split :
      (f : ℕ) (p_mods : List ModCap) (o : Option (List ModCap)) (b l : Option Pick)
      → visit p_bl c_bl f p_mods o (b, l)
        ≡ (offer f (tiled_with f p_mods o) b, offer f (linear_with f p_mods o) l)
  unfolding visit tiled_with linear_with
  visit-split f p_mods none b l = refl
  visit-split f p_mods (some c_mods) b l =
      visit_common-split f (find_mod false (common_mods f p_mods c_mods))
        (find_mod true (common_mods f p_mods c_mods)) b l

  scan-split :
      (ps : FormatCaps) (b l : Option Pick)
      → scan consumer p_bl c_bl ps (b, l) ≡ (fold tiled ps b, fold linear ps l)
  unfolding scan fold
  scan-split [] b l = refl
  scan-split ((f, p_mods) ∷ ps) b l =
      ap (scan consumer p_bl c_bl ps) (visit-split f p_mods (get ℕ_discrete f consumer) b l)
      ∙ scan-split ps (offer f (tiled f p_mods) b) (offer f (linear f p_mods) l)

  abbrev common : FormatCaps → ℕ → ℕ → ℕ → Bool
  common ps f m n = agrees f m n p_bl c_bl (get ℕ_discrete f ps) (get ℕ_discrete f consumer)

  tiled_none :
      (f m n : ℕ) (o c : Option (List ModCap))
      → entry_at (λ g p_mods. tiled_with g p_mods c) f o ≡ none
      → (m == 0) ≡ false
      → agrees f m n p_bl c_bl o c ≡ false
  unfolding tiled_with
  tiled_none f m n none c e z = refl
  tiled_none f m n (some p_mods) none e z = refl
  tiled_none f m n (some p_mods) (some c_mods) e z =
      sym (intersect_lem f p_bl c_bl m n p_mods c_mods)
      ∙ find_mod-none false (common_mods f p_mods c_mods) m n e (ground arith)

  tiled_some :
      (f m n : ℕ) (o c : Option (List ModCap))
      → entry_at (λ g p_mods. tiled_with g p_mods c) f o ≡ some (m, n)
      → ((m == 0) ≡ false) × (agrees f m n p_bl c_bl o c ≡ true)
  unfolding tiled_with
  tiled_some f m n none c e = absurd (cc)
  tiled_some f m n (some p_mods) none e = absurd (cc)
  tiled_some f m n (some p_mods) (some c_mods) e =
      let (s, c) = find_mod-some false (common_mods f p_mods c_mods) m n e in
      (ground arith, sym (intersect_lem f p_bl c_bl m n p_mods c_mods) ∙ c)

  as_linear-some :
      (x y : Option (ℕ × ℕ)) (m n : ℕ)
      → as_linear x y ≡ some (m, n)
      → (m ≡ 0) × ((a : ℕ) × (y ≡ some (a, n)))
  as_linear-some (some x) y m n e = absurd (cc)
  as_linear-some none none m n e = absurd (cc)
  as_linear-some none (some (a, b)) m n e = (ground arith, (a, ground arith))

  as_linear-none : (x y : Option (ℕ × ℕ)) → x ≡ none → as_linear x y ≡ none → y ≡ none
  as_linear-none (some x) y e h = absurd (cc)
  as_linear-none none none e h = refl
  as_linear-none none (some (a, b)) e h = absurd (cc)

  linear_some :
      (f m n : ℕ) (o c : Option (List ModCap))
      → entry_at (λ g p_mods. linear_with g p_mods c) f o ≡ some (m, n)
      → (m ≡ 0) × (agrees f m n p_bl c_bl o c ≡ true)
  unfolding linear_with
  linear_some f m n none c e = absurd (cc)
  linear_some f m n (some p_mods) none e = absurd (cc)
  linear_some f m n (some p_mods) (some c_mods) e =
      let (z, (a, y)) =
        as_linear-some (find_mod false (common_mods f p_mods c_mods))
          (find_mod true (common_mods f p_mods c_mods)) m n e in
      let (s, h) = find_mod-some true (common_mods f p_mods c_mods) a n y in
      let same : a ≡ m = ground (arith, s, z) in
      (
        z,
        sym (intersect_lem f p_bl c_bl m n p_mods c_mods)
            ∙ subst (λ k. contains_pair k n (common_mods f p_mods c_mods) ≡ true) same h,
      )

  linear_none :
      (f n : ℕ) (o c : Option (List ModCap))
      → entry_at (λ g p_mods. tiled_with g p_mods c) f o ≡ none
      → entry_at (λ g p_mods. linear_with g p_mods c) f o ≡ none
      → agrees f 0 n p_bl c_bl o c ≡ false
  unfolding tiled_with linear_with
  linear_none f n none c e z = refl
  linear_none f n (some p_mods) none e z = refl
  linear_none f n (some p_mods) (some c_mods) e z =
      sym (intersect_lem f p_bl c_bl 0 n p_mods c_mods)
      ∙ find_mod-none true (common_mods f p_mods c_mods) 0 n
          (as_linear-none (find_mod false (common_mods f p_mods c_mods))
            (find_mod true (common_mods f p_mods c_mods)) e z)
          refl

  -- What two peers on one device may rely on.
  pub record Chosen (ps : FormatCaps) (f m n : ℕ) : Type 0 where
    pub agreed : common ps f m n ≡ true
    pub prefers_tiled : m ≡ 0 → (g a b : ℕ) → common ps g a b ≡ true → a ≡ 0
    pub lowest : (g a b : ℕ) → common ps g a b ≡ true → (a == 0) ≡ (m == 0) → f ≤ g

  abbrev pub Best : FormatCaps → Result Pick → Type 0
  Best ps (ok (f, (m, n))) = Chosen ps f m n
  Best ps (err e) = (e ≡ no_format_intersection) × ((g a b : ℕ) → common ps g a b ≡ false)

  module _ (ps : FormatCaps) where
    has_tiled :
        (g a b : ℕ) → common ps g a b ≡ true → (a == 0) ≡ false → is_some (seen tiled ps g) ≡ true
    has_tiled g a b h z = elim (Option-cases (seen tiled ps g)) [
      | inl e ↦ absurd (
          ground (arith, h, tiled_none g a b (get ℕ_discrete g ps) (get ℕ_discrete g consumer) e z))
      | inr (x, e) ↦ ap is_some e
    ]

    all_linear : ((g : ℕ) → seen tiled ps g ≡ none) → (g a b : ℕ) → common ps g a b ≡ true → a ≡ 0
    all_linear none_tiled g a b h = ground (arith, has_tiled g a b h, ap is_some (none_tiled g))

    has_linear :
        (g a b : ℕ)
        → seen tiled ps g ≡ none
        → common ps g a b ≡ true
        → a ≡ 0
        → is_some (seen linear ps g) ≡ true
    has_linear g a b t h z = elim (Option-cases (seen linear ps g)) [
      | inl e ↦ absurd (
          ground (
            arith,
            subst (λ k. common ps g k b ≡ true) z h,
            linear_none g b (get ℕ_discrete g ps) (get ℕ_discrete g consumer) t e,
          ))
      | inr (x, e) ↦ ap is_some e
    ]

    choose-Best :
        (b l : Option Pick)
        → Lowest tiled ps none b
        → Lowest linear ps none l
        → Best ps (choose (b, l))
    choose-Best (some (f, (m, n))) l tb lb = elim (tb.origin f m n refl) [
      | inl e ↦ absurd (cc)
      | inr e ↦
          let (z, h) = tiled_some f m n (get ℕ_discrete f ps) (get ℕ_discrete f consumer) e in
          record {
            agreed = h;
            prefers_tiled = λ y. absurd (ground (arith, y, z));
            lowest = λ g a b c k. tb.below_seen f m n g refl (has_tiled g a b c (k ∙ z));
          }
    ]
    choose-Best none (some (f, (m, n))) tb lb = elim (lb.origin f m n refl) [
      | inl e ↦ absurd (cc)
      | inr e ↦
          let (z, h) = linear_some f m n (get ℕ_discrete f ps) (get ℕ_discrete f consumer) e in
          let no_tiled : (g : ℕ) → seen tiled ps g ≡ none = (tb.empty refl).1 in
          record {
            agreed = h;
            prefers_tiled = λ _. all_linear no_tiled;
            lowest = λ g a b c k.
                lb.below_seen f m n g refl
                  (has_linear g a b (no_tiled g) c (all_linear no_tiled g a b c));
          }
    ]
    choose-Best none none tb lb = (
      refl,
      λ g a b. elim (Bool-cases (common ps g a b)) [
        | inr e ↦ e
        | inl e ↦
            let z = all_linear (tb.empty refl).1 g a b e in
            absurd (
              ground (
                arith,
                has_linear g a b ((tb.empty refl).1 g) e z,
                ap is_some ((lb.empty refl).1 g),
              ))
      ],
    )

-- The producer listing no fourcc twice, the format picked for two peers on one device is listed by
-- both with the same number of planes and refused by neither; it is linear only if every common
-- format is; no common format of its kind, linear or not, has a lower fourcc. The pick fails only
-- if no format is common.
pub pick_format_same_device-Best :
    (producer consumer : FormatCaps) (p_bl c_bl : Blacklist)
    → Unique ℕ_discrete producer
    → Best consumer p_bl c_bl producer (pick_format_same_device producer consumer p_bl c_bl)
unfolding pick_format_same_device
pick_format_same_device-Best producer consumer p_bl c_bl u =
    subst (λ acc. Best consumer p_bl c_bl producer (choose acc))
      (sym (scan-split consumer p_bl c_bl producer none none))
      (choose-Best consumer p_bl c_bl producer (fold (tiled consumer p_bl c_bl) producer none)
        (fold (linear consumer p_bl c_bl) producer none)
        (fold-Lowest (tiled consumer p_bl c_bl) producer none u)
        (fold-Lowest (linear consumer p_bl c_bl) producer none u))
