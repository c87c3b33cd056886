-- ===== src/Dma/Negotiate/Lowest.antt =====
-- The loop that keeps the pick of the lowest fourcc.
use wwe_modify.Base.{
  ℕ, ◌≤◌, true, Option, none, some, List, [], ◌∷◌, ◌≡◌, ◌≢◌, refl, ap, subst, ◌∙◌, sym, ◌⊎◌, inl,
  inr, arith, ℕ_discrete,
}
use wwe_modify.Base.Tests.{ltb, Bool-cases, is_some}
use wwe_modify.Base.Map.{get, Unique}
use wwe_modify.Dma.Negotiate.{ModCap, FormatCaps, Pick, keep_lower}

-- The loop over the producer's formats, once for each kind of modifier.
abbrev pub Entry : Type 0
Entry = ℕ → List ModCap → Option (ℕ × ℕ)

abbrev pub offer : ℕ → Option (ℕ × ℕ) → Option Pick → Option Pick
offer fourcc none acc = acc
offer fourcc (some found) acc = keep_lower (fourcc, found) acc

record Offered (fourcc : ℕ) (e : Option (ℕ × ℕ)) (acc result : Option Pick) : Type 0 where
  empty : result ≡ none → (acc ≡ none) × (e ≡ none)
  origin :
      (f m n : ℕ)
      → result ≡ some (f, (m, n))
      → (acc ≡ some (f, (m, n))) ⊎ ((f ≡ fourcc) × (e ≡ some (m, n)))
  below_acc :
      (g a b : ℕ)
      → acc ≡ some (g, (a, b))
      → (f : ℕ) × (m : ℕ) × (n : ℕ) × (result ≡ some (f, (m, n))) × (f ≤ g)
  below_new :
      is_some e ≡ true → (f : ℕ) × (m : ℕ) × (n : ℕ) × (result ≡ some (f, (m, n))) × (f ≤ fourcc)

offer-Offered :
    (fourcc : ℕ) (e : Option (ℕ × ℕ)) (acc : Option Pick)
    → Offered fourcc e acc (offer fourcc e acc)
unfolding keep_lower
offer-Offered fourcc none acc = record {
  empty = λ h. (h, refl);
  origin = λ f m n h. inl h;
  below_acc = λ g a b h. (g, a, b, h, omega arith);
  below_new = λ h. absurd (cc);
}
offer-Offered fourcc (some (a, b)) none = record {
  empty = λ h. absurd (cc);
  origin = λ f m n h. inr (ground arith, ground arith);
  below_acc = λ g c d h. absurd (cc);
  below_new = λ h. (fourcc, a, b, refl, omega arith);
}
offer-Offered fourcc (some (a, b)) (some (g, (c, d))) = elim (Bool-cases (ltb fourcc g)) [
  | inl l ↦ rw l (record {
    empty = λ h. absurd (cc);
    origin = λ f m n h. inr (ground arith, ground arith);
    below_acc = λ i x y h. (fourcc, a, b, refl, ground arith);
    below_new = λ h. (fourcc, a, b, refl, omega arith);
  })
  | inr l ↦ rw l (record {
    empty = λ h. absurd (cc);
    origin = λ f m n h. inl h;
    below_acc = λ i x y h. (g, c, d, refl, ground arith);
    below_new = λ h. (g, c, d, refl, ground arith);
  })
]

module _ (entry : Entry) where
  abbrev pub entry_at : ℕ → Option (List ModCap) → Option (ℕ × ℕ)
  entry_at f none = none
  entry_at f (some p_mods) = entry f p_mods

  abbrev pub seen : FormatCaps → ℕ → Option (ℕ × ℕ)
  seen ps f = entry_at f (get ℕ_discrete f ps)

  abbrev SeenCons : ℕ → List ModCap → FormatCaps → ℕ → Type 0
  SeenCons fourcc p_mods ps f =
      ((fourcc ≡ f) × (seen ((fourcc, p_mods) ∷ ps) f ≡ entry fourcc p_mods) × (seen ps f ≡ none))
      ⊎ ((fourcc ≢ f) × (seen ((fourcc, p_mods) ∷ ps) f ≡ seen ps f))

  seen-cons :
      (fourcc : ℕ) (p_mods : List ModCap) (ps : FormatCaps) (f : ℕ)
      → get ℕ_discrete fourcc ps ≡ none
      → SeenCons fourcc p_mods ps f
  unfolding get
  seen-cons fourcc p_mods ps f u = elim (ℕ_discrete fourcc f) [
    | yes same ↦ subst (SeenCons fourcc p_mods ps) same (inl (refl, ground arith, rw u refl))
    | no ne ↦ inr (ne, ground arith)
  ]

  unfoldable pub fold : FormatCaps → Option Pick → Option Pick
  fold [] acc = acc
  fold ((fourcc, p_mods) ∷ ps) acc = fold ps (offer fourcc (entry fourcc p_mods) acc)

  -- The lowest fourcc that has an entry, the pick before the loop included.
  pub record Lowest (ps : FormatCaps) (acc result : Option Pick) : Type 0 where
    pub empty : result ≡ none → (acc ≡ none) × ((f : ℕ) → seen ps f ≡ none)
    pub origin :
        (f m n : ℕ)
        → result ≡ some (f, (m, n))
        → (acc ≡ some (f, (m, n))) ⊎ (seen ps f ≡ some (m, n))
    pub below_seen : (f m n g : ℕ) → result ≡ some (f, (m, n)) → is_some (seen ps g) ≡ true → f ≤ g
    pub below_acc : (f m n g a b : ℕ) → result ≡ some (f, (m, n)) → acc ≡ some (g, (a, b)) → f ≤ g

  pub fold-Lowest :
      (ps : FormatCaps) (acc : Option Pick) → Unique ℕ_discrete ps → Lowest ps acc (fold ps acc)
  unfolding fold get
  fold-Lowest [] acc u = record {
    empty = λ e. (e, λ f. refl);
    origin = λ f m n e. inl e;
    below_seen = λ f m n g e h. absurd (cc);
    below_acc = λ f m n g a b e h. ground (arith, e, h);
  }
  fold-Lowest ((fourcc, p_mods) ∷ ps) acc u =
      let e = entry fourcc p_mods in
      let o = offer-Offered fourcc e acc in
      let rest = fold-Lowest ps (offer fourcc e acc) u.1 in
      let cons : (f : ℕ) → SeenCons fourcc p_mods ps f = λ f. seen-cons fourcc p_mods ps f u.0 in
      record {
        empty = λ h.
            let (x, y) = rest.empty h in
            let (p, q) = o.empty x in
            (p, λ f. elim (cons f) [ inl (same, s, _) ↦ s ∙ q | inr (_, s) ↦ s ∙ y f ]);
        origin = λ f m n h. elim (rest.origin f m n h) [
          | inl x ↦ elim (o.origin f m n x) [
            | inl z ↦ inl z
            | inr (same, z) ↦ elim (cons f) [
              | inl (_, s, _) ↦ inr (s ∙ z)
              | inr (ne, s) ↦ absurd (ne (sym same))
            ]
          ]
          | inr x ↦ elim (cons f) [
            | inl (_, _, s) ↦ absurd (ground (arith, s, x))
            | inr (_, s) ↦ inr (s ∙ x)
          ]
        ];
        below_seen = λ f m n g h i. elim (cons g) [
          | inl (same, s, _) ↦
              let (f', m', n', r, l) = o.below_new (ap is_some (sym s) ∙ i) in
              omega (arith, rest.below_acc f m n f' m' n' h r, l, same)
          | inr (_, s) ↦ rest.below_seen f m n g h (ap is_some (sym s) ∙ i)
        ];
        below_acc = λ f m n g a b h i.
            let (f', m', n', r, l) = o.below_acc g a b i in
            omega (arith, rest.below_acc f m n f' m' n' h r, l);
      }
