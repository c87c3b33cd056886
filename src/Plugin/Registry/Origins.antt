-- ===== src/Plugin/Registry/Origins.antt =====
-- src/plugin/renderer_registry.rs, register: where the renderers listed for a type come from.
use wwe_modify.Base.{
  String, Bool, true, false, inl, inr, ◌⊎◌, List, [], ◌∷◌, ◌++◌, ◌≡◌, subst, arith, ite,
}
use wwe_modify.Base.Tests.{str_discrete, if◌then◌else◌}
use wwe_modify.Base.Map.{get-insert}
use wwe_modify.Base.Stable.{sort_insert, sort_by}
use wwe_modify.Plugin.Registry.{
  RendererDef, RendererRegistry, no_less, of_type, add_to_type, add_to_types, register,
}

-- Some definition in a list has this very place in it.
abbrev pub Holds : RendererDef → List RendererDef → Type 0
Holds d [] = ⊥
Holds d (x ∷ xs) = (x ≡ d) ⊎ Holds d xs

-- A definition is for a type.
abbrev pub Offers : String → List String → Type 0
Offers t [] = ⊥
Offers t (u ∷ us) = (u ≡ t) ⊎ Offers t us

-- The definitions are registered one after the other.
abbrev pub register_all : List RendererDef → RendererRegistry → RendererRegistry
unfolding register
register_all [] reg = reg
register_all (def ∷ defs) reg = register_all defs (register def reg)

pub of_type-add_to_type :
    (t u : String) (def : RendererDef) (reg : RendererRegistry)
    → of_type t (add_to_type def u reg)
      ≡ ite (str_discrete u t) (sort_by no_less (of_type u reg ++ def ∷ [])) (of_type t reg)
unfolding add_to_type
of_type-add_to_type t u def reg =
    ground
      (arith, get-insert str_discrete t u (sort_by no_less (of_type u reg ++ def ∷ [])) reg.by_type)

Holds-of_if :
    (e : RendererDef) (b : Bool) (xs ys zs : List RendererDef)
    → (Holds e xs → Holds e zs)
    → (Holds e ys → Holds e zs)
    → Holds e (if b then xs else ys)
    → Holds e zs
Holds-of_if e true xs ys zs f g h = f h
Holds-of_if e false xs ys zs f g h = g h

Holds-swapped :
    (e x y : RendererDef) (ys zs : List RendererDef)
    → (Holds e zs → Holds e (x ∷ ys))
    → Holds e (y ∷ zs)
    → Holds e (x ∷ y ∷ ys)
Holds-swapped e x y ys zs f (inl k) = inr (inl k)
Holds-swapped e x y ys zs f (inr k) = elim (f k) [ inl p ↦ inl p | inr p ↦ inr (inr p) ]

-- Sorting brings nothing in.
of_sort_insert :
    (e x : RendererDef) (ys : List RendererDef)
    → Holds e (sort_insert no_less x ys)
    → Holds e (x ∷ ys)
unfolding sort_insert
of_sort_insert e x [] h = h
of_sort_insert e x (y ∷ ys) h =
    let rest = sort_insert no_less x ys in
    Holds-of_if e (no_less x y) (x ∷ y ∷ ys) (y ∷ rest) (x ∷ y ∷ ys) (λ k. k)
      (Holds-swapped e x y ys rest (λ k. of_sort_insert e x ys k)) h

of_sort_by : (e : RendererDef) (xs : List RendererDef) → Holds e (sort_by no_less xs) → Holds e xs
unfolding sort_by
of_sort_by e [] h = h
of_sort_by e (x ∷ xs) h = elim (of_sort_insert e x (sort_by no_less xs) h) [
  | inl k ↦ inl k
  | inr k ↦ inr (of_sort_by e xs k)
]

of_append :
    (e d : RendererDef) (xs : List RendererDef) → Holds e (xs ++ d ∷ []) → Holds e xs ⊎ (d ≡ e)
of_append e d [] (inl k) = inr k
of_append e d [] (inr k) = absurd k
of_append e d (x ∷ xs) (inl k) = inl (inl k)
of_append e d (x ∷ xs) (inr k) = elim (of_append e d xs k) [ inl p ↦ inl (inr p) | inr p ↦ inr p ]

of_ite :
    {t u : String} (b : Dec (u ≡ t)) (e def : RendererDef) (reg : RendererRegistry)
    → Holds e (ite b (sort_by no_less (of_type u reg ++ def ∷ [])) (of_type t reg))
    → Holds e (of_type t reg) ⊎ ((def ≡ e) × (u ≡ t))
of_ite {u = u} (yes p) e def reg h =
    elim (of_append e def (of_type u reg) (of_sort_by e (of_type u reg ++ def ∷ []) h)) [
      | inl k ↦ inl (subst (λ v. Holds e (of_type v reg)) p k)
      | inr k ↦ inr (k, p)
    ]
of_ite (no q) e def reg h = inl h

of_add_to_type :
    (t u : String) (e def : RendererDef) (reg : RendererRegistry)
    → Holds e (of_type t (add_to_type def u reg))
    → Holds e (of_type t reg) ⊎ ((def ≡ e) × (u ≡ t))
of_add_to_type t u e def reg h =
    of_ite (str_discrete u t) e def reg (subst (Holds e) (of_type-add_to_type t u def reg) h)

of_add_to_types :
    (t : String) (us : List String) (e def : RendererDef) (reg : RendererRegistry)
    → Holds e (of_type t (add_to_types def us reg))
    → Holds e (of_type t reg) ⊎ ((def ≡ e) × Offers t us)
unfolding add_to_types
of_add_to_types t [] e def reg h = inl h
of_add_to_types t (u ∷ us) e def reg h =
    elim (of_add_to_types t us e def (add_to_type def u reg) h) [
      | inl k ↦ elim (of_add_to_type t u e def reg k) [ inl p ↦ inl p | inr p ↦ inr (p.0, inl p.1) ]
      | inr k ↦ inr (k.0, inr k.1)
    ]

-- A renderer listed for a type was listed before, or is one of those registered and is for the type.
pub registered :
    (t : String) (defs : List RendererDef) (e : RendererDef) (reg : RendererRegistry)
    → Holds e (of_type t (register_all defs reg))
    → Holds e (of_type t reg) ⊎ (Holds e defs × Offers t e.types)
unfolding register
registered t [] e reg h = inl h
registered t (def ∷ defs) e reg h = elim (registered t defs e (register def reg) h) [
  | inl k ↦ elim (of_add_to_types t def.types e def reg k) [
    | inl p ↦ inl p
    | inr p ↦ inr (inl p.0, subst (λ d. Offers t d.types) p.0 p.1)
  ]
  | inr k ↦ inr (inr k.0, k.1)
]
