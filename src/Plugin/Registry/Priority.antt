-- ===== src/Plugin/Registry/Priority.antt =====
-- src/plugin/renderer_registry.rs, resolve: the renderer found for a type.
use wwe_modify.Base.{
  ◌≤◌, String, Bool, true, false, some, inl, inr, List, [], ◌∷◌, ◌++◌, ◌≡◌, refl, sym, subst, arith,
  ite,
}
use wwe_modify.Base.Tests.{str_discrete, if◌then◌else◌}
use wwe_modify.Base.Map.{get}
use wwe_modify.Base.Stable.{
  IsOrder, Before, Pairwise, then_by, sort_insert, sort_by, sort_by-Pairwise,
}
use wwe_modify.Plugin.Registry.Origins.{
  Holds, Offers, register_all, of_type-add_to_type, registered,
}
use wwe_modify.Plugin.Registry.{
  RendererDef, RendererRegistry, new, no_less, of_type, add_to_type, add_to_types, register,
  first_def, resolve,
}

no_less-IsOrder : IsOrder no_less
no_less-IsOrder = record {
  total = λ x y h. ground (arith, h);
  trans = λ x y z h k. ground (arith, h, k);
}

Holds-if :
    (d : RendererDef) (b : Bool) (xs ys : List RendererDef)
    → Holds d xs
    → Holds d ys
    → Holds d (if b then xs else ys)
Holds-if d true xs ys h k = h
Holds-if d false xs ys h k = k

Holds-later :
    (d x y : RendererDef) (ys zs : List RendererDef)
    → (Holds d (x ∷ ys) → Holds d zs)
    → Holds d (x ∷ y ∷ ys)
    → Holds d (y ∷ zs)
Holds-later d x y ys zs f (inl e) = inr (f (inl e))
Holds-later d x y ys zs f (inr (inl e)) = inl e
Holds-later d x y ys zs f (inr (inr k)) = inr (f (inr k))

Holds-sort_insert :
    (d x : RendererDef) (ys : List RendererDef)
    → Holds d (x ∷ ys)
    → Holds d (sort_insert no_less x ys)
unfolding sort_insert
Holds-sort_insert d x [] h = h
Holds-sort_insert d x (y ∷ ys) h =
    let rest = sort_insert no_less x ys in
    Holds-if d (no_less x y) (x ∷ y ∷ ys) (y ∷ rest) h
      (Holds-later d x y ys rest (λ k. Holds-sort_insert d x ys k) h)

Holds-sort_by :
    (d : RendererDef) (xs : List RendererDef) → Holds d xs → Holds d (sort_by no_less xs)
unfolding sort_by
Holds-sort_by d [] h = h
Holds-sort_by d (x ∷ xs) (inl e) = Holds-sort_insert d x (sort_by no_less xs) (inl e)
Holds-sort_by d (x ∷ xs) (inr h) =
    Holds-sort_insert d x (sort_by no_less xs) (inr (Holds-sort_by d xs h))

Holds-last : (d : RendererDef) (xs : List RendererDef) → Holds d (xs ++ d ∷ [])
Holds-last d [] = inl refl
Holds-last d (x ∷ xs) = inr (Holds-last d xs)

Holds-append : (d e : RendererDef) (xs : List RendererDef) → Holds d xs → Holds d (xs ++ e ∷ [])
Holds-append d e [] h = absurd h
Holds-append d e (x ∷ xs) (inl h) = inl h
Holds-append d e (x ∷ xs) (inr h) = inr (Holds-append d e xs h)

any : RendererDef → RendererDef → Bool
any x y = true

any-Before : (x : RendererDef) (xs : List RendererDef) → Before any x xs
unfolding any
any-Before x [] = tt
any-Before x (y ∷ ys) = (refl, any-Before x ys)

any-Pairwise : (xs : List RendererDef) → Pairwise any xs
any-Pairwise [] = tt
any-Pairwise (x ∷ xs) = (any-Before x xs, any-Pairwise xs)

-- By descending priority.
Ranked : List RendererDef → Type 0
unfolding any
Ranked xs = Pairwise (then_by no_less any) xs

least :
    (x d : RendererDef) (xs : List RendererDef)
    → Before (then_by no_less any) x xs
    → Holds d xs
    → d.priority ≤ x.priority
unfolding any
least x d [] b h = absurd h
least x d (y ∷ ys) b (inl e) = subst (λ c. c.priority ≤ x.priority) e (ground (arith, b.0))
least x d (y ∷ ys) b (inr h) = least x d ys b.1 h

-- The first of a ranked list is no less than any.
first_best :
    (d : RendererDef) (xs : List RendererDef)
    → Ranked xs
    → Holds d xs
    → (e : RendererDef) × (first_def xs ≡ some e) × (d.priority ≤ e.priority) × Holds e xs
unfolding Ranked
first_best d [] p h = absurd h
first_best d (x ∷ xs) p (inl e) =
    (x, refl, subst (λ c. c.priority ≤ x.priority) e (omega arith), inl refl)
first_best d (x ∷ xs) p (inr h) = (x, refl, least x d xs p.0 h, inl refl)

Holds-ite :
    {t u : String} (b : Dec (u ≡ t)) (d def : RendererDef) (reg : RendererRegistry)
    → Holds d (of_type t reg)
    → Holds d (ite b (sort_by no_less (of_type u reg ++ def ∷ [])) (of_type t reg))
Holds-ite (yes p) d def reg h =
    Holds-sort_by d (of_type _ reg ++ def ∷ [])
      (Holds-append d def (of_type _ reg) (subst (λ v. Holds d (of_type v reg)) (sym p) h))
Holds-ite (no q) d def reg h = h

Holds-add_to_type :
    (t u : String) (d def : RendererDef) (reg : RendererRegistry)
    → Holds d (of_type t reg)
    → Holds d (of_type t (add_to_type def u reg))
Holds-add_to_type t u d def reg h =
    subst (Holds d) (sym (of_type-add_to_type t u def reg))
      (Holds-ite (str_discrete u t) d def reg h)

Holds-added :
    (t u : String) (def : RendererDef) (reg : RendererRegistry)
    → u ≡ t
    → Holds def (of_type t (add_to_type def u reg))
Holds-added t u def reg e =
    subst (Holds def) (sym (of_type-add_to_type t u def reg)) (here (str_discrete u t))
  where
    here :
        (b : Dec (u ≡ t))
        → Holds def (ite b (sort_by no_less (of_type u reg ++ def ∷ [])) (of_type t reg))
    here (yes p) = Holds-sort_by def (of_type u reg ++ def ∷ []) (Holds-last def (of_type u reg))
    here (no q) = absurd (q e)

Ranked-ite :
    {t u : String} (b : Dec (u ≡ t)) (def : RendererDef) (reg : RendererRegistry)
    → Ranked (of_type t reg)
    → Ranked (ite b (sort_by no_less (of_type u reg ++ def ∷ [])) (of_type t reg))
unfolding Ranked
Ranked-ite {u = u} (yes p) def reg h =
    sort_by-Pairwise no_less any no_less-IsOrder (of_type u reg ++ def ∷ [])
      (any-Pairwise (of_type u reg ++ def ∷ []))
Ranked-ite (no q) def reg h = h

Ranked-add_to_type :
    (t u : String) (def : RendererDef) (reg : RendererRegistry)
    → Ranked (of_type t reg)
    → Ranked (of_type t (add_to_type def u reg))
Ranked-add_to_type t u def reg h =
    subst Ranked (sym (of_type-add_to_type t u def reg)) (Ranked-ite (str_discrete u t) def reg h)

Holds-add_to_types :
    (t : String) (us : List String) (d def : RendererDef) (reg : RendererRegistry)
    → Holds d (of_type t reg)
    → Holds d (of_type t (add_to_types def us reg))
unfolding add_to_types
Holds-add_to_types t [] d def reg h = h
Holds-add_to_types t (u ∷ us) d def reg h =
    Holds-add_to_types t us d def (add_to_type def u reg) (Holds-add_to_type t u d def reg h)

Holds-offered :
    (t : String) (us : List String) (def : RendererDef) (reg : RendererRegistry)
    → Offers t us
    → Holds def (of_type t (add_to_types def us reg))
unfolding add_to_types
Holds-offered t [] def reg h = absurd h
Holds-offered t (u ∷ us) def reg (inl e) =
    Holds-add_to_types t us def def (add_to_type def u reg) (Holds-added t u def reg e)
Holds-offered t (u ∷ us) def reg (inr h) = Holds-offered t us def (add_to_type def u reg) h

Ranked-add_to_types :
    (t : String) (us : List String) (def : RendererDef) (reg : RendererRegistry)
    → Ranked (of_type t reg)
    → Ranked (of_type t (add_to_types def us reg))
unfolding add_to_types
Ranked-add_to_types t [] def reg h = h
Ranked-add_to_types t (u ∷ us) def reg h =
    Ranked-add_to_types t us def (add_to_type def u reg) (Ranked-add_to_type t u def reg h)

Ranked-register_all :
    (t : String) (defs : List RendererDef) (reg : RendererRegistry)
    → Ranked (of_type t reg)
    → Ranked (of_type t (register_all defs reg))
unfolding register
Ranked-register_all t [] reg h = h
Ranked-register_all t (def ∷ defs) reg h =
    Ranked-register_all t defs (register def reg) (Ranked-add_to_types t def.types def reg h)

Holds-kept :
    (t : String) (defs : List RendererDef) (d : RendererDef) (reg : RendererRegistry)
    → Holds d (of_type t reg)
    → Holds d (of_type t (register_all defs reg))
unfolding register
Holds-kept t [] d reg h = h
Holds-kept t (def ∷ defs) d reg h =
    Holds-kept t defs d (register def reg) (Holds-add_to_types t def.types d def reg h)

Holds-register_all :
    (t : String) (defs : List RendererDef) (d : RendererDef) (reg : RendererRegistry)
    → Holds d defs
    → Offers t d.types
    → Holds d (of_type t (register_all defs reg))
unfolding register
Holds-register_all t [] d reg h o = absurd h
Holds-register_all t (def ∷ defs) d reg (inl e) o = Holds-kept t defs d (register def reg) (
    subst (λ c. Holds d (of_type t (add_to_types c c.types reg))) (sym e)
      (Holds-offered t d.types d reg o))
Holds-register_all t (def ∷ defs) d reg (inr h) o =
    Holds-register_all t defs d (register def reg) h o

-- Once definitions are registered with a new registry, in whatever order, resolve finds a renderer
-- for each type that one of them is for: it is one of those registered, it is for that type, and its
-- priority is at least that of each of those.
pub resolve-register_all :
    (t : String) (defs : List RendererDef) (d : RendererDef)
    → Holds d defs
    → Offers t d.types
    → (e : RendererDef) × (resolve t (register_all defs new) ≡ some e)
      × (d.priority ≤ e.priority)
      × Holds e defs
      × Offers t e.types
unfolding resolve new Ranked get
resolve-register_all t defs d h o =
    let (e, found, best, held) =
      first_best d (of_type t (register_all defs new)) (Ranked-register_all t defs new tt)
        (Holds-register_all t defs d new h o) in
    elim (registered t defs e new held) [ inl k ↦ absurd k | inr k ↦ (e, found, best, k.0, k.1) ]
