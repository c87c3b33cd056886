-- ===== src/Plugin/Registry/Tests.antt =====
-- Two renderers of images.
use wwe_modify.Base.{some, inl, inr, [], ◌∷◌, ◌≡◌, ◌≤◌, refl}
use wwe_modify.Plugin.Registry.{RendererDef, new, resolve}
use wwe_modify.Plugin.Registry.Origins.{Holds, Offers, register_all}
use wwe_modify.Plugin.Registry.Priority.{resolve-register_all}

abbrev slow : RendererDef
slow = record { name = "slow"; types = "image" ∷ []; priority = 10 }

abbrev quick : RendererDef
quick = record { name = "quick"; types = "video" ∷ "image" ∷ []; priority = 20 }

resolve-register_all_example :
    (e : RendererDef) × (resolve "image" (register_all (slow ∷ quick ∷ []) new) ≡ some e)
    × (20 ≤ e.priority)
    × Holds e (slow ∷ quick ∷ [])
    × Offers "image" e.types
resolve-register_all_example =
    resolve-register_all "image" (slow ∷ quick ∷ []) quick (inr (inl refl)) (inr (inl refl))
