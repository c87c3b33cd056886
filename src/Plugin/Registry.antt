-- ===== src/Plugin/Registry.antt =====
-- src/plugin/renderer_registry.rs (RendererRegistry): the renderers of each type of wallpaper. Of a
-- definition, its name, types and priority.
pub mod Origins
pub mod Priority
mod Tests
use wwe_modify.Base.{ℕ, String, Bool, true, false, Option, none, some, List, [], ◌∷◌, ◌++◌}
use wwe_modify.Base.Tests.{leb, str_discrete}
use wwe_modify.Base.Map.{Map, get, insert}
use wwe_modify.Base.Stable.{sort_by}

pub record RendererDef : Type 0 where
  pub name : String
  pub types : List String
  pub priority : ℕ

pub record RendererRegistry : Type 0 where
  pub by_type : Map String (List RendererDef)

pub new : RendererRegistry
new = record { by_type = [] }

-- `b.priority.cmp(&a.priority)` is not `Greater`.
abbrev pub no_less : RendererDef → RendererDef → Bool
no_less a b = leb b.priority a.priority

-- `entry(..).or_default()`.
abbrev pub of_type : String → RendererRegistry → List RendererDef
of_type t reg = elim (get str_discrete t reg.by_type) [ none ↦ [] | some defs ↦ defs ]

pub add_to_type : RendererDef → String → RendererRegistry → RendererRegistry
add_to_type def t reg = record {
  by_type = insert str_discrete t (sort_by no_less (of_type t reg ++ def ∷ [])) reg.by_type;
}

-- The loop over the definition's types.
pub add_to_types : RendererDef → List String → RendererRegistry → RendererRegistry
unfolding add_to_type
add_to_types def [] reg = reg
add_to_types def (t ∷ ts) reg = add_to_types def ts (add_to_type def t reg)

pub register : RendererDef → RendererRegistry → RendererRegistry
unfolding add_to_types
register def reg = add_to_types def def.types reg

-- `first`.
abbrev pub first_def : List RendererDef → Option RendererDef
first_def [] = none
first_def (d ∷ _) = some d

pub resolve : String → RendererRegistry → Option RendererDef
resolve t reg = first_def (of_type t reg)
