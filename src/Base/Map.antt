-- ===== src/Base/Map.antt =====
-- Finite maps (`HashMap`, `BTreeMap`) as association lists with distinct keys. A lookup law in
-- `ite` form for each operation is all that the components use.
use mathlib.Core.Path.{◌≡◌, refl}
use mathlib.Core.Logic.{ite}
use mathlib.Core.Bool.{Bool}
use mathlib.Core.List.{List, [], ◌∷◌, map}
use mathlib.Core.Option
use mathlib.Core.Option.{Option, none, some}
use native.Mathlib.Omega.{arith}
use wwe_modify.Base.Tests.{if◌then◌else◌}

abbrev pub Map {ℓ} : Type ℓ → Type ℓ → Type ℓ
Map K V = List (K × V)

-- Keep a value that passes a test of its key and itself.
abbrev pub keep_if {ℓ} : {K V : Type ℓ} → (K → V → Bool) → K → Option V → Option V
keep_if p k none = none
keep_if p k (some v) = if p k v then some v else none

module _ {ℓ} {K V : Type ℓ} where
  abbrev pub keys : Map K V → List K
  keys m = map (λ e. e.0) m

  abbrev pub values : Map K V → List V
  values m = map (λ e. e.1) m

  -- `retain` with a test of the key and the value.
  unfoldable pub retain_entries : (K → V → Bool) → Map K V → Map K V
  retain_entries p [] = []
  retain_entries p ((k, v) ∷ m) =
      let rest = retain_entries p m in if p k v then (k, v) ∷ rest else rest

  -- Every value is rewritten in place (`values_mut`).
  unfoldable pub map_values : (V → V) → Map K V → Map K V
  map_values f [] = []
  map_values f ((k, v) ∷ m) = (k, f v) ∷ map_values f m

module _ {ℓ} {K V : Type ℓ} (dec : Discrete K) where
  unfoldable pub get : K → Map K V → Option V
  get k [] = none
  get k ((j, v) ∷ m) = ite (dec j k) (some v) (get k m)

  unfoldable pub insert : K → V → Map K V → Map K V
  insert k v [] = (k, v) ∷ []
  insert k v ((j, w) ∷ m) = ite (dec j k) ((k, v) ∷ m) ((j, w) ∷ insert k v m)

  unfoldable pub remove : K → Map K V → Map K V
  remove k [] = []
  remove k ((j, w) ∷ m) = ite (dec j k) (remove k m) ((j, w) ∷ remove k m)

  -- `get_mut`: the value under the key, if there is one, is rewritten.
  unfoldable pub modify : K → (V → V) → Map K V → Map K V
  modify k f [] = []
  modify k f ((j, w) ∷ m) = ite (dec j k) ((j, f w) ∷ m) ((j, w) ∷ modify k f m)

  -- No key stands twice.
  abbrev pub Unique : Map K V → Type ℓ
  Unique [] = Unit
  Unique ((k, v) ∷ m) = (get k m ≡ none) × Unique m

  pub get-insert :
      (j k : K) (v : V) (m : Map K V) → get j (insert k v m) ≡ ite (dec k j) (some v) (get j m)
  unfolding get insert
  get-insert j k v [] = refl
  get-insert j k v ((i, w) ∷ m) = ground (arith, get-insert j k v m)

  pub get-remove : (j k : K) (m : Map K V) → get j (remove k m) ≡ ite (dec k j) none (get j m)
  unfolding get remove
  get-remove j k [] = ground arith
  get-remove j k ((i, w) ∷ m) = ground (arith, get-remove j k m)

  pub get-modify :
      (j k : K) (f : V → V) (m : Map K V)
      → get j (modify k f m) ≡ ite (dec k j) (Option.map f (get j m)) (get j m)
  unfolding get modify
  get-modify j k f [] = ground arith
  get-modify j k f ((i, w) ∷ m) = ground (arith, get-modify j k f m)

  pub get-map_values :
      (j : K) (f : V → V) (m : Map K V) → get j (map_values f m) ≡ Option.map f (get j m)
  unfolding get map_values
  get-map_values j f [] = refl
  get-map_values j f ((i, w) ∷ m) = ground (arith, get-map_values j f m)

  get-retain_none :
      (j : K) (p : K → V → Bool) (m : Map K V) → get j m ≡ none → get j (retain_entries p m) ≡ none
  unfolding get retain_entries
  get-retain_none j p [] h = refl
  get-retain_none j p ((i, w) ∷ m) h = ground (arith, get-retain_none j p m)

  pub get-retain_entries :
      (j : K) (p : K → V → Bool) (m : Map K V)
      → Unique m
      → get j (retain_entries p m) ≡ keep_if p j (get j m)
  unfolding get retain_entries
  get-retain_entries j p [] u = refl
  get-retain_entries j p ((i, w) ∷ m) u =
      ground (arith, get-retain_entries j p m u.1, get-retain_none i p m u.0)

  pub insert-Unique : (k : K) (v : V) (m : Map K V) → Unique m → Unique (insert k v m)
  unfolding get insert
  insert-Unique k v [] u = (refl, tt)
  insert-Unique k v ((i, w) ∷ m) u = ground (arith, insert-Unique k v m u.1, get-insert i k v m)

  pub remove-Unique : (k : K) (m : Map K V) → Unique m → Unique (remove k m)
  unfolding get remove
  remove-Unique k [] u = tt
  remove-Unique k ((i, w) ∷ m) u = ground (arith, remove-Unique k m u.1, get-remove i k m)

  pub modify-Unique : (k : K) (f : V → V) (m : Map K V) → Unique m → Unique (modify k f m)
  unfolding get modify
  modify-Unique k f [] u = tt
  modify-Unique k f ((i, w) ∷ m) u = ground (arith, modify-Unique k f m u.1, get-modify i k f m)

  pub map_values-Unique : (f : V → V) (m : Map K V) → Unique m → Unique (map_values f m)
  unfolding get map_values
  map_values-Unique f [] u = tt
  map_values-Unique f ((i, w) ∷ m) u =
      ground (arith, map_values-Unique f m u.1, get-map_values i f m)

  pub retain-Unique : (p : K → V → Bool) (m : Map K V) → Unique m → Unique (retain_entries p m)
  unfolding get retain_entries
  retain-Unique p [] u = tt
  retain-Unique p ((i, w) ∷ m) u = ground (arith, retain-Unique p m u.1, get-retain_none i p m u.0)

  pub modify-modify :
      (k : K) (f g : V → V) (m : Map K V) → modify k f (modify k g m) ≡ modify k (λ v. f (g v)) m
  unfolding modify
  modify-modify k f g [] = refl
  modify-modify k f g ((i, w) ∷ m) = ground (arith, modify-modify k f g m)
