-- ===== src/Scheduler/Pending.antt =====
-- The frames in flight after a display has gone, and the lists of displays that the scheduler makes.
use wwe_modify.Base.{
  Bool, true, false, Option, none, some, List, [], ◌∷◌, ◌≡◌, refl, arith, ℕ_discrete,
}
use wwe_modify.Base.Tests.{if◌then◌else◌, is_some}
use wwe_modify.Base.Lists.{contains, drop_all, is_empty}
use wwe_modify.Base.Map.{Map, keys, get, Unique}
use wwe_modify.Scheduler.{
  DisplayId, DisplayInfo, FrameKey, FrameKey-discrete, forget_display, bound_ids,
}

-- What is owed on a frame once a display has gone: nothing if nobody else owes.
abbrev pub clear : DisplayId → Option (List DisplayId) → Option (List DisplayId)
clear id none = none
clear id (some owed) = if is_empty (drop_all id owed) then none else some (drop_all id owed)

abbrev pub owed_on : FrameKey → Map FrameKey (List DisplayId) → Option (List DisplayId)
owed_on = get FrameKey-discrete

forget_display-none :
    (id : DisplayId) (k : FrameKey) (m : Map FrameKey (List DisplayId))
    → owed_on k m ≡ none
    → owed_on k (forget_display id m).1 ≡ none
unfolding forget_display get
forget_display-none id k [] e = refl
forget_display-none id k ((key, owed) ∷ m) e = ground (arith, forget_display-none id k m)

pub get-forget_display :
    (id : DisplayId) (k : FrameKey) (m : Map FrameKey (List DisplayId))
    → Unique FrameKey-discrete m
    → owed_on k (forget_display id m).1 ≡ clear id (owed_on k m)
unfolding forget_display get
get-forget_display id k [] u = refl
get-forget_display id k ((key, owed) ∷ m) u =
    ground (arith, get-forget_display id k m u.1, forget_display-none id key m u.0)

pub forget_display-Unique :
    (id : DisplayId) (m : Map FrameKey (List DisplayId))
    → Unique FrameKey-discrete m
    → Unique FrameKey-discrete (forget_display id m).1
unfolding forget_display get
forget_display-Unique id [] u = tt
forget_display-Unique id ((key, owed) ∷ m) u =
    ground (arith, forget_display-Unique id m u.1, forget_display-none id key m u.0)

abbrev pub is_bound : Option DisplayInfo → Bool
is_bound none = false
is_bound (some d) = d.bound

bound_ids-none :
    (id : DisplayId) (m : Map DisplayId DisplayInfo)
    → get ℕ_discrete id m ≡ none
    → contains id (bound_ids m) ≡ false
unfolding bound_ids contains get
bound_ids-none id [] e = refl
bound_ids-none id ((j, d) ∷ m) e = ground (arith, bound_ids-none id m)

pub contains-bound_ids :
    (id : DisplayId) (m : Map DisplayId DisplayInfo)
    → Unique ℕ_discrete m
    → contains id (bound_ids m) ≡ is_bound (get ℕ_discrete id m)
unfolding bound_ids contains get
contains-bound_ids id [] u = refl
contains-bound_ids id ((j, d) ∷ m) u =
    ground (arith, contains-bound_ids id m u.1, bound_ids-none j m u.0)

pub contains-keys :
    (id : DisplayId) (m : Map DisplayId DisplayInfo)
    → contains id (keys m) ≡ is_some (get ℕ_discrete id m)
unfolding contains get
contains-keys id [] = refl
contains-keys id ((j, d) ∷ m) = ground (arith, contains-keys id m)

-- A frame is reported as freed exactly if the display alone still owed it.
abbrev pub lists_key : FrameKey → List FrameKey → Bool
lists_key k [] = false
lists_key k (x ∷ xs) = elim (FrameKey-discrete x k) [ yes _ ↦ true | no _ ↦ lists_key k xs ]

abbrev pub cleared : DisplayId → Option (List DisplayId) → Bool
cleared id none = false
cleared id (some owed) = is_empty (drop_all id owed)

freed_none :
    (id : DisplayId) (k : FrameKey) (m : Map FrameKey (List DisplayId))
    → owed_on k m ≡ none
    → lists_key k (forget_display id m).0 ≡ false
unfolding forget_display get
freed_none id k [] e = refl
freed_none id k ((key, owed) ∷ m) e = ground (arith, freed_none id k m)

pub freed-forget_display :
    (id : DisplayId) (k : FrameKey) (m : Map FrameKey (List DisplayId))
    → Unique FrameKey-discrete m
    → lists_key k (forget_display id m).0 ≡ cleared id (owed_on k m)
unfolding forget_display get
freed-forget_display id k [] u = refl
freed-forget_display id k ((key, owed) ∷ m) u =
    ground (arith, freed-forget_display id k m u.1, freed_none id key m u.0)
