-- ===== src/Dma/Negotiate/Scheme.antt =====
-- The scheme that `pick` answers, and its synchronisation mode.
use wwe_modify.Base.{
  ℕ, zero, suc, ◌<◌, bit_and, Bool, true, false, not, ◌&&◌, ◌||◌, Option, none, some, List, [], ◌∷◌,
  ◌≡◌, ◌≢◌, refl, ap, subst, sym, ◌⊎◌, inl, inr, arith, ℕ_discrete,
}
use wwe_modify.Base.Tests.{◌==◌, if◌then◌else◌, Bool-cases, is_some}
use wwe_modify.Base.Map.{get, Unique}
use wwe_modify.Dma.Negotiate.Format.{agrees, Best, pick_format_same_device-Best}
use wwe_modify.Dma.Negotiate.{
  ModCap, FormatCaps, Blacklist, blacklisted, Pick, PeerCaps, optimized_same_device, compat_linear,
  gpu_native, gpu_linear, NegotiatedScheme, Result, ok, err, and_then, no_format_intersection,
  sync_syncobj_timeline, sync_syncobj_binary, sync_implicit, pick_sync, pick_format_same_device,
  pick_fourcc_only, same_device, same_device_scheme, cross_device_scheme, pick,
}

-- A test of every number below a bound.
all_below : ℕ → (ℕ → Bool) → Bool
all_below zero p = true
all_below (suc n) p = p n && all_below n p

all_below_lem : (n : ℕ) (p : ℕ → Bool) → all_below n p ≡ true → (k : ℕ) → k < n → p k ≡ true
unfolding all_below
all_below_lem zero p h k l = absurd (omega arith)
all_below_lem (suc n) p h k l = elim (ℕ_discrete n k) [
  | yes e ↦ ground (arith, h, ap p e)
  | no ne ↦ all_below_lem n p (ground (arith, h)) k (omega arith)
]

-- Both peers offer a mode.
abbrev pub Common : ℕ → ℕ → ℕ → Type 0
Common p c m = (bit_and p m ≡ m) × (bit_and c m ≡ m)

common : ℕ → ℕ → ℕ → Bool
common p c m = bit_and p m == m && bit_and c m == m

-- The most preferred of the common modes: a timeline, else a binary syncobj, else implicit.
abbrev pub Preferred : ℕ → ℕ → ℕ → Type 0
Preferred p c m =
    (m ≡ sync_syncobj_timeline)
    ⊎ ((m ≡ sync_syncobj_binary) × (¬ Common p c sync_syncobj_timeline))
    ⊎ ((m ≡ sync_implicit)
        × (¬ Common p c sync_syncobj_timeline)
        × (¬ Common p c sync_syncobj_binary))

preferred : ℕ → ℕ → ℕ → Bool
unfolding common
preferred p c m =
    m == sync_syncobj_timeline
    || (m == sync_syncobj_binary && not (common p c sync_syncobj_timeline))
    || (m == sync_implicit
        && not (common p c sync_syncobj_timeline)
        && not (common p c sync_syncobj_binary))

sync_agrees : ℕ → ℕ → Result ℕ → Bool
unfolding common preferred
sync_agrees p c (ok m) = common p c m && preferred p c m
sync_agrees p c (err e) =
    not (common p c sync_syncobj_timeline)
    && not (common p c sync_syncobj_binary)
    && not (common p c sync_implicit)

sync_table : all_below 8 (λ p. all_below 8 (λ c. sync_agrees p c (pick_sync p c))) ≡ true
unfolding all_below common preferred sync_agrees pick_sync
sync_table = refl

sync_entry : (p c : ℕ) → p < 8 → c < 8 → sync_agrees p c (pick_sync p c) ≡ true
sync_entry p c hp hc =
    all_below_lem 8 (λ d. sync_agrees p d (pick_sync p d))
      (all_below_lem 8 (λ q. all_below 8 (λ d. sync_agrees q d (pick_sync q d))) sync_table p hp) c
      hc

abbrev pub SyncAgreed : ℕ → ℕ → Result ℕ → Type 0
SyncAgreed p c (ok m) = Common p c m × Preferred p c m
SyncAgreed p c (err e) =
    (¬ Common p c sync_syncobj_timeline)
    × (¬ Common p c sync_syncobj_binary)
    × (¬ Common p c sync_implicit)

uncommon : (p c m : ℕ) → common p c m ≡ false → ¬ Common p c m
unfolding common
uncommon p c m h k = absurd (ground (arith, h, k.0, k.1))

Preferred-test : (p c m : ℕ) → preferred p c m ≡ true → Preferred p c m
unfolding preferred
Preferred-test p c m h = elim (ℕ_discrete m 4) [
  | yes e ↦ inl e
  | no ne ↦ elim (ℕ_discrete m 2) [
    | yes e ↦ inr (inl (e, uncommon p c 4 (ground (arith, h))))
    | no nf ↦ inr (
        inr (
          ground (arith, h),
          uncommon p c 4 (ground (arith, h)),
          uncommon p c 2 (ground (arith, h)),
        ))
  ]
]

agreed_of_test : (p c : ℕ) (r : Result ℕ) → sync_agrees p c r ≡ true → SyncAgreed p c r
unfolding sync_agrees common
agreed_of_test p c (ok m) h =
    ((ground (arith, h), ground (arith, h)), Preferred-test p c m (ground (arith, h)))
agreed_of_test p c (err e) h = (
  uncommon p c 4 (ground (arith, h)),
  uncommon p c 2 (ground (arith, h)),
  uncommon p c 1 (ground (arith, h)),
)

-- For peers that offer only the three known modes, the mode picked is the first of timeline syncobj,
-- binary syncobj and implicit that both offer, and the pick fails only if they have none in common.
pub pick_sync-SyncAgreed : (p c : ℕ) → p < 8 → c < 8 → SyncAgreed p c (pick_sync p c)
pick_sync-SyncAgreed p c hp hc = agreed_of_test p c (pick_sync p c) (sync_entry p c hp hc)

-- A format that both peers list, and neither refused in its linear form.
abbrev Shared : FormatCaps → FormatCaps → Blacklist → Blacklist → ℕ → ℕ → Type 0
Shared producer consumer p_bl c_bl f m =
    (is_some (get ℕ_discrete f producer) ≡ true)
    × (is_some (get ℕ_discrete f consumer) ≡ true)
    × (blacklisted f m p_bl ≡ false)
    × (blacklisted f m c_bl ≡ false)

abbrev OnlyShared : FormatCaps → FormatCaps → Blacklist → Blacklist → Result ℕ → Type 0
OnlyShared producer consumer p_bl c_bl (ok f) = Shared producer consumer p_bl c_bl f 0
OnlyShared producer consumer p_bl c_bl (err e) =
    (e ≡ no_format_intersection) × ((f : ℕ) → ¬ Shared producer consumer p_bl c_bl f 0)

module _ (consumer : FormatCaps) (p_bl c_bl : Blacklist) where
  abbrev refused : ℕ → Bool
  refused f =
      not (is_some (get ℕ_discrete f consumer)) || blacklisted f 0 p_bl || blacklisted f 0 c_bl

  skips :
      (f : ℕ) (mods : List ModCap) (producer : FormatCaps) (r : Result ℕ)
      → refused f ≡ true
      → OnlyShared producer consumer p_bl c_bl r
      → OnlyShared ((f, mods) ∷ producer) consumer p_bl c_bl r
  unfolding get
  skips f mods producer (ok g) e h = (ground (arith, h), h.1, h.2, h.3)
  skips f mods producer (err x) e h = (
    h.0,
    λ g k. elim (ℕ_discrete f g) [
      | yes same ↦ absurd (
          ground (
            arith,
            e,
            subst (λ i. Shared ((f, mods) ∷ producer) consumer p_bl c_bl i 0) (sym same) k,
          ))
      | no ne ↦ h.1 g (ground (arith, k), k.1, k.2, k.3)
    ],
  )

  takes :
      (f : ℕ) (mods : List ModCap) (producer : FormatCaps)
      → refused f ≡ false
      → Shared ((f, mods) ∷ producer) consumer p_bl c_bl f 0
  unfolding get
  takes f mods producer e = (ground arith, ground (arith, e), ground (arith, e), ground (arith, e))

  pick_fourcc_only_lem :
      (producer : FormatCaps)
      → OnlyShared producer consumer p_bl c_bl (pick_fourcc_only producer consumer p_bl c_bl)
  unfolding pick_fourcc_only get
  pick_fourcc_only_lem [] = (refl, λ f h. absurd (ground (arith, h)))
  pick_fourcc_only_lem ((f, mods) ∷ producer) =
      let rest = pick_fourcc_only producer consumer p_bl c_bl in
      elim (Bool-cases (refused f)) [
        | inl e ↦
            subst (OnlyShared ((f, mods) ∷ producer) consumer p_bl c_bl) (sym (chain_true rest e))
              (skips f mods producer rest e (pick_fourcc_only_lem producer))
        | inr e ↦
            subst (OnlyShared ((f, mods) ∷ producer) consumer p_bl c_bl) (sym (chain_false rest e))
              (takes f mods producer e)
      ]
    where
      chain : Result ℕ → Result ℕ
      chain rest =
          if not (is_some (get ℕ_discrete f consumer))
          then rest
          else if blacklisted f 0 p_bl
          then rest
          else if blacklisted f 0 c_bl
          then rest
          else ok f

      chain_true : (rest : Result ℕ) → refused f ≡ true → chain rest ≡ rest
      chain_true rest e = ground arith

      chain_false : (rest : Result ℕ) → refused f ≡ false → chain rest ≡ ok f
      chain_false rest e = ground arith

shared_of_agrees :
    (f m n : ℕ) (p_bl c_bl : Blacklist) (o c : Option (List ModCap))
    → agrees f m n p_bl c_bl o c ≡ true
    → (is_some o ≡ true)
      × (is_some c ≡ true)
      × (blacklisted f m p_bl ≡ false)
      × (blacklisted f m c_bl ≡ false)
shared_of_agrees f m n p_bl c_bl (some x) (some y) h =
    (refl, refl, ground (arith, h), ground (arith, h))
shared_of_agrees f m n p_bl c_bl none c h = absurd (cc)
shared_of_agrees f m n p_bl c_bl (some x) none h = absurd (cc)

module _ (p c : PeerCaps) where
  -- The linear path with its memory, or the optimised one, on one device, with its own.
  abbrev PathFits : NegotiatedScheme → Type 0
  PathFits s =
      ((s.modifier ≡ 0) × (s.path ≡ compat_linear) × (s.mem_source ≡ gpu_linear))
      ⊎ ((s.modifier ≢ 0)
          × (same_device p.identity c.identity ≡ true)
          × (s.path ≡ optimized_same_device)
          × (s.mem_source ≡ gpu_native))

  abbrev NoCommon : Bool → Type 0
  NoCommon true =
      (f m n : ℕ)
      → agrees f m n p.blacklist c.blacklist (get ℕ_discrete f p.formats)
          (get ℕ_discrete f c.formats)
        ≡ false
  NoCommon false = (f : ℕ) → ¬ Shared p.formats c.formats p.blacklist c.blacklist f 0

  abbrev pub Fits : Result NegotiatedScheme → Type 0
  Fits (ok s) =
      (pick_sync p.sync c.sync ≡ ok s.sync_mode)
      × Shared p.formats c.formats p.blacklist c.blacklist s.fourcc s.modifier
      × PathFits s
  Fits (err e) =
      (pick_sync p.sync c.sync ≡ err e)
      ⊎ ((e ≡ no_format_intersection) × NoCommon (same_device p.identity c.identity))

  same_device-PathFits :
      (sync : ℕ) (found : Pick)
      → same_device p.identity c.identity ≡ true
      → PathFits (same_device_scheme p c sync found)
  unfolding same_device_scheme
  same_device-PathFits sync (f, (m, n)) same = elim (ℕ_discrete m 0) [
    | yes z ↦ inl (z, ground arith, ground arith)
    | no nz ↦ inr (nz, same, ground arith, ground arith)
  ]

  same_device-Fits :
      (sync : ℕ) (r : Result Pick)
      → pick_sync p.sync c.sync ≡ ok sync
      → same_device p.identity c.identity ≡ true
      → Best c.formats p.blacklist c.blacklist p.formats r
      → Fits (and_then r (λ found. ok (same_device_scheme p c sync found)))
  unfolding same_device_scheme
  same_device-Fits sync (ok (f, (m, n))) s same h = (
    s,
    shared_of_agrees f m n p.blacklist c.blacklist (get ℕ_discrete f p.formats)
        (get ℕ_discrete f c.formats) h.agreed,
    same_device-PathFits sync (f, (m, n)) same,
  )
  same_device-Fits sync (err e) s same h = inr (h.0, subst NoCommon (sym same) h.1)

  cross_device-Fits :
      (sync : ℕ) (r : Result ℕ)
      → pick_sync p.sync c.sync ≡ ok sync
      → same_device p.identity c.identity ≡ false
      → OnlyShared p.formats c.formats p.blacklist c.blacklist r
      → Fits (and_then r (λ fourcc. ok (cross_device_scheme p c sync fourcc)))
  unfolding cross_device_scheme
  cross_device-Fits sync (ok f) s other h = (s, h, inl (refl, refl, refl))
  cross_device-Fits sync (err e) s other h = inr (h.0, subst NoCommon (sym other) h.1)

  abbrev with_sync : ℕ → Bool → Result NegotiatedScheme
  with_sync sync_mode same =
      if same
      then and_then (pick_format_same_device p.formats c.formats p.blacklist c.blacklist)
          (λ found. ok (same_device_scheme p c sync_mode found))
      else and_then (pick_fourcc_only p.formats c.formats p.blacklist c.blacklist)
          (λ fourcc. ok (cross_device_scheme p c sync_mode fourcc))

  with_sync-Fits :
      (sync : ℕ) (same : Bool)
      → Unique ℕ_discrete p.formats
      → pick_sync p.sync c.sync ≡ ok sync
      → same_device p.identity c.identity ≡ same
      → Fits (with_sync sync same)
  with_sync-Fits sync true u s e =
      same_device-Fits sync (pick_format_same_device p.formats c.formats p.blacklist c.blacklist) s
        e (pick_format_same_device-Best p.formats c.formats p.blacklist c.blacklist u)
  with_sync-Fits sync false u s e =
      cross_device-Fits sync (pick_fourcc_only p.formats c.formats p.blacklist c.blacklist) s e
        (pick_fourcc_only_lem c.formats p.blacklist c.blacklist p.formats)

  with_result :
      (r : Result ℕ)
      → Unique ℕ_discrete p.formats
      → pick_sync p.sync c.sync ≡ r
      → Fits (and_then r (λ sync. with_sync sync (same_device p.identity c.identity)))
  with_result (ok sync) u e = with_sync-Fits sync (same_device p.identity c.identity) u e refl
  with_result (err x) u e = inl e

-- The producer listing no fourcc twice, the scheme picked has a fourcc that both peers list, with a
-- modifier that neither refused for it, and the mode of `pick_sync`; it takes the optimised path
-- with native memory if its modifier is not linear, on one device, and the linear path with
-- linear memory otherwise. No scheme is picked only if no mode or no format is common.
pub pick-Fits : (p c : PeerCaps) → Unique ℕ_discrete p.formats → Fits p c (pick p c)
unfolding pick
pick-Fits p c u = with_result p c (pick_sync p.sync c.sync) u refl
