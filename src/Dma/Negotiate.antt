-- ===== src/Dma/Negotiate.antt =====
-- src/dma/negotiate.rs. A `BTreeMap` is the list of its entries, a `HashSet` a list. The text dumps
-- (fourcc_str, hex_uuid, log_dump) are not modelled. The outer `none` of `unflatten_caps` is a panic.
pub mod Modifiers
pub mod Lowest
pub mod Format
pub mod Scheme
pub mod Unflatten
mod Tests
use wwe_modify.Base.{
  ℕ, zero, suc, ◌+◌, ◌-◌, ◌/◌, ◌%◌, ◌^◌, bit_and, bit_or, String, Bool, true, false, not, ◌&&◌,
  ◌||◌, Option, none, some, List, [], ◌∷◌, ◌++◌, ℕ_discrete,
}
use wwe_modify.Base.Tests.{◌==◌, ltb, if◌then◌else◌, is_some}
use wwe_modify.Base.Lists.{length, get_elem?, take, drop}
use wwe_modify.Base.Shuffle.{◌>>=◌}
use wwe_modify.Base.Map.{Map, get}

pub record ModCap : Type 0 where
  pub modifier : ℕ
  pub plane_count : ℕ

abbrev pub FormatCaps : Type 0
FormatCaps = Map ℕ (List ModCap)

pub record DrmNode : Type 0 where
  pub major : ℕ
  pub minor : ℕ

pub is_known : DrmNode → Bool
is_known d = not (d.major == 0) || not (d.minor == 0)

pub drm_eq : DrmNode → DrmNode → Bool
drm_eq a b = a.major == b.major && a.minor == b.minor

-- Equality of byte arrays.
pub bytes_eq : List ℕ → List ℕ → Bool
bytes_eq [] [] = true
bytes_eq (a ∷ us) (b ∷ vs) = a == b && bytes_eq us vs
bytes_eq _ _ = false

abbrev pub zero_uuid : List ℕ
zero_uuid = 0 ∷ 0 ∷ 0 ∷ 0 ∷ 0 ∷ 0 ∷ 0 ∷ 0 ∷ 0 ∷ 0 ∷ 0 ∷ 0 ∷ 0 ∷ 0 ∷ 0 ∷ 0 ∷ []

pub record DeviceIdentity : Type 0 where
  pub device_uuid : List ℕ
  pub driver_uuid : List ℕ
  pub drm : DrmNode

pub same_device : DeviceIdentity → DeviceIdentity → Bool
unfolding bytes_eq is_known drm_eq
same_device a b =
    if not (bytes_eq a.device_uuid zero_uuid) && not (bytes_eq b.device_uuid zero_uuid)
    then bytes_eq a.device_uuid b.device_uuid
    else if is_known a.drm && is_known b.drm
    then drm_eq a.drm b.drm
    else false

abbrev pub Blacklist : Type 0
Blacklist = List (ℕ × ℕ)

pub blacklisted : ℕ → ℕ → Blacklist → Bool
blacklisted fourcc modifier [] = false
blacklisted fourcc modifier ((f, m) ∷ bl) =
    (f == fourcc && m == modifier) || blacklisted fourcc modifier bl

pub record PeerCaps : Type 0 where
  pub formats : FormatCaps
  pub identity : DeviceIdentity
  pub sync : ℕ
  pub color : ℕ
  pub mem_hint : ℕ
  pub extent_max : ℕ × ℕ
  pub blacklist : Blacklist

pub data PathCategory : Type 0 where
  optimized_same_device : PathCategory
  optimized_same_vendor : PathCategory
  compat_linear : PathCategory
  compat_cpu_readback : PathCategory

pub data MemSource : Type 0 where
  gpu_native : MemSource
  gpu_linear : MemSource
  dmabuf_heap : MemSource

pub record NegotiatedScheme : Type 0 where
  pub fourcc : ℕ
  pub modifier : ℕ
  pub plane_count : ℕ
  pub sync_mode : ℕ
  pub color : ℕ
  pub mem_hint : ℕ
  pub count : ℕ
  pub path : PathCategory
  pub mem_source : MemSource

pub data NegotiateError : Type 0 where
  no_format_intersection : NegotiateError
  no_sync_intersection : NegotiateError
  malformed_caps : String → NegotiateError

pub data Result {ℓ} (A : Type ℓ) : Type ℓ where
  ok : A → Result A
  err : NegotiateError → Result A

abbrev pub and_then {ℓ κ} : {A : Type ℓ} {B : Type κ} → Result A → (A → Result B) → Result B
and_then (ok a) f = f a
and_then (err e) f = err e

abbrev pub drm_format_mod_linear : ℕ
drm_format_mod_linear = 0

abbrev pub sync_implicit : ℕ
sync_implicit = 1

abbrev pub sync_syncobj_binary : ℕ
sync_syncobj_binary = 2

abbrev pub sync_syncobj_timeline : ℕ
sync_syncobj_timeline = 4

abbrev pub mem_hint_device_local : ℕ
mem_hint_device_local = 1

abbrev pub mem_hint_host_visible : ℕ
mem_hint_host_visible = 2

-- COLOR_ENC_SRGB | COLOR_RANGE_LIMITED | COLOR_ALPHA_PREMUL.
abbrev pub default_color : ℕ
default_color = 1 + 64 + 128

abbrev pub color_mask_encoding : ℕ
color_mask_encoding = 1 + 2 + 4 + 8 + 16

abbrev pub color_mask_range : ℕ
color_mask_range = 32 + 64

abbrev pub color_mask_alpha : ℕ
color_mask_alpha = 128 + 256

abbrev pub default_pool_count : ℕ
default_pool_count = 3

pub pick_sync : ℕ → ℕ → Result ℕ
pick_sync producer consumer =
    let common = bit_and producer consumer in
    if common == 0
    then err no_sync_intersection
    else if not (bit_and common sync_syncobj_timeline == 0)
    then ok sync_syncobj_timeline
    else if not (bit_and common sync_syncobj_binary == 0)
    then ok sync_syncobj_binary
    else ok sync_implicit

-- `common & common.wrapping_neg()`, on 32 bits.
pub lowest_bit : ℕ → ℕ
lowest_bit common = bit_and common ((2 ^ 32 - common) % 2 ^ 32)

pub pick_axis : ℕ → ℕ → ℕ
unfolding lowest_bit
pick_axis intersect mask =
    let common = bit_and intersect mask in
    if not (common == 0) then lowest_bit common else bit_and default_color mask

pub pick_color : ℕ → ℕ → ℕ
unfolding pick_axis
pick_color producer consumer =
    let intersect = bit_and producer consumer in
    bit_or (bit_or (pick_axis intersect color_mask_encoding) (pick_axis intersect color_mask_range))
      (pick_axis intersect color_mask_alpha)

pub pick_mem_hint_same_dev : ℕ → ℕ → ℕ
pick_mem_hint_same_dev producer consumer =
    let common = bit_and producer consumer in
    if not (bit_and common mem_hint_device_local == 0)
    then mem_hint_device_local
    else if not (bit_and common mem_hint_host_visible == 0)
    then mem_hint_host_visible
    else if not (common == 0)
    then common
    else mem_hint_host_visible

-- The inner loop over the consumer's modifiers: does it push?
pub matches_mod : ℕ → Blacklist → ModCap → List ModCap → Bool
unfolding blacklisted
matches_mod fourcc c_blacklist pc [] = false
matches_mod fourcc c_blacklist pc (cc ∷ c_mods) =
    let rest = matches_mod fourcc c_blacklist pc c_mods in
    if blacklisted fourcc cc.modifier c_blacklist
    then rest
    else if pc.modifier == cc.modifier
    then (if not (pc.plane_count == cc.plane_count) then rest else true)
    else rest

pub intersect_mods : ℕ → Blacklist → Blacklist → List ModCap → List ModCap → List (ℕ × ℕ)
unfolding matches_mod
intersect_mods fourcc p_blacklist c_blacklist [] c_mods = []
intersect_mods fourcc p_blacklist c_blacklist (pc ∷ p_mods) c_mods =
    let rest = intersect_mods fourcc p_blacklist c_blacklist p_mods c_mods in
    if blacklisted fourcc pc.modifier p_blacklist
    then rest
    else if matches_mod fourcc c_blacklist pc c_mods
    then (pc.modifier, pc.plane_count) ∷ rest
    else rest

-- `iter().find(|(m, _)| ...)`, of the modifiers that are linear or those that are not.
pub find_mod : Bool → List (ℕ × ℕ) → Option (ℕ × ℕ)
find_mod linear [] = none
find_mod linear ((m, n) ∷ rest) =
    let later = find_mod linear rest in
    if (if linear then m == drm_format_mod_linear else not (m == drm_format_mod_linear))
    then some (m, n)
    else later

-- A fourcc, a modifier and a number of planes.
abbrev pub Pick : Type 0
Pick = ℕ × (ℕ × ℕ)

-- The pick is kept if there is none yet, or one of a higher fourcc.
pub keep_lower : Pick → Option Pick → Option Pick
keep_lower new none = some new
keep_lower new (some prev) = if ltb new.0 prev.0 then some new else some prev

pub visit_common :
    ℕ → Option (ℕ × ℕ) → Option (ℕ × ℕ) → Option Pick × Option Pick → Option Pick × Option Pick
unfolding keep_lower
visit_common fourcc (some found) linear (best, fallback) =
    (keep_lower (fourcc, found) best, fallback)
visit_common fourcc none (some (_, n)) (best, fallback) =
    (best, keep_lower (fourcc, (drm_format_mod_linear, n)) fallback)
visit_common fourcc none none acc = acc

pub visit :
    Blacklist
    → Blacklist
    → ℕ
    → List ModCap
    → Option (List ModCap)
    → Option Pick × Option Pick
    → Option Pick × Option Pick
unfolding visit_common find_mod intersect_mods
visit p_blacklist c_blacklist fourcc p_mods none acc = acc
visit p_blacklist c_blacklist fourcc p_mods (some c_mods) acc =
    let common = intersect_mods fourcc p_blacklist c_blacklist p_mods c_mods in
    visit_common fourcc (find_mod false common) (find_mod true common) acc

pub scan :
    FormatCaps
    → Blacklist
    → Blacklist
    → FormatCaps
    → Option Pick × Option Pick
    → Option Pick × Option Pick
unfolding visit get
scan consumer p_blacklist c_blacklist [] acc = acc
scan consumer p_blacklist c_blacklist ((fourcc, p_mods) ∷ producer) acc =
    scan consumer p_blacklist c_blacklist producer
      (visit p_blacklist c_blacklist fourcc p_mods (get ℕ_discrete fourcc consumer) acc)

-- `best_non_linear.or(linear_fallback).ok_or(...)`.
abbrev pub choose : Option Pick × Option Pick → Result Pick
choose (some best, fallback) = ok best
choose (none, some fallback) = ok fallback
choose (none, none) = err no_format_intersection

pub pick_format_same_device : FormatCaps → FormatCaps → Blacklist → Blacklist → Result Pick
unfolding scan
pick_format_same_device producer consumer p_blacklist c_blacklist =
    choose (scan consumer p_blacklist c_blacklist producer (none, none))

pub pick_fourcc_only : FormatCaps → FormatCaps → Blacklist → Blacklist → Result ℕ
unfolding blacklisted get
pick_fourcc_only [] consumer p_blacklist c_blacklist = err no_format_intersection
pick_fourcc_only ((fourcc, _) ∷ producer) consumer p_blacklist c_blacklist =
    let rest = pick_fourcc_only producer consumer p_blacklist c_blacklist in
    if not (is_some (get ℕ_discrete fourcc consumer))
    then rest
    else if blacklisted fourcc drm_format_mod_linear p_blacklist
    then rest
    else if blacklisted fourcc drm_format_mod_linear c_blacklist
    then rest
    else ok fourcc

pub same_device_scheme : PeerCaps → PeerCaps → ℕ → Pick → NegotiatedScheme
unfolding pick_color pick_mem_hint_same_dev
same_device_scheme producer consumer sync_mode (fourcc, (modifier, plane_count)) = record {
  fourcc = fourcc;
  modifier = modifier;
  plane_count = plane_count;
  sync_mode = sync_mode;
  color = pick_color producer.color consumer.color;
  mem_hint = pick_mem_hint_same_dev producer.mem_hint consumer.mem_hint;
  count = default_pool_count;
  path = if modifier == drm_format_mod_linear then compat_linear else optimized_same_device;
  mem_source = if modifier == drm_format_mod_linear then gpu_linear else gpu_native;
}

pub cross_device_scheme : PeerCaps → PeerCaps → ℕ → ℕ → NegotiatedScheme
unfolding pick_color
cross_device_scheme producer consumer sync_mode fourcc = record {
  fourcc = fourcc;
  modifier = drm_format_mod_linear;
  plane_count = 1;
  sync_mode = sync_mode;
  color = pick_color producer.color consumer.color;
  mem_hint = 0;
  count = default_pool_count;
  path = compat_linear;
  mem_source = gpu_linear;
}

pub pick : PeerCaps → PeerCaps → Result NegotiatedScheme
unfolding same_device pick_sync pick_format_same_device pick_fourcc_only same_device_scheme
    cross_device_scheme
pick producer consumer = and_then (pick_sync producer.sync consumer.sync) (λ sync_mode.
    if same_device producer.identity consumer.identity
    then and_then
        (pick_format_same_device producer.formats consumer.formats producer.blacklist
          consumer.blacklist)
        (λ found. ok (same_device_scheme producer consumer sync_mode found))
    else and_then
        (pick_fourcc_only producer.formats consumer.formats producer.blacklist consumer.blacklist)
        (λ fourcc. ok (cross_device_scheme producer consumer sync_mode fourcc)))

-- Four little-endian words as sixteen bytes.
abbrev pub le_bytes : ℕ → List ℕ
le_bytes w = w % 2 ^ 8 ∷ w / 2 ^ 8 % 2 ^ 8 ∷ w / 2 ^ 16 % 2 ^ 8 ∷ w / 2 ^ 24 % 2 ^ 8 ∷ []

abbrev pub all_bytes : List ℕ → List ℕ
all_bytes [] = []
all_bytes (w ∷ ws) = le_bytes w ++ all_bytes ws

-- `out` starts as sixteen zeros, and at most four words are written.
pub pack_uuid_words : List ℕ → List ℕ
pack_uuid_words words =
    all_bytes (take 4 words) ++ drop (length (all_bytes (take 4 words))) zero_uuid

-- The sum of the counts as `usize`, of 64 bits, which wraps in a release build.
pub sum : List ℕ → ℕ
sum [] = 0
sum (n ∷ ns) = (n + sum ns) % 2 ^ 64

-- The inner loop: `n` entries from `cursor` on. The index is out of range on a `none`.
pub caps_at : List ℕ → List ℕ → ℕ → ℕ → Option (List ModCap)
caps_at modifiers plane_counts cursor zero = some []
caps_at modifiers plane_counts cursor (suc n) = do
  m ← get_elem? modifiers cursor
  p ← get_elem? plane_counts cursor
  rest ← caps_at modifiers plane_counts (suc cursor) n
  some (record { modifier = m; plane_count = p } ∷ rest)

-- `entry(fourcc).or_default().extend(caps)`, in the order of the keys.
pub extend_entry : ℕ → List ModCap → FormatCaps → FormatCaps
extend_entry fourcc caps [] = (fourcc, caps) ∷ []
extend_entry fourcc caps ((f, old) ∷ rest) =
    let later = extend_entry fourcc caps rest in
    if f == fourcc
    then (f, old ++ caps) ∷ rest
    else if ltb fourcc f
    then (fourcc, caps) ∷ (f, old) ∷ rest
    else (f, old) ∷ later

-- The loop over the fourccs and, beside them, their counts.
pub unflatten_loop : List ℕ → List ℕ → ℕ → List ℕ → List ℕ → FormatCaps → Option FormatCaps
unfolding caps_at extend_entry
unflatten_loop modifiers plane_counts cursor [] mod_counts acc = some acc
unflatten_loop modifiers plane_counts cursor (fourcc ∷ fourccs) [] acc = none
unflatten_loop modifiers plane_counts cursor (fourcc ∷ fourccs) (n ∷ mod_counts) acc = do
  caps ← caps_at modifiers plane_counts cursor n
  unflatten_loop modifiers plane_counts (cursor + n) fourccs mod_counts
      (extend_entry fourcc caps acc)

-- The arguments of `unflatten_caps`.
pub record WireCaps : Type 0 where
  pub fourccs : List ℕ
  pub mod_counts : List ℕ
  pub modifiers : List ℕ
  pub plane_counts : List ℕ
  pub device_uuid : List ℕ
  pub driver_uuid : List ℕ
  pub drm : DrmNode
  pub sync : ℕ
  pub color : ℕ
  pub mem_hint : ℕ
  pub extent_max : ℕ × ℕ

pub peer_caps : WireCaps → FormatCaps → PeerCaps
unfolding pack_uuid_words
peer_caps w by_fourcc = record {
  formats = by_fourcc;
  identity = record {
    device_uuid = pack_uuid_words w.device_uuid;
    driver_uuid = pack_uuid_words w.driver_uuid;
    drm = w.drm;
  };
  sync = w.sync;
  color = w.color;
  mem_hint = w.mem_hint;
  extent_max = w.extent_max;
  blacklist = [];
}

pub unflatten_caps : WireCaps → Option (Result PeerCaps)
unfolding unflatten_loop sum peer_caps
unflatten_caps w =
    let decoded =
      unflatten_loop w.modifiers w.plane_counts 0 w.fourccs w.mod_counts [] >>= λ by_fourcc.
      some (ok (peer_caps w by_fourcc)) in
    if not (length w.fourccs == length w.mod_counts)
    then some (err (malformed_caps "fourccs.len() != mod_counts.len()"))
    else if not (length w.modifiers == sum w.mod_counts)
    then some (err (malformed_caps "modifiers.len() != sum(mod_counts)"))
    else if not (length w.plane_counts == sum w.mod_counts)
    then some (err (malformed_caps "plane_counts.len() != sum(mod_counts)"))
    else if not (length w.device_uuid == 4) || not (length w.driver_uuid == 4)
    then some (err (malformed_caps "device_uuid/driver_uuid must be 4×u32 (16 bytes packed LE)"))
    else decoded
