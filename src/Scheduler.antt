-- ===== src/Scheduler.antt =====
-- src/scheduler.rs: the displays, the pool of buffers that is shown, and for each frame in flight
-- the displays that still hold its buffer. A `HashSet` is a list that is read by its members.
pub mod Pending
pub mod Soundness
pub mod Binding
pub mod Frames
pub mod Fanout
pub mod Releases
pub mod Runs
mod Tests
use wwe_modify.Base.{
  ℕ, ◌+◌, ◌%◌, ◌^◌, String, Bool, true, false, not, Option, none, some, List, [], ◌∷◌, ℕ_discrete,
}
use wwe_modify.Base.Tests.{◌==◌, if◌then◌else◌, is_some}
use wwe_modify.Base.Lists.{contains, drop_all, is_empty}
use wwe_modify.Base.Map.{Map, keys, get, insert, remove, modify, map_values, retain_entries}
use wwe_modify.Base.Sorted.{sort}
use wwe_modify.Base.Words.{F32, f32_zero, f32_one}

abbrev pub DisplayId : Type 0
DisplayId = ℕ

pub record DisplayInfo : Type 0 where
  pub id : DisplayId
  pub name : String
  pub instance_id : Option String
  pub width : ℕ
  pub height : ℕ
  pub refresh_mhz : ℕ
  pub properties : List (String × String)
  pub bound : Bool

pub record ActiveBinding : Type 0 where
  pub renderer_id : String
  pub wp_type : String
  pub buffer_generation : ℕ
  pub tex_width : ℕ
  pub tex_height : ℕ

pub data ReleaseOutcome : Type 0 where
  still_in_flight all_released stale unknown : ReleaseOutcome

-- (buffer_generation, buffer_index, seq)
pub record FrameKey : Type 0 where
  pub generation : ℕ
  pub index : ℕ
  pub seq : ℕ

pub FrameKey-discrete : Discrete FrameKey
FrameKey-discrete = hlevel ℕ_discrete

pub record Scheduler : Type 0 where
  pub next_display_id : ℕ
  pub next_config_generation : ℕ
  pub displays : Map DisplayId DisplayInfo
  pub active : Option ActiveBinding
  pub pending : Map FrameKey (List DisplayId)

pub new : Scheduler
new = record {
  next_display_id = 0;
  next_config_generation = 0;
  displays = [];
  active = none;
  pending = [];
}

abbrev pub next_id : Scheduler → DisplayId
next_id s = (s.next_display_id + 1) % 2 ^ 64

pub new_display : DisplayId → String → ℕ → ℕ → ℕ → List (String × String) → Bool → DisplayInfo
new_display id name width height refresh_mhz properties bound = record {
  id = id;
  name = name;
  instance_id = none;
  width = width;
  height = height;
  refresh_mhz = refresh_mhz;
  properties = properties;
  bound = bound;
}

pub register_display :
    String → ℕ → ℕ → ℕ → List (String × String) → Scheduler → DisplayId × Scheduler
register_display name width height refresh_mhz properties s =
    let id = next_id s in
    let info = new_display id name width height refresh_mhz properties (is_some s.active) in
    (id, record s { next_display_id = id; displays = insert ℕ_discrete id info s.displays })

-- The `retain` of `unregister_display`: the display leaves every frame; a frame that nobody owes
-- any more is dropped and reported.
pub forget_display :
    DisplayId → Map FrameKey (List DisplayId) → List FrameKey × Map FrameKey (List DisplayId)
forget_display id [] = ([], [])
forget_display id ((key, owed) ∷ m) =
    let (freed, rest) = forget_display id m in
    let owed' = drop_all id owed in
    if is_empty owed' then (key ∷ freed, rest) else (freed, (key, owed') ∷ rest)

pub unregister_display : DisplayId → Scheduler → List FrameKey × Scheduler
unregister_display id s =
    let (freed, pending) = forget_display id s.pending in
    (freed, record s { displays = remove ℕ_discrete id s.displays; pending = pending })

pub get_display : DisplayId → Scheduler → Option DisplayInfo
get_display id s = get ℕ_discrete id s.displays

pub update_display_size : DisplayId → ℕ → ℕ → Scheduler → Scheduler
update_display_size id width height s = record s {
  displays = modify ℕ_discrete id (λ d. record d { width = width; height = height }) s.displays;
}

abbrev pub set_bound : Bool → DisplayInfo → DisplayInfo
set_bound b d = record d { bound = b }

-- A new generation retires the frames of the pools before it.
pub retire :
    Option ActiveBinding → ℕ → Map FrameKey (List DisplayId) → Map FrameKey (List DisplayId)
retire none generation m = m
retire (some old) generation m =
    if old.buffer_generation == generation
    then m
    else retain_entries (λ key owed. key.generation == generation) m

pub set_active_binding : ActiveBinding → Scheduler → List DisplayId × Scheduler
set_active_binding binding s = (
  sort (keys s.displays),
  record s {
    pending = retire s.active binding.buffer_generation s.pending;
    active = some binding;
    displays = map_values (set_bound true) s.displays;
  },
)

pub clear_active_binding : Scheduler → List DisplayId × Scheduler
clear_active_binding s = (
  sort (keys s.displays),
  record s { active = none; pending = []; displays = map_values (set_bound false) s.displays },
)

pub record ProjectedConfig : Type 0 where
  pub config_generation : ℕ
  pub source_x : F32
  pub source_y : F32
  pub source_w : F32
  pub source_h : F32
  pub dest_x : F32
  pub dest_y : F32
  pub dest_w : F32
  pub dest_h : F32
  pub transform : ℕ
  pub clear_rgba : F32 × F32 × F32 × F32

-- `as_f32` is the conversion `as f32` of a `u32`.
pub project_config : (ℕ → F32) → DisplayId → Scheduler → Option ProjectedConfig × Scheduler
project_config as_f32 display_id s = elim s.active [
  | none ↦ (none, s)
  | some active ↦ elim (get ℕ_discrete display_id s.displays) [
    | none ↦ (none, s)
    | some disp ↦
        let generation = (s.next_config_generation + 1) % 2 ^ 64 in
        (
          some (record {
            config_generation = generation;
            source_x = f32_zero;
            source_y = f32_zero;
            source_w = as_f32 active.tex_width;
            source_h = as_f32 active.tex_height;
            dest_x = f32_zero;
            dest_y = f32_zero;
            dest_w = as_f32 disp.width;
            dest_h = as_f32 disp.height;
            transform = 0;
            clear_rgba = (f32_zero, f32_zero, f32_zero, f32_one);
          }),
          record s { next_config_generation = generation },
        )
  ]
]

-- `filter(|(_, d)| d.bound)`, and the keys.
pub bound_ids : Map DisplayId DisplayInfo → List DisplayId
bound_ids [] = []
bound_ids ((id, d) ∷ m) = let rest = bound_ids m in if d.bound then id ∷ rest else rest

pub begin_bound : Option ActiveBinding → FrameKey → Scheduler → List DisplayId × Scheduler
begin_bound none key s = ([], s)
begin_bound (some active) key s =
    let bound = bound_ids s.displays in
    if active.buffer_generation == key.generation
    then (if is_empty bound
        then ([], s)
        else (sort bound, record s { pending = insert FrameKey-discrete key bound s.pending }))
    else ([], s)

abbrev pub frame : ℕ → ℕ → ℕ → FrameKey
frame generation index seq = record { generation = generation; index = index; seq = seq }

pub begin_frame : ℕ → ℕ → ℕ → Scheduler → List DisplayId × Scheduler
unfolding begin_bound
begin_frame generation index seq s = begin_bound s.active (frame generation index seq) s

-- The part of `release_frame` behind the check of the generation.
pub release_owed :
    DisplayId → FrameKey → Option (List DisplayId) → Scheduler → ReleaseOutcome × Scheduler
release_owed id key none s = (unknown, s)
release_owed id key (some owed) s =
    let owed' = drop_all id owed in
    if contains id owed
    then (if is_empty owed'
        then (all_released, record s { pending = remove FrameKey-discrete key s.pending })
        else (still_in_flight, record s { pending = insert FrameKey-discrete key owed' s.pending }))
    else (unknown, s)

-- The check of the generation: a frame of another pool is stale.
pub release_checked :
    Option ActiveBinding → DisplayId → FrameKey → Scheduler → ReleaseOutcome × Scheduler
unfolding release_owed
release_checked none id key s = (stale, s)
release_checked (some active) id key s =
    if active.buffer_generation == key.generation
    then release_owed id key (get FrameKey-discrete key s.pending) s
    else (stale, s)

pub release_frame : DisplayId → ℕ → ℕ → ℕ → Scheduler → ReleaseOutcome × Scheduler
unfolding release_checked
release_frame id generation index seq s = release_checked s.active id (frame generation index seq) s
