-- ===== src/Queue.antt =====
-- src/queue/state.rs: the order in which wallpapers rotate. `none` is a panic. Ids are `i64`; a
-- `Vec` has fewer than 2^63 entries, so that sums of positions do not overflow.
pub mod Names
pub mod Round
mod Tests
use wwe_modify.Base.{
  ℕ, ◌+◌, ◌-◌, ◌*◌, ◌/◌, ◌%◌, ◌^◌, String, bit_xor, Bool, true, false, ◌&&◌, Option, none, some,
  List, [], ◌∷◌,
}
use wwe_modify.Base.Tests.{◌==◌, ltb, leb, if◌then◌else◌}
use wwe_modify.Base.Lists.{length, get_elem?}
use wwe_modify.Base.Words.{ℤ, eq_ℤ}
use wwe_modify.Base.Shuffle.{swap, shuffle, ◌>>=◌}

pub data Mode : Type 0 where
  sequential shuffled random : Mode

pub mode_eq : Mode → Mode → Bool
mode_eq sequential sequential = true
mode_eq shuffled shuffled = true
mode_eq random random = true
mode_eq _ _ = false

unfoldable pub as_str : Mode → String
as_str sequential = "sequential"
as_str shuffled = "shuffle"
as_str random = "random"

pub record QueueState : Type 0 where
  pub mode : Mode
  pub current : Option String
  pub last_db_id : Option ℤ
  pub shuffle_round : List ℤ
  pub shuffle_pos : ℕ
  pub shuffle_seed : ℕ
  pub rng : ℕ

pub set_mode : Mode → QueueState → QueueState
set_mode mode s =
    if mode_eq mode s.mode then s else record s { mode = mode; shuffle_round = []; shuffle_pos = 0 }

pub reset_shuffle_round : QueueState → QueueState
reset_shuffle_round s = record s { shuffle_round = []; shuffle_pos = 0 }

-- `0xdead_beef_cafe_babe`.
abbrev pub fallback_seed : ℕ
fallback_seed = 0xdeadbeefcafebabe

-- One round of xorshift64: a left shift drops the bits beyond 64.
unfoldable pub xorshift : ℕ → ℕ
xorshift x =
    let a = bit_xor x (x * 2 ^ 13 % 2 ^ 64) in
    let b = bit_xor a (a / 2 ^ 7) in bit_xor b (b * 2 ^ 17 % 2 ^ 64)

-- The state that `rng_next` starts from; `now` is the system time in nanoseconds, 0 if it fails.
pub seeded : ℕ → QueueState → ℕ
seeded now s =
    let seed = if s.shuffle_seed == 0 then now % 2 ^ 64 else s.shuffle_seed in
    if s.rng == 0 then (if seed == 0 then fallback_seed else seed) else s.rng

pub rng_next : ℕ → QueueState → ℕ × QueueState
unfolding seeded
rng_next now s = let x = xorshift (seeded now s) in (x, record s { rng = x })

-- The argument is a `u32`.
pub rng_range : ℕ → QueueState → ℕ → ℕ × QueueState
unfolding rng_next
rng_range now s n =
    let drawn = rng_next now s in if n == 0 then (0, s) else (drawn.0 % n % 2 ^ 32, drawn.1)

-- `self.rng_range((i + 1) as u32)`.
pub draw : ℕ → QueueState → ℕ → ℕ × QueueState
unfolding rng_range
draw now s i = rng_range now s ((i + 1) % 2 ^ 32)

pub is_avoided : Option ℤ → Option ℤ → Bool
is_avoided (some a) (some b) = eq_ℤ a b
is_avoided _ _ = false

-- The drawn index, with the place at `target_pos` left out.
pub alternative : ℕ → ℕ → ℕ
alternative target_pos raw = if leb target_pos raw then raw + 1 else raw

pub swap_away : ℕ → ℕ → List ℤ → QueueState → Option QueueState
unfolding alternative
swap_away now target_pos round s =
    let (raw, s') = rng_range now s ((length round - 1) % 2 ^ 32) in
    swap target_pos (alternative target_pos raw) round >>= λ round'.
    some (record s' { shuffle_round = round' })

-- The second half of `build_shuffle_round`: another entry takes the place at `target_pos`.
pub avoid_target : ℕ → Option ℤ → ℕ → List ℤ → QueueState → Option QueueState
unfolding is_avoided swap_away
avoid_target now avoid target_pos round s =
    if ltb 1 (length round) && is_avoided (get_elem? round target_pos) avoid
    then swap_away now target_pos round s
    else some (record s { shuffle_round = round })

-- The state between the two halves holds no round yet: nothing reads it there.
pub build_shuffle_round : ℕ → List ℤ → Option ℤ → ℕ → QueueState → Option QueueState
unfolding draw avoid_target
build_shuffle_round now candidates avoid target_pos s = do
  (round, s') ← shuffle (draw now) (length candidates - 1) s candidates
  avoid_target now avoid target_pos round s'
