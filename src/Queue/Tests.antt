-- ===== src/Queue/Tests.antt =====
-- The tests of src/queue/state.rs, and the theorems at a round of five.
use wwe_modify.Base.{Option, none, some, List, [], ◌∷◌, ◌≡◌, refl, ◌↔◌}
use wwe_modify.Base.Lists.{length}
use wwe_modify.Base.Words.{ℤ, pos, eq_ℤ}
use wwe_modify.Base.Shuffle.{swap, shuffle}
use wwe_modify.Queue.Names.{from_str, from_str_iff}
use wwe_modify.Queue.Round.{IsRound, build_shuffle_round_total}
use wwe_modify.Queue.{
  mode_eq, sequential, shuffled, as_str, QueueState, set_mode, xorshift, build_shuffle_round,
}

program : Unit {0}
unfolding swap shuffle eq_ℤ xorshift mode_eq set_mode build_shuffle_round as_str from_str
program = tt

abbrev fresh : QueueState
fresh = record {
  mode = sequential;
  current = none;
  last_db_id = none;
  shuffle_round = [];
  shuffle_pos = 0;
  shuffle_seed = 42;
  rng = 0;
}

abbrev five : List ℤ
five = pos 1 ∷ pos 2 ∷ pos 3 ∷ pos 4 ∷ pos 5 ∷ []

abbrev round_of : Option QueueState → List ℤ
round_of none = []
round_of (some s) = s.shuffle_round

-- `shuffle_round_avoids_target_slot`.
round_of-five : length (round_of (build_shuffle_round 0 five (some (pos 3)) 0 fresh)) ≡ 5
unfolding program
round_of-five = refl

mode_resets :
    (set_mode shuffled (record fresh { shuffle_round = five; shuffle_pos = 2 })).shuffle_pos ≡ 0
unfolding program
mode_resets = refl

from_str_iff_example : (from_str "shuffle" ≡ some shuffled) ↔ ("shuffle" ≡ as_str shuffled)
from_str_iff_example = from_str_iff "shuffle" shuffled

build_shuffle_round_total_example :
    (u : QueueState) × (build_shuffle_round 0 five (some (pos 3)) 0 fresh ≡ some u)
    × IsRound five (some (pos 3)) 0 u
build_shuffle_round_total_example = build_shuffle_round_total 0 five (some (pos 3)) 0 fresh
