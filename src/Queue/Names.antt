-- ===== src/Queue/Names.antt =====
-- The names of the modes.
use wwe_modify.Base.{String, Option, none, some, ◌≡◌, refl, ◌↔◌, arith}
use wwe_modify.Base.Tests.{if◌then◌else◌}
use text.Mathlib.Text.{◌==◌ as str_eq}
use text.Mathlib.TextEquality.{eq_iff}
use wwe_modify.Queue.{Mode, sequential, shuffled, random, as_str}

unfoldable pub from_str : String → Option Mode
from_str s =
    if str_eq s "sequential"
    then some sequential
    else if str_eq s "shuffle"
    then some shuffled
    else if str_eq s "random"
    then some random
    else none

from_str_sound : (s : String) (m : Mode) → from_str s ≡ some m → s ≡ as_str m
unfolding from_str as_str
from_str_sound s sequential e =
    ground (arith, eq_iff s "sequential", eq_iff s "shuffle", eq_iff s "random")
from_str_sound s shuffled e =
    ground (arith, eq_iff s "sequential", eq_iff s "shuffle", eq_iff s "random")
from_str_sound s random e =
    ground (arith, eq_iff s "sequential", eq_iff s "shuffle", eq_iff s "random")

from_str-as_str : (m : Mode) → from_str (as_str m) ≡ some m
unfolding from_str as_str
from_str-as_str sequential = refl
from_str-as_str shuffled = refl
from_str-as_str random = refl

-- A text names a mode exactly if it is that mode's name; every other text is refused.
pub from_str_iff : (s : String) (m : Mode) → (from_str s ≡ some m) ↔ (s ≡ as_str m)
from_str_iff s m = (from_str_sound s m, λ e. rw e (from_str-as_str m))
