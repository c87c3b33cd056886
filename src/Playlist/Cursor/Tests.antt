-- ===== src/Playlist/Cursor/Tests.antt =====
-- The tests of src/playlist/cursor.rs, and the theorems at a playlist of three items.
use wwe_modify.Base.{
  String, true, false, Option, none, some, List, [], ◌∷◌, ◌≡◌, ◌≢◌, refl, map, Perm, arith,
}
use mathlib.Core.List.{Mem, Nodup, Nodup-cons, Nodup-nil, mem-cons, not-mem-nil}
use mathlib.Core.Logic.Or
use text.Mathlib.Text.{◌==◌ as str_eq}
use text.Mathlib.TextEquality.{eq_iff}
use wwe_modify.Base.Tests.{str_discrete}
use wwe_modify.Base.Words.{pos, negsuc, rem_euclid, eq_ℤ}
use wwe_modify.Base.Shuffle.{swap, shuffle}
use wwe_modify.Queue.{Mode, sequential, shuffled, random, xorshift}
use wwe_modify.Playlist.Cursor.Order.{IsValid}
use wwe_modify.Playlist.Cursor.Next.{Plays, next-Plays}
use wwe_modify.Playlist.Cursor.Random.{next_random-ne_current}
use wwe_modify.Playlist.Cursor.Cycle.{play_from_first, play_from_first-perm}
use wwe_modify.Playlist.Cursor.{PlaylistCursor, next, first, set_current}

program : Unit {0}
unfolding swap shuffle rem_euclid eq_ℤ xorshift str_discrete next first set_current play_from_first
program = tt

abbrev three : List String
three = "a" ∷ "b" ∷ "c" ∷ []

abbrev cursor : Mode → PlaylistCursor
cursor mode = record {
  items = three;
  mode = mode;
  pos = 0;
  order = [];
  order_pos = 0;
  rng = 42;
  current = none;
}

abbrev answer : Option (Option String × PlaylistCursor) → Option String
answer none = none
answer (some (id, _)) = id

cursor-IsValid : (mode : Mode) → IsValid (cursor mode)
cursor-IsValid mode e = absurd (omega arith)

wraps_backwards : answer (next (negsuc 0) (cursor sequential)) ≡ some "c"
unfolding program
wraps_backwards = refl

next-Plays_example : Plays (cursor random) (next (pos 1) (cursor random))
next-Plays_example =
    next-Plays (pos 1) (cursor random) (omega arith) (omega arith) (cursor-IsValid random)

abbrev playing_b : PlaylistCursor
playing_b = record (cursor random) { current = some "b" }

abbrev playing_c : PlaylistCursor
playing_c = record playing_b { rng = 45454805674; pos = 2; current = some "c" }

-- The draw is "b" again, so that "c" is played.
skips_b : next (pos 1) playing_b ≡ some (some "c", playing_c)
unfolding program
skips_b = refl

ne_text : (x y : String) → (str_eq x y) ≡ false → x ≢ y
ne_text x y h e = differ ((eq_iff x y).1 e)
  where
    differ : (str_eq x y) ≡ true → ⊥
    differ p = cc

not_mem_cons : (x y : String) (ys : List String) → x ≢ y → ¬ Mem x ys → ¬ Mem x (y ∷ ys)
not_mem_cons x y ys ne n m = Or.elim (λ a b. absurd a) (mem-cons.0 m) ne n

three-Nodup : Nodup three
three-Nodup = Nodup-cons.1 (
  not_mem_cons "a" "b" ("c" ∷ []) (ne_text "a" "b" refl)
      (not_mem_cons "a" "c" [] (ne_text "a" "c" refl) not-mem-nil),
  Nodup-cons.1 (
    not_mem_cons "b" "c" [] (ne_text "b" "c" refl) not-mem-nil,
    Nodup-cons.1 (not-mem-nil, Nodup-nil),
  ),
)

next_random-ne_current_example : playing_b.current ≢ some "c"
next_random-ne_current_example =
    next_random-ne_current (pos 1) playing_b playing_c "c" refl (omega arith) three-Nodup skips_b

play_from_first-perm_example :
    (answers : List (Option String)) × (d : PlaylistCursor) × (play_from_first 2 (cursor shuffled)
      ≡ some (answers, d))
    × Perm answers (map some three)
play_from_first-perm_example =
    play_from_first-perm 2 (cursor shuffled) refl (cursor-IsValid shuffled) refl (omega arith)
