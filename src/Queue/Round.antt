-- ===== src/Queue/Round.antt =====
-- A fresh round of a shuffle.
use wwe_modify.Base.{
  ℕ, ◌+◌, ◌-◌, ◌%◌, ◌^◌, ◌≤◌, ◌<◌, true, false, ◌&&◌, Option, none, some, List, [], ◌∷◌, ◌≡◌, ◌≢◌,
  refl, ◌∙◌, sym, ap, ◌⊎◌, inl, inr, arith, Perm,
}
use mathlib.Core.List.Perm
use mathlib.Core.List.{Nodup}
use wwe_modify.Base.Tests.{ltb, Bool-cases}
use wwe_modify.Base.Lists.{length, get_elem?}
use wwe_modify.Base.Words.{ℤ, pos, negsuc, eq_ℤ, eq_ℤ_refl}
use wwe_modify.Base.Shuffle.{swap_lem, shuffle_lem, get_elem?-injective, lt-length}
use wwe_modify.Queue.{
  QueueState, rng_range, draw, is_avoided, alternative, swap_away, avoid_target,
  build_shuffle_round,
}

eq_ℤ_sound : (a b : ℤ) → eq_ℤ a b ≡ true → a ≡ b
unfolding eq_ℤ
eq_ℤ_sound (pos a) (pos b) e = ground arith
eq_ℤ_sound (negsuc a) (negsuc b) e = ground arith
eq_ℤ_sound (pos a) (negsuc b) e = cc
eq_ℤ_sound (negsuc a) (pos b) e = cc

pub rng_range-lt : (now : ℕ) (s : QueueState) (n : ℕ) → 0 < n → (rng_range now s n).0 < n
unfolding rng_range
rng_range-lt now s n h = ground arith

draw-le : (now : ℕ) (s : QueueState) (i : ℕ) → (draw now s i).0 ≤ i
unfolding draw rng_range
draw-le now s i = ground arith

-- What `build_shuffle_round` promises of the new round.
pub record IsRound (candidates : List ℤ) (avoid : Option ℤ) (target_pos : ℕ) (s : QueueState)
    : Type 0 where
  pub perm : Perm s.shuffle_round candidates
  pub avoids :
      (a : ℤ)
      → avoid ≡ some a
      → 1 < length candidates
      → Nodup candidates
      → get_elem? s.shuffle_round target_pos ≢ some a

is_avoided_iff :
    (round : List ℤ) (i : ℕ) (a : ℤ)
    → is_avoided (get_elem? round i) (some a) ≡ false
    → get_elem? round i ≢ some a
unfolding is_avoided
is_avoided_iff round i a h e = ground (arith, eq_ℤ_refl a)

is_avoided_sound :
    (o avoid : Option ℤ) → is_avoided o avoid ≡ true → (a : ℤ) × (o ≡ some a) × (avoid ≡ some a)
unfolding is_avoided
is_avoided_sound none avoid h = absurd (cc)
is_avoided_sound (some a) none h = absurd (cc)
is_avoided_sound (some a) (some b) h = (a, refl, ap some (sym (eq_ℤ_sound a b h)))

alternative-ne : (t raw : ℕ) → t ≢ alternative t raw
unfolding alternative
alternative-ne t raw e = ground arith

alternative-lt : (t raw n : ℕ) → raw + 1 < n → alternative t raw < n
unfolding alternative
alternative-lt t raw n h = ground arith

raw-lt : (now : ℕ) (s : QueueState) (n : ℕ) → 1 < n → (rng_range now s ((n - 1) % 2 ^ 32)).0 + 1 < n
unfolding rng_range
raw-lt now s n h = ground arith

module _ (now : ℕ) (candidates : List ℤ) (avoid : Option ℤ) (target_pos : ℕ) where
  swap_away_lem :
      (round : List ℤ) (s : QueueState) (a : ℤ)
      → Perm round candidates
      → 1 < length round
      → get_elem? round target_pos ≡ some a
      → avoid ≡ some a
      → (u : QueueState) × (swap_away now target_pos round s ≡ some u)
        × IsRound candidates avoid target_pos u
  unfolding swap_away
  swap_away_lem round s a p more e av =
      let (raw, s') = rng_range now s ((length round - 1) % 2 ^ 32) in
      let alt = alternative target_pos raw in
      let (round', swapped, w) =
        swap_lem target_pos alt round (lt-length round target_pos a e)
          (alternative-lt target_pos raw (length round) (raw-lt now s (length round) more)) in
      (
        record s' { shuffle_round = round' },
        rw swapped,
        record {
          perm = Perm.trans w.perm p;
          avoids = λ b eb _ u at_target. alternative-ne target_pos raw (
              get_elem?-injective round target_pos alt a (Perm.nodup (Perm.symm p) u) e
                (sym (w.moved (alternative-ne target_pos raw)) ∙ at_target ∙ sym eb ∙ av));
        },
      )

  avoid_target_lem :
      (round : List ℤ) (s : QueueState)
      → Perm round candidates
      → length round ≡ length candidates
      → (u : QueueState) × (avoid_target now avoid target_pos round s ≡ some u)
        × IsRound candidates avoid target_pos u
  unfolding avoid_target
  avoid_target_lem round s p l =
      elim (Bool-cases (ltb 1 (length round) && is_avoided (get_elem? round target_pos) avoid)) [
        | inl found ↦
            let (a, e, av) = is_avoided_sound (get_elem? round target_pos) avoid (ground arith) in
            rw found (swap_away_lem round s a p (ground arith) e av)
        | inr fine ↦ (
          record s { shuffle_round = round },
          rw fine,
          record {
            perm = p;
            avoids = λ a av more u. is_avoided_iff round target_pos a (ground arith);
          },
        )
      ]

  -- `build_shuffle_round` never panics. The new round is a permutation of the candidates, and if
  -- there are at least two, all distinct, the one to avoid does not stand at `target_pos`.
  pub build_shuffle_round_total :
      (s : QueueState)
      → (u : QueueState) × (build_shuffle_round now candidates avoid target_pos s ≡ some u)
        × IsRound candidates avoid target_pos u
  unfolding build_shuffle_round
  build_shuffle_round_total s =
      let (round, s', e, p, l) =
        shuffle_lem (draw now) (draw-le now) (length candidates - 1) s candidates
          (starts candidates) in
      rw e (avoid_target_lem round s' p l)
    where
      starts : (xs : List ℤ) → (length xs - 1 < length xs) ⊎ (length xs - 1 ≡ 0)
      starts [] = inr (omega arith)
      starts (x ∷ xs) = inl (omega arith)
