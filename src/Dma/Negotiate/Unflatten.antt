-- ===== src/Dma/Negotiate/Unflatten.antt =====
-- src/dma/negotiate.rs, unflatten_caps: the lengths that decoding asks for.
use wwe_modify.Base.{
  ℕ, zero, suc, ◌+◌, ◌≤◌, ◌<◌, ◌%◌, ◌^◌, ◌∙◌, Bool, true, false, not, ◌&&◌, ◌||◌, Option, some,
  List, [], ◌∷◌, ◌≡◌, refl, ap, sym, inl, inr, arith,
}
use wwe_modify.Base.Tests.{◌==◌, if◌then◌else◌, Bool-cases}
use wwe_modify.Base.Lists.{length}
use wwe_modify.Base.Shuffle.{get_elem?-some}
use wwe_modify.Dma.Negotiate.{
  ModCap, FormatCaps, sum, caps_at, extend_entry, unflatten_loop, WireCaps, PeerCaps, peer_caps,
  Result, ok, err, NegotiateError, unflatten_caps,
}

-- The sum itself.
abbrev pub total : List ℕ → ℕ
total [] = 0
total (n ∷ ns) = n + total ns

sum-total : (ns : List ℕ) → total ns < 2 ^ 64 → sum ns ≡ total ns
unfolding sum
sum-total [] h = refl
sum-total (n ∷ ns) h = ap (λ x. (n + x) % 2 ^ 64) (sum-total ns (omega arith)) ∙ omega (arith, h)

caps_at_total :
    (modifiers plane_counts : List ℕ) (n cursor : ℕ)
    → cursor + n ≤ length modifiers
    → length plane_counts ≡ length modifiers
    → (caps : List ModCap) × (caps_at modifiers plane_counts cursor n ≡ some caps)
      × (length caps ≡ n)
unfolding caps_at
caps_at_total ms ps zero cursor h e = ([], refl, refl)
caps_at_total ms ps (suc n) cursor h e =
    let (m, em) = get_elem?-some ms cursor (omega arith) in
    let (p, ep) = get_elem?-some ps cursor (omega (arith, e)) in
    let (rest, er, l) = caps_at_total ms ps n (suc cursor) (omega arith) e in
    (record { modifier = m; plane_count = p } ∷ rest, rw (em, ep, er), ap suc l)

unflatten_loop_total :
    (modifiers plane_counts : List ℕ) (fourccs mod_counts : List ℕ) (cursor : ℕ) (acc : FormatCaps)
    → cursor + total mod_counts ≤ length modifiers
    → length plane_counts ≡ length modifiers
    → length fourccs ≡ length mod_counts
    → (caps : FormatCaps) × (unflatten_loop modifiers plane_counts cursor fourccs mod_counts acc
        ≡ some caps)
unfolding unflatten_loop
unflatten_loop_total ms ps [] counts cursor acc h e l = (acc, refl)
unflatten_loop_total ms ps (f ∷ fs) [] cursor acc h e l = absurd (omega arith)
unflatten_loop_total ms ps (f ∷ fs) (n ∷ counts) cursor acc h e l =
    let (caps, ec, _) = caps_at_total ms ps n cursor (omega arith) e in
    let (rest, er) =
      unflatten_loop_total ms ps fs counts (cursor + n) (extend_entry f caps acc) (omega arith) e
        (omega arith) in
    (rest, rw (ec, er))

-- The lengths that the decoder asks for.
abbrev pub fits : WireCaps → Bool
fits w =
    length w.fourccs == length w.mod_counts
    && length w.modifiers == sum w.mod_counts
    && length w.plane_counts == sum w.mod_counts
    && (length w.device_uuid == 4 && length w.driver_uuid == 4)

abbrev pub is_ok {ℓ} : {A : Type ℓ} → Result A → Bool
is_ok (ok _) = true
is_ok (err _) = false

decode :
    (w : WireCaps)
    → total w.mod_counts < 2 ^ 64
    → fits w ≡ true
    → (caps : FormatCaps) × (unflatten_caps w ≡ some (ok (peer_caps w caps)))
unfolding unflatten_caps
decode w small h =
    let (caps, e) =
      unflatten_loop_total w.modifiers w.plane_counts w.fourccs w.mod_counts 0 []
        (omega (arith, lengths.1, sum-total w.mod_counts small))
        (omega (arith, lengths.1, lengths.2)) lengths.0 in
    (caps, rw e (ground (arith, h)))
  where
    lengths :
        (length w.fourccs ≡ length w.mod_counts)
        × (length w.modifiers ≡ sum w.mod_counts)
        × (length w.plane_counts ≡ sum w.mod_counts)
    lengths = ground (arith, h)

-- The chain of tests: the first that fails answers.
refuse_chain :
    (a b c d e : Bool) (w x y z : NegotiateError) (rest : Option (Result PeerCaps))
    → (a && b && c && (d && e)) ≡ false
    → (err_of : NegotiateError) × ((if not a
          then some (err w)
          else if not b
          then some (err x)
          else if not c
          then some (err y)
          else if not d || not e
          then some (err z)
          else rest)
        ≡ some (err err_of))
refuse_chain false b c d e w x y z rest h = (w, refl)
refuse_chain true false c d e w x y z rest h = (x, refl)
refuse_chain true true false d e w x y z rest h = (y, refl)
refuse_chain true true true false e w x y z rest h = (z, refl)
refuse_chain true true true true false w x y z rest h = (z, refl)
refuse_chain true true true true true w x y z rest h = absurd (cc)

refuse : (w : WireCaps) → fits w ≡ false → (e : NegotiateError) × (unflatten_caps w ≡ some (err e))
unfolding unflatten_caps
refuse w h =
    refuse_chain (length w.fourccs == length w.mod_counts) (length w.modifiers == sum w.mod_counts)
      (length w.plane_counts == sum w.mod_counts) (length w.device_uuid == 4)
      (length w.driver_uuid == 4) _ _ _ _ _ h

-- On a target of 64 bits, and with counts whose sum is below 2^64, decoding never panics, whatever
-- the lengths of the arrays: it answers, and the answer is a success exactly if each fourcc has a
-- count, the modifiers and the numbers of planes are as many as the counts' sum, and each uuid has
-- four words.
pub unflatten_caps_total :
    (w : WireCaps)
    → total w.mod_counts < 2 ^ 64
    → (r : Result PeerCaps) × (unflatten_caps w ≡ some r) × (is_ok r ≡ fits w)
unflatten_caps_total w small = elim (Bool-cases (fits w)) [
  | inl h ↦ let (caps, e) = decode w small h in (ok (peer_caps w caps), e, sym h)
  | inr h ↦ let (x, e) = refuse w h in (err x, e, sym h)
]
