-- ===== src/Wire/Tests.antt =====
-- A socket that delivers a byte at a time, and a protocol of one message, under the theorems.
use wwe_modify.Base.{
  ℕ, zero, suc, ◌+◌, ◌≤◌, ◌<◌, true, Option, none, some, List, [], ◌∷◌, ◌++◌, ◌≡◌, refl, subst,
  arith,
}
use wwe_modify.Base.Tests.{◌==◌, leb, if◌then◌else◌, is_some}
use wwe_modify.Base.Lists.{length, take, drop}
use wwe_modify.Wire.{
  Fd, Fallible, ok, err, Sent, sent, Received, got, failed, Kernel, Protocol, framed, write_framed,
  send, recv, read_framed,
}
use wwe_modify.Wire.Header.{Cell, bytes, Delivery, IsStream}
use wwe_modify.Wire.Framing.{in_flight, recv-send, send_bounds}
use wwe_modify.Wire.Reading.{IsBounded, read_framed_total}

-- The state is what is in flight; an empty socket is one whose peer has closed.
abbrev one_byte : ℕ → List Cell → Received × List Cell
one_byte n [] = (got [] [], [])
one_byte zero cs = (got [] [], cs)
one_byte (suc n) (c ∷ cs) = (got (c.0 ∷ []) (c.1 ++ []), cs)

abbrev exactly : ℕ → List Cell → Option (List ℕ) × List Cell
exactly n cs = if leb n (length cs) then (some (bytes (take n cs)), drop n cs) else (none, [])

abbrev slow : Kernel (List Cell)
slow = record { recvmsg = one_byte; read_exact = exactly }

abbrev pending : List Cell → List Cell
pending cs = cs

slow_delivers : (n : ℕ) (cs : List Cell) → 0 < n → 0 < length cs → Delivery slow pending n cs
slow_delivers zero cs pos some_left = absurd (omega (arith, pos))
slow_delivers (suc n) [] pos some_left = absurd (omega (arith, some_left))
slow_delivers (suc n) (c ∷ cs) pos some_left = record {
  count = 1;
  progress = omega arith;
  asked = omega arith;
  there = omega arith;
  answer = refl;
  left = refl;
}

slow-IsStream : IsStream slow pending
slow-IsStream = record {
  delivers = slow_delivers;
  exact = λ n cs h. ground (arith, h);
  exact_left = λ n cs h. ground (arith, h);
}

abbrev payload : Received → List ℕ
payload (got bs fds) = bs
payload (failed e) = []

slow-IsBounded : IsBounded slow
slow-IsBounded n [] bs fds e = subst (λ r. length (payload r) ≤ n) e (omega arith)
slow-IsBounded zero (c ∷ cs) bs fds e = subst (λ r. length (payload r) ≤ 0) e (omega arith)
slow-IsBounded (suc n) (c ∷ cs) bs fds e = subst (λ r. length (payload r) ≤ suc n) e (omega arith)

-- One message, which carries a byte and two descriptors.
abbrev decode : ℕ → List ℕ → Fallible ℕ ℕ
decode n (b ∷ []) = if n == 5 then ok b else err 0
decode n _ = err 1

abbrev protocol : Protocol ℕ ℕ
protocol = record { opcode = λ m. 5; encode = λ m. m ∷ []; expected_fds = λ m. 2; decode = decode }

abbrev whole : List ℕ → List Fd → Sent
whole bs fds = sent (length bs)

-- The message, with the first byte of the next behind it.
abbrev socket : List Cell
socket = in_flight (framed 5 (7 ∷ [])) (3 ∷ 4 ∷ []) ++ (9, []) ∷ []

recv-send_example :
    (u : List Cell) × (recv protocol slow socket ≡ (some (ok (7, 3 ∷ 4 ∷ [])), u))
    × (u ≡ (9, []) ∷ [])
unfolding send write_framed
recv-send_example =
    recv-send slow pending slow-IsStream protocol whole 7 (3 ∷ 4 ∷ []) ((9, []) ∷ []) socket
      (omega arith) refl refl refl

abbrev two_fds : List Fd
two_fds = 3 ∷ 4 ∷ []

send_bounds_example :
    (length two_fds ≡ protocol.expected_fds 7)
    × (length two_fds ≤ 64)
    × (4 + 1 ≤ 65535)
    × (whole (framed 5 (7 ∷ [])) two_fds ≡ sent (length (framed 5 (7 ∷ []))))
unfolding send write_framed
send_bounds_example = send_bounds protocol whole 7 two_fds refl

read_framed_total_example : is_some (read_framed slow {E = ℕ} socket).0 ≡ true
read_framed_total_example = read_framed_total slow slow-IsBounded ℕ socket
