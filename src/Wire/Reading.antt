-- ===== src/Wire/Reading.antt =====
-- src/display/proto/codec.rs and src/ipc/uds.rs: reading a frame from any socket.
use wwe_modify.Base.{
  ℕ, zero, suc, ◌+◌, ◌-◌, ◌*◌, ◌≤◌, Bool, true, false, Option, none, some, List, [], ◌∷◌, ◌++◌, ◌≡◌,
  refl, arith,
}
use wwe_modify.Base.Tests.{ltb, leb, if◌then◌else◌, is_some}
use wwe_modify.Base.Lists.{length, length-append}
use wwe_modify.Wire.{
  Fd, CodecError, Fallible, ok, err, bad_frame_len, Received, got, failed, Kernel, read_header,
  take_in, with_body, after_header, read_framed,
}

-- `recvmsg` never delivers more bytes than the buffer has room for.
abbrev pub IsBounded : {S : Type 0} → Kernel S → Type 0
IsBounded {S = S} kernel =
    (n : ℕ) (s : S) (bs : List ℕ) (fds : List Fd)
    → (kernel.recvmsg n s).0 ≡ got bs fds
    → length bs ≤ n

-- An answer is there, and a header that was read has its four bytes.
abbrev Settled : {S E : Type 0} → Option (Fallible (CodecError E) (List ℕ × List Fd)) × S → Type 0
Settled (none, s) = ⊥
Settled (some (err e), s) = Unit
Settled (some (ok (hdr, fds)), s) = length hdr ≡ 4

module _ {S : Type 0} (kernel : Kernel S) (bounded : IsBounded kernel) (E : Type 0) where
  either-Settled :
      (b : Bool) (x y : Option (Fallible (CodecError E) (List ℕ × List Fd)) × S)
      → (b ≡ true → Settled x)
      → (b ≡ false → Settled y)
      → Settled (if b then x else y)
  either-Settled true x y h k = h refl
  either-Settled false x y h k = k refl

  take_in-Settled :
      (again : List ℕ → List Fd → S → Option (Fallible (CodecError E) (List ℕ × List Fd)) × S)
      (r : Received) (s : S)
      → ((b : ℕ) (bs : List ℕ) (fds : List Fd)
          → r ≡ got (b ∷ bs) fds
          → Settled (again (b ∷ bs) fds s))
      → Settled (take_in kernel again (r, s))
  take_in-Settled again (failed e) s h = tt
  take_in-Settled again (got [] fds) s h = tt
  take_in-Settled again (got (b ∷ bs) fds) s h = h b bs fds refl

  full :
      (b : Bool) (hdr : List ℕ) (fds : List Fd) (s : S)
      → b ≡ true
      → length hdr ≡ 4
      → Settled {E = E} ((if b then some (ok (hdr, fds)) else none), s)
  full true hdr fds s h k = k
  full false hdr fds s h k = absurd cc

  read_header-Settled :
      (fuel : ℕ) (hdr : List ℕ) (fds : List Fd) (s : S)
      → 4 ≤ length hdr + fuel
      → length hdr ≤ 4
      → Settled (read_header kernel {E = E} fuel hdr fds s)
  unfolding read_header
  read_header-Settled zero hdr fds s enough fits =
      full (leb 4 (length hdr)) hdr fds s (ground (arith, enough, fits))
        (omega (arith, enough, fits))
  read_header-Settled (suc fuel) hdr fds s enough fits =
      either-Settled (leb 4 (length hdr)) _ _ (λ h. ground (arith, h, fits))
        (λ h.
          take_in-Settled (λ xs ys u. read_header kernel {E = E} fuel (hdr ++ xs) (fds ++ ys) u)
            (kernel.recvmsg (4 - length hdr) s).0 (kernel.recvmsg (4 - length hdr) s).1
            (λ b bs more e.
              let small = bounded (4 - length hdr) s (b ∷ bs) more e in
              let grown = length-append hdr (b ∷ bs) in
              read_header-Settled fuel (hdr ++ b ∷ bs) (fds ++ more)
                (kernel.recvmsg (4 - length hdr) s).1 (omega (arith, grown, enough))
                (omega (arith, grown, small, fits))))

  body_some :
      (opcode : ℕ) (fds : List Fd) (p : Option (List ℕ) × S)
      → is_some (with_body kernel {E = E} opcode fds p).0 ≡ true
  body_some opcode fds (none, s) = refl
  body_some opcode fds (some body, s) = refl

  either_some :
      (b : Bool) (x y : Option (Fallible (CodecError E) (ℕ × List ℕ × List Fd)) × S)
      → is_some x.0 ≡ true
      → is_some y.0 ≡ true
      → is_some (if b then x else y).0 ≡ true
  either_some true x y h k = h
  either_some false x y h k = k

  after_some :
      (p : Option (Fallible (CodecError E) (List ℕ × List Fd)) × S)
      → Settled p
      → is_some (after_header kernel p).0 ≡ true
  after_some (none, s) h = absurd h
  after_some (some (err e), s) h = refl
  after_some (some (ok (a ∷ b ∷ c ∷ d ∷ [], fds)), s) h =
      either_some (ltb (c + 256 * d) 4) (some (err (bad_frame_len (c + 256 * d))), s) _ refl
        (body_some (a + 256 * b) fds (kernel.read_exact (c + 256 * d - 4) s))
  after_some (some (ok (_, fds)), s) h = absurd (omega (arith, h))

  -- On a socket whose recvmsg delivers no more than it was asked for, and in whatever way it
  -- fails, closes or cuts the bytes, four rounds of the header's loop are enough: read_framed
  -- returns an error or a message.
  pub read_framed_total : (s : S) → is_some (read_framed kernel {E = E} s).0 ≡ true
  unfolding read_framed
  read_framed_total s =
      after_some (read_header kernel {E = E} 4 [] [] s)
        (read_header-Settled 4 [] [] s (omega arith) (omega arith))
