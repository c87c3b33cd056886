-- ===== src/Wire.antt =====
-- src/display/proto/codec.rs and src/ipc/uds.rs: messages in frames over a stream socket, with file
-- descriptors beside them. What a protocol's generated code does, and the kernel, are parameters;
-- a system call that is interrupted is one that is called again, within the parameter.
pub mod Header
pub mod Framing
pub mod Reading
mod Tests
use wwe_modify.Base.{
  ℕ, zero, suc, ◌+◌, ◌-◌, ◌*◌, ◌/◌, ◌%◌, Bool, true, false, not, Option, none, some, List, [], ◌∷◌,
  ◌++◌,
}
use wwe_modify.Base.Tests.{◌==◌, ltb, leb, if◌then◌else◌}
use wwe_modify.Base.Lists.{length}

-- `Result`.
pub data Fallible (E A : Type 0) : Type 0 where
  ok : A → Fallible E A
  err : E → Fallible E A

abbrev pub Fd : Type 0
Fd = ℕ

-- An `errno`.
abbrev pub Errno : Type 0
Errno = ℕ

pub data CodecError (E : Type 0) : Type 0 where
  io : CodecError E
  nix : Errno → CodecError E
  peer_closed : CodecError E
  frame_too_large : ℕ → CodecError E
  bad_frame_len : ℕ → CodecError E
  too_many_fds : ℕ → CodecError E
  fd_count_mismatch : ℕ → ℕ → CodecError E
  decode_error : E → CodecError E
  short_write : ℕ → ℕ → CodecError E

-- `sendmsg` and `recvmsg`, and `read_exact` of the standard library.
pub data Sent : Type 0 where
  sent : ℕ → Sent
  refused : Errno → Sent

pub data Received : Type 0 where
  got : List ℕ → List Fd → Received
  failed : Errno → Received

pub record Kernel (S : Type 0) : Type 0 where
  pub recvmsg : ℕ → S → Received × S
  pub read_exact : ℕ → S → Option (List ℕ) × S

-- The generated code of a protocol: one direction's messages.
pub record Protocol (Message E : Type 0) : Type 0 where
  pub opcode : Message → ℕ
  pub encode : Message → List ℕ
  pub expected_fds : Message → ℕ
  pub decode : ℕ → List ℕ → Fallible E Message

abbrev pub max_fds_per_msg : ℕ
max_fds_per_msg = 64

-- `u16::to_le_bytes`.
abbrev pub le16 : ℕ → List ℕ
le16 n = n % 256 ∷ n / 256 % 256 ∷ []

pub framed : ℕ → List ℕ → List ℕ
framed opcode body = le16 opcode ++ le16 (4 + length body) ++ body

abbrev sending : {E : Type 0} → ℕ → Sent → Fallible (CodecError E) Unit
sending total (sent n) = if n == total then ok tt else err (short_write n total)
sending total (refused e) = err (nix e)

pub write_framed :
    {E : Type 0} → (List ℕ → List Fd → Sent) → ℕ → List ℕ → List Fd → Fallible (CodecError E) Unit
unfolding framed
write_framed sendmsg opcode body fds =
    if ltb max_fds_per_msg (length fds)
    then err (too_many_fds (length fds))
    else if ltb 65535 (4 + length body)
    then err (frame_too_large (4 + length body))
    else sending (length (framed opcode body)) (sendmsg (framed opcode body) fds)

module _ {S : Type 0} (kernel : Kernel S) where
  -- What an answer of `recvmsg` does to the loop below, whose next round is `again`.
  abbrev pub take_in :
      {E : Type 0}
      → (List ℕ → List Fd → S → Option (Fallible (CodecError E) (List ℕ × List Fd)) × S)
      → Received × S
      → Option (Fallible (CodecError E) (List ℕ × List Fd)) × S
  take_in again (failed e, s) = (some (err (nix e)), s)
  take_in again (got [] _, s) = (some (err peer_closed), s)
  take_in again (got (b ∷ bs) more, s) = again (b ∷ bs) more s

  -- The loop that fills the header; `none` is out of fuel.
  pub read_header :
      {E : Type 0}
      → ℕ
      → List ℕ
      → List Fd
      → S
      → Option (Fallible (CodecError E) (List ℕ × List Fd)) × S
  read_header zero hdr fds s = (if leb 4 (length hdr) then some (ok (hdr, fds)) else none, s)
  read_header (suc fuel) hdr fds s =
      if leb 4 (length hdr)
      then (some (ok (hdr, fds)), s)
      else take_in (λ bs more u. read_header fuel (hdr ++ bs) (fds ++ more) u)
          (kernel.recvmsg (4 - length hdr) s)

  -- The header's two little-endian words.
  abbrev pub header : List ℕ → Option (ℕ × ℕ)
  header (a ∷ b ∷ c ∷ d ∷ []) = some (a + 256 * b, c + 256 * d)
  header _ = none

  -- The kernel answered with more than it was asked for: no header.
  abbrev pub with_body :
      {E : Type 0}
      → ℕ
      → List Fd
      → Option (List ℕ) × S
      → Option (Fallible (CodecError E) (ℕ × List ℕ × List Fd)) × S
  with_body opcode fds (none, s) = (some (err io), s)
  with_body opcode fds (some body, s) = (some (ok (opcode, body, fds)), s)

  abbrev pub read_body :
      {E : Type 0}
      → Option (ℕ × ℕ)
      → List Fd
      → S
      → Option (Fallible (CodecError E) (ℕ × List ℕ × List Fd)) × S
  read_body none fds s = (none, s)
  read_body (some (opcode, total)) fds s =
      if ltb total 4
      then (some (err (bad_frame_len total)), s)
      else with_body opcode fds (kernel.read_exact (total - 4) s)

  abbrev pub after_header :
      {E : Type 0}
      → Option (Fallible (CodecError E) (List ℕ × List Fd)) × S
      → Option (Fallible (CodecError E) (ℕ × List ℕ × List Fd)) × S
  after_header (none, s) = (none, s)
  after_header (some (err e), s) = (some (err e), s)
  after_header (some (ok (hdr, fds)), s) = read_body (header hdr) fds s

  pub read_framed : {E : Type 0} → S → Option (Fallible (CodecError E) (ℕ × List ℕ × List Fd)) × S
  unfolding read_header
  read_framed s = after_header (read_header 4 [] [] s)

module _ {Message E : Type 0} (protocol : Protocol Message E) where
  -- `send_request` and `send_event` of the display's protocol.
  pub send : (List ℕ → List Fd → Sent) → Message → List Fd → Fallible (CodecError E) Unit
  unfolding write_framed
  send sendmsg message fds =
      if not (length fds == protocol.expected_fds message)
      then err (fd_count_mismatch (protocol.expected_fds message) (length fds))
      else write_framed sendmsg (protocol.opcode message) (protocol.encode message) fds

  -- `send_control` and `send_event` of the renderer's: the bound on descriptors comes first.
  pub send_control : (List ℕ → List Fd → Sent) → Message → List Fd → Fallible (CodecError E) Unit
  unfolding send
  send_control sendmsg message fds =
      if ltb max_fds_per_msg (length fds)
      then err (too_many_fds (length fds))
      else send sendmsg message fds

  abbrev pub checked : List Fd → Fallible E Message → Fallible (CodecError E) (Message × List Fd)
  checked fds (err e) = err (decode_error e)
  checked fds (ok message) =
      if not (length fds == protocol.expected_fds message)
      then err (fd_count_mismatch (protocol.expected_fds message) (length fds))
      else ok (message, fds)

  abbrev pub decoded :
      {S : Type 0}
      → Option (Fallible (CodecError E) (ℕ × List ℕ × List Fd)) × S
      → Option (Fallible (CodecError E) (Message × List Fd)) × S
  decoded (none, s) = (none, s)
  decoded (some (err e), s) = (some (err e), s)
  decoded (some (ok (opcode, body, fds)), s) = (some (checked fds (protocol.decode opcode body)), s)

  pub recv : {S : Type 0} → Kernel S → S → Option (Fallible (CodecError E) (Message × List Fd)) × S
  unfolding read_framed
  recv kernel s = decoded (read_framed kernel s)
