-- ===== src/Wire/Framing.antt =====
-- src/display/proto/codec.rs and src/ipc/uds.rs: sending a frame, and receiving what was sent.
use wwe_modify.Base.{
  ℕ, ◌+◌, ◌-◌, ◌*◌, ◌/◌, ◌%◌, ◌≤◌, ◌<◌, not, some, List, [], ◌∷◌, ◌++◌, ◌≡◌, refl, sym, ap, subst,
  ◌∙◌, arith,
}
use mathlib.Core.List.{append-nil}
use wwe_modify.Base.Tests.{◌==◌, ltb}
use wwe_modify.Base.Lists.{length, take, drop}
use wwe_modify.Wire.{
  Fd, ok, Sent, sent, Kernel, Protocol, framed, le16, write_framed, read_header, header, with_body,
  read_body, after_header, read_framed, send, recv, decoded, checked,
}
use wwe_modify.Wire.Header.{Cell, bytes, rights, IsStream, header-stream, if_else}

-- Bytes in flight without descriptors, and with descriptors on the first.
abbrev pub plain : List ℕ → List Cell
plain [] = []
plain (b ∷ bs) = (b, []) ∷ plain bs

abbrev pub in_flight : List ℕ → List Fd → List Cell
in_flight [] fds = []
in_flight (b ∷ bs) fds = (b, fds) ∷ plain bs

bytes-plain : (bs : List ℕ) (rest : List Cell) → bytes (take (length bs) (plain bs ++ rest)) ≡ bs
bytes-plain [] rest = refl
bytes-plain (b ∷ bs) rest = ap (λ l. b ∷ l) (bytes-plain bs rest)

drop-plain : (bs : List ℕ) (rest : List Cell) → drop (length bs) (plain bs ++ rest) ≡ rest
drop-plain [] rest = refl
drop-plain (b ∷ bs) rest = drop-plain bs rest

length-plain : (bs : List ℕ) (rest : List Cell) → length bs ≤ length (plain bs ++ rest)
length-plain [] rest = omega arith
length-plain (b ∷ bs) rest = omega (arith, length-plain bs rest)

-- A send that succeeds has the number of descriptors that the message asks for, at most 64, and a
-- frame of at most 65,535 bytes, and the kernel took the whole frame with the descriptors.
pub send_bounds :
    {Message E : Type 0} (protocol : Protocol Message E) (sendmsg : List ℕ → List Fd → Sent)
    (message : Message) (fds : List Fd)
    → send protocol sendmsg message fds ≡ ok tt
    → let frame = framed (protocol.opcode message) (protocol.encode message) in
      (length fds ≡ protocol.expected_fds message)
      × (length fds ≤ 64)
      × (4 + length (protocol.encode message) ≤ 65535)
      × (sendmsg frame fds ≡ sent (length frame))
unfolding send write_framed
send_bounds protocol sendmsg message fds h = ground (arith, h)

module _ {S : Type 0} (kernel : Kernel S) (pending : S → List Cell)
    (stream : IsStream kernel pending) where
  read_framed_lem :
      {E : Type 0} (s : S)
      → read_framed kernel {E = E} s ≡ after_header kernel (read_header kernel 4 [] [] s)
  unfolding read_framed
  read_framed_lem s = refl

  read_body_lem :
      {E : Type 0} (opcode total n : ℕ) (body : List ℕ) (fds : List Fd) (u : S)
      → total ≡ 4 + n
      → (kernel.read_exact n u).0 ≡ some body
      → read_body kernel {E = E} (some (opcode, total)) fds u
        ≡ (some (ok (opcode, body, fds)), (kernel.read_exact n u).1)
  read_body_lem {E = E} opcode total n body fds u h e =
      let asked : total - 4 ≡ n = omega (arith, h) in
      if_else (ltb total 4) _ _ (ground (arith, h))
      ∙ ap (λ k. with_body kernel {E = E} opcode fds (kernel.read_exact k u)) asked
      ∙ ap (λ o. with_body kernel {E = E} opcode fds (o, (kernel.read_exact n u).1)) e

  header-le16 :
      (opcode total : ℕ)
      → opcode < 65536
      → total < 65536
      → header kernel (le16 opcode ++ le16 total) ≡ some (opcode, total)
  header-le16 opcode total h k =
      let low : opcode % 256 + 256 * (opcode / 256 % 256) ≡ opcode = omega (arith, h) in
      let high : total % 256 + 256 * (total / 256 % 256) ≡ total = omega (arith, k) in
      ap (λ n. some (n, total % 256 + 256 * (total / 256 % 256))) low
      ∙ ap (λ n. some (opcode, n)) high

  frame_length :
      (opcode : ℕ) (body : List ℕ) (fds : List Fd) (rest : List Cell)
      → 4 ≤ length (in_flight (framed opcode body) fds ++ rest)
  unfolding framed
  frame_length opcode body fds rest = omega arith

  -- The first four cells of a frame.
  frame_head :
      (opcode : ℕ) (body : List ℕ) (fds : List Fd) (rest : List Cell)
      → let cs = in_flight (framed opcode body) fds ++ rest in
        (bytes (take 4 cs) ≡ le16 opcode ++ le16 (4 + length body))
        × (rights (take 4 cs) ≡ fds)
        × (drop 4 cs ≡ plain body ++ rest)
  unfolding framed
  frame_head opcode body fds rest = (refl, append-nil fds, refl)

  -- A frame that is in flight is read whole.
  pub read_framed-framed :
      {E : Type 0} (opcode : ℕ) (body : List ℕ) (fds : List Fd) (rest : List Cell) (s : S)
      → opcode < 65536
      → 4 + length body ≤ 65535
      → pending s ≡ in_flight (framed opcode body) fds ++ rest
      → (u : S) × (read_framed kernel {E = E} s ≡ (some (ok (opcode, body, fds)), u))
        × (pending u ≡ rest)
  read_framed-framed {E = E} opcode body fds rest s small room e =
      let filled =
        header-stream kernel E pending stream 4 4 [] [] s refl (omega arith)
          (subst (λ cs. 4 ≤ length cs) (sym e) (frame_length opcode body fds rest)) in
      let u = filled.state in
      let left : pending u ≡ plain body ++ rest =
        filled.left ∙ ap (drop 4) e ∙ (frame_head opcode body fds rest).2 in
      let room_left : length body ≤ length (pending u) =
        subst (λ cs. length body ≤ length cs) (sym left) (length-plain body rest) in
      let read : (kernel.read_exact (length body) u).0 ≡ some body =
        stream.exact (length body) u room_left
        ∙ ap (λ cs. some (bytes (take (length body) cs))) left
        ∙ ap some (bytes-plain body rest) in
      (
        (kernel.read_exact (length body) u).1,
        read_framed_lem s
            ∙ ap (after_header kernel) filled.answer
            ∙ ap
                (λ cs.
                  read_body kernel {E = E} (header kernel (bytes (take 4 cs))) (rights (take 4 cs))
                    u)
                e
            ∙ ap
                (λ l.
                  read_body kernel {E = E} (header kernel l)
                    (rights (take 4 (in_flight (framed opcode body) fds ++ rest))) u)
                (frame_head opcode body fds rest).0
            ∙ ap
                (λ l.
                  read_body kernel {E = E} (header kernel (le16 opcode ++ le16 (4 + length body))) l
                    u)
                (frame_head opcode body fds rest).1
            ∙ ap (λ o. read_body kernel {E = E} o fds u)
                (header-le16 opcode (4 + length body) small (omega (arith, room)))
            ∙ read_body_lem opcode (4 + length body) (length body) body fds u refl read,
        stream.exact_left (length body) u room_left
            ∙ ap (drop (length body)) left
            ∙ drop-plain body rest,
      )

  recv_lem :
      {Message E : Type 0} (protocol : Protocol Message E) (s : S)
      → recv protocol kernel s ≡ decoded protocol (read_framed kernel s)
  unfolding recv
  recv_lem protocol s = refl

  checked-ok :
      {Message E : Type 0} (protocol : Protocol Message E) (message : Message) (fds : List Fd)
      → length fds ≡ protocol.expected_fds message
      → checked protocol fds (ok message) ≡ ok (message, fds)
  checked-ok protocol message fds h =
      if_else (not (length fds == protocol.expected_fds message)) _ _ (ground (arith, h))

  -- A message that was sent, and whose frame is in flight on a stream socket, is received with its
  -- descriptors, and what is in flight behind it stays, provided that the generated decoder reads
  -- what the generated encoder writes and the opcode is a u16. The pieces in which the socket
  -- delivers the bytes do not matter.
  pub recv-send :
      {Message E : Type 0} (protocol : Protocol Message E) (sendmsg : List ℕ → List Fd → Sent)
      (message : Message) (fds : List Fd) (rest : List Cell) (s : S)
      → protocol.opcode message < 65536
      → protocol.decode (protocol.opcode message) (protocol.encode message) ≡ ok message
      → send protocol sendmsg message fds ≡ ok tt
      → pending s
        ≡ in_flight (framed (protocol.opcode message) (protocol.encode message)) fds ++ rest
      → (u : S) × (recv protocol kernel s ≡ (some (ok (message, fds)), u)) × (pending u ≡ rest)
  recv-send protocol sendmsg message fds rest s small decodes sends e =
      let (count, few, room, handed) = send_bounds protocol sendmsg message fds sends in
      let (u, reads, left) =
        read_framed-framed (protocol.opcode message) (protocol.encode message) fds rest s small room
          e in
      (
        u,
        recv_lem protocol s
            ∙ ap (decoded protocol) reads
            ∙ ap (λ r. (some (checked protocol fds r), u)) decodes
            ∙ ap (λ r. (some r, u)) (checked-ok protocol message fds count),
        left,
      )
