-- ===== src/Wire/Header.antt =====
-- read_framed of src/display/proto/codec.rs and src/ipc/uds.rs: the loop over the header, on a
-- stream socket that delivers the bytes in whatever pieces.
use wwe_modify.Base.{
  ℕ, zero, suc, ◌+◌, ◌-◌, ◌≤◌, ◌<◌, Bool, true, false, none, some, List, [], ◌∷◌, ◌++◌, ◌≡◌, refl,
  sym, ap, subst, ◌∙◌, arith,
}
use mathlib.Core.List.{append-nil, append_assoc}
use wwe_modify.Base.Tests.{leb, if◌then◌else◌}
use wwe_modify.Base.Lists.{length, take, drop, length-append}
use wwe_modify.Wire.{Fd, ok, got, Kernel, read_header, take_in}

-- A byte in flight, with the descriptors that ride on it.
abbrev pub Cell : Type 0
Cell = ℕ × List Fd

abbrev pub bytes : List Cell → List ℕ
bytes [] = []
bytes (c ∷ cs) = c.0 ∷ bytes cs

abbrev pub rights : List Cell → List Fd
rights [] = []
rights (c ∷ cs) = c.1 ++ rights cs

-- What `recvmsg` delivers of what is pending: some of the first bytes, at most `n`, at least one,
-- and the descriptors that ride on them.
pub record Delivery {S : Type 0} (kernel : Kernel S) (pending : S → List Cell) (n : ℕ) (s : S)
    : Type 0 where
  pub count : ℕ
  pub progress : 0 < count
  pub asked : count ≤ n
  pub there : count ≤ length (pending s)
  pub answer :
      (kernel.recvmsg n s).0
      ≡ got (bytes (take count (pending s))) (rights (take count (pending s)))
  pub left : pending (kernel.recvmsg n s).1 ≡ drop count (pending s)

-- A stream socket on which `pending` is in flight.
pub record IsStream {S : Type 0} (kernel : Kernel S) (pending : S → List Cell) : Type 0 where
  pub delivers : (n : ℕ) (s : S) → 0 < n → 0 < length (pending s) → Delivery kernel pending n s
  pub exact :
      (n : ℕ) (s : S)
      → n ≤ length (pending s)
      → (kernel.read_exact n s).0 ≡ some (bytes (take n (pending s)))
  pub exact_left :
      (n : ℕ) (s : S)
      → n ≤ length (pending s)
      → pending (kernel.read_exact n s).1 ≡ drop n (pending s)

pub bytes-append : (xs ys : List Cell) → bytes (xs ++ ys) ≡ bytes xs ++ bytes ys
bytes-append [] ys = refl
bytes-append (c ∷ cs) ys = ap (λ l. c.0 ∷ l) (bytes-append cs ys)

pub rights-append : (xs ys : List Cell) → rights (xs ++ ys) ≡ rights xs ++ rights ys
rights-append [] ys = refl
rights-append (c ∷ cs) ys =
    ap (λ l. c.1 ++ l) (rights-append cs ys) ∙ sym (append_assoc c.1 (rights cs) (rights ys))

take_add {ℓ} :
    {A : Type ℓ} (k j m : ℕ) (xs : List A) → k + j ≡ m → take k xs ++ take j (drop k xs) ≡ take m xs
take_add zero j m xs h = ap (λ n. take n xs) (omega (arith, h))
take_add (suc k) j zero xs h = absurd (omega (arith, h))
take_add (suc k) zero (suc m) [] h = refl
take_add (suc k) (suc j) (suc m) [] h = refl
take_add (suc k) j (suc m) (x ∷ xs) h = ap (λ l. x ∷ l) (take_add k j m xs (omega (arith, h)))

drop_add {ℓ} : {A : Type ℓ} (k j m : ℕ) (xs : List A) → k + j ≡ m → drop j (drop k xs) ≡ drop m xs
drop_add zero j m xs h = ap (λ n. drop n xs) (omega (arith, h))
drop_add (suc k) j zero xs h = absurd (omega (arith, h))
drop_add (suc k) zero (suc m) [] h = refl
drop_add (suc k) (suc j) (suc m) [] h = refl
drop_add (suc k) j (suc m) (x ∷ xs) h = drop_add k j m xs (omega (arith, h))

pub length-bytes : (cs : List Cell) → length (bytes cs) ≡ length cs
length-bytes [] = refl
length-bytes (c ∷ cs) = ap suc (length-bytes cs)

length-take {ℓ} : {A : Type ℓ} (k : ℕ) (xs : List A) → k ≤ length xs → length (take k xs) ≡ k
length-take zero xs h = refl
length-take (suc k) [] h = absurd (omega (arith, h))
length-take (suc k) (x ∷ xs) h = ap suc (length-take k xs (omega (arith, h)))

length-drop {ℓ} : {A : Type ℓ} (k : ℕ) (xs : List A) → k + length (drop k xs) ≡ k + (length xs - k)
length-drop zero xs = omega arith
length-drop (suc k) [] = omega arith
length-drop (suc k) (x ∷ xs) = omega (arith, length-drop k xs)

if_then {ℓ} : {A : Type ℓ} (b : Bool) (x y : A) → b ≡ true → (if b then x else y) ≡ x
if_then b x y h = ap (λ c. if c then x else y) h

pub if_else {ℓ} : {A : Type ℓ} (b : Bool) (x y : A) → b ≡ false → (if b then x else y) ≡ y
if_else b x y h = ap (λ c. if c then x else y) h

-- The two parts of what was taken, put together.
joined :
    (k j m : ℕ) (hdr : List ℕ) (fds : List Fd) (cs rest : List Cell)
    → k + j ≡ m
    → rest ≡ drop k cs
    → ◌≡◌ {A = List ℕ × List Fd}
        (
          (hdr ++ bytes (take k cs)) ++ bytes (take j rest),
          (fds ++ rights (take k cs)) ++ rights (take j rest),
        )
        (hdr ++ bytes (take m cs), fds ++ rights (take m cs))
joined k j m hdr fds cs rest h e =
    let whole : take k cs ++ take j rest ≡ take m cs =
      ap (λ l. take k cs ++ take j l) e ∙ take_add k j m cs h in
    ap (λ l. (l, (fds ++ rights (take k cs)) ++ rights (take j rest)))
      (append_assoc hdr (bytes (take k cs)) (bytes (take j rest))
        ∙ ap (λ l. hdr ++ l) (sym (bytes-append (take k cs) (take j rest)) ∙ ap bytes whole))
    ∙ ap (λ l. (hdr ++ bytes (take m cs), l))
        (append_assoc fds (rights (take k cs)) (rights (take j rest))
          ∙ ap (λ l. fds ++ l) (sym (rights-append (take k cs) (take j rest)) ∙ ap rights whole))

module _ {S : Type 0} (kernel : Kernel S) where
  -- The header is full.
  header_full :
      {E : Type 0} (fuel : ℕ) (hdr : List ℕ) (fds : List Fd) (s : S)
      → length hdr ≡ 4
      → read_header kernel {E = E} fuel hdr fds s ≡ (some (ok (hdr, fds)), s)
  unfolding read_header
  header_full zero hdr fds s h = ap (λ n. ((if leb 4 n then some (ok (hdr, fds)) else none), s)) h
  header_full (suc fuel) hdr fds s h = if_then (leb 4 (length hdr)) _ _ (ground (arith, h))

  -- One delivery.
  header_step :
      {E : Type 0} (fuel m b : ℕ) (bs : List ℕ) (more : List Fd) (hdr : List ℕ) (fds : List Fd)
      (s : S)
      → length hdr + m ≡ 4
      → 0 < m
      → (kernel.recvmsg m s).0 ≡ got (b ∷ bs) more
      → read_header kernel {E = E} (suc fuel) hdr fds s
        ≡ read_header kernel fuel (hdr ++ b ∷ bs) (fds ++ more) (kernel.recvmsg m s).1
  unfolding read_header
  header_step {E = E} fuel m b bs more hdr fds s h pos e =
      let again = λ (xs : List ℕ) (ys : List Fd) (u : S).
        read_header kernel {E = E} fuel (hdr ++ xs) (fds ++ ys) u in
      let asked : 4 - length hdr ≡ m = omega (arith, h) in
      if_else (leb 4 (length hdr)) _ _ (ground (arith, h, pos))
      ∙ ap (λ n. take_in kernel again (kernel.recvmsg n s)) asked
      ∙ ap (λ r. take_in kernel again (r, (kernel.recvmsg m s).1)) e

  one_byte :
      (k : ℕ) (cs : List Cell)
      → 0 < k
      → k ≤ length cs
      → (b : ℕ) × (bs : List ℕ) × (bytes (take k cs) ≡ b ∷ bs)
  one_byte zero cs pos h = absurd (omega (arith, pos))
  one_byte (suc k) [] pos h = absurd (omega (arith, h))
  one_byte (suc k) (c ∷ cs) pos h = (c.0, bytes (take k cs), refl)

  module _ (E : Type 0) (pending : S → List Cell) where
    header_delivered :
        (fuel m : ℕ) (hdr : List ℕ) (fds : List Fd) (s : S) (d : Delivery kernel pending m s)
        → length hdr + m ≡ 4
        → 0 < m
        → let cs = take d.count (pending s) in
          read_header kernel {E = E} (suc fuel) hdr fds s
          ≡ read_header kernel fuel (hdr ++ bytes cs) (fds ++ rights cs) (kernel.recvmsg m s).1
    header_delivered fuel m hdr fds s d h pos =
        let cs = take d.count (pending s) in
        let (b, bs, e) = one_byte d.count (pending s) d.progress d.there in
        header_step fuel m b bs (rights cs) hdr fds s h pos
          (d.answer ∙ ap (λ l. got l (rights cs)) e)
        ∙ ap
            (λ l.
              read_header kernel {E = E} fuel (hdr ++ l) (fds ++ rights cs) (kernel.recvmsg m s).1)
            (sym e)

    -- What the header's loop leaves, when `m` bytes were still missing.
    pub record Filled (m fuel : ℕ) (hdr : List ℕ) (fds : List Fd) (s : S) : Type 0 where
      pub state : S
      pub answer : read_header kernel {E = E} fuel hdr fds s ≡ (
        some (ok (hdr ++ bytes (take m (pending s)), fds ++ rights (take m (pending s)))),
        state,
      )
      pub left : pending state ≡ drop m (pending s)

    module _ (stream : IsStream kernel pending) where
      pub header-stream :
          (fuel m : ℕ) (hdr : List ℕ) (fds : List Fd) (s : S)
          → length hdr + m ≡ 4
          → m ≤ fuel
          → m ≤ length (pending s)
          → Filled m fuel hdr fds s
      header-stream fuel zero hdr fds s h enough there = record {
        state = s;
        answer =
            header_full fuel hdr fds s (omega (arith, h))
            ∙ ap (λ l. (some (ok (l, fds)), s)) (sym (append-nil hdr))
            ∙ ap (λ l. (some (ok (hdr ++ [], l)), s)) (sym (append-nil fds));
        left = refl;
      }
      header-stream zero (suc m) hdr fds s h enough there = absurd (omega (arith, enough))
      header-stream (suc fuel) (suc m) hdr fds s h enough there =
          let d = stream.delivers (suc m) s (omega arith) (omega (arith, there)) in
          let cs = take d.count (pending s) in
          let s1 = (kernel.recvmsg (suc m) s).1 in
          let j = suc m - d.count in
          let both : d.count + j ≡ suc m = omega (arith, d.asked) in
          let grown : length (hdr ++ bytes cs) ≡ length hdr + d.count =
            length-append hdr (bytes cs)
            ∙ ap (λ n. length hdr + n)
                (length-bytes cs ∙ length-take d.count (pending s) d.there) in
          let rest =
            header-stream fuel j (hdr ++ bytes cs) (fds ++ rights cs) s1
              (omega (arith, h, grown, d.asked)) (omega (arith, enough, d.progress))
              (subst (λ l. j ≤ length l) (sym d.left)
                (omega (arith, there, d.there, d.asked, length-drop d.count (pending s)))) in
          record {
            state = rest.state;
            answer =
                header_delivered fuel (suc m) hdr fds s d h (omega arith)
                ∙ rest.answer
                ∙ ap (λ p. (some (ok p), rest.state))
                    (joined d.count j (suc m) hdr fds (pending s) (pending s1) both d.left);
            left = rest.left ∙ ap (drop j) d.left ∙ drop_add d.count j (suc m) (pending s) both;
          }
