-- ===== src/Auth/Sha256/Padding.antt =====
-- `finish` against the padding of RFC 6234: the whole message, padded, in blocks.
use chat_system_cpp_chat_ser.Base.{
  ℕ, zero, suc, ◌+◌, ◌-◌, ◌*◌, ◌%◌, ◌^◌, ◌≤◌, ◌<◌, ◌≡◌, refl, sym, ap, ◌∙◌, inl, inr, true, false,
  [], ◌∷◌, ◌++◌, append_assoc, arith, ltb, Bool-cases, nat_eq, length, replicate, length-append,
  length-replicate, Bytes, bytes_eq,
}
use chat_system_cpp_chat_ser.Auth.Sha256.{
  Sha256, State, start, new_hash, compress, settle, update, digest, be64, make_room, finish, hash,
}
use chat_system_cpp_chat_ser.Auth.Sha256.Absorb.{
  Core, push, absorb, absorb-append, settle_full, settle_short, absorb_full, settle-room,
  update-absorb,
}

-- A one bit, zeros up to eight bytes before the end of a block, and the length in bits.
unfoldable pub pad : ℕ → Bytes
unfolding be64
pad n = 0x80 ∷ (replicate ((119 - n % 64) % 64) 0 ++ be64 (n * 8 % 2 ^ 64))

pub absorb-room : (s : Core) (xs : Bytes) → length s.1 < 64 → length (absorb s xs).1 < 64
unfolding absorb push
absorb-room s [] h = h
absorb-room s (x ∷ xs) h =
    absorb-room (push s x) xs
      (settle-room s.0 (s.1 ++ x ∷ []) (omega (arith, length-append {0} s.1 (x ∷ []))))

settle-length :
    (st : State) (buf : Bytes) → length buf ≤ 64 → length (settle st buf).1 ≡ length buf % 64
settle-length st buf h = elim (Bool-cases (ltb (length buf) 64)) [
  | inl lt ↦
      let less : length buf < 64 = ground arith in
      ap (λ s. length s.1) (settle_short st buf less) ∙ omega arith
  | inr ge ↦
      let full : length buf ≡ 64 = ground arith in
      ap (λ s. length s.1) (settle_full st buf full) ∙ omega arith
]

absorb-length :
    (s : Core) (xs : Bytes)
    → length s.1 < 64
    → length (absorb s xs).1 ≡ (length s.1 + length xs) % 64
unfolding absorb push
absorb-length s [] h = omega arith
absorb-length s (x ∷ xs) h =
    let len : length (s.1 ++ x ∷ []) ≡ length s.1 + 1 = length-append s.1 (x ∷ []) in
    let small : length (s.1 ++ x ∷ []) ≤ 64 = omega (arith, len) in
    let e = settle-length s.0 (s.1 ++ x ∷ []) small in
    absorb-length (push s x) xs (settle-room s.0 (s.1 ++ x ∷ []) small) ∙ omega (arith, e, len)

length-be64 : (n : ℕ) → length (be64 n) ≡ 8
unfolding be64
length-be64 n = refl

make_room_short : (st : State) (buf : Bytes) → length buf ≤ 56 → make_room st buf ≡ (st, buf)
unfolding make_room
make_room_short st buf h =
    let e : ltb 56 (length buf) ≡ false = ground arith in rw (e, make_room) refl

make_room_long :
    (st : State) (buf : Bytes)
    → 56 < length buf
    → make_room st buf ≡ (compress st (buf ++ replicate (64 - length buf) 0), [])
unfolding make_room
make_room_long st buf h =
    let e : ltb 56 (length buf) ≡ true = ground arith in rw (e, make_room) refl

-- What `finish` does with the buffer that `make_room` leaves.
abbrev close : ℕ → Core → Bytes
close bits s = digest (compress s.0 (s.1 ++ (replicate (56 - length s.1) 0 ++ be64 bits)))

finish-close : (s : Sha256) → finish s ≡ close s.bits (make_room s.st (s.buf ++ 0x80 ∷ []))
unfolding finish
finish-close s = refl

-- The marker, the zeros and the length end a block together.
close-short :
    (st : State) (buf : Bytes) (bits : ℕ)
    → length buf ≤ 55
    → close bits (make_room st (buf ++ 0x80 ∷ []))
      ≡ digest (absorb (st, buf) (0x80 ∷ (replicate (55 - length buf) 0 ++ be64 bits))).0
close-short st buf bits h =
    let len = length-append buf (0x80 ∷ []) in
    let tail = 0x80 ∷ (replicate (55 - length buf) 0 ++ be64 bits) in
    let zeros : 56 - length (buf ++ 0x80 ∷ []) ≡ 55 - length buf = omega (arith, len) in
    let fits : length buf + length tail ≡ 64 = omega (
      arith,
      length-append {0} (replicate (55 - length buf) 0) (be64 bits),
      length-replicate {A = ℕ} (55 - length buf) 0,
      length-be64 bits,
    ) in
    ap (close bits) (make_room_short st (buf ++ 0x80 ∷ []) (omega (arith, len)))
    ∙ ap (λ z. digest (compress st ((buf ++ 0x80 ∷ []) ++ (replicate z 0 ++ be64 bits)))) zeros
    ∙ ap (λ b. digest (compress st b)) (append_assoc buf (0x80 ∷ []) _)
    ∙ sym (ap (λ s. digest s.0) (absorb_full st buf tail (omega arith) fits))

-- The length goes into a block of its own.
close-long :
    (st : State) (buf : Bytes) (bits : ℕ)
    → 56 ≤ length buf
    → length buf < 64
    → close bits (make_room st (buf ++ 0x80 ∷ []))
      ≡ digest
          (absorb
            (st, buf)
            ((0x80 ∷ replicate (63 - length buf) 0) ++ (replicate 56 0 ++ be64 bits))).0
close-long st buf bits h room =
    let len = length-append buf (0x80 ∷ []) in
    let first : Bytes = 0x80 ∷ replicate (63 - length buf) 0 in
    let zeros : 64 - length (buf ++ 0x80 ∷ []) ≡ 63 - length buf = omega (arith, len) in
    let block = compress st (buf ++ first) in
    let full : absorb (st, buf) first ≡ (block, []) =
      absorb_full st buf first room (omega (arith, length-replicate {A = ℕ} (63 - length buf) 0)) in
    let eight : length (replicate {A = ℕ} 56 0 ++ be64 bits) ≡ 64 =
      length-append (replicate {A = ℕ} 56 0) (be64 bits) ∙ ap (λ m. 56 + m) (length-be64 bits) in
    let last : absorb (block, []) (replicate 56 0 ++ be64 bits)
        ≡ (compress block (replicate 56 0 ++ be64 bits), []) =
      absorb_full block [] (replicate 56 0 ++ be64 bits) (omega arith) (omega (arith, eight)) in
    ap (close bits) (make_room_long st (buf ++ 0x80 ∷ []) (omega (arith, len)))
    ∙ ap (λ z. close bits (compress st ((buf ++ 0x80 ∷ []) ++ replicate z 0), [])) zeros
    ∙ ap (λ b. close bits (compress st b, [])) (append_assoc buf (0x80 ∷ []) _)
    ∙ sym (
        ap (λ s. digest s.0)
          (absorb-append (st, buf) first (replicate 56 0 ++ be64 bits)
            ∙ ap (λ s. absorb s (replicate 56 0 ++ be64 bits)) full
            ∙ last))

replicate-add : (m n x : ℕ) → replicate (m + n) x ≡ replicate m x ++ replicate n x
replicate-add zero n x = ap (λ z. replicate z x) {x = zero + n} {y = n} (omega arith)
replicate-add (suc m) n x =
    ap (λ z. replicate z x) {x = suc m + n} {y = suc (m + n)} (omega arith)
    ∙ ap (λ xs. x ∷ xs) (replicate-add m n x)

-- What `finish` does with a buffer is what the padding does.
finish-absorb :
    (st : State) (buf : Bytes) (bits n : ℕ)
    → length buf < 64
    → length buf ≡ n % 64
    → bits ≡ n * 8 % 2 ^ 64
    → finish (record { st = st; buf = buf; bits = bits }) ≡ digest (absorb (st, buf) (pad n)).0
unfolding pad
finish-absorb st buf bits n room e b =
    finish-close (record { st = st; buf = buf; bits = bits })
    ∙ elim (Bool-cases (ltb (length buf) 56)) [
      | inl lt ↦
          let z : 55 - length buf ≡ (119 - n % 64) % 64 = ground arith in
          close-short st buf bits (ground arith)
          ∙ ap (λ m. digest (absorb (st, buf) (0x80 ∷ (replicate m 0 ++ be64 bits))).0) z
          ∙ ap
              (λ m.
                digest (absorb (st, buf) (0x80 ∷ (replicate ((119 - n % 64) % 64) 0 ++ be64 m))).0)
              b
      | inr ge ↦
          let z : 63 - length buf + 56 ≡ (119 - n % 64) % 64 = ground arith in
          close-long st buf bits (ground arith) room
          ∙ ap (λ xs. digest (absorb (st, buf) (0x80 ∷ xs)).0)
              (sym (append_assoc (replicate (63 - length buf) 0) (replicate 56 0) (be64 bits))
                ∙ ap (λ xs. xs ++ be64 bits)
                    (sym (replicate-add (63 - length buf) 56 0) ∙ ap (λ m. replicate m 0) z)
                ∙ ap (λ m. replicate ((119 - n % 64) % 64) 0 ++ be64 m) b)
    ]

length-pad : (n : ℕ) → length (pad n) ≡ 9 + (119 - n % 64) % 64
unfolding pad
length-pad n =
    let zeros : Bytes = replicate ((119 - n % 64) % 64) 0 in
    omega (
      arith,
      length-append zeros (be64 (n * 8 % 2 ^ 64)),
      length-replicate {A = ℕ} ((119 - n % 64) % 64) 0,
      length-be64 (n * 8 % 2 ^ 64),
    )

empty : (xs : Bytes) → length xs ≡ 0 → xs ≡ []
empty [] h = refl
empty (x ∷ xs) h = absurd (omega arith)

update_bits : (m : Bytes) → (update m new_hash).bits ≡ length m * 8 % 2 ^ 64
unfolding update
update_bits m = omega arith

finish-update :
    (m : Bytes) → finish (update m new_hash) ≡ digest (absorb (start, []) (m ++ pad (length m))).0
finish-update m =
    let u = update m new_hash in
    let n = length m in
    let e = update-absorb m new_hash (omega arith) in
    let len : length u.buf ≡ n % 64 =
      ap (λ s. length s.1) e ∙ absorb-length (start, []) m (omega arith) ∙ omega arith in
    let bits : u.bits ≡ n * 8 % 2 ^ 64 = update_bits m in
    finish-absorb u.st u.buf u.bits n (omega (arith, len)) len bits
    ∙ ap (λ s. digest (absorb s (pad n)).0) e
    ∙ sym (ap (λ s. digest s.0) (absorb-append (start, []) m (pad n)))

-- The message with its padding has whole blocks, and `hash` is what their compression leaves.
pub hash-pad :
    (m : Bytes)
    → (hash m ≡ digest (absorb (start, []) (m ++ pad (length m))).0)
      × ((absorb (start, []) (m ++ pad (length m))).1 ≡ [])
unfolding hash
hash-pad m =
    let len = length-append m (pad (length m)) in
    (
      finish-update m,
      empty (absorb (start, []) (m ++ pad (length m))).1 (
          absorb-length (start, []) (m ++ pad (length m)) (omega arith)
          ∙ omega (arith, len, length-pad (length m))),
    )
