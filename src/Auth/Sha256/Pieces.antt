-- ===== src/Auth/Sha256/Pieces.antt =====
-- A message in pieces, and what a digest is made of.
use chat_system_cpp_chat_ser.Base.{
  ℕ, ◌+◌, ◌-◌, ◌*◌, ◌%◌, ◌^◌, ◌<◌, ◌≡◌, refl, sym, ap, subst, ◌∙◌, List, [], ◌∷◌, ◌++◌, map, arith,
  nat_eq, length, replicate, length-append, flatten, All-append, Bytes, IsByte, IsBytes, codes,
  bytes_eq,
}
use chat_system_cpp_chat_ser.Auth.Sha256.{
  Sha256, State, new_hash, update, digest, finish, hash, store_be32, make_room, compress, be64,
}
use chat_system_cpp_chat_ser.Auth.Sha256.Absorb.{Core, absorb, absorb-append, update-absorb}
use chat_system_cpp_chat_ser.Auth.Sha256.Padding.{absorb-room}

-- There is room in the buffer.
abbrev pub IsOpen : Sha256 → Type 0
IsOpen s = length s.buf < 64

abbrev with_core : ℕ → Core → Sha256
with_core bits s = record { st = s.0; buf = s.1; bits = bits }

update-with_core :
    (m : Bytes) (s : Sha256)
    → IsOpen s
    → update m s ≡ with_core ((s.bits + length m * 8) % 2 ^ 64) (absorb (s.st, s.buf) m)
unfolding update
update-with_core m s room =
    ap (with_core ((s.bits + length m * 8) % 2 ^ 64)) (update-absorb m s room)

pub update-IsOpen : (m : Bytes) (s : Sha256) → IsOpen s → IsOpen (update m s)
update-IsOpen m s room =
    subst IsOpen (sym (update-with_core m s room)) (absorb-room (s.st, s.buf) m room)

-- Two pieces are their concatenation.
pub update-append :
    (xs ys : Bytes) (s : Sha256) → IsOpen s → update ys (update xs s) ≡ update (xs ++ ys) s
update-append xs ys s room =
    let s1 = update xs s in
    let e1 = update-with_core xs s room in
    let bits : (s1.bits + length ys * 8) % 2 ^ 64 ≡ (s.bits + length (xs ++ ys) * 8) % 2 ^ 64 =
      ap (λ u. (u.bits + length ys * 8) % 2 ^ 64) e1 ∙ omega (arith, length-append xs ys) in
    update-with_core ys s1 (update-IsOpen xs s room)
    ∙ ap (λ b. with_core b (absorb (s1.st, s1.buf) ys)) bits
    ∙ ap (with_core ((s.bits + length (xs ++ ys) * 8) % 2 ^ 64))
        (ap (λ u. absorb (u.st, u.buf) ys) e1 ∙ sym (absorb-append (s.st, s.buf) xs ys))
    ∙ sym (update-with_core (xs ++ ys) s room)

-- However a message is cut into two, the hash is the hash of the whole.
pub finish-pieces : (xs ys : Bytes) → finish (update ys (update xs new_hash)) ≡ hash (xs ++ ys)
unfolding hash
finish-pieces xs ys = ap finish (update-append xs ys new_hash (omega arith))

store_be32-IsBytes : (v : ℕ) → IsBytes (store_be32 v)
unfolding store_be32
store_be32-IsBytes v = (omega arith, (omega arith, (omega arith, (omega arith, tt))))

words-IsBytes : (vs : List ℕ) → IsBytes (flatten (map store_be32 vs))
words-IsBytes [] = tt
words-IsBytes (v ∷ vs) =
    All-append IsByte (store_be32 v) (flatten (map store_be32 vs)) (store_be32-IsBytes v)
      (words-IsBytes vs)

digest-IsBytes : (s : State) → IsBytes (digest s)
unfolding digest store_be32
digest-IsBytes s = words-IsBytes (s.a ∷ s.b ∷ s.c ∷ s.d ∷ s.e ∷ s.f ∷ s.g ∷ s.h ∷ [])

length-digest : (s : State) → length (digest s) ≡ 32
unfolding digest store_be32
length-digest s = refl

finish-bounds : (s : Sha256) → (length (finish s) ≡ 32) × IsBytes (finish s)
unfolding finish
finish-bounds s =
    let core = make_room s.st (s.buf ++ 0x80 ∷ []) in
    let last = compress core.0 (core.1 ++ (replicate (56 - length core.1) 0 ++ be64 s.bits)) in
    (length-digest last, digest-IsBytes last)

-- The bytes of a digest.
abbrev pub IsDigest : Bytes → Type 0
IsDigest bs = (length bs ≡ 32) × IsBytes bs

pub hash-IsDigest : (m : Bytes) → IsDigest (hash m)
unfolding hash
hash-IsDigest m = finish-bounds (update m new_hash)

abc :
    hash (codes "abc")
    ≡ 0xba ∷ 0x78 ∷ 0x16 ∷ 0xbf ∷ 0x8f ∷ 0x01 ∷ 0xcf ∷ 0xea ∷ 0x41 ∷ 0x41 ∷ 0x40 ∷ 0xde ∷ 0x5d
      ∷ 0xae ∷ 0x22 ∷ 0x23 ∷ 0xb0 ∷ 0x03 ∷ 0x61 ∷ 0xa3 ∷ 0x96 ∷ 0x17 ∷ 0x7a ∷ 0x9c ∷ 0xb4 ∷ 0x10
      ∷ 0xff ∷ 0x61 ∷ 0xf2 ∷ 0x00 ∷ 0x15 ∷ 0xad ∷ []
unfolding hash
abc = refl
