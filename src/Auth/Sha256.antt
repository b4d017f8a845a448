-- ===== src/Auth/Sha256.antt =====
-- src/auth/crypto.cpp, the hash: SHA-256 over bytes that come in pieces. A word is a uint32_t.
pub mod Absorb
pub mod Padding
pub mod Pieces
use chat_system_cpp_chat_ser.Base.{
  ℕ, zero, suc, ◌+◌, ◌-◌, ◌*◌, ◌/◌, ◌%◌, ◌^◌, min, bit_and, bit_or, bit_xor, true, false, List, [],
  ◌∷◌, ◌++◌, reverse, ltb, nat_beq, nat_eq, length, get_or, take, drop, replicate, Bytes, bytes_eq,
}

abbrev pub k : List ℕ
k =
    0x428a2f98 ∷ 0x71374491 ∷ 0xb5c0fbcf ∷ 0xe9b5dba5 ∷ 0x3956c25b ∷ 0x59f111f1 ∷ 0x923f82a4
    ∷ 0xab1c5ed5 ∷ 0xd807aa98 ∷ 0x12835b01 ∷ 0x243185be ∷ 0x550c7dc3 ∷ 0x72be5d74 ∷ 0x80deb1fe
    ∷ 0x9bdc06a7 ∷ 0xc19bf174 ∷ 0xe49b69c1 ∷ 0xefbe4786 ∷ 0x0fc19dc6 ∷ 0x240ca1cc ∷ 0x2de92c6f
    ∷ 0x4a7484aa ∷ 0x5cb0a9dc ∷ 0x76f988da ∷ 0x983e5152 ∷ 0xa831c66d ∷ 0xb00327c8 ∷ 0xbf597fc7
    ∷ 0xc6e00bf3 ∷ 0xd5a79147 ∷ 0x06ca6351 ∷ 0x14292967 ∷ 0x27b70a85 ∷ 0x2e1b2138 ∷ 0x4d2c6dfc
    ∷ 0x53380d13 ∷ 0x650a7354 ∷ 0x766a0abb ∷ 0x81c2c92e ∷ 0x92722c85 ∷ 0xa2bfe8a1 ∷ 0xa81a664b
    ∷ 0xc24b8b70 ∷ 0xc76c51a3 ∷ 0xd192e819 ∷ 0xd6990624 ∷ 0xf40e3585 ∷ 0x106aa070 ∷ 0x19a4c116
    ∷ 0x1e376c08 ∷ 0x2748774c ∷ 0x34b0bcb5 ∷ 0x391c0cb3 ∷ 0x4ed8aa4a ∷ 0x5b9cca4f ∷ 0x682e6ff3
    ∷ 0x748f82ee ∷ 0x78a5636f ∷ 0x84c87814 ∷ 0x8cc70208 ∷ 0x90befffa ∷ 0xa4506ceb ∷ 0xbef9a3f7
    ∷ 0xc67178f2 ∷ []

-- x >> n | x << (32 - n)
unfoldable pub ror : ℕ → ℕ → ℕ
ror x n = bit_or (x / 2 ^ n) (x * 2 ^ (32 - n) % 2 ^ 32)

-- The four shifted bytes share no bit, so that `|` adds them.
unfoldable pub load_be32 : ℕ → ℕ → ℕ → ℕ → ℕ
load_be32 p0 p1 p2 p3 = p0 * 2 ^ 24 + p1 * 2 ^ 16 + p2 * 2 ^ 8 + p3

unfoldable pub store_be32 : ℕ → Bytes
store_be32 v = v / 2 ^ 24 % 256 ∷ v / 2 ^ 16 % 256 ∷ v / 2 ^ 8 % 256 ∷ v % 256 ∷ []

-- The eight words `st_`.
pub record State : Type 0 where
  pub a : ℕ
  pub b : ℕ
  pub c : ℕ
  pub d : ℕ
  pub e : ℕ
  pub f : ℕ
  pub g : ℕ
  pub h : ℕ

-- `buf` is the first `blen_` bytes of `buf_`; what stands behind them is never read.
pub record Sha256 : Type 0 where
  pub st : State
  pub buf : Bytes
  pub bits : ℕ

abbrev pub start : State
start = record {
  a = 0x6a09e667;
  b = 0xbb67ae85;
  c = 0x3c6ef372;
  d = 0xa54ff53a;
  e = 0x510e527f;
  f = 0x9b05688c;
  g = 0x1f83d9ab;
  h = 0x5be0cd19;
}

abbrev pub new_hash : Sha256
new_hash = record { st = start; buf = []; bits = 0 }

-- W[0] to W[15]
unfoldable pub words_of : Bytes → List ℕ
unfolding load_be32
words_of (p0 ∷ p1 ∷ p2 ∷ p3 ∷ rest) = load_be32 p0 p1 p2 p3 ∷ words_of rest
words_of _ = []

-- W[i], where `ws` holds W[i - 1], W[i - 2] and so on.
unfoldable pub next_word : List ℕ → ℕ
unfolding ror
next_word ws =
    let w15 = get_or ws 14 0 in
    let w2 = get_or ws 1 0 in
    let s0 = bit_xor (bit_xor (ror w15 7) (ror w15 18)) (w15 / 2 ^ 3) in
    let s1 = bit_xor (bit_xor (ror w2 17) (ror w2 19)) (w2 / 2 ^ 10) in
    (get_or ws 15 0 + s0 + get_or ws 6 0 + s1) % 2 ^ 32

unfoldable pub extend : ℕ → List ℕ → List ℕ
unfolding next_word
extend zero ws = ws
extend (suc n) ws = extend n (next_word ws ∷ ws)

-- One round, with K[i] and W[i].
unfoldable pub round : ℕ → ℕ → State → State
unfolding ror
round ki wi s =
    let s1 = bit_xor (bit_xor (ror s.e 6) (ror s.e 11)) (ror s.e 25) in
    let ch = bit_xor (bit_and s.e s.f) (bit_and (2 ^ 32 - 1 - s.e) s.g) in
    let t1 = (s.h + s1 + ch + ki + wi) % 2 ^ 32 in
    let s0 = bit_xor (bit_xor (ror s.a 2) (ror s.a 13)) (ror s.a 22) in
    let mj = bit_xor (bit_xor (bit_and s.a s.b) (bit_and s.a s.c)) (bit_and s.b s.c) in
    let t2 = (s0 + mj) % 2 ^ 32 in
    record {
      a = (t1 + t2) % 2 ^ 32;
      b = s.a;
      c = s.b;
      d = s.c;
      e = (s.d + t1) % 2 ^ 32;
      f = s.e;
      g = s.f;
      h = s.g;
    }

unfoldable pub rounds : List ℕ → List ℕ → State → State
unfolding round
rounds (ki ∷ ks) (wi ∷ ws) s = rounds ks ws (round ki wi s)
rounds _ _ s = s

unfoldable pub compress : State → Bytes → State
unfolding words_of extend rounds
compress st block =
    let s = rounds k (reverse (extend 48 (reverse (words_of block)))) st in
    record {
      a = (st.a + s.a) % 2 ^ 32;
      b = (st.b + s.b) % 2 ^ 32;
      c = (st.c + s.c) % 2 ^ 32;
      d = (st.d + s.d) % 2 ^ 32;
      e = (st.e + s.e) % 2 ^ 32;
      f = (st.f + s.f) % 2 ^ 32;
      g = (st.g + s.g) % 2 ^ 32;
      h = (st.h + s.h) % 2 ^ 32;
    }

-- if (blen_ == 64) { compress(buf_); blen_ = 0; }
unfoldable pub settle : State → Bytes → State × Bytes
unfolding compress
settle st buf = elim (nat_beq (length buf) 64) [ true ↦ (compress st buf, []) | false ↦ (st, buf) ]

-- The loop of `update`, on fuel: each round takes at least one byte.
unfoldable pub update_loop : ℕ → Bytes → State × Bytes → State × Bytes
unfolding settle
update_loop zero input s = s
update_loop (suc fuel) [] s = s
update_loop (suc fuel) (x ∷ input) (st, buf) =
    let n = min (64 - length buf) (length (x ∷ input)) in
    update_loop fuel (drop n (x ∷ input)) (settle st (buf ++ take n (x ∷ input)))

unfoldable pub update : Bytes → Sha256 → Sha256
unfolding update_loop
update input s =
    let (st, buf) = update_loop (suc (length input)) input (s.st, s.buf) in
    record { st = st; buf = buf; bits = (s.bits + length input * 8) % 2 ^ 64 }

unfoldable pub digest : State → Bytes
unfolding store_be32
digest s =
    store_be32 s.a
    ++ (store_be32 s.b
        ++ (store_be32 s.c
            ++ (store_be32 s.d
                ++ (store_be32 s.e ++ (store_be32 s.f ++ (store_be32 s.g ++ store_be32 s.h))))))

-- bits_ >> (56 - 8 * i), for each i
unfoldable pub be64 : ℕ → Bytes
be64 n =
    n / 2 ^ 56 % 256
    ∷ n / 2 ^ 48 % 256
    ∷ n / 2 ^ 40 % 256
    ∷ n / 2 ^ 32 % 256
    ∷ n / 2 ^ 24 % 256
    ∷ n / 2 ^ 16 % 256
    ∷ n / 2 ^ 8 % 256
    ∷ n % 256
    ∷ []

-- if (blen_ > 56): the marker leaves no room for the length, which goes into a block of its own.
unfoldable pub make_room : State → Bytes → State × Bytes
unfolding compress
make_room st buf = elim (ltb 56 (length buf)) [
  | true ↦ (compress st (buf ++ replicate (64 - length buf) 0), [])
  | false ↦ (st, buf)
]

unfoldable pub finish : Sha256 → Bytes
unfolding make_room compress be64 digest
finish s =
    let (st, buf) = make_room s.st (s.buf ++ 0x80 ∷ []) in
    digest (compress st (buf ++ (replicate (56 - length buf) 0 ++ be64 s.bits)))

unfoldable pub hash : Bytes → Bytes
unfolding update finish
hash input = finish (update input new_hash)
