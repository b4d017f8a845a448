-- ===== src/Common/Random.antt =====
-- src/common/util.cpp: random_bytes, over what open and read answer for /dev/urandom and over the
-- numbers of the generator that stands in for it.
use chat_system_cpp_chat_ser.Base.{
  ℕ, zero, suc, ◌+◌, ◌-◌, ◌%◌, ◌^◌, bit_and, ◌≡◌, refl, Bool, ◌&&◌, List, [], ◌∷◌, ◌++◌, arith,
  if◌then◌else◌, nat_beq, nat_eq, length, is_empty, take, Bytes, bytes_eq,
}

-- The loop of reads, until n bytes are there; an empty answer stands for every one that is not
-- positive.
unfoldable pub read_urandom : ℕ → List Bytes → Bytes
read_urandom n [] = []
read_urandom n (r ∷ answers) =
    let chunk = take n r in
    let rest = read_urandom (n - length chunk) answers in
    if nat_beq n 0 then [] else if is_empty r then [] else chunk ++ rest

-- static_cast<std::uint8_t>(g() & 0xFF), n times; `g` counts the draws from `i` on.
unfoldable pub generated : (ℕ → ℕ) → ℕ → ℕ → Bytes
generated g i zero = []
generated g i (suc n) = (bit_and (g i) 255 % 2 ^ 8) ∷ generated g (i + 1) n

unfoldable pub random_bytes : Bool → List Bytes → (ℕ → ℕ) → ℕ → Bytes
unfolding read_urandom generated
random_bytes opened answers g n =
    let got = read_urandom n answers in
    if opened && nat_beq (length got) n then got else generated g 0 n

length-generated : (g : ℕ → ℕ) (i n : ℕ) → length (generated g i n) ≡ n
unfolding generated
length-generated g i zero = refl
length-generated g i (suc n) = ground (arith, length-generated g (i + 1) n)

-- However much of /dev/urandom can be read, all n bytes are filled.
pub length-random_bytes :
    (opened : Bool) (answers : List Bytes) (g : ℕ → ℕ) (n : ℕ)
    → length (random_bytes opened answers g n) ≡ n
unfolding random_bytes
length-random_bytes opened answers g n = ground (arith, length-generated g 0 n)
