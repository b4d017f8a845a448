-- ===== src/Auth/Password/Bounds.antt =====
-- The lengths and the bytes of what PBKDF2 derives.
use chat_system_cpp_chat_ser.Base.{
  ℕ, zero, suc, ◌+◌, ◌-◌, ◌%◌, ◌^◌, ◌≤◌, min, bit_xor, ◌≡◌, refl, ◌∙◌, Bool, true, [], ◌∷◌, ◌++◌,
  arith, ltb, nat_eq, length, take, length-append, length-take, All-append, Bytes, IsByte, IsBytes,
  bytes_eq,
}
use chat_system_cpp_chat_ser.Common.Tables.{first_pass, first_pass_at}
use chat_system_cpp_chat_ser.Auth.Sha256.{store_be32}
use chat_system_cpp_chat_ser.Auth.Sha256.Pieces.{IsDigest}
use chat_system_cpp_chat_ser.Auth.Password.Hmac.{hmac_sha256-IsDigest}
use chat_system_cpp_chat_ser.Auth.Password.{
  hmac_sha256, xor_bytes, more_rounds, pbkdf2_block, pbkdf2_loop, pbkdf2_hmac_sha256,
}

abbrev row_passes : ℕ → Bool
row_passes x = first_pass 256 (λ y. ltb (bit_xor x y) 256)

xor_table : first_pass 256 row_passes ≡ true
unfolding first_pass
xor_table = refl

xor-IsByte : (x y : ℕ) → IsByte x → IsByte y → IsByte (bit_xor x y)
xor-IsByte x y hx hy =
    let row : row_passes x ≡ true = first_pass_at 256 row_passes x xor_table hx in
    let here = first_pass_at 256 (λ z. ltb (bit_xor x z) 256) y row hy in ground arith

xor_bytes-IsBytes : (xs ys : Bytes) → IsBytes xs → IsBytes ys → IsBytes (xor_bytes xs ys)
unfolding xor_bytes
xor_bytes-IsBytes [] ys hx hy = tt
xor_bytes-IsBytes (x ∷ xs) [] hx hy = tt
xor_bytes-IsBytes (x ∷ xs) (y ∷ ys) hx hy =
    (xor-IsByte x y hx.0 hy.0, xor_bytes-IsBytes xs ys hx.1 hy.1)

length-xor_bytes : (xs ys : Bytes) → length xs ≡ length ys → length (xor_bytes xs ys) ≡ length xs
unfolding xor_bytes
length-xor_bytes [] ys h = refl
length-xor_bytes (x ∷ xs) [] h = absurd (omega arith)
length-xor_bytes (x ∷ xs) (y ∷ ys) h = omega (arith, length-xor_bytes xs ys (omega arith))

more_rounds-IsDigest :
    (password : Bytes) (n : ℕ) (u t : Bytes)
    → IsDigest u
    → IsDigest t
    → IsDigest (more_rounds password n u t)
unfolding more_rounds
more_rounds-IsDigest password zero u t hu ht = ht
more_rounds-IsDigest password (suc n) u t hu ht =
    let u1 = hmac_sha256 password u in
    let hu1 = hmac_sha256-IsDigest password u in
    more_rounds-IsDigest password n u1 (xor_bytes t u1) hu1
      (length-xor_bytes t u1 (omega (arith, hu1.0, ht.0)) ∙ ht.0, xor_bytes-IsBytes t u1 ht.1 hu1.1)

pbkdf2_block-IsDigest :
    (password salt : Bytes) (iterations block : ℕ)
    → IsDigest (pbkdf2_block password salt iterations block)
unfolding pbkdf2_block
pbkdf2_block-IsDigest password salt iterations block =
    let h = hmac_sha256-IsDigest password (salt ++ store_be32 block) in
    more_rounds-IsDigest password (iterations - 1) (hmac_sha256 password (salt ++ store_be32 block))
      (hmac_sha256 password (salt ++ store_be32 block)) h h

take-IsBytes : (n : ℕ) (xs : Bytes) → IsBytes xs → IsBytes (take n xs)
take-IsBytes zero xs h = tt
take-IsBytes (suc n) [] h = tt
take-IsBytes (suc n) (x ∷ xs) h = (h.0, take-IsBytes n xs h.1)

pbkdf2_loop-bounds :
    (fuel : ℕ) (password salt : Bytes) (iterations block missing : ℕ)
    → missing ≤ fuel
    → (length (pbkdf2_loop fuel password salt iterations block missing) ≡ missing)
      × IsBytes (pbkdf2_loop fuel password salt iterations block missing)
unfolding pbkdf2_loop
pbkdf2_loop-bounds zero password salt iterations block missing h = (omega arith, tt)
pbkdf2_loop-bounds (suc fuel) password salt iterations block zero h = (refl, tt)
pbkdf2_loop-bounds (suc fuel) password salt iterations block (suc missing) h =
    let here = pbkdf2_block password salt iterations block in
    let good = pbkdf2_block-IsDigest password salt iterations block in
    let n = min 32 (suc missing) in
    let rest =
      pbkdf2_loop fuel password salt iterations ((block + 1) % 2 ^ 32) (suc missing - 32) in
    let later =
      pbkdf2_loop-bounds fuel password salt iterations ((block + 1) % 2 ^ 32) (suc missing - 32)
        (omega arith) in
    (
      length-append (take n here) rest ∙ omega (arith, length-take {0} n here, good.0, later.0),
      All-append IsByte (take n here) rest (take-IsBytes n here good.1) later.1,
    )

-- As many bytes as were asked for.
pub pbkdf2-bounds :
    (password salt : Bytes) (iterations out_len : ℕ)
    → (length (pbkdf2_hmac_sha256 password salt iterations out_len) ≡ out_len)
      × IsBytes (pbkdf2_hmac_sha256 password salt iterations out_len)
unfolding pbkdf2_hmac_sha256
pbkdf2-bounds password salt iterations out_len =
    pbkdf2_loop-bounds out_len password salt iterations 1 out_len (omega arith)
