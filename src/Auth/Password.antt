-- ===== src/Auth/Password.antt =====
-- src/auth/crypto.cpp, what stands on the hash: HMAC, PBKDF2, the records of passwords and the
-- tokens. What `random_bytes` fills is drawn beforehand, and stands in the arguments.
pub mod Hmac
pub mod Bounds
pub mod Compare
pub mod RoundTrip
use chat_system_cpp_chat_ser.Base.{
  ℕ, zero, suc, ◌+◌, ◌-◌, ◌%◌, ◌^◌, min, bit_or, bit_xor, Bool, false, not, ◌||◌, none, some, [],
  ◌∷◌, ◌++◌, map, ltb, if◌then◌else◌, nat_beq, nat_eq, length, is_empty, take, replicate, Bytes,
  bytes_eq,
}
use chat_system_cpp_chat_ser.Common.Config.{cut_at}
use chat_system_cpp_chat_ser.Common.Numbers.{stoul}
use chat_system_cpp_chat_ser.Common.Decimal.{to_string}
use chat_system_cpp_chat_ser.Common.Base64.{base64_encode, base64_decode}
use chat_system_cpp_chat_ser.Common.Hex.{hex_encode}
use chat_system_cpp_chat_ser.Auth.Sha256.{new_hash, update, finish, hash, store_be32}

-- The 64 bytes `k`: the key, or its hash where it is longer than a block, and zeros.
unfoldable pub block_key : Bytes → Bytes
unfolding hash
block_key key =
    let short = if ltb 64 (length key) then hash key else key in
    short ++ replicate (64 - length short) 0

unfoldable pub hmac_sha256 : Bytes → Bytes → Bytes
unfolding block_key update finish
hmac_sha256 key msg =
    let ipad = map (λ x. bit_xor x 0x36) (block_key key) in
    let opad = map (λ x. bit_xor x 0x5c) (block_key key) in
    let inner = finish (update msg (update ipad new_hash)) in
    finish (update inner (update opad new_hash))

-- t[j] ^= u[j]
unfoldable pub xor_bytes : Bytes → Bytes → Bytes
xor_bytes (x ∷ xs) (y ∷ ys) = bit_xor x y ∷ xor_bytes xs ys
xor_bytes _ _ = []

-- The rounds that are left of the loop over `iterations`, with `u` and `t`.
unfoldable pub more_rounds : Bytes → ℕ → Bytes → Bytes → Bytes
unfolding hmac_sha256 xor_bytes
more_rounds password zero u t = t
more_rounds password (suc n) u t =
    let u1 = hmac_sha256 password u in more_rounds password n u1 (xor_bytes t u1)

unfoldable pub pbkdf2_block : Bytes → Bytes → ℕ → ℕ → Bytes
unfolding more_rounds hmac_sha256 store_be32
pbkdf2_block password salt iterations block =
    let u = hmac_sha256 password (salt ++ store_be32 block) in
    more_rounds password (iterations - 1) u u

-- The loop over blocks, with the bytes that are missing; each round gives at least one of them, so
-- that `out_len` is enough fuel.
unfoldable pub pbkdf2_loop : ℕ → Bytes → Bytes → ℕ → ℕ → ℕ → Bytes
unfolding pbkdf2_block
pbkdf2_loop zero password salt iterations block missing = []
pbkdf2_loop (suc fuel) password salt iterations block zero = []
pbkdf2_loop (suc fuel) password salt iterations block (suc missing) =
    take (min 32 (suc missing)) (pbkdf2_block password salt iterations block)
    ++ pbkdf2_loop fuel password salt iterations ((block + 1) % 2 ^ 32) (suc missing - 32)

unfoldable pub pbkdf2_hmac_sha256 : Bytes → Bytes → ℕ → ℕ → Bytes
unfolding pbkdf2_loop
pbkdf2_hmac_sha256 password salt iterations out_len =
    pbkdf2_loop out_len password salt iterations 1 out_len

unfoldable pub make_password_hash : Bytes → Bytes → ℕ → Bytes
unfolding to_string pbkdf2_hmac_sha256 base64_encode
make_password_hash salt password iter =
    let dk = pbkdf2_hmac_sha256 password salt iter 32 in
    to_string iter ++ (b'$' ∷ (base64_encode salt ++ (b'$' ∷ base64_encode dk)))

-- diff |= got[i] ^ want[i]
unfoldable pub difference : Bytes → Bytes → ℕ → ℕ
difference (x ∷ got) (y ∷ want) diff = difference got want (bit_or diff (bit_xor x y))
difference _ _ diff = diff

-- The derived key `want` and its salt are decoded.
unfoldable pub verify_derived : Bytes → ℕ → Bytes → Bytes → Bool
unfolding pbkdf2_hmac_sha256 difference
verify_derived password iter salt want =
    let got = pbkdf2_hmac_sha256 password salt iter (length want) in
    if is_empty salt || is_empty want
    then false
    else if not (nat_beq (length got) (length want))
    then false
    else nat_beq (difference got want 0) 0

unfoldable pub verify_password_hash : Bytes → Bytes → Bool
unfolding cut_at stoul base64_decode verify_derived
verify_password_hash password stored = elim (cut_at b'$' stored) [
  | none ↦ false
  | some (iter_text, rest) ↦ elim (cut_at b'$' rest) [
    | none ↦ false
    | some (salt_text, want_text) ↦ elim (stoul iter_text) [
      | none ↦ false
      | some iter ↦
          verify_derived password (iter % 2 ^ 32) (base64_decode salt_text)
            (base64_decode want_text)
    ]
  ]
]

-- The 32 bytes are drawn beforehand.
unfoldable pub make_session_token : Bytes → Bytes
unfolding hex_encode
make_session_token drawn = hex_encode drawn
