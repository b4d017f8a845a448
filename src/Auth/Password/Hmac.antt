-- ===== src/Auth/Password/Hmac.antt =====
-- HMAC against RFC 2104, and the lengths and values of what is derived.
use chat_system_cpp_chat_ser.Base.{
  ℕ, ◌-◌, ◌≤◌, bit_xor, ◌≡◌, sym, ap, subst, ◌∙◌, inl, inr, ◌++◌, map, arith, ltb, if◌then◌else◌,
  Bool-cases, nat_eq, length, replicate, length-append, length-replicate, Bytes, bytes_eq,
}
use chat_system_cpp_chat_ser.Auth.Sha256.{new_hash, update, finish, hash}
use chat_system_cpp_chat_ser.Auth.Sha256.Pieces.{finish-pieces, hash-IsDigest, IsDigest}
use chat_system_cpp_chat_ser.Auth.Password.{block_key, hmac_sha256}

-- The inner hash of the padded key before the message, inside the outer hash of the padded key.
pub hmac_sha256_lem :
    (key msg : Bytes)
    → hmac_sha256 key msg
      ≡ hash (
          map (λ x. bit_xor x 0x5c) (block_key key)
          ++ hash (map (λ x. bit_xor x 0x36) (block_key key) ++ msg))
unfolding hmac_sha256
hmac_sha256_lem key msg =
    let ipad = map (λ x. bit_xor x 0x36) (block_key key) in
    let opad = map (λ x. bit_xor x 0x5c) (block_key key) in
    ap (λ i. finish (update i (update opad new_hash))) (finish-pieces ipad msg)
    ∙ finish-pieces opad (hash (ipad ++ msg))

short-fits : (key : Bytes) → length (if ltb 64 (length key) then hash key else key) ≤ 64
short-fits key = elim (Bool-cases (ltb 64 (length key))) [
  | inl long ↦ rw long (omega (arith, (hash-IsDigest key).0))
  | inr fits ↦ rw fits (ground arith)
]

pub block_key-length : (key : Bytes) → length (block_key key) ≡ 64
unfolding block_key
block_key-length key =
    let short = if ltb 64 (length key) then hash key else key in
    let fits : length short ≤ 64 = short-fits key in
    length-append short (replicate (64 - length short) 0)
    ∙ omega (arith, fits, length-replicate {A = ℕ} (64 - length short) 0)

pub hmac_sha256-IsDigest : (key msg : Bytes) → IsDigest (hmac_sha256 key msg)
hmac_sha256-IsDigest key msg =
    let ipad = map (λ x. bit_xor x 0x36) (block_key key) in
    let opad = map (λ x. bit_xor x 0x5c) (block_key key) in
    subst IsDigest (sym (hmac_sha256_lem key msg)) (hash-IsDigest (opad ++ hash (ipad ++ msg)))
