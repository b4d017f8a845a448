-- ===== src/Examples/Crypto.antt =====
-- src/auth/crypto.cpp on a short message and a short password.
use chat_system_cpp_chat_ser.Base.{
  ◌≡◌, refl, [], ◌∷◌, ◌++◌, arith, nat_eq, length, IsBytes, codes, bytes_beq, bytes_eq,
}
use chat_system_cpp_chat_ser.Auth.Sha256.{start, digest, hash}
use chat_system_cpp_chat_ser.Auth.Sha256.Absorb.{absorb}
use chat_system_cpp_chat_ser.Auth.Sha256.Padding.{pad, hash-pad}
use chat_system_cpp_chat_ser.Auth.Password.{
  pbkdf2_hmac_sha256, make_password_hash, verify_password_hash,
}
use chat_system_cpp_chat_ser.Auth.Password.Bounds.{pbkdf2-bounds}
use chat_system_cpp_chat_ser.Auth.Password.RoundTrip.{verify-make}

hash-pad_example :
    (hash (codes "abc") ≡ digest (absorb (start, []) (codes "abc" ++ pad 3)).0)
    × ((absorb (start, []) (codes "abc" ++ pad 3)).1 ≡ [])
hash-pad_example = hash-pad (codes "abc")

pbkdf2-bounds_example :
    (length (pbkdf2_hmac_sha256 (codes "pw") (codes "salt") 2 40) ≡ 40)
    × IsBytes (pbkdf2_hmac_sha256 (codes "pw") (codes "salt") 2 40)
pbkdf2-bounds_example = pbkdf2-bounds (codes "pw") (codes "salt") 2 40

verify-make_example :
    verify_password_hash (codes "pw") (make_password_hash (7 ∷ 200 ∷ []) (codes "pw") 3)
    ≡ bytes_beq
        (pbkdf2_hmac_sha256 (codes "pw") (7 ∷ 200 ∷ []) 3 32)
        (pbkdf2_hmac_sha256 (codes "pw") (7 ∷ 200 ∷ []) 3 32)
verify-make_example =
    verify-make (7 ∷ 200 ∷ []) (codes "pw") (codes "pw") 3 refl (omega arith, (omega arith, tt))
      (omega arith)
