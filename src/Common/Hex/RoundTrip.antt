-- ===== src/Common/Hex/RoundTrip.antt =====
-- What `hex_encode` writes, `hex_decode` reads; and what `hex_encode` writes is text.
use chat_system_cpp_chat_ser.Base.{
  ℕ, ◌*◌, ◌/◌, ◌%◌, ◌<◌, ◌≡◌, refl, ap, ◌∙◌, Bool, true, false, Option, none, some, [], ◌∷◌, arith,
  if◌then◌else◌, nat_beq, nat_beq_iff, nat_eq, length, Bytes, IsBytes, bytes_eq,
}
use chat_system_cpp_chat_ser.Common.Tables.{first_pass, first_pass_at}
use chat_system_cpp_chat_ser.Common.Hex.{
  hex_digit, hex_encode, hex_val, hex_pairs, hex_decode, or_empty,
}

abbrev is_some_of : ℕ → Option ℕ → Bool
is_some_of n none = false
is_some_of n (some m) = nat_beq m n

hex_val_table : first_pass 16 (λ n. is_some_of n (hex_val (hex_digit n))) ≡ true
unfolding first_pass hex_val hex_digit
hex_val_table = refl

pub hex_val-hex_digit : (n : ℕ) → n < 16 → hex_val (hex_digit n) ≡ some n
hex_val-hex_digit n h =
    read (hex_val (hex_digit n))
      (first_pass_at 16 (λ k. is_some_of k (hex_val (hex_digit k))) n hex_val_table h)
  where
    read : (o : Option ℕ) → is_some_of n o ≡ true → o ≡ some n
    read none k = cc
    read (some m) k = ground arith

-- A byte takes two characters.
pub length-hex_encode : (bs : Bytes) → length (hex_encode bs) ≡ 2 * length bs
unfolding hex_encode
length-hex_encode [] = omega arith
length-hex_encode (b ∷ bs) = omega (arith, length-hex_encode bs)

hex_pairs-hex_encode : (bs : Bytes) → IsBytes bs → hex_pairs (hex_encode bs) ≡ some bs
unfolding hex_encode hex_pairs
hex_pairs-hex_encode [] h = refl
hex_pairs-hex_encode (b ∷ bs) h =
    ground
      (arith, hex_val-hex_digit (b / 16 % 16), hex_val-hex_digit (b % 16), hex_pairs-hex_encode bs)

-- Decoding the encoding of any bytes gives the bytes.
pub hex_decode-hex_encode : (bs : Bytes) → IsBytes bs → hex_decode (hex_encode bs) ≡ bs
unfolding hex_decode
hex_decode-hex_encode bs h =
    ap (λ t. if t then or_empty (hex_pairs (hex_encode bs)) else []) even
    ∙ ap or_empty (hex_pairs-hex_encode bs h)
  where
    even : nat_beq (length (hex_encode bs) % 2) 0 ≡ true
    even = (nat_beq_iff _ 0).1 (omega (arith, length-hex_encode bs))
