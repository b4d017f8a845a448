-- ===== src/Common/Hex.antt =====
-- `hex_encode` and `hex_decode` of src/common/util.cpp.
pub mod RoundTrip
use chat_system_cpp_chat_ser.Base.{
  ℕ, ◌+◌, ◌-◌, ◌*◌, ◌/◌, ◌%◌, ◌&&◌, Option, none, some, [], ◌∷◌, leb, if◌then◌else◌, nat_beq,
  nat_eq, length, get_or, Bytes, codes, bytes_eq,
}

abbrev pub hex_digits : Bytes
hex_digits = codes "0123456789abcdef"

unfoldable pub hex_digit : ℕ → ℕ
hex_digit n = get_or hex_digits n 0

unfoldable pub hex_encode : Bytes → Bytes
hex_encode [] = []
hex_encode (b ∷ bs) = hex_digit (b / 16 % 16) ∷ hex_digit (b % 16) ∷ hex_encode bs

-- -1 is `none`.
unfoldable pub hex_val : ℕ → Option ℕ
hex_val c =
    if leb b'0' c && leb c b'9'
    then some (c - b'0')
    else if leb b'a' c && leb c b'f'
    then some (10 + (c - b'a'))
    else if leb b'A' c && leb c b'F'
    then some (10 + (c - b'A'))
    else none

-- One pair of digits in front of what the rest of the text gives; a digit that is none, here or
-- later, empties the result.
unfoldable pub join_digits : Option ℕ → Option ℕ → Option Bytes → Option Bytes
join_digits (some hi) (some lo) (some out) = some ((hi * 16 + lo) % 256 ∷ out)
join_digits _ _ _ = none

unfoldable pub hex_pairs : Bytes → Option Bytes
unfolding hex_val join_digits
hex_pairs [] = some []
hex_pairs (x ∷ []) = none
hex_pairs (x ∷ y ∷ rest) = join_digits (hex_val x) (hex_val y) (hex_pairs rest)

abbrev pub or_empty : Option Bytes → Bytes
or_empty none = []
or_empty (some out) = out

unfoldable pub hex_decode : Bytes → Bytes
unfolding hex_pairs
hex_decode s = if nat_beq (length s % 2) 0 then or_empty (hex_pairs s) else []
