-- ===== src/Common/Base64.antt =====
-- `base64_encode` and `base64_decode` of src/common/util.cpp.
pub mod RoundTrip
use mathlib.Core.Option
use chat_system_cpp_chat_ser.Base.{
  ℕ, ◌+◌, ◌-◌, ◌*◌, ◌/◌, ◌%◌, ◌^◌, Bool, ◌||◌, Option, none, some, [], ◌∷◌, ◌++◌, map, leb,
  if◌then◌else◌, nat_beq, nat_eq, get_or, Bytes, codes, bytes_eq,
}

abbrev pub base64_chars : Bytes
base64_chars = codes "ABCDEFGHIJKLMNOPQRSTUVWXYZabcdefghijklmnopqrstuvwxyz0123456789+/"

-- kB64[n & 0x3F]
unfoldable pub base64_char : ℕ → ℕ
base64_char n = get_or base64_chars (n % 64) 0

-- A group of three bytes is a number `v` of 24 bits, cut into four; the last group may be shorter.
unfoldable pub base64_encode : Bytes → Bytes
base64_encode [] = []
base64_encode (a ∷ []) =
    let v = a * 2 ^ 16 in base64_char (v / 2 ^ 18) ∷ base64_char (v / 2 ^ 12) ∷ b'=' ∷ b'=' ∷ []
base64_encode (a ∷ b ∷ []) =
    let v = a * 2 ^ 16 + b * 2 ^ 8 in
    base64_char (v / 2 ^ 18) ∷ base64_char (v / 2 ^ 12) ∷ base64_char (v / 2 ^ 6) ∷ b'=' ∷ []
base64_encode (a ∷ b ∷ c ∷ rest) =
    let v = a * 2 ^ 16 + b * 2 ^ 8 + c in
    base64_char (v / 2 ^ 18)
    ∷ base64_char (v / 2 ^ 12)
    ∷ base64_char (v / 2 ^ 6)
    ∷ base64_char v
    ∷ base64_encode rest

-- The table T: the index of a character in kB64; -1 is `none`.
unfoldable pub index_of : ℕ → Bytes → ℕ → Option ℕ
index_of c [] i = none
index_of c (x ∷ xs) i = let rest = index_of c xs (i + 1) in if nat_beq x c then some i else rest

unfoldable pub base64_value : ℕ → Option ℕ
unfolding index_of
base64_value c = index_of c base64_chars 0

unfoldable pub is_skipped : ℕ → Bool
is_skipped c = nat_beq c b'=' || nat_beq c 10 || nat_beq c 13 || nat_beq c b' '

-- The variables of the loop.
pub record Decode : Type 0 where
  pub v : ℕ
  pub bits : ℕ
  pub out : Bytes

-- Six more bits; `v` is a uint32_t.
unfoldable pub take_bits : Decode → ℕ → Decode
take_bits d t =
    let v = (d.v * 64 + t) % 2 ^ 32 in
    let bits = d.bits + 6 in
    if leb 8 bits
    then record { v = v; bits = bits - 8; out = d.out ++ (v / 2 ^ (bits - 8) % 256) ∷ [] }
    else record { v = v; bits = bits; out = d.out }

-- One round of the loop; `none` is the return of an empty vector.
unfoldable pub decode_char : Decode → ℕ → Option Decode
unfolding base64_value is_skipped take_bits
decode_char d c = if is_skipped c then some d else Option.map (take_bits d) (base64_value c)

unfoldable pub decode_loop : Bytes → Decode → Bytes
unfolding decode_char
decode_loop [] d = d.out
decode_loop (c ∷ s) d = elim (decode_char d c) [ none ↦ [] | some d' ↦ decode_loop s d' ]

unfoldable pub base64_decode : Bytes → Bytes
unfolding decode_loop
base64_decode s = decode_loop s (record { v = 0; bits = 0; out = [] })
