-- ===== src/Common/Decimal.antt =====
-- Numbers as decimal text: std::to_string, and the same digits from an ostream.
pub mod RoundTrip
use chat_system_cpp_chat_ser.Base.{
  ℕ, zero, suc, ◌+◌, ◌/◌, ◌%◌, [], ◌∷◌, ltb, if◌then◌else◌, nat_eq, Bytes, bytes_eq,
}

-- The digits of n before those in acc. The fuel n + 1 is enough, since n / 10 < n.
unfoldable pub write_digits : ℕ → ℕ → Bytes → Bytes
write_digits zero n acc = acc
write_digits (suc fuel) n acc =
    let rest = write_digits fuel (n / 10) ((48 + n % 10) ∷ acc) in
    if ltb n 10 then (48 + n) ∷ acc else rest

unfoldable pub to_string : ℕ → Bytes
unfolding write_digits
to_string n = write_digits (suc n) n []
