-- ===== src/Common/Numbers.antt =====
-- std::stoll, std::stoi and std::stoul, as src/common/config.cpp and src/protocol/messages.cpp call
-- them: white space, a sign, digits, and anything behind. An exception, where there is no digit or
-- the number does not fit, is none.
use chat_system_cpp_chat_ser.Base.{
  ℕ, ◌+◌, ◌-◌, ◌*◌, ◌%◌, ◌^◌, Bool, true, false, ◌&&◌, Option, none, some, [], ◌∷◌, ltb, leb,
  if◌then◌else◌, nat_beq, nat_eq, Bytes, bytes_eq,
}
use chat_system_cpp_chat_ser.Common.Util.{trim_start}

abbrev pub is_digit : ℕ → Bool
is_digit c = leb 48 c && leb c 57

unfoldable pub read_digits : ℕ → Bytes → ℕ
read_digits acc [] = acc
read_digits acc (c ∷ cs) = elim (is_digit c) [
  | false ↦ acc
  | true ↦ read_digits (acc * 10 + (c - 48)) cs
]

-- A magnitude and whether it is negative, as the word of the type, if it fits.
abbrev pub Fit : Type 0
Fit = Bool → ℕ → Option ℕ

unfoldable pub digits : Fit → Bool → Bytes → Option ℕ
unfolding read_digits
digits fit negative [] = none
digits fit negative (c ∷ cs) = if is_digit c then fit negative (read_digits 0 (c ∷ cs)) else none

unfoldable pub sign_and_digits : Fit → Bytes → Option ℕ
unfolding digits
sign_and_digits fit [] = none
sign_and_digits fit (c ∷ cs) =
    if nat_beq c 45
    then digits fit true cs
    else if nat_beq c 43
    then digits fit false cs
    else digits fit false (c ∷ cs)

-- A signed integer of w bits.
abbrev pub fit_signed : ℕ → Fit
fit_signed w false n = if ltb n (2 ^ (w - 1)) then some n else none
fit_signed w true n = if leb n (2 ^ (w - 1)) then some ((2 ^ w - n) % 2 ^ w) else none

-- An unsigned long: strtoul negates what has a minus sign.
abbrev pub fit_unsigned : ℕ → Fit
fit_unsigned w negative n =
    if ltb n (2 ^ w) then some (if negative then (2 ^ w - n) % 2 ^ w else n) else none

unfoldable pub stoll : Bytes → Option ℕ
unfolding sign_and_digits
stoll s = sign_and_digits (fit_signed 64) (trim_start s)

unfoldable pub stoi : Bytes → Option ℕ
unfolding sign_and_digits
stoi s = sign_and_digits (fit_signed 32) (trim_start s)

unfoldable pub stoul : Bytes → Option ℕ
unfolding sign_and_digits
stoul s = sign_and_digits (fit_unsigned 64) (trim_start s)

unfoldable pub stoull : Bytes → Option ℕ
unfolding sign_and_digits
stoull s = sign_and_digits (fit_unsigned 64) (trim_start s)
