-- ===== src/Common/Decimal/RoundTrip.antt =====
-- A number that is written in decimal is read back.
use chat_system_cpp_chat_ser.Base.{
  ℕ, zero, suc, ◌+◌, ◌-◌, ◌*◌, ◌/◌, ◌%◌, ◌^◌, ◌<◌, ◌≡◌, refl, ap, ◌∙◌, inl, inr, true, false, some,
  [], ◌∷◌, ◌++◌, arith, ltb, Bool-cases, nat_eq, Bytes, bytes_eq,
}
use chat_system_cpp_chat_ser.Common.Util.{trim_start, isspace}
use chat_system_cpp_chat_ser.Common.Numbers.{
  read_digits, digits, sign_and_digits, Fit, is_digit, stoul, stoull, stoll, stoi, fit_unsigned,
  fit_signed,
}
use chat_system_cpp_chat_ser.Common.Decimal.{write_digits, to_string}

-- The text goes on with something else than a digit.
abbrev pub StopsAt : Bytes → Type 0
StopsAt [] = Unit {0}
StopsAt (c ∷ cs) = is_digit c ≡ false

read_digits-StopsAt : (n : ℕ) (rest : Bytes) → StopsAt rest → read_digits n rest ≡ n
unfolding read_digits
read_digits-StopsAt n [] h = refl
read_digits-StopsAt n (c ∷ cs) h = rw (h, read_digits)

pub write_digits-append :
    (fuel n : ℕ) (acc rest : Bytes)
    → write_digits fuel n (acc ++ rest) ≡ write_digits fuel n acc ++ rest
unfolding write_digits
write_digits-append zero n acc rest = refl
write_digits-append (suc fuel) n acc rest =
    ground (arith, write_digits-append fuel (n / 10) ((48 + n % 10) ∷ acc) rest)

read_digits-write_digits :
    (fuel n : ℕ) (acc : Bytes)
    → n < fuel
    → read_digits 0 (write_digits fuel n acc) ≡ read_digits n acc
unfolding read_digits write_digits
read_digits-write_digits zero n acc h = absurd (omega arith)
read_digits-write_digits (suc fuel) n acc h = ground (
  arith,
  read_digits-write_digits fuel (n / 10) ((48 + n % 10) ∷ acc),
  ap (λ m. read_digits m acc) {x = n / 10 * 10 + (48 + n % 10 - 48)} {y = n},
)

-- The first character is a digit.
abbrev StartsWithDigit : Bytes → Type 0
StartsWithDigit [] = ⊥
StartsWithDigit (c ∷ cs) = (is_digit c ≡ true)

write_digits-StartsWithDigit :
    (fuel n : ℕ) (acc : Bytes) → n < fuel → StartsWithDigit (write_digits fuel n acc)
unfolding write_digits
write_digits-StartsWithDigit zero n acc h = absurd (omega arith)
write_digits-StartsWithDigit (suc fuel) n acc h = elim (Bool-cases (ltb n 10)) [
  | inl small ↦ rw small (ground arith)
  | inr big ↦
      rw big (write_digits-StartsWithDigit fuel (n / 10) ((48 + n % 10) ∷ acc) (ground arith))
]

sign_and_digits-StartsWithDigit :
    (fit : Fit) (s : Bytes)
    → StartsWithDigit s
    → sign_and_digits fit (trim_start s) ≡ fit false (read_digits 0 s)
unfolding sign_and_digits digits trim_start isspace
sign_and_digits-StartsWithDigit fit [] h = absurd h
sign_and_digits-StartsWithDigit fit (c ∷ cs) h = ground arith

pub read_digits-to_string :
    (n : ℕ) (rest : Bytes) → StopsAt rest → read_digits 0 (to_string n ++ rest) ≡ n
unfolding to_string
read_digits-to_string n rest h =
    rw (← write_digits-append (suc n) n [] rest)
      (read_digits-write_digits (suc n) n rest (omega arith) ∙ read_digits-StopsAt n rest h)

read_to_string :
    (fit : Fit) (n : ℕ) (rest : Bytes)
    → StopsAt rest
    → sign_and_digits fit (trim_start (to_string n ++ rest)) ≡ fit false n
unfolding to_string
read_to_string fit n rest h = rw (← write_digits-append (suc n) n [] rest) (
    sign_and_digits-StartsWithDigit fit (write_digits (suc n) n rest)
      (write_digits-StartsWithDigit (suc n) n rest (omega arith))
    ∙ ap (fit false)
        (read_digits-write_digits (suc n) n rest (omega arith) ∙ read_digits-StopsAt n rest h))

pub stoul-to_string :
    (n : ℕ) (rest : Bytes) → n < 2 ^ 64 → StopsAt rest → stoul (to_string n ++ rest) ≡ some n
unfolding stoul
stoul-to_string n rest small h = read_to_string (fit_unsigned 64) n rest h ∙ ground arith

pub stoull-to_string :
    (n : ℕ) (rest : Bytes) → n < 2 ^ 64 → StopsAt rest → stoull (to_string n ++ rest) ≡ some n
unfolding stoull
stoull-to_string n rest small h = read_to_string (fit_unsigned 64) n rest h ∙ ground arith

pub stoll-to_string :
    (n : ℕ) (rest : Bytes) → n < 2 ^ 63 → StopsAt rest → stoll (to_string n ++ rest) ≡ some n
unfolding stoll
stoll-to_string n rest small h = read_to_string (fit_signed 64) n rest h ∙ ground arith

pub stoi-to_string :
    (n : ℕ) (rest : Bytes) → n < 2 ^ 31 → StopsAt rest → stoi (to_string n ++ rest) ≡ some n
unfolding stoi
stoi-to_string n rest small h = read_to_string (fit_signed 32) n rest h ∙ ground arith
