-- ===== src/Db/Mysql/Instants.antt =====
-- The instants that the statements of src/db/repositories.cpp name.
use chat_system_cpp_chat_ser.Base.{
  ℕ, zero, suc, ◌+◌, ◌-◌, ◌*◌, ◌/◌, ◌%◌, ◌≤◌, ◌<◌, ◌≡◌, refl, sym, ap, ◌∙◌, ◌↔◌, ◌⊎◌, inl, inr, [],
  ◌∷◌, ◌++◌, append-nil, arith, ltb, if◌then◌else◌, Bool-cases, nat_beq, nat_eq, Bytes, codes,
  bytes_eq,
}
use mathlib.Core.Path.{ap₂}
use chat_system_cpp_chat_ser.Common.Numbers.{read_digits}
use chat_system_cpp_chat_ser.Common.Decimal.{to_string, write_digits}
use chat_system_cpp_chat_ser.Common.Decimal.RoundTrip.{read_digits-to_string, write_digits-append}
use chat_system_cpp_chat_ser.Db.Mysql.{render}
use chat_system_cpp_chat_ser.Db.Mysql.Messages.{instant}

-- The digits behind a decimal point, the first of which counts `weight`.
abbrev pub fraction : ℕ → Bytes → ℕ
fraction weight [] = 0
fraction weight (c ∷ cs) = (c - 48) * weight + fraction (weight / 10) cs

abbrev pub behind_point : Bytes → Bytes
behind_point [] = []
behind_point (c ∷ cs) = if nat_beq c 46 then cs else behind_point cs

-- How many milliseconds a decimal number of seconds is.
abbrev pub milliseconds : Bytes → ℕ
milliseconds s = read_digits 0 s * 1000 + fraction 100 (behind_point s)

behind_point-write_digits :
    (fuel n : ℕ) (acc : Bytes) → behind_point (write_digits fuel n acc) ≡ behind_point acc
unfolding write_digits
behind_point-write_digits zero n acc = refl
behind_point-write_digits (suc fuel) n acc =
    ground (arith, behind_point-write_digits fuel (n / 10) ((48 + n % 10) ∷ acc))

one_digit : (r fuel : ℕ) → r < 10 → write_digits (suc fuel) r [] ≡ (48 + r) ∷ []
unfolding write_digits
one_digit r fuel h = ground arith

two_digits :
    (r fuel : ℕ)
    → 10 ≤ r
    → r < 100
    → write_digits (suc (suc fuel)) r [] ≡ (48 + r / 10) ∷ (48 + r % 10) ∷ []
unfolding write_digits
two_digits r fuel low h = ground arith

three_digits :
    (r fuel : ℕ)
    → 100 ≤ r
    → r < 1000
    → write_digits (suc (suc (suc fuel))) r []
      ≡ (48 + r / 10 / 10) ∷ (48 + r / 10 % 10) ∷ (48 + r % 10) ∷ []
unfolding write_digits
three_digits r fuel low h = ground arith

fraction-to_string :
    (r : ℕ)
    → r < 1000
    → fraction 100 (to_string r) ≡ (if ltb r 10 then r * 100 else if ltb r 100 then r * 10 else r)
unfolding to_string
fraction-to_string r h = elim (Bool-cases (ltb r 10)) [
  | inl one ↦ ground (arith, one_digit r r)
  | inr more ↦ elim (Bool-cases (ltb r 100)) [
    | inl two ↦
        let e : r ≡ suc (r - 1) = ground arith in
        ground (arith, two_digits r (r - 1), ap (λ f. write_digits (suc f) r []) e)
    | inr three ↦
        let e : r ≡ suc (suc (r - 2)) = ground arith in
        ground (arith, three_digits r (r - 2), ap (λ f. write_digits (suc f) r []) e)
  ]
]

behind_point-to_string :
    (n : ℕ) (rest : Bytes) → behind_point (to_string n ++ rest) ≡ behind_point rest
unfolding to_string
behind_point-to_string n rest =
    ap behind_point (sym (write_digits-append (suc n) n [] rest))
    ∙ behind_point-write_digits (suc n) n rest

-- The instant that the statement names is the time of the message exactly if its milliseconds are
-- zero or have three digits: the fraction is printed without leading zeros.
pub milliseconds-instant :
    (escape : Bytes → Bytes) (ts : ℕ)
    → (milliseconds (render escape (instant ts [])) ≡ ts) ↔ ((ts % 1000 ≡ 0) ⊎ (100 ≤ ts % 1000))
unfolding render instant
milliseconds-instant escape ts =
    rw printed (between (ts / 1000) (ts % 1000) ts (omega arith) (omega arith))
  where
    r : Bytes
    r = codes "." ++ (to_string (ts % 1000) ++ [])

    printed :
        milliseconds (to_string (ts / 1000) ++ r)
        ≡ ts / 1000 * 1000
          + (if ltb (ts % 1000) 10
              then ts % 1000 * 100
              else if ltb (ts % 1000) 100
              then ts % 1000 * 10
              else ts % 1000)
    printed =
        ap₂ (λ a b. a * 1000 + b) (read_digits-to_string (ts / 1000) r refl)
          (ap (fraction 100)
              (behind_point-to_string (ts / 1000) r ∙ append-nil (to_string (ts % 1000)))
            ∙ fraction-to_string (ts % 1000) (omega arith))

    between :
        (s m t : ℕ)
        → t ≡ s * 1000 + m
        → m < 1000
        → (s * 1000 + (if ltb m 10 then m * 100 else if ltb m 100 then m * 10 else m) ≡ t)
          ↔ ((m ≡ 0) ⊎ (100 ≤ m))
    between s m t e h = ground arith
