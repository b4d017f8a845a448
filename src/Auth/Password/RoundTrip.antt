-- ===== src/Auth/Password/RoundTrip.antt =====
-- A record that `make_password_hash` writes, in the hands of `verify_password_hash`.
use chat_system_cpp_chat_ser.Base.{
  ℕ, zero, suc, ◌+◌, ◌/◌, ◌%◌, ◌^◌, ◌<◌, ◌≡◌, refl, sym, ap, subst, ◌∙◌, inl, inr, true, false, not,
  some, [], ◌∷◌, ◌++◌, append-nil, arith, ltb, Bool-cases, nat_beq, nat_eq, length, is_empty,
  get_or, All, Bytes, IsBytes, bytes_beq, bytes_eq,
}
use chat_system_cpp_chat_ser.Common.Tables.{first_pass, first_pass_at}
use chat_system_cpp_chat_ser.Common.Config.{cut_at}
use chat_system_cpp_chat_ser.Common.Numbers.{stoul}
use chat_system_cpp_chat_ser.Common.Decimal.{write_digits, to_string}
use chat_system_cpp_chat_ser.Common.Decimal.RoundTrip.{stoul-to_string}
use chat_system_cpp_chat_ser.Common.Base64.{base64_char, base64_chars, base64_encode, base64_decode}
use chat_system_cpp_chat_ser.Common.Base64.RoundTrip.{base64_decode-base64_encode}
use chat_system_cpp_chat_ser.Auth.Password.{
  pbkdf2_hmac_sha256, make_password_hash, verify_derived, verify_password_hash,
}
use chat_system_cpp_chat_ser.Auth.Password.Bounds.{pbkdf2-bounds}
use chat_system_cpp_chat_ser.Auth.Password.Compare.{difference_lem}

abbrev IsOther : ℕ → Type 0
IsOther c = nat_beq c b'$' ≡ false

-- Nothing in the text is a '$'.
abbrev IsPart : Bytes → Type 0
IsPart = All IsOther

cut_at-append : (xs ys : Bytes) → IsPart xs → cut_at b'$' (xs ++ b'$' ∷ ys) ≡ some (xs, ys)
unfolding cut_at
cut_at-append [] ys h = refl
cut_at-append (x ∷ xs) ys h = rw (h.0, cut_at-append xs ys h.1) refl

other_table : first_pass 64 (λ n. not (nat_beq (base64_char n) b'$')) ≡ true
unfolding first_pass base64_char
other_table = refl

base64_char-IsOther : (n : ℕ) → IsOther (base64_char n)
unfolding base64_char
base64_char-IsOther n =
    let small : n % 64 < 64 = omega arith in
    let same : base64_char n ≡ base64_char (n % 64) =
      ap (λ k. get_or base64_chars k 0) {x = n % 64} {y = n % 64 % 64} (omega arith) in
    let row =
      first_pass_at 64 (λ m. not (nat_beq (base64_char m) b'$')) (n % 64) other_table small in
    subst IsOther (sym same) (ground arith)

base64_encode-IsPart : (bs : Bytes) → IsPart (base64_encode bs)
unfolding base64_encode
base64_encode-IsPart [] = tt
base64_encode-IsPart (a ∷ []) = (base64_char-IsOther _, (base64_char-IsOther _, (refl, (refl, tt))))
base64_encode-IsPart (a ∷ b ∷ []) =
    (base64_char-IsOther _, (base64_char-IsOther _, (base64_char-IsOther _, (refl, tt))))
base64_encode-IsPart (a ∷ b ∷ c ∷ rest) = (
  base64_char-IsOther _,
  (
    base64_char-IsOther _,
    (base64_char-IsOther _, (base64_char-IsOther _, base64_encode-IsPart rest)),
  ),
)

write_digits-IsPart : (fuel n : ℕ) (acc : Bytes) → IsPart acc → IsPart (write_digits fuel n acc)
unfolding write_digits
write_digits-IsPart zero n acc h = h
write_digits-IsPart (suc fuel) n acc h = elim (Bool-cases (ltb n 10)) [
  | inl small ↦ rw small (ground arith, h)
  | inr big ↦ rw big (write_digits-IsPart fuel (n / 10) ((48 + n % 10) ∷ acc) (ground arith, h))
]

to_string-IsPart : (n : ℕ) → IsPart (to_string n)
unfolding to_string
to_string-IsPart n = write_digits-IsPart (suc n) n [] tt

verify_cut :
    (q iter_text salt_text want_text : Bytes) (iter : ℕ)
    → IsPart iter_text
    → IsPart salt_text
    → stoul iter_text ≡ some iter
    → verify_password_hash q (iter_text ++ (b'$' ∷ (salt_text ++ (b'$' ∷ want_text))))
      ≡ verify_derived q (iter % 2 ^ 32) (base64_decode salt_text) (base64_decode want_text)
unfolding verify_password_hash
verify_cut q iter_text salt_text want_text iter hi hs e =
    rw
      (
        verify_password_hash,
        cut_at-append iter_text (salt_text ++ (b'$' ∷ want_text)) hi,
        cut_at-append salt_text want_text hs,
        e,
      )
      refl

same_number : (m n : ℕ) → m ≡ n → nat_beq m n ≡ true
same_number m n h = ground arith

verify_derived_lem :
    (q salt want : Bytes) (iter : ℕ)
    → is_empty salt ≡ false
    → is_empty want ≡ false
    → IsBytes want
    → verify_derived q iter salt want
      ≡ bytes_beq (pbkdf2_hmac_sha256 q salt iter (length want)) want
unfolding verify_derived
verify_derived_lem q salt want iter es ew hw =
    let good = pbkdf2-bounds q salt iter (length want) in
    let e : nat_beq (length (pbkdf2_hmac_sha256 q salt iter (length want))) (length want) ≡ true =
      same_number _ _ good.0 in
    rw (verify_derived, es, ew, e)
      (difference_lem (pbkdf2_hmac_sha256 q salt iter (length want)) want good.1 hw good.0)

not_empty : (xs : Bytes) (n : ℕ) → length xs ≡ suc n → is_empty xs ≡ false
not_empty [] n h = absurd (omega arith)
not_empty (x ∷ xs) n h = refl

-- A password is accepted by the record of another one just where they derive the same key.
pub verify-make :
    (salt p q : Bytes) (iter : ℕ)
    → is_empty salt ≡ false
    → IsBytes salt
    → iter < 2 ^ 32
    → verify_password_hash q (make_password_hash salt p iter)
      ≡ bytes_beq (pbkdf2_hmac_sha256 q salt iter 32) (pbkdf2_hmac_sha256 p salt iter 32)
unfolding make_password_hash
verify-make salt p q iter es hs small =
    let want = pbkdf2_hmac_sha256 p salt iter 32 in
    let good = pbkdf2-bounds p salt iter 32 in
    let e : stoul (to_string iter) ≡ some iter =
      ap stoul (sym (append-nil (to_string iter))) ∙ stoul-to_string iter [] (omega arith) tt in
    let same : iter % 2 ^ 32 ≡ iter = omega arith in
    verify_cut q (to_string iter) (base64_encode salt) (base64_encode want) iter
      (to_string-IsPart iter) (base64_encode-IsPart salt) e
    ∙ ap
        (λ i.
          verify_derived q i (base64_decode (base64_encode salt))
            (base64_decode (base64_encode want)))
        same
    ∙ ap (λ s. verify_derived q iter s (base64_decode (base64_encode want)))
        (base64_decode-base64_encode salt hs)
    ∙ ap (verify_derived q iter salt) (base64_decode-base64_encode want good.1)
    ∙ verify_derived_lem q salt want iter es (not_empty want 31 good.0) good.1
    ∙ ap (λ n. bytes_beq (pbkdf2_hmac_sha256 q salt iter n) want) good.0
