-- ===== src/Common/Base64/RoundTrip.antt =====
-- What `base64_encode` writes, `base64_decode` reads.
use mathlib.Core.Option
use chat_system_cpp_chat_ser.Base.{
  ℕ, ◌+◌, ◌*◌, ◌/◌, ◌%◌, ◌^◌, ◌<◌, ◌≡◌, refl, sym, ap, ◌∙◌, Bool, true, false, not, ◌&&◌, Option,
  none, some, [], ◌∷◌, ◌++◌, append_assoc, append-nil, arith, if◌then◌else◌, nat_beq, nat_eq,
  get_or, Bytes, IsBytes, bytes_eq,
}
use chat_system_cpp_chat_ser.Common.Tables.{first_pass, first_pass_at}
use chat_system_cpp_chat_ser.Common.Base64.{
  base64_char, base64_chars, base64_encode, base64_value, is_skipped, Decode, take_bits,
  decode_char, decode_loop, base64_decode,
}

abbrev reads_as : ℕ → Option ℕ → Bool
reads_as n none = false
reads_as n (some m) = nat_beq m n

char_table :
    first_pass 64
      (λ n. reads_as n (base64_value (base64_char n)) && not (is_skipped (base64_char n)))
    ≡ true
unfolding first_pass base64_value base64_char is_skipped
char_table = refl

-- A character of the alphabet stands for its index, and is not skipped.
decode_char-base64_char :
    (d : Decode) (n : ℕ) → n < 64 → decode_char d (base64_char n) ≡ some (take_bits d n)
unfolding decode_char
decode_char-base64_char d n h = read (base64_value (base64_char n)) (is_skipped (base64_char n)) (
    first_pass_at 64
      (λ k. reads_as k (base64_value (base64_char k)) && not (is_skipped (base64_char k))) n
      char_table h)
  where
    read :
        (o : Option ℕ) (b : Bool)
        → (reads_as n o && not b) ≡ true
        → (if b then some d else Option.map (take_bits d) o) ≡ some (take_bits d n)
    read none b k = cc
    read (some m) b k = ground arith

base64_char-mod : (n : ℕ) → base64_char n ≡ base64_char (n % 64)
unfolding base64_char
base64_char-mod n =
    let e : n % 64 ≡ n % 64 % 64 = omega arith in ap (λ k. get_or base64_chars k 0) e

decode_loop-base64_char :
    (d : Decode) (n : ℕ) (s : Bytes)
    → decode_loop (base64_char n ∷ s) d ≡ decode_loop s (take_bits d (n % 64))
unfolding decode_loop
decode_loop-base64_char d n s =
    ap (λ c. elim (decode_char d c) [ none ↦ [] | some d' ↦ decode_loop s d' ]) (base64_char-mod n)
    ∙ ap (elim [ none ↦ [] | some d' ↦ decode_loop s d' ])
        (decode_char-base64_char d (n % 64) (omega arith))

abbrev aligned : ℕ → Bytes → Decode
aligned v out = record { v = v; bits = 0; out = out }

-- The value of `v` after one more character.
abbrev shifted : ℕ → ℕ → ℕ
shifted v t = (v * 64 + t) % 2 ^ 32

-- What is put out after the second, third and fourth character of a group.
first_byte :
    (v w : ℕ)
    → shifted (shifted v (w / 2 ^ 18 % 64)) (w / 2 ^ 12 % 64) / 2 ^ 4 % 256 ≡ w / 2 ^ 16 % 256
first_byte v w = omega arith

second_byte :
    (v w : ℕ)
    → shifted (shifted v (w / 2 ^ 12 % 64)) (w / 2 ^ 6 % 64) / 2 ^ 2 % 256 ≡ w / 2 ^ 8 % 256
second_byte v w = omega arith

third_byte : (v w : ℕ) → shifted (shifted v (w / 2 ^ 6 % 64)) (w % 64) / 2 ^ 0 % 256 ≡ w % 256
third_byte v w = omega arith

-- The first two characters of a group give its first byte.
two_chars :
    (v w : ℕ) (out s : Bytes)
    → decode_loop (base64_char (w / 2 ^ 18) ∷ base64_char (w / 2 ^ 12) ∷ s) (aligned v out)
      ≡ decode_loop s (record {
        v = shifted (shifted v (w / 2 ^ 18 % 64)) (w / 2 ^ 12 % 64);
        bits = 4;
        out = out ++ w / 2 ^ 16 % 256 ∷ [];
      })
unfolding take_bits
two_chars v w out s =
    decode_loop-base64_char (aligned v out) (w / 2 ^ 18) (base64_char (w / 2 ^ 12) ∷ s)
    ∙ decode_loop-base64_char _ (w / 2 ^ 12) s
    ∙ ap
        (λ x. decode_loop s (record {
          v = shifted (shifted v (w / 2 ^ 18 % 64)) (w / 2 ^ 12 % 64);
          bits = 4;
          out = out ++ x ∷ [];
        }))
        (first_byte v w)

third_char :
    (v w : ℕ) (out s : Bytes)
    → decode_loop
        (base64_char (w / 2 ^ 6) ∷ s)
        (record { v = shifted v (w / 2 ^ 12 % 64); bits = 4; out = out })
      ≡ decode_loop s (record {
        v = shifted (shifted v (w / 2 ^ 12 % 64)) (w / 2 ^ 6 % 64);
        bits = 2;
        out = out ++ w / 2 ^ 8 % 256 ∷ [];
      })
unfolding take_bits
third_char v w out s =
    decode_loop-base64_char _ (w / 2 ^ 6) s
    ∙ ap
        (λ x. decode_loop s (record {
          v = shifted (shifted v (w / 2 ^ 12 % 64)) (w / 2 ^ 6 % 64);
          bits = 2;
          out = out ++ x ∷ [];
        }))
        (second_byte v w)

fourth_char :
    (v w : ℕ) (out s : Bytes)
    → decode_loop
        (base64_char w ∷ s)
        (record { v = shifted v (w / 2 ^ 6 % 64); bits = 2; out = out })
      ≡ decode_loop s
          (aligned (shifted (shifted v (w / 2 ^ 6 % 64)) (w % 64)) (out ++ w % 256 ∷ []))
unfolding take_bits
fourth_char v w out s =
    decode_loop-base64_char _ w s
    ∙ ap
        (λ x.
          decode_loop s (aligned (shifted (shifted v (w / 2 ^ 6 % 64)) (w % 64)) (out ++ x ∷ [])))
        (third_byte v w)

decode_loop_pad : (s : Bytes) (d : Decode) → decode_loop (b'=' ∷ s) d ≡ decode_loop s d
unfolding decode_loop
decode_loop_pad s d = refl

decode_loop-base64_encode :
    (bs : Bytes) (v : ℕ) (out : Bytes)
    → IsBytes bs
    → decode_loop (base64_encode bs) (aligned v out) ≡ out ++ bs
unfolding base64_encode
decode_loop-base64_encode [] v out h = unfold decode_loop in sym (append-nil out)
decode_loop-base64_encode (a ∷ []) v out h =
    two_chars v (a * 2 ^ 16) out _
    ∙ decode_loop_pad _ _
    ∙ decode_loop_pad _ _
    ∙ unfold decode_loop in ap (λ x. out ++ x ∷ []) (omega arith)
decode_loop-base64_encode (a ∷ b ∷ []) v out h =
    two_chars v (a * 2 ^ 16 + b * 2 ^ 8) out _
    ∙ third_char _ (a * 2 ^ 16 + b * 2 ^ 8) _ _
    ∙ decode_loop_pad _ _
    ∙ (unfold decode_loop in append_assoc out _ _ ∙ pair_eq (omega arith) (omega arith))
  where
    pair_eq : {x y : ℕ} → x ≡ a → y ≡ b → out ++ x ∷ y ∷ [] ≡ out ++ a ∷ b ∷ []
    pair_eq p q = cc
decode_loop-base64_encode (a ∷ b ∷ c ∷ rest) v out h =
    let w = a * 2 ^ 16 + b * 2 ^ 8 + c in
    two_chars v w out _
    ∙ third_char _ w _ _
    ∙ fourth_char _ w _ _
    ∙ decode_loop-base64_encode rest _ _ h.1.1.1
    ∙ simp append_assoc (
        three_eq {x = w / 2 ^ 16 % 256} {y = w / 2 ^ 8 % 256} {z = w % 256} (omega arith)
          (omega arith) (omega arith))
  where
    three_eq :
        {x y z : ℕ} → x ≡ a → y ≡ b → z ≡ c → out ++ x ∷ y ∷ z ∷ rest ≡ out ++ a ∷ b ∷ c ∷ rest
    three_eq p q r = cc

-- Decoding the encoding of any bytes gives the bytes.
pub base64_decode-base64_encode : (bs : Bytes) → IsBytes bs → base64_decode (base64_encode bs) ≡ bs
unfolding base64_decode
base64_decode-base64_encode bs h = decode_loop-base64_encode bs 0 [] h
