-- ===== src/Auth/Password/Compare.antt =====
-- The comparison that does not stop early, against equality.
use chat_system_cpp_chat_ser.Base.{
  ℕ, ◌<◌, bit_or, bit_xor, ◌≡◌, refl, ◌∙◌, Bool, true, false, not, ◌&&◌, [], ◌∷◌, arith, ltb,
  if◌then◌else◌, nat_beq, nat_eq, length, Bytes, IsByte, IsBytes, bytes_beq, bytes_eq,
}
use chat_system_cpp_chat_ser.Common.Tables.{first_pass, first_pass_at}
use chat_system_cpp_chat_ser.Auth.Password.{difference}

-- Both numbers are zero, or one of them is not and their union is not.
abbrev or_passes : ℕ → ℕ → Bool
or_passes x y =
    ltb (bit_or x y) 256
    && (if nat_beq x 0 && nat_beq y 0 then nat_beq (bit_or x y) 0 else not (nat_beq (bit_or x y) 0))

abbrev xor_passes : ℕ → ℕ → Bool
xor_passes x y =
    ltb (bit_xor x y) 256
    && (if nat_beq x y then nat_beq (bit_xor x y) 0 else not (nat_beq (bit_xor x y) 0))

or_table : first_pass 256 (λ x. first_pass 256 (or_passes x)) ≡ true
unfolding first_pass
or_table = refl

xor_table : first_pass 256 (λ x. first_pass 256 (xor_passes x)) ≡ true
unfolding first_pass
xor_table = refl

at_pair :
    (test : ℕ → ℕ → Bool) (x y : ℕ)
    → first_pass 256 (λ a. first_pass 256 (test a)) ≡ true
    → IsByte x
    → IsByte y
    → test x y ≡ true
at_pair test x y passed hx hy =
    first_pass_at 256 (test x) y (first_pass_at 256 (λ a. first_pass 256 (test a)) x passed hx) hy

bit_or-zero :
    (x y : ℕ)
    → IsByte x
    → IsByte y
    → (bit_or x y < 256) × (nat_beq (bit_or x y) 0 ≡ (nat_beq x 0 && nat_beq y 0))
bit_or-zero x y hx hy =
    let row = at_pair or_passes x y or_table hx hy in (ground arith, ground arith)

bit_xor-zero :
    (x y : ℕ) → IsByte x → IsByte y → (bit_xor x y < 256) × (nat_beq (bit_xor x y) 0 ≡ nat_beq x y)
bit_xor-zero x y hx hy =
    let row = at_pair xor_passes x y xor_table hx hy in (ground arith, ground arith)

regroup : (p a b c q : Bool) → p ≡ (a && b) → b ≡ c → (p && q) ≡ (a && (c && q))
regroup p true b c q h e = cc
regroup p false b c q h e = cc

-- The union of the differences is zero just where there is none.
difference_go :
    (xs ys : Bytes) (diff : ℕ)
    → IsBytes xs
    → IsBytes ys
    → IsByte diff
    → length xs ≡ length ys
    → nat_beq (difference xs ys diff) 0 ≡ (nat_beq diff 0 && bytes_beq xs ys)
unfolding difference bytes_beq
difference_go [] [] diff hx hy hd h = ground arith
difference_go [] (y ∷ ys) diff hx hy hd h = absurd (omega arith)
difference_go (x ∷ xs) [] diff hx hy hd h = absurd (omega arith)
difference_go (x ∷ xs) (y ∷ ys) diff hx hy hd h =
    let same = bit_xor-zero x y hx.0 hy.0 in
    let both = bit_or-zero diff (bit_xor x y) hd same.0 in
    difference_go xs ys (bit_or diff (bit_xor x y)) hx.1 hy.1 both.0 (omega arith)
    ∙ regroup _ (nat_beq diff 0) _ (nat_beq x y) (bytes_beq xs ys) both.1 same.1

pub difference_lem :
    (xs ys : Bytes)
    → IsBytes xs
    → IsBytes ys
    → length xs ≡ length ys
    → nat_beq (difference xs ys 0) 0 ≡ bytes_beq xs ys
difference_lem xs ys hx hy h = difference_go xs ys 0 hx hy (omega arith) h
