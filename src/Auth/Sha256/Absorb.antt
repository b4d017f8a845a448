-- ===== src/Auth/Sha256/Absorb.antt =====
-- `update` takes bytes as if they came one by one.
use chat_system_cpp_chat_ser.Base.{
  ℕ, zero, suc, ◌+◌, ◌-◌, ◌≤◌, ◌<◌, min, ◌≡◌, refl, sym, ap, ◌∙◌, inl, inr, false, [], ◌∷◌, ◌++◌,
  append_assoc, append-nil, arith, ltb, Bool-cases, nat_beq, nat_eq, length, take, drop,
  length-append, take-append-drop, length-take, length-drop, Bytes, bytes_eq,
}
use chat_system_cpp_chat_ser.Auth.Sha256.{Sha256, State, compress, settle, update_loop, update}

abbrev pub Core : Type 0
Core = State × Bytes

-- One byte: the reference that `update` is compared with.
unfoldable pub push : Core → ℕ → Core
unfolding settle
push (st, buf) x = settle st (buf ++ x ∷ [])

unfoldable pub absorb : Core → Bytes → Core
absorb s [] = s
absorb s (x ∷ xs) = absorb (push s x) xs

pub absorb-append : (s : Core) (xs ys : Bytes) → absorb s (xs ++ ys) ≡ absorb (absorb s xs) ys
unfolding absorb
absorb-append s [] ys = refl
absorb-append s (x ∷ xs) ys = absorb-append (push s x) xs ys

pub settle_full :
    (st : State) (buf : Bytes) → length buf ≡ 64 → settle st buf ≡ (compress st buf, [])
unfolding settle
settle_full st buf h = rw (h, settle) refl

pub settle_short : (st : State) (buf : Bytes) → length buf < 64 → settle st buf ≡ (st, buf)
unfolding settle
settle_short st buf h =
    let e : nat_beq (length buf) 64 ≡ false = ground arith in rw (e, settle) refl

push_short :
    (st : State) (buf : Bytes) (x : ℕ)
    → length buf + 1 < 64
    → push (st, buf) x ≡ (st, buf ++ x ∷ [])
unfolding push
push_short st buf x h =
    settle_short st (buf ++ x ∷ []) (omega (arith, length-append {0} buf (x ∷ [])))

push_full :
    (st : State) (buf : Bytes) (x : ℕ)
    → length buf + 1 ≡ 64
    → push (st, buf) x ≡ (compress st (buf ++ x ∷ []), [])
unfolding push
push_full st buf x h =
    settle_full st (buf ++ x ∷ []) (omega (arith, length-append {0} buf (x ∷ [])))

-- Bytes that leave room stay in the buffer.
pub absorb_short :
    (st : State) (buf ys : Bytes)
    → length buf + length ys < 64
    → absorb (st, buf) ys ≡ (st, buf ++ ys)
unfolding absorb
absorb_short st buf [] h = ap (λ b. (st, b)) (sym (append-nil buf))
absorb_short st buf (y ∷ ys) h =
    ap (λ s. absorb s ys) (push_short st buf y (omega arith))
    ∙ absorb_short st (buf ++ y ∷ []) ys (omega (arith, length-append {0} buf (y ∷ [])))
    ∙ ap (λ b. (st, b)) (append_assoc buf (y ∷ []) ys)

-- Bytes that fill the buffer make a block.
pub absorb_full :
    (st : State) (buf ys : Bytes)
    → length buf < 64
    → length buf + length ys ≡ 64
    → absorb (st, buf) ys ≡ (compress st (buf ++ ys), [])
unfolding absorb
absorb_full st buf [] room h = absurd (omega arith)
absorb_full st buf (y ∷ []) room h = push_full st buf y (omega arith)
absorb_full st buf (y ∷ z ∷ ys) room h =
    ap (λ s. absorb s (z ∷ ys)) (push_short st buf y (omega arith))
    ∙ absorb_full st (buf ++ y ∷ []) (z ∷ ys) (omega (arith, length-append {0} buf (y ∷ [])))
        (omega (arith, length-append {0} buf (y ∷ [])))
    ∙ ap (λ b. (compress st b, [])) (append_assoc buf (y ∷ []) (z ∷ ys))

-- A piece that does not go beyond the end of the block.
settle-absorb :
    (st : State) (buf ys : Bytes)
    → length buf < 64
    → length buf + length ys ≤ 64
    → settle st (buf ++ ys) ≡ absorb (st, buf) ys
settle-absorb st buf ys room h = elim (Bool-cases (ltb (length buf + length ys) 64)) [
  | inl lt ↦
      let less : length buf + length ys < 64 = ground arith in
      settle_short st (buf ++ ys) (omega (arith, length-append {0} buf ys))
      ∙ sym (absorb_short st buf ys less)
  | inr ge ↦
      let full : length buf + length ys ≡ 64 = ground arith in
      settle_full st (buf ++ ys) (omega (arith, length-append {0} buf ys))
      ∙ sym (absorb_full st buf ys room full)
]

pub settle-room : (st : State) (buf : Bytes) → length buf ≤ 64 → length (settle st buf).1 < 64
unfolding settle
settle-room st buf h = ground arith

update_loop-absorb :
    (fuel : ℕ) (input : Bytes) (st : State) (buf : Bytes)
    → length buf < 64
    → length input < fuel
    → update_loop fuel input (st, buf) ≡ absorb (st, buf) input
unfolding update_loop absorb
update_loop-absorb zero input st buf room h = absurd (omega arith)
update_loop-absorb (suc fuel) [] st buf room h = refl
update_loop-absorb (suc fuel) (x ∷ input) st buf room h =
    let n = min (64 - length buf) (length (x ∷ input)) in
    let piece = take n (x ∷ input) in
    let rest = drop n (x ∷ input) in
    let len : length piece ≡ n = omega (arith, length-take {0} n (x ∷ input)) in
    let next = settle st (buf ++ piece) in
    update_loop-absorb fuel rest next.0 next.1
      (settle-room st (buf ++ piece) (omega (arith, length-append {0} buf piece, len)))
      (omega (arith, length-drop {0} n (x ∷ input)))
    ∙ ap (λ s. absorb s rest) (settle-absorb st buf piece room (omega (arith, len)))
    ∙ sym (absorb-append (st, buf) piece rest)
    ∙ ap (absorb (st, buf)) (take-append-drop n (x ∷ input))

pub update-absorb :
    (input : Bytes) (s : Sha256)
    → length s.buf < 64
    → ((update input s).st, (update input s).buf) ≡ absorb (s.st, s.buf) input
unfolding update
update-absorb input s room =
    update_loop-absorb (suc (length input)) input s.st s.buf room (omega arith)
