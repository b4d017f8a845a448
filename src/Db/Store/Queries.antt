-- ===== src/Db/Store/Queries.antt =====
-- The two history methods of the in-memory store against a direct description of their result.
use chat_system_cpp_chat_ser.Base.{
  ℕ, zero, suc, ◌-◌, ◌≤◌, ◌≡◌, refl, sym, ap, ◌∙◌, inl, inr, Bool, true, false, not, ◌&&◌, List, [],
  ◌∷◌, ◌++◌, reverse, append_assoc, append-nil, arith, leb, if◌then◌else◌, Bool-cases, nat_eq,
  length, take, drop, select, length-append, take-append-drop, length-drop, take-append, bytes_eq,
}
use native.Mathlib.Nat.{sub-zero}
use mathlib.Core.List.{reverse-cons, reverse-append, reverse-reverse}
use chat_system_cpp_chat_ser.Db.Store.{
  Store, Message, matches_room, too_new, history_loop, history_room,
}

-- The messages that pass the test and are older than `before` (0 is no bound), oldest first.
abbrev pub visible : (Message → Bool) → ℕ → List Message → List Message
visible test before = select (λ m. not (too_new before m) && test m)

-- The last `n` elements.
abbrev pub newest {ℓ} : {A : Type ℓ} → ℕ → List A → List A
newest n xs = drop (length xs - n) xs

history_loop-eq-take :
    (test : Message → Bool) (before lim : ℕ) (ms out : List Message)
    → history_loop test before lim ms out ≡ out ++ take (lim - length out) (visible test before ms)
unfolding history_loop
history_loop-eq-take test before lim [] out = nothing (lim - length out)
  where
    nothing : (n : ℕ) → out ≡ out ++ take n []
    nothing zero = sym (append-nil out)
    nothing (suc n) = sym (append-nil out)
history_loop-eq-take test before lim (m ∷ ms) out = elim (Bool-cases (leb lim (length out))) [
  | inl full ↦
      let none_left : lim - length out ≡ 0 = ground arith in
      rw (full, history_loop, none_left) (sym (append-nil out))
  | inr more ↦
      rw (more, history_loop)
        (elim (Bool-cases (too_new before m)) [
          | inl new ↦ rw new (history_loop-eq-take test before lim ms out)
          | inr older ↦ elim (Bool-cases (test m)) [
            | inl hit ↦
                let left : lim - length out ≡ suc (lim - length (out ++ m ∷ [])) =
                  ground (arith, length-append out (m ∷ [])) in
                rw (older, hit, left)
                  (history_loop-eq-take test before lim ms (out ++ m ∷ [])
                    ∙ append_assoc out (m ∷ []) _)
            | inr miss ↦ rw (older, miss) (history_loop-eq-take test before lim ms out)
          ]
        ])
]

select-append {ℓ} :
    {A : Type ℓ} (p : A → Bool) (xs ys : List A) → select p (xs ++ ys) ≡ select p xs ++ select p ys
select-append p [] ys = refl
select-append p (x ∷ xs) ys = ground (arith, select-append p xs ys)

select-reverse {ℓ} :
    {A : Type ℓ} (p : A → Bool) (xs : List A) → select p (reverse xs) ≡ reverse (select p xs)
select-reverse p [] = refl
select-reverse {A = A} p (x ∷ xs) =
    ap (select p) (reverse-cons x xs)
    ∙ select-append p (reverse xs) (x ∷ [])
    ∙ ap (λ t. t ++ select p (x ∷ [])) (select-reverse p xs)
    ∙ last (select p xs) (p x)
  where
    last :
        (rest : List A) (b : Bool)
        → reverse rest ++ (if b then x ∷ [] else []) ≡ reverse (if b then x ∷ rest else rest)
    last rest true = sym (reverse-cons x rest)
    last rest false = append-nil (reverse rest)

length-reverse {ℓ} : {A : Type ℓ} (xs : List A) → length (reverse xs) ≡ length xs
length-reverse [] = refl
length-reverse (x ∷ xs) =
    omega
      (arith, ap length (reverse-cons x xs), length-append (reverse xs) (x ∷ []), length-reverse xs)

leb-false : (n m : ℕ) → leb n m ≡ false → m ≤ n
leb-false n m h = ground arith

take_long {ℓ} : {A : Type ℓ} (n : ℕ) (xs : List A) → length xs ≤ n → take n xs ≡ xs
take_long zero [] h = refl
take_long zero (x ∷ xs) h = absurd (omega arith)
take_long (suc n) [] h = refl
take_long (suc n) (x ∷ xs) h = ap (◌∷◌ x) (take_long n xs (omega arith))

take_exact {ℓ} : {A : Type ℓ} (n : ℕ) (xs ys : List A) → length xs ≡ n → take n (xs ++ ys) ≡ xs
take_exact n xs ys h = take-append n xs ys (omega arith) ∙ take_long n xs (omega arith)

reverse-take-reverse {ℓ} :
    {A : Type ℓ} (n : ℕ) (xs : List A) → reverse (take n (reverse xs)) ≡ newest n xs
reverse-take-reverse n xs = elim (Bool-cases (leb n (length xs))) [
  | inl short ↦
      let k = length xs - n in
      let old = take k xs in
      let new = drop k xs in
      let size : length (reverse new) ≡ n = length-reverse new ∙ length-drop k xs ∙ ground arith in
      ap (λ t. reverse (take n (reverse t))) (sym (take-append-drop k xs))
      ∙ ap (λ t. reverse (take n t)) (reverse-append old new)
      ∙ ap reverse (take_exact n (reverse new) (reverse old) size)
      ∙ reverse-reverse new
  | inr long ↦
      let none_left : length xs - n ≡ 0 = ground arith in
      rw none_left (
        ap reverse (
          take_long n (reverse xs) (omega (arith, length-reverse xs, leb-false n (length xs) long)))
        ∙ reverse-reverse xs)
]

module _ (before lim : ℕ) (s : Store) where
  history_lem :
      (test : Message → Bool)
      → reverse (history_loop test before lim (reverse s.messages) [])
        ≡ newest lim (visible test before s.messages)
  history_lem test =
      ap reverse (history_loop-eq-take test before lim (reverse s.messages) [])
      ∙ ap (λ n. reverse (take n (visible test before (reverse s.messages)))) (sub-zero lim)
      ∙ ap (λ t. reverse (take lim t))
          (select-reverse (λ m. not (too_new before m) && test m) s.messages)
      ∙ reverse-take-reverse lim (visible test before s.messages)

  -- `history_room` returns, of the messages in the room that are older than `before`, the newest
  -- `lim`, oldest first.
  pub history_room_lem :
      (r : ℕ)
      → history_room r before lim s ≡ newest lim (visible (matches_room r) before s.messages)
  unfolding history_room
  history_room_lem r = history_lem (matches_room r)
