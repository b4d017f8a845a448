-- ===== src/Client/Words.antt =====
-- What the client makes of a line.
use chat_system_cpp_chat_ser.Base.{
  ℕ, zero, suc, ◌-◌, ◌≤◌, ◌≡◌, refl, sym, ap, subst, ◌∙◌, inl, inr, Bool, true, false, some, List,
  [], ◌∷◌, ◌++◌, append-nil, arith, if◌then◌else◌, Bool-cases, nat_eq, length, is_empty, flatten,
  Bytes, codes, bytes_beq, bytes_eq,
}
use chat_system_cpp_chat_ser.Common.Util.{isspace, trim_start}
use chat_system_cpp_chat_ser.Common.Numbers.{stoll}
use chat_system_cpp_chat_ser.Protocol.Messages.{JsonLib}
use chat_system_cpp_chat_ser.Client.{
  asks, typed, command, read_line, cut_word, cut_words, tokens, last_token,
}

-- What is not white space.
abbrev pub visible : Bytes → Bytes
visible [] = []
visible (c ∷ s) = let rest = visible s in if isspace c then rest else c ∷ rest

visible-append : (s t : Bytes) → visible (s ++ t) ≡ visible s ++ visible t
visible-append [] t = refl
visible-append (c ∷ s) t = ground (arith, visible-append s t)

visible-trim_start : (s : Bytes) → visible (trim_start s) ≡ visible s
unfolding trim_start
visible-trim_start [] = refl
visible-trim_start (c ∷ s) = ground (arith, visible-trim_start s)

cut_word-append : (s : Bytes) → (cut_word s).0 ++ (cut_word s).1 ≡ s
unfolding cut_word
cut_word-append [] = refl
cut_word-append (c ∷ s) = ground (arith, cut_word-append s)

visible-cut_word : (s : Bytes) → visible (cut_word s).0 ++ visible (cut_word s).1 ≡ visible s
visible-cut_word s =
    sym (visible-append (cut_word s).0 (cut_word s).1) ∙ ap visible (cut_word-append s)

visible_empty : (s : Bytes) → is_empty s ≡ true → visible s ≡ []
visible_empty [] h = refl
visible_empty (c ∷ s) h = cc

visible-last_token : (s : Bytes) → visible (flatten (last_token s)) ≡ visible s
visible-last_token s = elim (Bool-cases (is_empty (trim_start s))) [
  | inl e ↦ rw e (sym (visible_empty (trim_start s) e) ∙ visible-trim_start s)
  | inr e ↦ rw e (ap visible (append-nil (trim_start s)) ∙ visible-trim_start s)
]

visible-cut_words : (n : ℕ) (s : Bytes) → visible (flatten (cut_words n s)) ≡ visible s
unfolding cut_words
visible-cut_words zero s = visible-last_token s
visible-cut_words (suc n) s =
    let (word, rest) = cut_word (trim_start s) in
    elim (Bool-cases (is_empty word)) [
      | inl over ↦
          rw (cut_words, over)
            (visible-last_token rest
              ∙ sym (ap (λ t. t ++ visible rest) (visible_empty word over))
              ∙ visible-cut_word (trim_start s)
              ∙ visible-trim_start s)
      | inr cut ↦
          rw (cut_words, cut)
            (visible-append word (flatten (cut_words n rest))
              ∙ ap (◌++◌ (visible word)) (visible-cut_words n rest)
              ∙ visible-cut_word (trim_start s)
              ∙ visible-trim_start s)
    ]

length-cut_words : (n : ℕ) (s : Bytes) → length (cut_words n s) ≤ suc n
unfolding cut_words
length-cut_words zero s = ground arith
length-cut_words (suc n) s = ground (arith, length-cut_words n (cut_word (trim_start s)).1)

-- All tokens but the last that `max` allows are words: they hold no white space.
abbrev pub AreWords : ℕ → List Bytes → Type 0
AreWords zero ts = Unit
AreWords (suc n) [] = Unit
AreWords (suc n) (t ∷ ts) = (visible t ≡ t) × AreWords n ts

visible-cut_word_self : (s : Bytes) → visible (cut_word s).0 ≡ (cut_word s).0
unfolding cut_word
visible-cut_word_self [] = refl
visible-cut_word_self (c ∷ s) = ground (arith, visible-cut_word_self s)

-- Behind spaces there is a word, unless the text ends.
nothing_cut :
    (s : Bytes) → is_empty (cut_word (trim_start s)).0 ≡ true → (cut_word (trim_start s)).1 ≡ []
unfolding trim_start cut_word
nothing_cut [] h = refl
nothing_cut (c ∷ s) h = elim (Bool-cases (isspace c)) [
  | inl e ↦ rw (trim_start, e) (nothing_cut s (ground (arith, h, e)))
  | inr e ↦ ground (arith, h, e)
]

AreWords-cut_words : (n : ℕ) (s : Bytes) → AreWords n (cut_words n s)
unfolding cut_words trim_start
AreWords-cut_words zero s = tt
AreWords-cut_words (suc n) s =
    let (word, rest) = cut_word (trim_start s) in
    elim (Bool-cases (is_empty word)) [
      | inl over ↦ rw (cut_words, over, nothing_cut s over) tt
      | inr cut ↦
          rw (cut_words, cut) (visible-cut_word_self (trim_start s), AreWords-cut_words n rest)
    ]

-- A line is cut into at most `max` tokens. All but the last of `max` are words, without white
-- space; together the tokens hold every character of the line that is no white space, in order.
pub tokens_lem :
    (s : Bytes) (n : ℕ)
    → (length (tokens s (suc n)) ≤ suc n)
      × AreWords n (tokens s (suc n))
      × (visible (flatten (tokens s (suc n))) ≡ visible s)
unfolding tokens
tokens_lem s n =
    let same : suc n - 1 ≡ n = omega arith in
    rw (tokens, same) (length-cut_words n s, AreWords-cut_words n s, visible-cut_words n s)

module _ (J : JsonLib) where
  -- The command, the type and the key of the receiver: of `:dm`, or else of `:room`.
  abbrev pub command_of : Bool → Bytes
  command_of true = codes ":dm"
  command_of false = codes ":room"

  abbrev pub message_to : Bool → ℕ → Bytes → ℕ → J.Value
  message_to true n content seq = J.set (codes "content") (J.string content) (
      J.set (codes "receiver_id") (J.integer n)
        (typed J "send_dm" (J.set (codes "id") (J.integer seq) J.null)))
  message_to false n content seq = J.set (codes "content") (J.string content) (
      J.set (codes "room_id") (J.integer n)
        (typed J "send_room" (J.set (codes "id") (J.integer seq) J.null)))

  -- What `:dm` and `:room` send as the content is the third token alone, and this holds no white
  -- space: of a message of several words only the first is sent.
  pub content_is_word :
      (dm : Bool) (line to content : Bytes) (more : List Bytes) (seq n : ℕ)
      → tokens line 16 ≡ command_of dm ∷ to ∷ content ∷ more
      → stoll to ≡ some n
      → (read_line J line seq ≡ some (asks (message_to dm n content seq)))
        × (visible content ≡ content)
  unfolding read_line command bytes_beq
  content_is_word true line to content more seq n e number =
      (rw (read_line, e, number) refl, (subst (AreWords 15) e (tokens_lem line 15).1).1.1.0)
  content_is_word false line to content more seq n e number =
      (rw (read_line, e, number) refl, (subst (AreWords 15) e (tokens_lem line 15).1).1.1.0)
