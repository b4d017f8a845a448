-- ===== src/Common/Util/Laws.antt =====
-- What the text helpers promise.
use chat_system_cpp_chat_ser.Base.{
  ℕ, ◌≡◌, refl, sym, ap, ◌∙◌, inl, inr, Bool, true, false, not, ◌&&◌, List, [], ◌∷◌, ◌++◌,
  append_assoc, append-nil, arith, if◌then◌else◌, Bool-cases, nat_beq, nat_eq, is_empty, All,
  All-append, Bytes, bytes_eq,
}
use chat_system_cpp_chat_ser.Common.Util.{
  isspace, trim_start, trim_end, trim, split_loop, split, tolower, to_lower,
}

-- A text with no space at either end.
abbrev pub starts_solid : Bytes → Bool
starts_solid [] = true
starts_solid (c ∷ s) = not (isspace c)

abbrev pub ends_solid : Bytes → Bool
ends_solid [] = true
ends_solid (c ∷ []) = not (isspace c)
ends_solid (c ∷ s) = ends_solid s

abbrev pub IsTrimmed : Bytes → Type 0
IsTrimmed s = (starts_solid s ≡ true) × (ends_solid s ≡ true)

-- Spaces only.
abbrev pub all_space : Bytes → Bool
all_space [] = true
all_space (c ∷ s) = isspace c && all_space s

trim_start-solid : (s : Bytes) → starts_solid (trim_start s) ≡ true
unfolding trim_start
trim_start-solid [] = refl
trim_start-solid (c ∷ s) = ground (arith, trim_start-solid s)

trim_end-starts : (s : Bytes) → starts_solid s ≡ true → starts_solid (trim_end s) ≡ true
unfolding trim_end
trim_end-starts [] h = refl
trim_end-starts (c ∷ s) h = ground arith

trim_end-solid : (s : Bytes) → ends_solid (trim_end s) ≡ true
unfolding trim_end
trim_end-solid [] = refl
trim_end-solid (c ∷ s) = go (trim_end s) (trim_end-solid s)
  where
    go :
        (r : Bytes)
        → ends_solid r ≡ true
        → ends_solid (if isspace c && is_empty r then [] else c ∷ r) ≡ true
    go [] h = ground arith
    go (x ∷ r) h = ground arith

trim_start-split : (s : Bytes) → (a : Bytes) × (all_space a ≡ true) × (s ≡ a ++ trim_start s)
unfolding trim_start
trim_start-split [] = ([], refl, refl)
trim_start-split (c ∷ s) = elim (Bool-cases (isspace c)) [
  | inl e ↦ let rest = trim_start-split s in (c ∷ rest.0, ground arith, rw e (ap (◌∷◌ c) rest.2))
  | inr e ↦ ([], refl, rw e refl)
]

trim_end-split : (s : Bytes) → (b : Bytes) × (all_space b ≡ true) × (s ≡ trim_end s ++ b)
unfolding trim_end
trim_end-split [] = ([], refl, refl)
trim_end-split (c ∷ s) = go (trim_end s) (trim_end-split s)
  where
    go :
        (r : Bytes)
        → ((b : Bytes) × (all_space b ≡ true) × (s ≡ r ++ b))
        → (b : Bytes) × (all_space b ≡ true)
          × (c ∷ s ≡ (if isspace c && is_empty r then [] else c ∷ r) ++ b)
    go [] (b, h, k) = elim (Bool-cases (isspace c)) [
      | inl e ↦ (c ∷ b, ground arith, rw e (ap (◌∷◌ c) k))
      | inr e ↦ (b, h, rw e (ap (◌∷◌ c) k))
    ]
    go (x ∷ r) (b, h, k) = (b, h, ground arith)

-- `trim` cuts spaces off both ends, and nothing else, until none is left there.
pub trim_lem :
    (s : Bytes)
    → IsTrimmed (trim s)
      × ((a : Bytes) × (b : Bytes) × (all_space a ≡ true)
          × (all_space b ≡ true)
          × (s ≡ a ++ trim s ++ b))
unfolding trim
trim_lem s =
    let (a, ha, ea) = trim_start-split s in
    let (b, hb, eb) = trim_end-split (trim_start s) in
    (
      (trim_end-starts (trim_start s) (trim_start-solid s), trim_end-solid (trim_start s)),
      (a, b, ha, hb, ea ∙ ap (◌++◌ a) eb ∙ sym (append_assoc a (trim_end (trim_start s)) b)),
    )

-- Pieces with a delimiter between them.
abbrev pub joined : ℕ → List Bytes → Bytes
joined d [] = []
joined d (p ∷ []) = p
joined d (p ∷ ps) = p ++ d ∷ joined d ps

abbrev pub lacks : ℕ → Bytes → Bool
lacks d [] = true
lacks d (c ∷ s) = not (nat_beq c d) && lacks d s

-- Pieces that each have a delimiter behind them.
abbrev ended : ℕ → List Bytes → Bytes
ended d [] = []
ended d (p ∷ ps) = p ++ d ∷ ended d ps

joined-snoc : (d : ℕ) (ps : List Bytes) (p : Bytes) → joined d (ps ++ p ∷ []) ≡ ended d ps ++ p
joined-snoc d [] p = refl
joined-snoc d (q ∷ []) p = sym (append_assoc q (d ∷ []) p)
joined-snoc d (q ∷ r ∷ ps) p =
    ap (λ t. q ++ d ∷ t) (joined-snoc d (r ∷ ps) p) ∙ sym (append_assoc q (d ∷ ended d (r ∷ ps)) p)

ended-snoc :
    (d : ℕ) (ps : List Bytes) (p : Bytes) → ended d (ps ++ p ∷ []) ≡ ended d ps ++ (p ++ d ∷ [])
ended-snoc d [] p = refl
ended-snoc d (q ∷ ps) p =
    ap (λ t. q ++ d ∷ t) (ended-snoc d ps p) ∙ sym (append_assoc q (d ∷ ended d ps) (p ++ d ∷ []))

joined-split_loop :
    (d : ℕ) (s cur : Bytes) (out : List Bytes)
    → joined d (split_loop d s cur out) ≡ ended d out ++ (cur ++ s)
unfolding split_loop
joined-split_loop d [] cur out =
    joined-snoc d out cur ∙ ap (◌++◌ (ended d out)) (sym (append-nil cur))
joined-split_loop d (c ∷ s) cur out = elim (Bool-cases (nat_beq c d)) [
  | inl e ↦
      let k : c ≡ d = ground arith in
      rw (e, split_loop)
        (joined-split_loop d s [] (out ++ cur ∷ [])
          ∙ rw (ended-snoc d out cur, k) (simp append_assoc))
  | inr e ↦ rw (e, split_loop) (joined-split_loop d s (cur ++ c ∷ []) out ∙ simp append_assoc)
]

lacks-snoc :
    (d c : ℕ) (s : Bytes) → nat_beq c d ≡ false → lacks d s ≡ true → lacks d (s ++ c ∷ []) ≡ true
lacks-snoc d c [] e h = ground arith
lacks-snoc d c (x ∷ s) e h = ground (arith, lacks-snoc d c s e)

abbrev Lack : ℕ → List Bytes → Type 0
Lack d = All (λ p. lacks d p ≡ true)

split_loop-lacks :
    (d : ℕ) (s cur : Bytes) (out : List Bytes)
    → lacks d cur ≡ true
    → Lack d out
    → Lack d (split_loop d s cur out)
unfolding split_loop
split_loop-lacks d [] cur out h k = All-append (λ p. lacks d p ≡ true) out (cur ∷ []) k (h, tt)
split_loop-lacks d (c ∷ s) cur out h k = elim (Bool-cases (nat_beq c d)) [
  | inl e ↦
      rw (e, split_loop)
        (split_loop-lacks d s [] (out ++ cur ∷ []) refl
          (All-append (λ p. lacks d p ≡ true) out (cur ∷ []) k (h, tt)))
  | inr e ↦ rw (e, split_loop) (split_loop-lacks d s (cur ++ c ∷ []) out (lacks-snoc d c cur e h) k)
]

-- The pieces of a split text, with the delimiter between them, are the text; and no piece holds
-- the delimiter.
pub split_lem :
    (s : Bytes) (d : ℕ) → (joined d (split s d) ≡ s) × All (λ p. lacks d p ≡ true) (split s d)
unfolding split
split_lem s d = (joined-split_loop d s [] [], split_loop-lacks d s [] [] refl tt)

-- Lower-casing twice is lower-casing once.
tolower-tolower : (c : ℕ) → tolower (tolower c) ≡ tolower c
unfolding tolower
tolower-tolower c = ground arith

pub to_lower-to_lower : (s : Bytes) → to_lower (to_lower s) ≡ to_lower s
unfolding to_lower
to_lower-to_lower [] = refl
to_lower-to_lower (c ∷ s) = ground (arith, tolower-tolower c, to_lower-to_lower s)
