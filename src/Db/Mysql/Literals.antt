-- ===== src/Db/Mysql/Literals.antt =====
-- How the server reads the string literals of a statement: what stands between single quotes, where
-- a backslash takes the next character with it.
use chat_system_cpp_chat_ser.Base.{
  ℕ, zero, suc, ◌+◌, ◌/◌, ◌%◌, ◌≡◌, refl, sym, ap, ◌∙◌, ◌≢◌, ◌⊎◌, inl, inr, [], ◌∷◌, ◌++◌,
  append_assoc, arith, if◌then◌else◌, nat_beq, nat_eq, Bytes, codes, bytes_eq,
}
use chat_system_cpp_chat_ser.Common.Decimal.{to_string, write_digits}

-- A string between single quotes.
abbrev pub quoted : Bytes → Bytes
quoted s = codes "'" ++ s ++ codes "'"

pub data Mode : Type 0 where
  outside inside escaped : Mode

abbrev pub step : Mode → ℕ → Mode
step outside c = if nat_beq c 39 then inside else outside
step inside c = if nat_beq c 92 then escaped else if nat_beq c 39 then outside else inside
step escaped c = inside

-- Outside a literal the text itself, and a question mark for each literal.
abbrev pub shown : Mode → ℕ → Bytes
shown outside c = if nat_beq c 39 then 63 ∷ [] else c ∷ []
shown inside c = []
shown escaped c = []

unfoldable pub run : Mode → Bytes → Mode
run m [] = m
run m (c ∷ cs) = run (step m c) cs

-- The statement without what its literals hold.
unfoldable pub skeleton : Mode → Bytes → Bytes
skeleton m [] = []
skeleton m (c ∷ cs) = shown m c ++ skeleton (step m c) cs

-- Every quote and every backslash is behind a backslash of its own.
abbrev pub IsEscaped : Bytes → Type 0
IsEscaped [] = Unit {0}
IsEscaped (c ∷ []) = (c ≢ 39) × (c ≢ 92)
IsEscaped (c ∷ d ∷ cs) = ((c ≡ 92) × IsEscaped cs) ⊎ ((c ≢ 39) × (c ≢ 92) × IsEscaped (d ∷ cs))

run-append : (m : Mode) (a b : Bytes) → run m (a ++ b) ≡ run (run m a) b
unfolding run
run-append m [] b = refl
run-append m (c ∷ a) b = run-append (step m c) a b

skeleton-append :
    (m : Mode) (a b : Bytes) → skeleton m (a ++ b) ≡ skeleton m a ++ skeleton (run m a) b
unfolding skeleton run
skeleton-append m [] b = refl
skeleton-append m (c ∷ a) b =
    ap (λ t. shown m c ++ t) (skeleton-append (step m c) a b)
    ∙ sym (append_assoc (shown m c) (skeleton (step m c) a) (skeleton (run (step m c) a) b))

-- Two texts that read alike but for what their literals hold, and leave no literal open.
pub record Alike (s t : Bytes) : Type 0 where
  pub same : skeleton outside s ≡ skeleton outside t
  pub left : run outside s ≡ outside
  pub right : run outside t ≡ outside

pub Alike-append : {s t s' t' : Bytes} → Alike s t → Alike s' t' → Alike (s ++ s') (t ++ t')
Alike-append {s} {t} {s'} {t'} a b = record {
  same =
      skeleton-append outside s s'
      ∙ rw (a.left, a.same, b.same) (sym (skeleton-append outside t t' ∙ rw a.right refl));
  left = run-append outside s s' ∙ rw a.left b.left;
  right = run-append outside t t' ∙ rw a.right b.right;
}

plain_step : (c : ℕ) → c ≢ 39 → c ≢ 92 → step inside c ≡ inside
plain_step c q b = ground arith

inside_literal : (s : Bytes) → IsEscaped s → (run inside s ≡ inside) × (skeleton inside s ≡ [])
unfolding run skeleton
inside_literal [] h = (refl, refl)
inside_literal (c ∷ []) h = (ground arith, ground arith)
inside_literal (c ∷ d ∷ cs) (inl (e, h)) =
    let rest = inside_literal cs h in (ground (arith, rest), ground (arith, rest))
inside_literal (c ∷ d ∷ cs) (inr (q, b, h)) =
    let rest = inside_literal (d ∷ cs) h in
    (
      ap (λ m. run m (d ∷ cs)) (plain_step c q b) ∙ rest.0,
      ap (λ m. skeleton m (d ∷ cs)) (plain_step c q b) ∙ rest.1,
    )

shown_quoted :
    (s : Bytes)
    → IsEscaped s
    → (run outside (quoted s) ≡ outside) × (skeleton outside (quoted s) ≡ 63 ∷ [])
unfolding run skeleton
shown_quoted s h =
    let inner = inside_literal s h in
    (
      run-append inside s (codes "'") ∙ rw inner.0 refl,
      ap (λ t. 63 ∷ t) (skeleton-append inside s (codes "'") ∙ rw (inner.0, inner.1) refl),
    )

run-write_digits :
    (fuel n : ℕ) (acc : Bytes) → run outside (write_digits fuel n acc) ≡ run outside acc
unfolding run write_digits
run-write_digits zero n acc = refl
run-write_digits (suc fuel) n acc =
    ground (arith, run-write_digits fuel (n / 10) ((48 + n % 10) ∷ acc))

-- Text without a quote.
pub Alike-text : (s : Bytes) → run outside s ≡ outside → Alike s s
Alike-text s h = record { same = refl; left = h; right = h }

-- A literal is read alike whatever it holds.
pub Alike-quoted : (s t : Bytes) → IsEscaped s → IsEscaped t → Alike (quoted s) (quoted t)
Alike-quoted s t hs ht = record {
  same = (shown_quoted s hs).1 ∙ sym (shown_quoted t ht).1;
  left = (shown_quoted s hs).0;
  right = (shown_quoted t ht).0;
}

-- Digits hold no quote.
pub Alike-digits : (n : ℕ) → Alike (to_string n) (to_string n)
unfolding to_string run
Alike-digits n = record {
  same = refl;
  left = run-write_digits (suc n) n [];
  right = run-write_digits (suc n) n [];
}
