-- ===== src/Db/Pool/Leases.antt =====
-- No connection is with two clients, and there are never more than `pool_size`.
use chat_system_cpp_chat_ser.Base.{
  ℕ, ◌+◌, ◌-◌, ◌≤◌, ◌≡◌, refl, sym, ap, subst, ◌∙◌, ◌≢◌, inl, inr, Bool, true, false, Option, none,
  some, List, [], ◌∷◌, ◌++◌, arith, if◌then◌else◌, Bool-cases, some_inj, nat_beq, nat_eq, length,
  length-append, bytes_eq,
}
use chat_system_cpp_chat_ser.Db.Pool.{
  Attempt, Pool, shut_one, connect, make_connection, push_idle, Acquired, waits_on, no_lease, lease,
  next_idle, acquire, put_back, give_back, release,
}

unfoldable pub count : ℕ → List ℕ → ℕ
count c [] = 0
count c (x ∷ xs) = let rest = count c xs in if nat_beq x c then rest + 1 else rest

pub count-append : (c : ℕ) (xs ys : List ℕ) → count c (xs ++ ys) ≡ count c xs + count c ys
unfolding count
count-append c [] ys = omega arith
count-append c (x ∷ xs) ys = ground (arith, count-append c xs ys)

-- The pool, and the connections that are with clients.
pub record Clients : Type 0 where
  pub pool : Pool
  pub leased : List ℕ

-- A connection that is made is none of those that are open.
abbrev pub IsFresh : Attempt → List ℕ → Type 0
IsFresh a open_ones = (d : ℕ) → a.handle ≡ some d → count d open_ones ≡ 0

pub data Step : Clients → Clients → Type 0 where
  acquires :
      (s : Clients) (c : ℕ) (p : Pool)
      → acquire s.pool ≡ lease c p
      → Step s (record { pool = p; leased = c ∷ s.leased })
  releases :
      (s : Clients) (alive : Bool) (a : Attempt) (xs : List ℕ) (c : ℕ) (ys : List ℕ)
      → s.leased ≡ xs ++ c ∷ ys
      → IsFresh a (s.pool.idle ++ (xs ++ ys))
      → Step s (record { pool = release alive a c s.pool; leased = xs ++ ys })

pub data Steps (s : Clients) : Clients → Type 0 where
  here : Steps s s
  next : {t u : Clients} → Steps s t → Step t u → Steps s u

-- Each connection is open at most once, the counter is right, and the size is kept.
pub record IsSound (size : ℕ) (s : Clients) : Type 0 where
  pub once : (d : ℕ) → count d s.pool.idle + count d s.leased ≤ 1
  pub counted : s.pool.outstanding ≡ length s.leased
  pub bounded : length s.pool.idle + length s.leased ≤ size

-- What a lease was before: the connection at the front, and one client less.
pub record Front (c : ℕ) (p q : Pool) : Type 0 where
  pub first : p.idle ≡ c ∷ q.idle
  counts : q.outstanding ≡ p.outstanding + 1

abbrev lease_of : Acquired → Option (ℕ × Pool)
lease_of waits_on = none
lease_of no_lease = none
lease_of (lease c p) = some (c, p)

not_some : (r : ℕ × Pool) → none ≢ some r
not_some r e = cc

next_idle-Front :
    (stopping : Bool) (idle : List ℕ) (p : Pool) (c : ℕ) (q : Pool)
    → p.idle ≡ idle
    → next_idle stopping idle p ≡ lease c q
    → Front c p q
unfolding next_idle
next_idle-Front true idle p c q same e = absurd (not_some (c, q) (ap lease_of e))
next_idle-Front false [] p c q same e = absurd (not_some (c, q) (ap lease_of e))
next_idle-Front false (x ∷ idle) p c q same e =
    let pair = some_inj (ap lease_of e) in
    record {
      first = same ∙ ap (λ r. r.0 ∷ idle) pair ∙ ap (λ r. c ∷ r.1.idle) pair;
      counts = sym (ap (λ r. r.1.outstanding) pair);
    }

pub acquire-Front : (p : Pool) (c : ℕ) (q : Pool) → acquire p ≡ lease c q → Front c p q
unfolding acquire
acquire-Front p c q e = next_idle-Front p.stopping p.idle p c q refl e

acquire-IsSound :
    (size : ℕ) (s : Clients) (c : ℕ) (p : Pool)
    → acquire s.pool ≡ lease c p
    → IsSound size s
    → IsSound size (record { pool = p; leased = c ∷ s.leased })
unfolding count
acquire-IsSound size s c p e h =
    let f = acquire-Front s.pool c p e in
    record {
      once = λ d.
          let was : count d s.pool.idle ≡ count d (c ∷ p.idle) = ap (count d) f.first in
          ground (arith, was, h.once d);
      counted = omega (arith, f.counts, h.counted);
      bounded = omega (arith, ap length f.first, h.bounded);
    }

-- The idle connections after a release: the same ones, or one more that was not open.
data Released (idle : List ℕ) (c : ℕ) (fresh : ℕ → Type 0) : List ℕ → Type 0 where
  dropped : Released idle c fresh idle
  kept : Released idle c fresh (idle ++ c ∷ [])
  replaced : (d : ℕ) → fresh d → Released idle c fresh (idle ++ d ∷ [])

-- What `give_back` leaves, for each way it goes.
record Outcome (c : ℕ) (fresh : ℕ → Type 0) (p q : Pool) : Type 0 where
  left : Released p.idle c fresh q.idle
  same_count : q.outstanding ≡ p.outstanding

connect-Outcome :
    (handle : Option ℕ) (ok : Bool) (c : ℕ) (p : Pool)
    → Outcome c (λ d. handle ≡ some d) p (put_back (connect handle ok (shut_one c p)))
unfolding put_back connect shut_one push_idle
connect-Outcome none ok c p = record { left = dropped; same_count = refl }
connect-Outcome (some d) true c p = record { left = replaced d refl; same_count = refl }
connect-Outcome (some d) false c p = record { left = dropped; same_count = refl }

give_back-Outcome :
    (stopping alive : Bool) (a : Attempt) (c : ℕ) (p : Pool)
    → Outcome c (λ d. a.handle ≡ some d) p (give_back stopping alive a c p)
unfolding give_back put_back make_connection shut_one push_idle
give_back-Outcome true alive a c p = record { left = dropped; same_count = refl }
give_back-Outcome false true a c p = record { left = kept; same_count = refl }
give_back-Outcome false false a c p = connect-Outcome a.handle a.connects c p

release-Outcome :
    (alive : Bool) (a : Attempt) (c : ℕ) (p : Pool)
    → Outcome c
        (λ d. a.handle ≡ some d)
        (record p { outstanding = p.outstanding - 1 })
        (release alive a c p)
unfolding release
release-Outcome alive a c p =
    give_back-Outcome p.stopping alive a c (record p { outstanding = p.outstanding - 1 })

-- The numbers that `IsSound` compares, after a connection went back.
settled :
    (idle idle' xs ys : List ℕ) (c : ℕ) (fresh : ℕ → Type 0)
    → Released idle c fresh idle'
    → ((d : ℕ) → fresh d → count d (idle ++ (xs ++ ys)) ≡ 0)
    → ((d : ℕ) → count d idle + count d (xs ++ c ∷ ys) ≤ 1)
    → ((d : ℕ) → count d idle' + count d (xs ++ ys) ≤ 1) × (length idle' ≤ length idle + 1)
unfolding count
settled idle idle' xs ys c fresh dropped new once =
    (λ d. ground (arith, once d, count-append d xs (c ∷ ys), count-append d xs ys), omega arith)
settled idle idle' xs ys c fresh kept new once = (
  λ d. ground (
    arith,
    once d,
    count-append d xs (c ∷ ys),
    count-append d xs ys,
    count-append d idle (c ∷ []),
  ),
  omega (arith, length-append {0} idle (c ∷ [])),
)
settled idle idle' xs ys c fresh (replaced x f) new once = (
  λ d. elim (Bool-cases (nat_beq x d)) [
    | inl same ↦
        let zero_there : count d (idle ++ (xs ++ ys)) ≡ 0 =
          subst (λ k. count k (idle ++ (xs ++ ys)) ≡ 0) (ground (arith, same)) (new x f) in
        ground
          (arith, same, zero_there, count-append d idle (x ∷ []), count-append d idle (xs ++ ys))
    | inr other ↦ ground (
      arith,
      other,
      once d,
      count-append d xs (c ∷ ys),
      count-append d xs ys,
      count-append d idle (x ∷ []),
    )
  ],
  omega (arith, length-append {0} idle (x ∷ [])),
)

release-IsSound :
    (size : ℕ) (s : Clients) (alive : Bool) (a : Attempt) (xs : List ℕ) (c : ℕ) (ys : List ℕ)
    → s.leased ≡ xs ++ c ∷ ys
    → IsFresh a (s.pool.idle ++ (xs ++ ys))
    → IsSound size s
    → IsSound size (record { pool = release alive a c s.pool; leased = xs ++ ys })
release-IsSound size s alive a xs c ys e new h =
    let o = release-Outcome alive a c s.pool in
    let once : (d : ℕ) → count d s.pool.idle + count d (xs ++ c ∷ ys) ≤ 1 =
      λ d. subst (λ l. count d s.pool.idle + count d l ≤ 1) e (h.once d) in
    let after =
      settled s.pool.idle (release alive a c s.pool).idle xs ys c (λ d. a.handle ≡ some d) o.left
        new once in
    let len : length s.leased ≡ length xs + (length ys + 1) =
      ap length e ∙ omega (arith, length-append {0} xs (c ∷ ys)) in
    let rest = length-append {0} xs ys in
    record {
      once = after.0;
      counted = omega (arith, o.same_count, h.counted, len, rest);
      bounded = omega (arith, after.1, h.bounded, len, rest);
    }

-- From a sound state, every state that clients reach is sound.
pub Steps-IsSound : {size : ℕ} {s t : Clients} → Steps s t → IsSound size s → IsSound size t
Steps-IsSound here h = h
Steps-IsSound {size} (next r (acquires s c p e)) h =
    acquire-IsSound size s c p e (Steps-IsSound r h)
Steps-IsSound {size} (next r (releases s alive a xs c ys e new)) h =
    release-IsSound size s alive a xs c ys e new (Steps-IsSound r h)
