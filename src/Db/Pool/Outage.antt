-- ===== src/Db/Pool/Outage.antt =====
-- What a release does to the number of connections when the server does not answer.
use chat_system_cpp_chat_ser.Base.{
  ℕ, ◌-◌, ◌≡◌, refl, sym, ap, subst, ◌∙◌, false, some, List, [], ◌∷◌, ◌++◌, arith, some_inj, nat_eq,
  length, length-append, bytes_eq,
}
use chat_system_cpp_chat_ser.Db.Pool.{
  Attempt, Pool, shut_one, connect, make_connection, waits_on, next_idle, acquire, put_back,
  give_back, release,
}
use chat_system_cpp_chat_ser.Db.Pool.Leases.{
  count, Clients, Step, acquires, releases, Steps, here, next, IsFresh, acquire-Front,
}

-- No connection is left, idle or with a client, while the pool is in use.
pub record IsStarved (s : Clients) : Type 0 where
  pub no_idle : s.pool.idle ≡ []
  pub none_leased : s.leased ≡ []
  pub in_use : s.pool.stopping ≡ false

Step-IsStarved : {s t : Clients} → Step s t → IsStarved s → IsStarved t
Step-IsStarved (acquires s c p e) h =
    absurd (omega (arith, ap length (sym h.no_idle ∙ (acquire-Front s.pool c p e).first)))
Step-IsStarved (releases s alive a xs c ys e new) h =
    absurd (omega (arith, ap length (sym h.none_leased ∙ e), length-append {0} xs (c ∷ ys)))

Steps-IsStarved : {s t : Clients} → Steps s t → IsStarved s → IsStarved t
Steps-IsStarved here h = h
Steps-IsStarved (next r step) h = Step-IsStarved step (Steps-IsStarved r h)

acquire-IsStarved : (s : Clients) → IsStarved s → acquire s.pool ≡ waits_on
unfolding acquire next_idle
acquire-IsStarved s h =
    ap (λ b. next_idle b s.pool.idle s.pool) h.in_use ∙ ap (λ l. next_idle false l s.pool) h.no_idle

-- The server does not let the new connection d through.
abbrev pub refused : ℕ → Attempt
refused d = record { handle = some d; connects = false }

abbrev lost_one : ℕ → ℕ → Pool → Pool
lost_one d c p = record p { outstanding = p.outstanding - 1; shut = d ∷ c ∷ p.shut }

release-refused :
    (d c : ℕ) (p : Pool) → p.stopping ≡ false → release false (refused d) c p ≡ lost_one d c p
unfolding release give_back put_back make_connection connect shut_one
release-refused d c p e =
    ap (λ b. give_back b false (refused d) c (record p { outstanding = p.outstanding - 1 })) e

before : {s t u : Clients} → Step s t → Steps t u → Steps s u
before step here = next here step
before step (next r last) = next (before step r) last

starve :
    (d : ℕ) (p : Pool) (l : List ℕ)
    → p.stopping ≡ false
    → p.idle ≡ []
    → count d l ≡ 0
    → (t : Clients) × (Steps (record { pool = p; leased = l }) t × IsStarved t)
unfolding count
starve d p [] used empty new =
    (_, (here, record { no_idle = empty; none_leased = refl; in_use = used }))
starve d p (c ∷ l) used empty new =
    let s : Clients = record { pool = p; leased = c ∷ l } in
    let t : Clients = record { pool = release false (refused d) c p; leased = l } in
    let e : t.pool ≡ lost_one d c p = release-refused d c p used in
    let fewer : count d l ≡ 0 = ground (arith, new) in
    let fresh : IsFresh (refused d) (p.idle ++ l) = λ x same.
      subst (λ k. count k (p.idle ++ l) ≡ 0) (some_inj same)
        (ap (λ xs. count d (xs ++ l)) empty ∙ fewer) in
    let step : Step s t = releases s false (refused d) [] c l refl fresh in
    let (u, (r, h)) =
      starve d t.pool l (ap (λ q. q.stopping) e ∙ used) (ap (λ q. q.idle) e ∙ empty) fewer in
    (u, (before step r, h))

-- While all connections are with clients, let the server be away: each client gives its connection
-- back, neither the ping nor the new connection succeeds, and from then on, also when the server is
-- there again, every `acquire` waits.
pub outage :
    (s : Clients) (d : ℕ)
    → s.pool.stopping ≡ false
    → s.pool.idle ≡ []
    → count d s.leased ≡ 0
    → (t : Clients) × (Steps s t × ((u : Clients) → Steps t u → acquire u.pool ≡ waits_on))
outage s d used empty new =
    let (t, (r, h)) = starve d s.pool s.leased used empty new in
    (t, (r, λ u later. acquire-IsStarved u (Steps-IsStarved later h)))
