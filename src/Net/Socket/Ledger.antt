-- ===== src/Net/Socket/Ledger.antt =====
-- Which descriptors are open after some calls.
use chat_system_cpp_chat_ser.Base.{
  ℕ, ◌+◌, ◌-◌, ◌≡◌, false, Option, none, some, List, [], ◌∷◌, arith, if◌then◌else◌, nat_beq, nat_eq,
  Bytes, bytes_eq,
}
use chat_system_cpp_chat_ser.Net.Socket.{
  Call, opened, resolved, freed, closed, Listening, set_non_blocking, listen_tcp, Connecting,
  connect_tcp, close, assign,
}

abbrev pub without : ℕ → List ℕ → List ℕ
without fd [] = []
without fd (x ∷ xs) = let rest = without fd xs in if nat_beq x fd then rest else x ∷ rest

-- The descriptors that are open, the latest first.
abbrev pub left_open : List Call → List ℕ → List ℕ
left_open [] held = held
left_open (opened s ∷ calls) held = left_open calls (s ∷ held)
left_open (closed s ∷ calls) held = left_open calls (without s held)
left_open (_ ∷ calls) held = left_open calls held

-- The address lists that are not freed.
abbrev pub lists_left : List Call → ℕ → ℕ
lists_left [] n = n
lists_left (resolved ∷ calls) n = lists_left calls (n + 1)
lists_left (freed ∷ calls) n = lists_left calls (n - 1)
lists_left (_ ∷ calls) n = lists_left calls n

abbrev pub held_by : Option ℕ → List ℕ
held_by none = []
held_by (some s) = s ∷ []

without_self : (s : ℕ) → without s (s ∷ []) ≡ []
without_self s = ground arith

listen_tcp_lem :
    (a : Listening) (host : Bytes) (port backlog : ℕ)
    → left_open (listen_tcp a host port backlog).1 [] ≡ held_by (listen_tcp a host port backlog).0
unfolding listen_tcp set_non_blocking
listen_tcp_lem a host port backlog = grind (arith, without_self)

connect_tcp_lem :
    (a : Connecting)
    → (left_open (connect_tcp a).1 [] ≡ held_by (connect_tcp a).0)
      × (lists_left (connect_tcp a).1 0 ≡ 0)
unfolding connect_tcp
connect_tcp_lem a = (grind (arith, without_self), grind arith)

-- Whatever the system calls answer, for two descriptors s and t that differ: listen_tcp and connect_tcp leave open exactly the descriptor
-- that they return, and none where they return no valid socket; connect_tcp frees the addresses
-- that it has resolved. The wrapper's move assignment from t to s closes s and leaves t open, which the
-- target then holds.
pub sockets_lem :
    (a : Listening) (b : Connecting) (host : Bytes) (port backlog s t : ℕ)
    → nat_beq s t ≡ false
    → (left_open (listen_tcp a host port backlog).1 [] ≡ held_by (listen_tcp a host port backlog).0)
      × (left_open (connect_tcp b).1 [] ≡ held_by (connect_tcp b).0)
      × (lists_left (connect_tcp b).1 0 ≡ 0)
      × (left_open (assign (some s) (some t)).1 (s ∷ t ∷ [])
          ≡ held_by (assign (some s) (some t)).0.0)
unfolding assign close
sockets_lem a b host port backlog s t differ = (
  listen_tcp_lem a host port backlog,
  (connect_tcp_lem b).0,
  (connect_tcp_lem b).1,
  ground (arith, differ),
)
