-- ===== src/Net/Socket.antt =====
-- src/net/socket.cpp and include/net/socket.h over the answers of the system calls. A function
-- returns its result with the calls that matter for the descriptors, in order.
pub mod Ledger
use chat_system_cpp_chat_ser.Base.{
  ℕ, ◌-◌, bit_and, bit_or, Bool, true, false, not, ◌||◌, Option, none, some, List, [], ◌∷◌, ◌++◌,
  if◌then◌else◌, nat_eq, is_empty, Bytes, codes, bytes_beq, bytes_eq,
}

pub data Call : Type 0 where
  opened : ℕ → Call
  reuses_address : ℕ → Call
  bound : ℕ → ℕ → ℕ → Call
  listens : ℕ → ℕ → Call
  set_flags : ℕ → ℕ → Call
  no_delay : ℕ → Call
  resolved : Call
  freed : Call
  connected : ℕ → Call
  closed : ℕ → Call

-- O_NONBLOCK.
abbrev pub nonblock : ℕ
nonblock = 2048

-- fcntl(F_GETFL) answers the flags, or nothing where it fails; fcntl(F_SETFL) answers whether it
-- worked.
unfoldable pub set_non_blocking : ℕ → Bool → Option ℕ → Bool → Bool × List Call
set_non_blocking s nb none worked = (false, [])
set_non_blocking s nb (some flags) worked =
    let flags = if nb then bit_or flags nonblock else flags - bit_and flags nonblock in
    (worked, set_flags s flags ∷ [])

-- What the calls of listen_tcp answer; inet_pton is a function.
pub record Listening : Type 0 where
  pub socket : Option ℕ
  pub pton : Bytes → Option ℕ
  pub bind_ok : Bool
  pub listen_ok : Bool
  pub flags : Option ℕ

-- INADDR_ANY is 0.
unfoldable pub address : (Bytes → Option ℕ) → Bytes → Option ℕ
address pton host = if is_empty host || bytes_beq host (codes "0.0.0.0") then some 0 else pton host

unfoldable pub listen_tcp : Listening → Bytes → ℕ → ℕ → Option ℕ × List Call
unfolding address set_non_blocking
listen_tcp a host port backlog = elim a.socket [
  | none ↦ (none, [])
  | some s ↦
      let made = opened s ∷ reuses_address s ∷ [] in
      elim (address a.pton host) [
        | none ↦ (none, made ++ closed s ∷ [])
        | some addr ↦
            let tried = made ++ bound s addr port ∷ [] in
            if not a.bind_ok
            then (none, tried ++ closed s ∷ [])
            else if not a.listen_ok
            then (none, tried ++ listens s backlog ∷ closed s ∷ [])
            else (some s, tried ++ listens s backlog ∷ (set_non_blocking s true a.flags true).1)
      ]
]

-- What the calls of connect_tcp answer.
pub record Connecting : Type 0 where
  pub getaddrinfo_ok : Bool
  pub socket : Option ℕ
  pub connect_ok : Bool

unfoldable pub connect_tcp : Connecting → Option ℕ × List Call
connect_tcp a = if not a.getaddrinfo_ok then (none, []) else elim a.socket [
  | none ↦ (none, resolved ∷ freed ∷ [])
  | some s ↦
      let tried = resolved ∷ opened s ∷ connected s ∷ [] in
      if not a.connect_ok
      then (none, tried ++ closed s ∷ freed ∷ [])
      else (some s, tried ++ freed ∷ no_delay s ∷ [])
]

-- The wrapper: it closes what it holds, and holds nothing afterwards.
unfoldable pub close : Option ℕ → Option ℕ × List Call
close none = (none, [])
close (some s) = (none, closed s ∷ [])

unfoldable pub release : Option ℕ → Option ℕ × Option ℕ
release held = (none, held)

-- Move assignment from another object: what the target held is closed. The results are the target
-- and the source.
unfoldable pub assign : Option ℕ → Option ℕ → (Option ℕ × Option ℕ) × List Call
unfolding close
assign held other = ((other, none), (close held).1)
