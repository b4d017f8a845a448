-- ===== src/Net/Wake.antt =====
-- src/net/reactor_epoll.cpp and src/net/reactor_select.cpp: the descriptors that a reactor opens
-- to be woken, from init to shutdown, over the answers of the system calls.
use chat_system_cpp_chat_ser.Base.{
  ℕ, ◌≡◌, refl, inl, inr, Bool, true, false, not, Option, none, some, List, [], ◌∷◌, ◌++◌, arith,
  if◌then◌else◌, Option-cases, nat_beq, nat_eq, bytes_eq,
}
use chat_system_cpp_chat_ser.Net.Socket.{
  Call, opened, reuses_address, bound, listens, connected, closed, set_non_blocking,
}
use chat_system_cpp_chat_ser.Net.Socket.Ledger.{left_open}

-- epfd_ and wake_fd_, or wake_r_ and wake_w_.
pub record Held : Type 0 where
  pub first : Option ℕ
  pub second : Option ℕ

abbrev pub no_descriptors : Held
no_descriptors = record { first = none; second = none }

-- What epoll_create1, eventfd and epoll_ctl answer.
pub record EpollAnswers : Type 0 where
  pub epoll_create : Option ℕ
  pub eventfd : Option ℕ
  pub ctl_ok : Bool

-- Where a call fails, what has been opened stays in the members.
unfoldable pub init_epoll : EpollAnswers → Held × (Bool × List Call)
init_epoll a = elim a.epoll_create [
  | none ↦ (no_descriptors, (false, []))
  | some e ↦ elim a.eventfd [
    | none ↦ (record { first = some e; second = none }, (false, opened e ∷ []))
    | some w ↦ (record { first = some e; second = some w }, (a.ctl_ok, opened e ∷ opened w ∷ []))
  ]
]

abbrev pub close_one : Option ℕ → List Call
close_one none = []
close_one (some fd) = closed fd ∷ []

unfoldable pub shutdown_epoll : Held → Held × List Call
shutdown_epoll h = (no_descriptors, close_one h.first ++ close_one h.second)

unfoldable pub shutdown_select : Held → Held × List Call
shutdown_select h = (no_descriptors, close_one h.first ++ close_one h.second)

-- What the calls of make_wake_pair answer, in their order.
pub record PairAnswers : Type 0 where
  pub listener : Option ℕ
  pub bind_ok : Bool
  pub getsockname : Option ℕ
  pub listen_ok : Bool
  pub client : Option ℕ
  pub connect_ok : Bool
  pub accepted : Option ℕ
  pub flags : ℕ

-- INADDR_LOOPBACK.
abbrev loopback : ℕ
loopback = 2130706433

unfoldable pub connect_pair : PairAnswers → ℕ → Held × (Bool × List Call)
unfolding set_non_blocking
connect_pair a l = elim a.client [
  | none ↦ (no_descriptors, (false, closed l ∷ []))
  | some c ↦
      if not a.connect_ok
      then (no_descriptors, (false, opened c ∷ connected c ∷ closed l ∷ closed c ∷ []))
      else elim a.accepted [
        | none ↦ (no_descriptors, (false, opened c ∷ connected c ∷ closed l ∷ closed c ∷ []))
        | some s ↦ (
          record { first = some s; second = some c },
          (
            true,
            opened c
                  ∷ connected c
                  ∷ opened s
                  ∷ closed l
                  ∷ (set_non_blocking c true (some a.flags) true).1
                ++ (set_non_blocking s true (some a.flags) true).1,
          ),
        )
      ]
]

-- make_wake_pair, and with it the select reactor's init where the platform is ready.
unfoldable pub make_wake_pair : PairAnswers → Held × (Bool × List Call)
unfolding connect_pair
make_wake_pair a = elim a.listener [
  | none ↦ (no_descriptors, (false, []))
  | some l ↦
      let made = opened l ∷ reuses_address l ∷ bound l loopback 0 ∷ [] in
      if not a.bind_ok
      then (no_descriptors, (false, made ++ closed l ∷ []))
      else elim a.getsockname [
        | none ↦ (no_descriptors, (false, made ++ closed l ∷ []))
        | some port ↦
            if not a.listen_ok
            then (no_descriptors, (false, made ++ listens l 1 ∷ closed l ∷ []))
            else let (h, (ok, calls)) = connect_pair a l in (h, (ok, made ++ listens l 1 ∷ calls))
      ]
]

unfoldable pub init_select : Bool → PairAnswers → Held × (Bool × List Call)
unfolding make_wake_pair
init_select platform_ok a =
    if not platform_ok then (no_descriptors, (false, [])) else make_wake_pair a

-- The descriptors that are open at one time differ.
pub record IsFresh (a : PairAnswers) : Type 0 where
  pub client : (l c : ℕ) → a.listener ≡ some l → a.client ≡ some c → nat_beq l c ≡ false
  pub accepted : (l s : ℕ) → a.listener ≡ some l → a.accepted ≡ some s → nat_beq l s ≡ false
  pub pair : (c s : ℕ) → a.client ≡ some c → a.accepted ≡ some s → nat_beq c s ≡ false

init_epoll_lem :
    (a : EpollAnswers)
    → ((e w : ℕ) → a.epoll_create ≡ some e → a.eventfd ≡ some w → nat_beq e w ≡ false)
    → left_open ((init_epoll a).1.1 ++ (shutdown_epoll (init_epoll a).0).1) [] ≡ []
unfolding init_epoll shutdown_epoll
init_epoll_lem a differ = elim (Option-cases a.epoll_create) [
  | inl none_made ↦ ground arith
  | inr (e, made) ↦ elim (Option-cases a.eventfd) [
    | inl no_event ↦ ground arith
    | inr (w, event) ↦ ground (arith, differ e w made event)
  ]
]

init_select_lem :
    (ready : Bool) (a : PairAnswers)
    → IsFresh a
    → left_open ((init_select ready a).1.1 ++ (shutdown_select (init_select ready a).0).1) [] ≡ []
unfolding init_select make_wake_pair connect_pair set_non_blocking shutdown_select
init_select_lem ready a fresh = elim (Option-cases a.listener) [
  | inl no_listener ↦ grind arith
  | inr (l, made) ↦ elim (Option-cases a.client) [
    | inl no_client ↦ grind arith
    | inr (c, calls) ↦ elim (Option-cases a.accepted) [
      | inl refused ↦ grind (arith, fresh.client l c made calls)
      | inr (s, taken) ↦ grind (
        arith,
        fresh.client l c made calls,
        fresh.accepted l s made taken,
        fresh.pair c s calls taken,
      )
    ]
  ]
]

failed_select :
    (ready : Bool) (a : PairAnswers)
    → IsFresh a
    → (init_select ready a).1.0 ≡ false
    → left_open (init_select ready a).1.1 [] ≡ []
unfolding init_select make_wake_pair connect_pair
failed_select ready a fresh failed = elim (Option-cases a.listener) [
  | inl no_listener ↦ grind arith
  | inr (l, made) ↦ elim (Option-cases a.client) [
    | inl no_client ↦ grind arith
    | inr (c, calls) ↦ grind (arith, fresh.client l c made calls)
  ]
]

-- Whatever the system calls answer, as long as descriptors that are open at one time differ: after
-- the init and the shutdown of either reactor, failed inits included, every descriptor that was
-- opened is closed, and a further shutdown closes nothing. A failed init of the select reactor
-- leaves nothing open even without a shutdown.
pub shutdown-init :
    (ready : Bool) (a : PairAnswers) (b : EpollAnswers) (h : Held)
    → IsFresh a
    → ((e w : ℕ) → b.epoll_create ≡ some e → b.eventfd ≡ some w → nat_beq e w ≡ false)
    → (left_open ((init_select ready a).1.1 ++ (shutdown_select (init_select ready a).0).1) [] ≡ [])
      × ((shutdown_select (shutdown_select h).0).1 ≡ [])
      × ((shutdown_epoll (shutdown_epoll h).0).1 ≡ [])
      × (left_open ((init_epoll b).1.1 ++ (shutdown_epoll (init_epoll b).0).1) [] ≡ [])
      × ((if (init_select ready a).1.0 then [] else left_open (init_select ready a).1.1 []) ≡ [])
unfolding shutdown_select shutdown_epoll
shutdown-init ready a b h fresh differ = (
  init_select_lem ready a fresh,
  refl,
  refl,
  init_epoll_lem b differ,
  ground (arith, failed_select ready a fresh),
)
