-- ===== src/Net/Connection.antt =====
-- src/net/connection.cpp and include/net/connection.h. A method takes the connection and what the
-- socket answers, and returns the connection with the effects on its surroundings, in order.
pub mod Reading
pub mod Writing
pub mod Closing
use chat_system_cpp_chat_ser.Base.{
  ℕ, zero, suc, ◌+◌, ◌*◌, ◌%◌, ◌^◌, Bool, true, false, ◌||◌, Option, none, some, List, [], ◌∷◌,
  ◌++◌, ltb, if◌then◌else◌, nat_beq, nat_eq, length, is_empty, take, drop, Bytes, bytes_eq,
}
use chat_system_cpp_chat_ser.Protocol.Framing.{header, be32}

pub record Connection : Type 0 where
  pub id : ℕ
  pub fd_valid : Bool
  pub max_frame : ℕ
  pub rbuf : Bytes
  pub reading_length : Bool
  pub want : ℕ
  pub wbuf : Bytes
  pub write_armed : Bool
  pub closing : Bool
  pub closed : Bool
  pub user_id : ℕ
  pub token : Bytes

-- Closures that are posted to the reactor.
pub data Task : Type 0 where
  flush deliver schedule : Task

pub data Effect : Type 0 where
  hand : Bytes → Effect
  post : Task → Effect
  write : Bytes → Effect
  interest : Bool → Effect
  remove_fd close_fd on_close : Effect

-- What recv(2) and send(2) answer; a negative answer with its errno.
pub data Recv : Type 0 where
  arrived : Bytes → Recv
  eof again interrupted broken : Recv

pub data Sent : Type 0 where
  taken : ℕ → Sent
  full interrupted broken : Sent

-- Connection::Connection, with the id that `next_id_` gives.
unfoldable pub make : ℕ → ℕ → Connection
make id max_frame = record {
  id = id;
  fd_valid = true;
  max_frame = max_frame;
  rbuf = [];
  reading_length = true;
  want = 4;
  wbuf = [];
  write_armed = false;
  closing = false;
  closed = false;
  user_id = 0;
  token = [];
}

unfoldable pub set_user_id : ℕ → Connection → Connection
set_user_id uid c = record c { user_id = uid }

unfoldable pub set_session_token : Bytes → Connection → Connection
set_session_token t c = record c { token = t }

unfoldable pub schedule_close : Connection → Connection × List Effect
schedule_close c = if c.closing then (c, []) else (record c { closing = true }, post deliver ∷ [])

-- One round of the loop that takes complete frames out of `rbuf`.
pub data Parsed : Type 0 where
  short : Connection → Parsed
  bad : Connection → Parsed
  whole : Bytes → Connection → Parsed

unfoldable pub parse_payload : Connection → Parsed
parse_payload c =
    if ltb (length c.rbuf) c.want
    then short c
    else whole (take c.want c.rbuf)
        (record c { rbuf = drop c.want c.rbuf; reading_length = true; want = 4 })

unfoldable pub parse_length : Connection → ℕ → Bytes → Parsed
unfolding parse_payload
parse_length c len rest =
    if nat_beq len 0 || ltb c.max_frame len
    then bad c
    else parse_payload (record c { rbuf = rest; reading_length = false; want = len })

unfoldable pub parse_header : Connection → Bytes → Parsed
unfolding parse_length be32
parse_header c (b0 ∷ b1 ∷ b2 ∷ b3 ∷ rest) = parse_length c (be32 b0 b1 b2 b3) rest
parse_header c few = short c

unfoldable pub parse_round : Connection → Parsed
unfolding parse_header parse_payload
parse_round c = if c.reading_length then parse_header c c.rbuf else parse_payload c

-- The outcome of that loop: it reads on, or it has returned from `on_readable` after a bad length.
-- `none` is no outcome of the code: the fuel ran out.
abbrev pub Outcome : Type 0
Outcome = Option (Bool × Connection × List Effect)

-- `on_frame_` runs before the loop goes on; what it throws is caught.
abbrev pub handing : Bytes → Outcome → Outcome
handing p none = none
handing p (some (go, c, effects)) = some (go, c, hand p ∷ effects)

abbrev pub parse_on : (Connection → Outcome) → Parsed → Outcome
parse_on next (short c) = some (true, c, [])
parse_on next (bad c) = let closed = schedule_close c in some (false, closed.0, closed.1)
parse_on next (whole p c) = handing p (next c)

unfoldable pub parse_loop : ℕ → Connection → Outcome
parse_loop zero c = none
parse_loop (suc fuel) c = parse_on (parse_loop fuel) (parse_round c)

abbrev pub parse_work : Connection → ℕ
parse_work c = 2 * length c.rbuf + (if c.reading_length then 0 else 1)

unfoldable pub parse : Connection → Outcome
parse c = parse_loop (suc (parse_work c)) c

-- The effects of a first part in front of those of a second.
abbrev pub after : {A : Type 0} → List Effect → A × List Effect → A × List Effect
after first (c, effects) = (c, first ++ effects)

-- `on_readable`, over the answers of recv in turn. It stops with the list, which in a run of the
-- code ends by `again`, `eof`, `broken` or a bad length.
unfoldable pub on_readable : Connection → List Recv → Connection × List Effect
on_readable c [] = (c, [])
on_readable c (arrived b ∷ answers) = elim (parse (record c { rbuf = c.rbuf ++ b })) [
  | none ↦ (c, [])
  | some (true, c', effects) ↦ after effects (on_readable c' answers)
  | some (false, c', effects) ↦ (c', effects)
]
on_readable c (eof ∷ answers) = schedule_close c
on_readable c (again ∷ answers) = (c, [])
on_readable c (interrupted ∷ answers) = on_readable c answers
on_readable c (broken ∷ answers) = schedule_close c

unfoldable pub send_frame : Bytes → Connection → Connection × List Effect
send_frame payload c =
    if c.closing || c.closed
    then (c, [])
    else if ltb c.max_frame (length payload)
    then (c, [])
    else (
      record c { wbuf = (c.wbuf ++ header (length payload % 2 ^ 32)) ++ payload },
      post flush ∷ [],
    )

unfoldable pub disarm : Connection → Connection × List Effect
disarm c =
    if c.write_armed then (record c { write_armed = false }, interest false ∷ []) else (c, [])

unfoldable pub arm : Connection → Connection × List Effect
arm c = if c.write_armed then (c, []) else (record c { write_armed = true }, interest true ∷ [])

-- `try_flush_locked`, over the answers of send in turn.
unfoldable pub try_flush : Connection → List Sent → Connection × List Effect
unfolding disarm arm
try_flush c [] = if is_empty c.wbuf then disarm c else (c, [])
try_flush c (taken n ∷ answers) =
    let rest = try_flush (record c { wbuf = drop n c.wbuf }) answers in
    if is_empty c.wbuf then disarm c else after (write (take n c.wbuf) ∷ []) rest
try_flush c (full ∷ answers) = if is_empty c.wbuf then disarm c else arm c
try_flush c (interrupted ∷ answers) =
    let rest = try_flush c answers in if is_empty c.wbuf then disarm c else rest
try_flush c (broken ∷ answers) = if is_empty c.wbuf then disarm c else (c, post schedule ∷ [])

unfoldable pub on_writable : Connection → List Sent → Connection × List Effect
on_writable c answers = try_flush c answers

-- The second test sees what the first part did.
unfoldable pub on_event :
    Connection → Bool → Bool → List Recv → List Sent → Connection × List Effect
unfolding on_writable
on_event c readable writable recvs sents =
    if c.closed
    then (c, [])
    else let (c', effects) = if readable then on_readable c recvs else (c, []) in
      if c'.closed
      then (c', effects)
      else if writable
      then after effects (on_writable c' sents)
      else (c', effects)

unfoldable pub close : Connection → Connection × List Effect
close c = schedule_close c

unfoldable pub deliver_close : Connection → Connection × List Effect
deliver_close c = if c.closed then (c, []) else (
  record c { closed = true; fd_valid = false },
  if c.fd_valid then remove_fd ∷ close_fd ∷ on_close ∷ [] else remove_fd ∷ on_close ∷ [],
)

-- What the reactor runs when it drains its posts.
unfoldable pub run_task : Task → List Sent → Connection → Connection × List Effect
run_task flush sents c = if c.closed then (c, []) else try_flush c sents
run_task deliver sents c = deliver_close c
run_task schedule sents c = schedule_close c
