-- ===== src/Net/Connection/Closing/Balance.antt =====
-- How often each method of a connection tells of the close, and posts it.
use chat_system_cpp_chat_ser.Base.{
  ℕ, zero, suc, ◌+◌, ◌≡◌, inl, inr, Bool, true, false, not, none, some, List, [], ◌∷◌, ◌++◌, arith,
  if◌then◌else◌, Bool-cases, nat_eq, is_empty, take, drop, Bytes, bytes_eq,
}
use chat_system_cpp_chat_ser.Net.Connection.{
  Connection, flush, deliver, schedule, Effect, hand, post, write, on_close, Recv, arrived, eof,
  again, interrupted, broken, Sent, taken, full, after, Parsed, short, bad, whole, parse_payload,
  parse_length, parse_header, parse_round, Outcome, handing, parse_on, parse_loop, parse,
  schedule_close, on_readable, send_frame, try_flush, deliver_close, be32,
}

abbrev pub flag : Bool → ℕ
flag b = if b then 1 else 0

-- How often the owner is told of the close, and how often the close is posted.
abbrev pub close_calls : List Effect → ℕ
close_calls [] = 0
close_calls (on_close ∷ effects) = suc (close_calls effects)
close_calls (_ ∷ effects) = close_calls effects

abbrev pub close_posts : List Effect → ℕ
close_posts [] = 0
close_posts (post deliver ∷ effects) = suc (close_posts effects)
close_posts (_ ∷ effects) = close_posts effects

pub record Balanced (c : Connection) (r : Connection × List Effect) : Type 0 where
  pub calls : close_calls r.1 + flag c.closed ≡ flag r.0.closed
  pub posts : close_posts r.1 + flag c.closing ≡ flag r.0.closing
  pub descriptor : (c.fd_valid ≡ not c.closed) → r.0.fd_valid ≡ not r.0.closed

close_calls-append :
    (xs ys : List Effect) → close_calls (xs ++ ys) ≡ close_calls xs + close_calls ys
close_calls-append [] ys = omega arith
close_calls-append (on_close ∷ xs) ys = omega (arith, close_calls-append xs ys)
close_calls-append (_ ∷ xs) ys = close_calls-append xs ys

close_posts-append :
    (xs ys : List Effect) → close_posts (xs ++ ys) ≡ close_posts xs + close_posts ys
close_posts-append [] ys = omega arith
close_posts-append (post deliver ∷ xs) ys = omega (arith, close_posts-append xs ys)
close_posts-append (post flush ∷ xs) ys = close_posts-append xs ys
close_posts-append (post schedule ∷ xs) ys = close_posts-append xs ys
close_posts-append (_ ∷ xs) ys = close_posts-append xs ys

pub after-Balanced :
    (c : Connection) (r s : Connection × List Effect)
    → Balanced c r
    → Balanced r.0 s
    → Balanced c (after r.1 s)
after-Balanced c (d, xs) (e, ys) b b' = record {
  calls = omega (arith, close_calls-append xs ys, b.calls, b'.calls);
  posts = omega (arith, close_posts-append xs ys, b.posts, b'.posts);
  descriptor = λ h. b'.descriptor (b.descriptor h);
}

-- Nothing happens to what is counted.
pub quiet : (c : Connection) → Balanced c (c, [])
quiet c = record { calls = omega arith; posts = omega arith; descriptor = λ h. h }

pub schedule_close-Balanced : (c : Connection) → Balanced c (schedule_close c)
unfolding schedule_close
schedule_close-Balanced c = ground arith

pub deliver_close-Balanced : (c : Connection) → Balanced c (deliver_close c)
unfolding deliver_close
deliver_close-Balanced c = ground arith

pub send_frame-Balanced : (p : Bytes) (c : Connection) → Balanced c (send_frame p c)
unfolding send_frame
send_frame-Balanced p c = ground arith

pub try_flush-Balanced : (c : Connection) (answers : List Sent) → Balanced c (try_flush c answers)
unfolding try_flush
try_flush-Balanced c [] = ground arith
try_flush-Balanced c (taken n ∷ answers) = elim (Bool-cases (is_empty c.wbuf)) [
  | inl e ↦ ground arith
  | inr e ↦ simp e (
      after-Balanced c (record c { wbuf = drop n c.wbuf }, write (take n c.wbuf) ∷ []) _
        (record { calls = omega arith; posts = omega arith; descriptor = λ h. h })
        (try_flush-Balanced (record c { wbuf = drop n c.wbuf }) answers))
]
try_flush-Balanced c (full ∷ answers) = ground arith
try_flush-Balanced c (interrupted ∷ answers) = ground (arith, try_flush-Balanced c answers)
try_flush-Balanced c (broken ∷ answers) = ground arith

-- The reading loop changes neither flag.
abbrev Reads : Connection → Parsed → Type 0
Reads c (short d) = Balanced c (d, [])
Reads c (bad d) = Balanced c (d, [])
Reads c (whole p d) = Balanced c (d, [])

parse_payload-Reads : (c : Connection) → Reads c (parse_payload c)
unfolding parse_payload
parse_payload-Reads c = ground arith

parse_length-Reads : (c : Connection) (len : ℕ) (rest : Bytes) → Reads c (parse_length c len rest)
unfolding parse_length
parse_length-Reads c len rest = ground arith

parse_header-Reads : (c : Connection) (b : Bytes) → Reads c (parse_header c b)
unfolding parse_header
parse_header-Reads c (b0 ∷ b1 ∷ b2 ∷ b3 ∷ rest) = parse_length-Reads c (be32 b0 b1 b2 b3) rest
parse_header-Reads c _ = quiet c

parse_round-Reads : (c : Connection) → Reads c (parse_round c)
unfolding parse_round
parse_round-Reads c = elim (Bool-cases c.reading_length) [
  | inl e ↦ simp e (parse_header-Reads c c.rbuf)
  | inr e ↦ simp e (parse_payload-Reads c)
]

abbrev Parses : Connection → Outcome → Type 0
Parses c none = Unit {0}
Parses c (some (go, d, effects)) = Balanced c (d, effects)

parse_loop-Parses : (f : ℕ) (c : Connection) → Parses c (parse_loop f c)
unfolding parse_loop
parse_loop-Parses zero c = tt
parse_loop-Parses (suc f) c = step (parse_round c) (parse_round-Reads c) (parse_loop-Parses f)
  where
    hands :
        (p : Bytes) (d : Connection) (o : Outcome)
        → Balanced c (d, [])
        → Parses d o
        → Parses c (handing p o)
    hands p d none b k = tt
    hands p d (some (go, e, effects)) b k =
        after-Balanced c (d, hand p ∷ []) (e, effects)
          (record { calls = b.calls; posts = b.posts; descriptor = b.descriptor }) k

    step :
        (r : Parsed)
        → Reads c r
        → ((d : Connection) → Parses d (parse_loop f d))
        → Parses c (parse_on (parse_loop f) r)
    step (short d) b ih = b
    step (bad d) b ih = after-Balanced c (d, []) (schedule_close d) b (schedule_close-Balanced d)
    step (whole p d) b ih = hands p d (parse_loop f d) b (ih d)

parse-Parses : (c : Connection) → Parses c (parse c)
unfolding parse
parse-Parses c = parse_loop-Parses _ c

pub on_readable-Balanced :
    (c : Connection) (answers : List Recv) → Balanced c (on_readable c answers)
unfolding on_readable
on_readable-Balanced c [] = quiet c
on_readable-Balanced c (arrived b ∷ answers) =
    go (parse (record c { rbuf = c.rbuf ++ b })) (parse-Parses (record c { rbuf = c.rbuf ++ b }))
      (λ d. on_readable-Balanced d answers)
  where
    go :
        (o : Outcome)
        → Parses (record c { rbuf = c.rbuf ++ b }) o
        → ((d : Connection) → Balanced d (on_readable d answers))
        → Balanced c (elim o [
          | none ↦ (c, [])
          | some (true, d, effects) ↦ after effects (on_readable d answers)
          | some (false, d, effects) ↦ (d, effects)
        ])
    go none k ih = quiet c
    go (some (true, d, effects)) k ih =
        after-Balanced c (d, effects) (on_readable d answers)
          (record { calls = k.calls; posts = k.posts; descriptor = k.descriptor }) (ih d)
    go (some (false, d, effects)) k ih = record {
      calls = k.calls;
      posts = k.posts;
      descriptor = k.descriptor;
    }
on_readable-Balanced c (eof ∷ answers) = schedule_close-Balanced c
on_readable-Balanced c (again ∷ answers) = quiet c
on_readable-Balanced c (interrupted ∷ answers) = on_readable-Balanced c answers
on_readable-Balanced c (broken ∷ answers) = schedule_close-Balanced c
