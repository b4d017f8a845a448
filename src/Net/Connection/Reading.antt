-- ===== src/Net/Connection/Reading.antt =====
-- The reading half of src/net/connection.cpp against the decoder of src/protocol/framing.cpp.
use chat_system_cpp_chat_ser.Base.{
  ℕ, zero, suc, ◌^◌, ◌<◌, ◌≡◌, refl, sym, ap, subst, ◌∙◌, true, false, none, some, List, [], ◌∷◌,
  ◌++◌, map, arith, nat_eq, All, Bytes, bytes_eq,
}
use chat_system_cpp_chat_ser.Protocol.Framing.Idle.{
  push_all-done, IsIdle, done-IsIdle, new_decoder-IsIdle, feed-whole,
}
use chat_system_cpp_chat_ser.Protocol.Framing.{
  FrameDecoder, new_decoder, Round, halt, fail, emit, Feed, done, thrown, stuck, push_front, resume,
  body_round, length_round, header_round, feed_round, feed_loop, run, feed, received, new_decoder,
  be32,
}
use chat_system_cpp_chat_ser.Base.{flatten}
use mathlib.Core.List.{map-append}
use chat_system_cpp_chat_ser.Protocol.Framing.Chunks.{feed-append, feed_more}
use chat_system_cpp_chat_ser.Protocol.Framing.RoundTrip.{Fits, stream}
use chat_system_cpp_chat_ser.Net.Connection.{
  Connection, Effect, hand, Recv, arrived, again, make, schedule_close, Parsed, short, bad, whole,
  parse_payload, parse_length, parse_header, parse_round, Outcome, handing, parse_on, parse_loop,
  parse, after, on_readable,
}

-- The reading state of a connection, as a decoder; and a connection with that state.
abbrev pub decoder : Connection → FrameDecoder
decoder c = record {
  buf = c.rbuf;
  reading_len = c.reading_length;
  want = c.want;
  max_frame_bytes = c.max_frame;
}

abbrev pub put : Connection → FrameDecoder → Connection
put c d = record c {
  rbuf = d.buf;
  reading_length = d.reading_len;
  want = d.want;
  max_frame = d.max_frame_bytes;
}

abbrev as_parsed : Connection → Round → Parsed
as_parsed c (halt d) = short (put c d)
as_parsed c (fail e d) = bad (put c d)
as_parsed c (emit p d) = whole p (put c d)

parse_payload-round : (c : Connection) → parse_payload c ≡ as_parsed c (body_round (decoder c))
unfolding parse_payload body_round
parse_payload-round c = ground arith

parse_length-round :
    (c : Connection) (len : ℕ) (rest : Bytes)
    → parse_length c len rest ≡ as_parsed c (length_round (decoder c) len rest)
unfolding parse_length length_round
parse_length-round c len rest = ground arith

parse_header-round :
    (c : Connection) (b : Bytes) → parse_header c b ≡ as_parsed c (header_round (decoder c) b)
unfolding parse_header header_round
parse_header-round c (b0 ∷ b1 ∷ b2 ∷ b3 ∷ rest) = parse_length-round c (be32 b0 b1 b2 b3) rest
parse_header-round c _ = refl

parse_round-round : (c : Connection) → parse_round c ≡ as_parsed c (feed_round (decoder c))
unfolding parse_round feed_round
parse_round-round c = ground (arith, parse_header-round c c.rbuf, parse_payload-round c)

-- What a connection does where a decoder gives the outcome at hand. Frames that the decoder
-- loses by its exception have been handed over by the connection.
abbrev pub Follows : Connection → Feed → Outcome → Type 0
Follows c (done d ps) o = o ≡ some (true, put c d, map hand ps)
Follows c (thrown e d) o =
    (ps : List Bytes) × (o
      ≡ some (false, (schedule_close (put c d)).0, map hand ps ++ (schedule_close (put c d)).1))
Follows c stuck o = o ≡ none

handing-Follows :
    (c : Connection) (p : Bytes) (r : Feed) (o : Outcome)
    → Follows c r o
    → Follows c (push_front p r) (handing p o)
handing-Follows c p (done d ps) o h = ap (handing p) h
handing-Follows c p (thrown e d) o h = (p ∷ h.0, ap (handing p) h.1)
handing-Follows c p stuck o h = ap (handing p) h

-- The reading state of the connection is replaced as a whole.
Follows-put :
    (c : Connection) (x : FrameDecoder) (r : Feed) (o : Outcome)
    → Follows (put c x) r o
    → Follows c r o
Follows-put c x (done e ps) o h = h
Follows-put c x (thrown y e) o h = h
Follows-put c x stuck o h = h

parse_loop-Follows : (f : ℕ) (c : Connection) → Follows c (feed_loop f (decoder c)) (parse_loop f c)
unfolding parse_loop feed_loop
parse_loop-Follows zero c = refl
parse_loop-Follows (suc f) c =
    subst
      (λ r. Follows c (resume (feed_loop f) (feed_round (decoder c))) (parse_on (parse_loop f) r))
      (sym (parse_round-round c))
      (go (feed_round (decoder c)) (λ d. parse_loop-Follows f (put c d)))
  where
    go :
        (r : Round)
        → ((d : FrameDecoder) → Follows (put c d) (feed_loop f d) (parse_loop f (put c d)))
        → Follows c (resume (feed_loop f) r) (parse_on (parse_loop f) (as_parsed c r))
    go (halt d) ih = refl
    go (fail e d) ih = ([], refl)
    go (emit p d) ih =
        handing-Follows c p (feed_loop f d) (parse_loop f (put c d))
          (Follows-put c d (feed_loop f d) (parse_loop f (put c d)) (ih d))

-- The connection's own copy of the parser does what `FrameDecoder::feed` does. Where that
-- returns payloads, the connection hands over the same and is left in the same reading state;
-- where it throws, the connection schedules its close, and stops with the decoder's buffer.
pub parse-feed :
    (c : Connection) (b : Bytes)
    → Follows c (feed (decoder c) b) (parse (record c { rbuf = c.rbuf ++ b }))
unfolding parse feed run
parse-feed c b =
    Follows-put c (received (decoder c) b) (feed (decoder c) b) _
      (parse_loop-Follows _ (record c { rbuf = c.rbuf ++ b }))

abbrev read_result : Connection → Feed → Connection × List Effect
read_result c (done d ps) = (put c d, map hand ps)
read_result c _ = (c, [])

on_readable-arrived :
    (c : Connection) (b : Bytes) (answers : List Recv) (d : FrameDecoder) (ps : List Bytes)
    → parse (record c { rbuf = c.rbuf ++ b }) ≡ some (true, put c d, map hand ps)
    → on_readable c (arrived b ∷ answers) ≡ after (map hand ps) (on_readable (put c d) answers)
unfolding on_readable
on_readable-arrived c b answers d ps h = ground arith

on_readable-chunks :
    (c : Connection) (chunks : List Bytes) (d : FrameDecoder) (ps : List Bytes)
    → IsIdle (decoder c)
    → feed (decoder c) (flatten chunks) ≡ done d ps
    → on_readable c (map arrived chunks ++ again ∷ []) ≡ (put c d, map hand ps)
unfolding on_readable
on_readable-chunks c [] d ps idle h = ap (read_result c) (sym idle ∙ h)
on_readable-chunks c (x ∷ chunks) d ps idle h =
    go (feed (decoder c) x) refl (sym (feed-append (decoder c) x (flatten chunks)) ∙ h)
      (λ e qs. on_readable-chunks (put c e) chunks d qs)
  where
    go :
        (r : Feed)
        → feed (decoder c) x ≡ r
        → feed_more r (flatten chunks) ≡ done d ps
        → ((e : FrameDecoder) (qs : List Bytes)
            → IsIdle e
            → feed e (flatten chunks) ≡ done d qs
            → on_readable (put c e) (map arrived chunks ++ again ∷ []) ≡ (put c d, map hand qs))
        → on_readable c (arrived x ∷ map arrived chunks ++ again ∷ []) ≡ (put c d, map hand ps)
    go (done e qs) eq more ih =
        let rest = push_all-done qs (feed e (flatten chunks)) more in
        on_readable-arrived c x (map arrived chunks ++ again ∷ []) e qs
          (subst (λ r. Follows c r (parse (record c { rbuf = c.rbuf ++ x }))) eq (parse-feed c x))
        ∙ ap (after (map hand qs)) (ih e rest.0 (done-IsIdle (decoder c) e x qs eq) rest.1)
        ∙ ap (λ t. (put c d, t)) (sym (map-append hand qs rest.0) ∙ ap (map hand) (sym rest.2))
    go (thrown y e) eq more ih = cc
    go stuck eq more ih = cc

-- However the network cuts the frames of some payloads, none of them empty or over the limit,
-- into chunks: a fresh connection that receives the chunks hands over the payloads in their
-- order, and is left as it was made.
pub on_readable-stream :
    (id limit : ℕ) (ps chunks : List Bytes)
    → limit < 2 ^ 32
    → All (Fits limit) ps
    → flatten chunks ≡ stream ps
    → on_readable (make id limit) (map arrived chunks ++ again ∷ []) ≡ (make id limit, map hand ps)
unfolding make
on_readable-stream id limit ps chunks small fits cut =
    on_readable-chunks (make id limit) chunks (new_decoder limit) ps (new_decoder-IsIdle limit)
      (ap (feed (new_decoder limit)) cut ∙ feed-whole limit ps small fits)
