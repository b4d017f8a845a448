-- ===== src/Examples/Wire.antt =====
-- src/protocol/framing.cpp and src/net/connection.cpp on small streams.
use chat_system_cpp_chat_ser.Base.{
  ◌≡◌, refl, ◌≢◌, true, false, not, List, [], ◌∷◌, ◌++◌, map, arith, nat_eq, take, drop, All,
  flatten, Bytes, IsBytes, codes, bytes_eq,
}
use chat_system_cpp_chat_ser.Protocol.Framing.{
  new_decoder, done, thrown, stuck, push_all, body_round, length_round, header_round, feed_round,
  feed_loop, run, feed, header, frame, be32, too_large,
}
use chat_system_cpp_chat_ser.Protocol.Framing.Total.{feed-ne-stuck}
use chat_system_cpp_chat_ser.Protocol.Framing.Chunks.{feed-append, feed_more}
use chat_system_cpp_chat_ser.Protocol.Framing.RoundTrip.{Fits, stream, feed-stream}
use chat_system_cpp_chat_ser.Protocol.Framing.Lossless.{IsValid}
use chat_system_cpp_chat_ser.Net.Connection.{
  Connection, hand, arrived, again, broken, taken, make, on_readable, try_flush, parse, deliver,
  send_frame,
}
use chat_system_cpp_chat_ser.Net.Connection.Reading.{
  decoder, Follows, parse-feed, on_readable-stream,
}
use chat_system_cpp_chat_ser.Net.Connection.Writing.{written, send_frames, send_frames-received}
use chat_system_cpp_chat_ser.Net.Connection.Closing.{
  Event, ready, sends, closes, runs, handle_all, close_calls, close_posts, flag, closes_once,
}

abbrev two : List Bytes
two = codes "hi" ∷ codes "you" ∷ []

abbrev two_fit : All (Fits 16) two
two_fit = ((omega arith, omega arith), ((omega arith, omega arith), tt))

framed : frame (codes "hi") ≡ 0 ∷ 0 ∷ 0 ∷ 2 ∷ codes "hi"
unfolding frame header
framed = refl

refused :
    feed (new_decoder 1) (frame (codes "hi"))
    ≡ thrown too_large (record (new_decoder 1) { buf = frame (codes "hi") })
unfolding feed run feed_loop feed_round header_round length_round be32 frame header
refused = refl

feed-stream_example :
    feed (new_decoder 16) (stream two ++ codes "x")
    ≡ push_all two (feed (new_decoder 16) (codes "x"))
feed-stream_example = feed-stream 16 two (codes "x") (omega arith) two_fit

feed-append_example :
    feed (new_decoder 16) (take 5 (stream two) ++ drop 5 (stream two))
    ≡ feed_more (feed (new_decoder 16) (take 5 (stream two))) (drop 5 (stream two))
feed-append_example = feed-append (new_decoder 16) (take 5 (stream two)) (drop 5 (stream two))

feed-ne-stuck_example : feed (new_decoder 16) (codes "abcdefgh") ≢ stuck
feed-ne-stuck_example = feed-ne-stuck (new_decoder 16) (codes "abcdefgh")

fresh-IsValid : IsValid (new_decoder 16)
fresh-IsValid = record { bytes = tt; limit = omega arith; wanted = λ h. cc }

wire-IsBytes : IsBytes (frame (codes "hi"))
unfolding frame header
wire-IsBytes =
    (omega arith, (omega arith, (omega arith, (omega arith, (omega arith, (omega arith, tt))))))

wire_fed : feed (new_decoder 16) (frame (codes "hi")) ≡ done (new_decoder 16) (codes "hi" ∷ [])
unfolding feed run feed_loop feed_round header_round length_round body_round be32 frame header
wire_fed = refl

parse-feed_example :
    Follows
      (make 1 16)
      (feed (decoder (make 1 16)) (frame (codes "hi")))
      (parse (record (make 1 16) { rbuf = (make 1 16).rbuf ++ frame (codes "hi") }))
parse-feed_example = parse-feed (make 1 16) (frame (codes "hi"))

cut_up : flatten (take 5 (stream two) ∷ drop 5 (stream two) ∷ []) ≡ stream two
unfolding frame header
cut_up = refl

on_readable-stream_example :
    on_readable
      (make 1 16)
      (map arrived (take 5 (stream two) ∷ drop 5 (stream two) ∷ []) ++ again ∷ [])
    ≡ (make 1 16, map hand two)
on_readable-stream_example =
    on_readable-stream 1 16 two (take 5 (stream two) ∷ drop 5 (stream two) ∷ []) (omega arith)
      two_fit cut_up

abbrev pending : Connection
pending = record {
  id = 1;
  fd_valid = true;
  max_frame = 16;
  rbuf = [];
  reading_length = true;
  want = 4;
  wbuf = codes "abc";
  write_armed = true;
  closing = false;
  closed = false;
  user_id = 0;
  token = [];
}

abbrev idle : Connection
idle = record pending { wbuf = []; write_armed = false }

sent_gone : (try_flush (send_frames two idle) (taken 13 ∷ [])).0.wbuf ≡ []
unfolding send_frames send_frame try_flush frame header
sent_gone = refl

send_frames-received_example :
    feed (new_decoder 16) (written (try_flush (send_frames two idle) (taken 13 ∷ [])).1)
    ≡ done (new_decoder 16) two
send_frames-received_example =
    send_frames-received two idle (taken 13 ∷ []) (refl, refl) refl (omega arith) two_fit sent_gone

abbrev troubles : List Event
troubles =
    sends (codes "hi")
    ∷ closes
    ∷ ready true true (broken ∷ []) []
    ∷ runs deliver []
    ∷ runs deliver []
    ∷ []

closes_once_example :
    let r = handle_all troubles (make 1 16) in
    (close_calls r.1 ≡ flag r.0.closed)
    × (close_posts r.1 ≡ flag r.0.closing)
    × (r.0.fd_valid ≡ not r.0.closed)
closes_once_example = closes_once 1 16 troubles
