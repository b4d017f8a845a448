-- ===== src/Protocol/Framing/RoundTrip.antt =====
-- What `frame` writes, `FrameDecoder::feed` reads back.
use chat_system_cpp_chat_ser.Base.{
  ℕ, ◌/◌, ◌%◌, ◌^◌, ◌≤◌, ◌<◌, ◌≡◌, refl, ap, ◌∙◌, false, List, [], ◌∷◌, ◌++◌, append_assoc, arith,
  nat_eq, length, All, length-append, take-append, drop-append, take_self, drop_self, Bytes,
  bytes_eq,
}
use chat_system_cpp_chat_ser.Protocol.Framing.{
  FrameDecoder, new_decoder, emit, push_front, push_all, resume, body_round, length_round,
  feed_round, run, feed, received, be32, frame,
}
use chat_system_cpp_chat_ser.Protocol.Framing.Total.{run_unfolds}

-- A payload that the decoder takes.
abbrev pub Fits : ℕ → Bytes → Type 0
Fits limit p = (0 < length p) × (length p ≤ limit)

-- The bytes on the wire for a list of payloads.
abbrev pub stream : List Bytes → Bytes
stream [] = []
stream (p ∷ ps) = frame p ++ stream ps

pub be32-header :
    (n : ℕ)
    → n < 2 ^ 32
    → be32 (n / 2 ^ 24 % 256) (n / 2 ^ 16 % 256) (n / 2 ^ 8 % 256) (n % 256) ≡ n
unfolding be32
be32-header n h = omega arith

abbrev pub at_start : ℕ → Bytes → FrameDecoder
at_start limit b = received (new_decoder limit) b

body_round-payload :
    (limit : ℕ) (p rest : Bytes)
    → body_round
        (record { buf = p ++ rest; reading_len = false; want = length p; max_frame_bytes = limit })
      ≡ emit p (at_start limit rest)
unfolding body_round
body_round-payload limit p rest = ground (
  arith,
  length-append p rest,
  take-append (length p) p rest,
  take_self p,
  drop-append (length p) p rest,
  drop_self p,
)

length_round-payload :
    (limit len : ℕ) (p rest b : Bytes)
    → Fits limit p
    → len ≡ length p
    → length_round (at_start limit b) len (p ++ rest) ≡ emit p (at_start limit rest)
unfolding length_round
length_round-payload limit len p rest b h e = ground (arith, body_round-payload limit p rest)

feed_round-frame :
    (limit : ℕ) (p rest : Bytes)
    → limit < 2 ^ 32
    → Fits limit p
    → feed_round (at_start limit (frame p ++ rest)) ≡ emit p (at_start limit rest)
unfolding feed_round frame
feed_round-frame limit p rest small h =
    length_round-payload limit _ p rest (frame p ++ rest) h
      (be32-header (length p % 2 ^ 32) (omega arith) ∙ omega arith)

pub run-frame :
    (limit : ℕ) (p rest : Bytes)
    → limit < 2 ^ 32
    → Fits limit p
    → run (at_start limit (frame p ++ rest)) ≡ push_front p (run (at_start limit rest))
run-frame limit p rest small h =
    run_unfolds _ ∙ ap (resume run) (feed_round-frame limit p rest small h)

-- For a limit below 2 ^ 32 and payloads that are not empty and within the limit: a fresh decoder
-- that is fed their frames with any bytes behind returns the payloads in order, and then what it
-- returns for the bytes behind alone.
pub feed-stream :
    (limit : ℕ) (ps : List Bytes) (rest : Bytes)
    → limit < 2 ^ 32
    → All (Fits limit) ps
    → feed (new_decoder limit) (stream ps ++ rest) ≡ push_all ps (feed (new_decoder limit) rest)
unfolding feed
feed-stream limit [] rest small h = refl
feed-stream limit (p ∷ ps) rest small h =
    ap (λ b. run (at_start limit b)) (append_assoc (frame p) (stream ps) rest)
    ∙ run-frame limit p (stream ps ++ rest) small h.0
    ∙ ap (push_front p) (feed-stream limit ps rest small h.1)
