-- ===== src/Protocol/Framing.antt =====
-- src/protocol/framing.cpp and include/protocol/framing.h: the 4-byte big-endian length prefix,
-- and the decoder that is fed bytes as they come.
pub mod Total
pub mod Chunks
pub mod Idle
pub mod RoundTrip
pub mod Lossless
use chat_system_cpp_chat_ser.Base.{
  ℕ, zero, suc, ◌+◌, ◌*◌, ◌/◌, ◌%◌, ◌^◌, List, [], ◌∷◌, ◌++◌, Bool, true, false, Bytes, length,
  take, drop, ltb, nat_beq, if◌then◌else◌,
}

-- The four bytes of a uint32_t, the highest first: `(len >> 24) & 0xFF` and so on.
unfoldable pub header : ℕ → Bytes
header len = len / 2 ^ 24 % 256 ∷ len / 2 ^ 16 % 256 ∷ len / 2 ^ 8 % 256 ∷ len % 256 ∷ []

-- `static_cast<std::uint32_t>(payload.size())` drops what is above 32 bits.
unfoldable pub frame : Bytes → Bytes
unfolding header
frame payload = header (length payload % 2 ^ 32) ++ payload

-- The four shifted bytes share no bit, so that `|` adds them.
unfoldable pub be32 : ℕ → ℕ → ℕ → ℕ → ℕ
be32 b0 b1 b2 b3 = b0 * 2 ^ 24 + b1 * 2 ^ 16 + b2 * 2 ^ 8 + b3

pub record FrameDecoder : Type 0 where
  pub buf : Bytes
  pub reading_len : Bool
  pub want : ℕ
  pub max_frame_bytes : ℕ

-- A decoder as it is constructed, with the limit that its owner sets.
abbrev pub new_decoder : ℕ → FrameDecoder
new_decoder limit = record { buf = []; reading_len = true; want = 4; max_frame_bytes = limit }

pub data FrameError : Type 0 where
  zero_length too_large : FrameError

-- One round of the loop: it breaks, throws, or appends a frame and goes on.
pub data Round : Type 0 where
  halt : FrameDecoder → Round
  fail : FrameError → FrameDecoder → Round
  emit : Bytes → FrameDecoder → Round

-- The second half of a round: the payload.
unfoldable pub body_round : FrameDecoder → Round
body_round d =
    if ltb (length d.buf) d.want
    then halt d
    else emit (take d.want d.buf)
        (record d { buf = drop d.want d.buf; reading_len = true; want = 4 })

-- The first half, once four bytes are there: `rest` is the buffer without them.
unfoldable pub length_round : FrameDecoder → ℕ → Bytes → Round
unfolding body_round
length_round d len rest =
    if nat_beq len 0
    then fail zero_length d
    else if ltb d.max_frame_bytes len
    then fail too_large d
    else body_round (record d { buf = rest; reading_len = false; want = len })

unfoldable pub header_round : FrameDecoder → Bytes → Round
unfolding length_round be32
header_round d (b0 ∷ b1 ∷ b2 ∷ b3 ∷ rest) = length_round d (be32 b0 b1 b2 b3) rest
header_round d few = halt d

unfoldable pub feed_round : FrameDecoder → Round
unfolding header_round body_round
feed_round d = if d.reading_len then header_round d d.buf else body_round d

-- The outcome of a feed. A throw loses the frames of this call and leaves the decoder behind.
-- `stuck` is no outcome of the code: the fuel ran out.
pub data Feed : Type 0 where
  done : FrameDecoder → List Bytes → Feed
  thrown : FrameError → FrameDecoder → Feed
  stuck : Feed

-- A frame in front of those that later rounds return.
abbrev pub push_front : Bytes → Feed → Feed
push_front p (done d frames) = done d (p ∷ frames)
push_front p (thrown e d) = thrown e d
push_front p stuck = stuck

abbrev pub push_all : List Bytes → Feed → Feed
push_all [] r = r
push_all (p ∷ ps) r = push_front p (push_all ps r)

abbrev pub resume : (FrameDecoder → Feed) → Round → Feed
resume next (halt d) = done d []
resume next (fail e d) = thrown e d
resume next (emit p d) = push_front p (next d)

unfoldable pub feed_loop : ℕ → FrameDecoder → Feed
feed_loop zero d = stuck
feed_loop (suc fuel) d = resume (feed_loop fuel) (feed_round d)

-- A round that goes on takes a byte from the buffer, or ends the reading of a payload.
abbrev pub work : FrameDecoder → ℕ
work d = 2 * length d.buf + (if d.reading_len then 0 else 1)

abbrev pub received : FrameDecoder → Bytes → FrameDecoder
received d bytes = record d { buf = d.buf ++ bytes }

unfoldable pub run : FrameDecoder → Feed
run d = feed_loop (suc (work d)) d

unfoldable pub feed : FrameDecoder → Bytes → Feed
feed d bytes = run (received d bytes)
