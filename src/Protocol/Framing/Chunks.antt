-- ===== src/Protocol/Framing/Chunks.antt =====
-- How the bytes of a stream are cut into chunks does not matter to `FrameDecoder::feed`.
use chat_system_cpp_chat_ser.Base.{
  ℕ, zero, suc, ◌<◌, ◌≡◌, ◌∙◌, refl, ap, sym, ◌∷◌, ◌++◌, Bytes, arith, length-append, take-append,
  drop-append, append_assoc, true, false, Bool-cases, inl, inr, if◌then◌else◌,
}
use chat_system_cpp_chat_ser.Protocol.Framing.{
  FrameDecoder, Round, halt, fail, emit, Feed, done, thrown, stuck, push_front, push_all, resume,
  body_round, length_round, header_round, feed_round, run, feed, work, received, be32,
}
use chat_system_cpp_chat_ser.Protocol.Framing.Total.{Falls, feed_round-Falls, run_unfolds}

-- The same round when more bytes stand behind those of the buffer: where it broke off it starts
-- again from the state in which it broke off.
abbrev later : Bytes → Round → Round
later b (halt d) = feed_round (received d b)
later b (fail e d) = fail e (received d b)
later b (emit p d) = emit p (received d b)

pub feed_round_length :
    (d : FrameDecoder) → d.reading_len ≡ true → feed_round d ≡ header_round d d.buf
unfolding feed_round
feed_round_length d e = ap (λ t. if t then header_round d d.buf else body_round d) e

pub feed_round_body : (d : FrameDecoder) → d.reading_len ≡ false → feed_round d ≡ body_round d
unfolding feed_round
feed_round_body d e = ap (λ t. if t then header_round d d.buf else body_round d) e

body_round-received :
    (d : FrameDecoder) (b : Bytes)
    → d.reading_len ≡ false
    → body_round (received d b) ≡ later b (body_round d)
unfolding feed_round
body_round-received d b e =
    ground (arith, length-append d.buf b, take-append d.want d.buf b, drop-append d.want d.buf b)

length_round-received :
    (d : FrameDecoder) (len : ℕ) (rest b : Bytes)
    → length_round (received d b) len (rest ++ b) ≡ later b (length_round d len rest)
unfolding length_round
length_round-received d len rest b =
    ground
      (arith, body_round-received (record d { buf = rest; reading_len = false; want = len }) b refl)

header_round-received :
    (d : FrameDecoder) (xs b : Bytes)
    → d.reading_len ≡ true
    → d.buf ≡ xs
    → header_round (received d b) (xs ++ b) ≡ later b (header_round d xs)
unfolding header_round
header_round-received d (b0 ∷ b1 ∷ b2 ∷ b3 ∷ rest) b e f =
    length_round-received d (be32 b0 b1 b2 b3) rest b
header_round-received d xs b e f =
    ap (λ t. header_round (received d b) (t ++ b)) (sym f)
    ∙ sym (feed_round_length (received d b) e)

feed_round-received :
    (d : FrameDecoder) (b : Bytes) → feed_round (received d b) ≡ later b (feed_round d)
feed_round-received d b = elim (Bool-cases d.reading_len) [
  | inl e ↦
      feed_round_length (received d b) e
      ∙ header_round-received d d.buf b e refl
      ∙ ap (later b) (sym (feed_round_length d e))
  | inr e ↦
      feed_round_body (received d b) e
      ∙ body_round-received d b e
      ∙ ap (later b) (sym (feed_round_body d e))
]

-- The feed that goes on with more bytes from the outcome of an earlier one: its frames come
-- first, and after a throw the bytes stay in the buffer.
abbrev pub feed_more : Feed → Bytes → Feed
feed_more (done d frames) b = push_all frames (feed d b)
feed_more (thrown e d) b = thrown e (received d b)
feed_more stuck b = stuck

feed_more-push_front :
    (p : Bytes) (r : Feed) (b : Bytes) → feed_more (push_front p r) b ≡ push_front p (feed_more r b)
feed_more-push_front p (done d frames) b = refl
feed_more-push_front p (thrown e d) b = refl
feed_more-push_front p stuck b = refl

run-received :
    (n : ℕ) (d : FrameDecoder) (b : Bytes) → work d < n → run (received d b) ≡ feed_more (run d) b
unfolding feed
run-received zero d b h = absurd (omega arith)
run-received (suc n) d b h =
    run_unfolds (received d b)
    ∙ ap (resume run) (feed_round-received d b)
    ∙ resume-later (feed_round d) (feed_round-Falls d) (λ d' k. run-received n d' b (omega arith))
    ∙ ap (λ r. feed_more r b) (sym (run_unfolds d))
  where
    resume-later :
        (r : Round)
        → Falls (work d) r
        → ((d' : FrameDecoder) → work d' < work d → run (received d' b) ≡ feed_more (run d') b)
        → resume run (later b r) ≡ feed_more (resume run r) b
    resume-later (halt d') k ih = sym (run_unfolds (received d' b))
    resume-later (fail e d') k ih = refl
    resume-later (emit p d') k ih =
        ap (push_front p) (ih d' k) ∙ sym (feed_more-push_front p (run d') b)

-- Feeding two pieces of a stream at once gives what feeding one after the other gives: the same
-- frames in the same order, the same exception, and the same decoder afterwards.
pub feed-append : (d : FrameDecoder) (a b : Bytes) → feed d (a ++ b) ≡ feed_more (feed d a) b
unfolding feed
feed-append d a b =
    ap (λ t. run (record d { buf = t })) (sym (append_assoc d.buf a b))
    ∙ run-received (suc (work (received d a))) (received d a) b (omega arith)
