-- ===== src/Protocol/Framing/Total.antt =====
-- The loop of `FrameDecoder::feed` ends: its fuel is never used up, and more of it changes nothing.
use chat_system_cpp_chat_ser.Base.{
  ℕ, zero, suc, ◌+◌, ◌*◌, ◌≤◌, ◌<◌, ◌≡◌, ◌≢◌, refl, ap, ◌∷◌, Bytes, arith, length, length-drop,
  false, Bool-cases, inl, inr,
}
use chat_system_cpp_chat_ser.Protocol.Framing.{
  FrameDecoder, Round, halt, fail, emit, Feed, done, thrown, stuck, push_front, resume, body_round,
  length_round, header_round, feed_round, feed_loop, run, feed, work, received, be32,
}

-- What is left to do after a round that goes on.
abbrev pub Falls : ℕ → Round → Type 0
Falls n (emit p d) = work d < n
Falls n _ = Unit

body_round-Falls : (d : FrameDecoder) (n : ℕ) → 2 * length d.buf < n → Falls n (body_round d)
unfolding body_round
body_round-Falls d n h = ground (arith, length-drop d.want d.buf)

length_round-Falls :
    (d : FrameDecoder) (len : ℕ) (rest : Bytes) (n : ℕ)
    → 2 * length rest < n
    → Falls n (length_round d len rest)
unfolding length_round
length_round-Falls d len rest n h =
    ground (arith, body_round-Falls (record d { buf = rest; reading_len = false; want = len }) n)

header_round-Falls :
    (d : FrameDecoder) (b : Bytes) (n : ℕ) → 2 * length b ≤ n → Falls n (header_round d b)
unfolding header_round
header_round-Falls d (b0 ∷ b1 ∷ b2 ∷ b3 ∷ rest) n h =
    length_round-Falls d (be32 b0 b1 b2 b3) rest n (omega arith)
header_round-Falls d _ n h = tt

pub feed_round-Falls : (d : FrameDecoder) → Falls (work d) (feed_round d)
unfolding feed_round
feed_round-Falls d = elim (Bool-cases d.reading_len) [
  | inl e ↦ simp e (header_round-Falls d d.buf (2 * length d.buf + 0) (omega arith))
  | inr e ↦ simp e (body_round-Falls d (2 * length d.buf + 1) (omega arith))
]

-- Two continuations that agree where work has been done give the same feed.
pub resume-cong :
    (f g : FrameDecoder → Feed) (n : ℕ) (r : Round)
    → Falls n r
    → ((d : FrameDecoder) → work d < n → f d ≡ g d)
    → resume f r ≡ resume g r
resume-cong f g n (halt d) h same = refl
resume-cong f g n (fail e d) h same = refl
resume-cong f g n (emit p d) h same = ap (push_front p) (same d h)

-- Above the work that is left, the fuel does not matter.
pub feed_loop_fuel :
    (f g : ℕ) (d : FrameDecoder) → work d < f → work d < g → feed_loop f d ≡ feed_loop g d
unfolding feed_loop
feed_loop_fuel zero g d hf hg = absurd (omega arith)
feed_loop_fuel (suc f) zero d hf hg = absurd (omega arith)
feed_loop_fuel (suc f) (suc g) d hf hg =
    resume-cong (feed_loop f) (feed_loop g) (work d) (feed_round d) (feed_round-Falls d)
      (λ d' h. feed_loop_fuel f g d' (omega arith) (omega arith))

-- The loop without its fuel.
pub run_unfolds : (d : FrameDecoder) → run d ≡ resume run (feed_round d)
unfolding run feed_loop
run_unfolds d =
    resume-cong (feed_loop (work d)) run (work d) (feed_round d) (feed_round-Falls d)
      (λ d' h. feed_loop_fuel (work d) (suc (work d')) d' h (omega arith))

resume-ne-stuck :
    (f : FrameDecoder → Feed) (n : ℕ) (r : Round)
    → Falls n r
    → ((d : FrameDecoder) → work d < n → f d ≢ stuck)
    → resume f r ≢ stuck
resume-ne-stuck f n (halt d) h ends = λ e. cc
resume-ne-stuck f n (fail x d) h ends = λ e. cc
resume-ne-stuck f n (emit p d) h ends = push-ne-stuck (f d) (ends d h)
  where
    push-ne-stuck : (r : Feed) → r ≢ stuck → push_front p r ≢ stuck
    push-ne-stuck (done d' ps) k = λ e. cc
    push-ne-stuck (thrown x d') k = λ e. cc
    push-ne-stuck stuck k = λ e. k refl

feed_loop-ne-stuck : (f : ℕ) (d : FrameDecoder) → work d < f → feed_loop f d ≢ stuck
unfolding feed_loop
feed_loop-ne-stuck zero d h = absurd (omega arith)
feed_loop-ne-stuck (suc f) d h =
    resume-ne-stuck (feed_loop f) (work d) (feed_round d) (feed_round-Falls d)
      (λ d' k. feed_loop-ne-stuck f d' (omega arith))

-- Feeding any bytes to any decoder ends: with frames or with an exception.
pub feed-ne-stuck : (d : FrameDecoder) (bytes : Bytes) → feed d bytes ≢ stuck
unfolding feed run
feed-ne-stuck d bytes = feed_loop-ne-stuck _ (received d bytes) (omega arith)
