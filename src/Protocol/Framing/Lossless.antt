-- ===== src/Protocol/Framing/Lossless.antt =====
-- `FrameDecoder::feed` neither loses nor invents a byte.
use chat_system_cpp_chat_ser.Base.{
  ℕ, zero, suc, ◌%◌, ◌^◌, ◌≤◌, ◌<◌, ◌≡◌, refl, sym, ap, subst, ◌∙◌, inl, inr, true, false, List, [],
  ◌∷◌, ◌++◌, append_assoc, arith, ltb, if◌then◌else◌, Bool-cases, nat_beq, nat_eq, length, take,
  drop, All, take-append-drop, length-take, All-append, Bytes, IsByte, IsBytes, bytes_eq,
}
use chat_system_cpp_chat_ser.Protocol.Framing.{
  FrameDecoder, Round, halt, fail, emit, Feed, done, thrown, stuck, push_front, resume, body_round,
  length_round, header_round, feed_round, run, feed, received, work, be32, header, frame,
}
use chat_system_cpp_chat_ser.Protocol.Framing.Total.{run_unfolds, Falls, feed_round-Falls}
use chat_system_cpp_chat_ser.Protocol.Framing.Chunks.{feed_round_length, feed_round_body}
use chat_system_cpp_chat_ser.Protocol.Framing.RoundTrip.{Fits, stream}

-- What the decoder has taken in and not yet returned, as it came over the wire.
abbrev pub held : FrameDecoder → Bytes
held d = if d.reading_len then d.buf else header d.want ++ d.buf

-- A decoder between two rounds: while it waits for a payload, its length is in range.
pub record IsValid (d : FrameDecoder) : Type 0 where
  pub bytes : IsBytes d.buf
  pub limit : d.max_frame_bytes < 2 ^ 32
  pub wanted : d.reading_len ≡ false → (0 < d.want) × (d.want ≤ d.max_frame_bytes)

pub header-be32 :
    (a b c d : ℕ)
    → IsByte a
    → IsByte b
    → IsByte c
    → IsByte d
    → header (be32 a b c d) ≡ a ∷ b ∷ c ∷ d ∷ []
unfolding header be32
header-be32 a b c d ha hb hc hd = ground arith

take-IsBytes : (n : ℕ) (b : Bytes) → IsBytes b → IsBytes (drop n b)
take-IsBytes zero b h = h
take-IsBytes (suc n) [] h = h
take-IsBytes (suc n) (x ∷ b) h = take-IsBytes n b h.1

frame_small : (p : Bytes) → length p < 2 ^ 32 → frame p ≡ header (length p) ++ p
unfolding frame
frame_small p h = let e : length p % 2 ^ 32 ≡ length p = omega arith in ap (λ n. header n ++ p) e

frame-take :
    (n : ℕ) (b : Bytes) → n < 2 ^ 32 → n ≤ length b → frame (take n b) ++ drop n b ≡ header n ++ b
frame-take n b small h =
    let e : length (take n b) ≡ n = omega (arith, length-take n b) in
    ap (λ t. t ++ drop n b) (frame_small (take n b) (omega arith))
    ∙ ap (λ k. (header k ++ take n b) ++ drop n b) e
    ∙ append_assoc (header n) (take n b) (drop n b)
    ∙ ap (◌++◌ (header n)) (take-append-drop n b)

held_payload : (d : FrameDecoder) → d.reading_len ≡ false → held d ≡ header d.want ++ d.buf
held_payload d e = ap (λ t. if t then d.buf else header d.want ++ d.buf) e

held_length : (d : FrameDecoder) → d.reading_len ≡ true → held d ≡ d.buf
held_length d e = ap (λ t. if t then d.buf else header d.want ++ d.buf) e

-- A round returns a payload within the limits or nothing, and no byte goes astray.
abbrev Keeps : FrameDecoder → Round → Type 0
Keeps d (halt d') = IsValid d' × (held d' ≡ held d)
Keeps d (fail e d') = Unit
Keeps d (emit p d') =
    IsValid d'
    × Fits d.max_frame_bytes p
    × (frame p ++ held d' ≡ held d)
    × (d'.max_frame_bytes ≡ d.max_frame_bytes)

Keeps-trans :
    (d e : FrameDecoder) (r : Round)
    → held e ≡ held d
    → e.max_frame_bytes ≡ d.max_frame_bytes
    → Keeps e r
    → Keeps d r
Keeps-trans d e (halt d') p q k = (k.0, k.1 ∙ p)
Keeps-trans d e (fail x d') p q k = tt
Keeps-trans d e (emit x d') p q k = (k.0, subst (λ m. Fits m x) q k.1, k.2 ∙ p, k.3 ∙ q)

body_round-Keeps : (d : FrameDecoder) → IsValid d → d.reading_len ≡ false → Keeps d (body_round d)
unfolding body_round frame
body_round-Keeps d v e = elim (Bool-cases (ltb (length d.buf) d.want)) [
  | inl few ↦ rw few (v, refl)
  | inr all ↦ rw all (
    record { bytes = take-IsBytes d.want d.buf v.bytes; limit = v.limit; wanted = λ x. cc },
    let w = v.wanted e in ground (arith, length-take d.want d.buf),
    let w = v.wanted e in
        frame-take d.want d.buf (omega arith) (ground arith) ∙ sym (held_payload d e),
    refl,
  )
]

-- The same for the state `d'` that the first half of a round leaves.
length_round-Keeps :
    (d : FrameDecoder) (len : ℕ) (rest : Bytes)
    → IsValid d
    → IsBytes rest
    → header len ++ rest ≡ held d
    → Keeps d (length_round d len rest)
unfolding length_round
length_round-Keeps d len rest v hr e = elim (Bool-cases (nat_beq len 0)) [
  | inl z ↦ rw z tt
  | inr nz ↦ elim (Bool-cases (ltb d.max_frame_bytes len)) [
    | inl big ↦ rw (nz, big) tt
    | inr small ↦
        rw (nz, small) (Keeps-trans d body _ e refl (body_round-Keeps body (valid nz small) refl))
  ]
]
  where
    body : FrameDecoder
    body = record d { buf = rest; reading_len = false; want = len }

    valid : nat_beq len 0 ≡ false → ltb d.max_frame_bytes len ≡ false → IsValid body
    valid nz small = record { bytes = hr; limit = v.limit; wanted = λ x. ground arith }

header_round-Keeps :
    (d : FrameDecoder) (b : Bytes) → IsValid d → IsBytes b → b ≡ held d → Keeps d (header_round d b)
unfolding header_round
header_round-Keeps d (b0 ∷ b1 ∷ b2 ∷ b3 ∷ rest) v h e =
    length_round-Keeps d (be32 b0 b1 b2 b3) rest v h.1.1.1.1
      (ap (λ t. t ++ rest) (header-be32 b0 b1 b2 b3 h.0 h.1.0 h.1.1.0 h.1.1.1.0) ∙ e)
header_round-Keeps d _ v h e = (v, refl)

feed_round-Keeps : (d : FrameDecoder) → IsValid d → Keeps d (feed_round d)
feed_round-Keeps d v = elim (Bool-cases d.reading_len) [
  | inl e ↦
      subst (Keeps d) (sym (feed_round_length d e))
        (header_round-Keeps d d.buf v v.bytes (sym (held_length d e)))
  | inr e ↦ subst (Keeps d) (sym (feed_round_body d e)) (body_round-Keeps d v e)
]

-- What a whole feed keeps: the payloads that it returns are within the limits, and their frames
-- with what is held afterwards are the bytes that were held before.
abbrev pub Accounts : FrameDecoder → Feed → Type 0
Accounts d (done d' ps) =
    IsValid d' × All (Fits d.max_frame_bytes) ps × (stream ps ++ held d' ≡ held d)
Accounts d (thrown e d') = Unit
Accounts d stuck = Unit

Accounts-push_front :
    (d e : FrameDecoder) (p : Bytes) (r : Feed)
    → Fits d.max_frame_bytes p
    → frame p ++ held e ≡ held d
    → e.max_frame_bytes ≡ d.max_frame_bytes
    → Accounts e r
    → Accounts d (push_front p r)
Accounts-push_front d e p (done d' ps) fits h m k = (
  k.0,
  (fits, subst (λ n. All (Fits n) ps) m k.1),
  append_assoc (frame p) (stream ps) (held d') ∙ ap (◌++◌ (frame p)) k.2 ∙ h,
)
Accounts-push_front d e p (thrown x d') fits h m k = tt
Accounts-push_front d e p stuck fits h m k = tt

run-Accounts : (n : ℕ) (d : FrameDecoder) → work d < n → IsValid d → Accounts d (run d)
run-Accounts zero d h v = absurd (omega arith)
run-Accounts (suc n) d h v = subst (Accounts d) (sym (run_unfolds d)) (
    resume-Accounts (feed_round d) (feed_round-Falls d) (feed_round-Keeps d v)
      (λ e k. run-Accounts n e (omega arith)))
  where
    resume-Accounts :
        (r : Round)
        → Falls (work d) r
        → Keeps d r
        → ((e : FrameDecoder) → work e < work d → IsValid e → Accounts e (run e))
        → Accounts d (resume run r)
    resume-Accounts (halt e) f k ih = (k.0, tt, k.1)
    resume-Accounts (fail x e) f k ih = tt
    resume-Accounts (emit p e) f k ih = Accounts-push_front d e p (run e) k.1 k.2 k.3 (ih e f k.0)

received-IsValid : (d : FrameDecoder) (b : Bytes) → IsValid d → IsBytes b → IsValid (received d b)
received-IsValid d b v h = record {
  bytes = All-append IsByte d.buf b v.bytes h;
  limit = v.limit;
  wanted = v.wanted;
}

held-received : (d : FrameDecoder) (b : Bytes) → held (received d b) ≡ held d ++ b
held-received d b = elim (Bool-cases d.reading_len) [
  | inl e ↦ held_length (received d b) e ∙ ap (λ t. t ++ b) (sym (held_length d e))
  | inr e ↦
      held_payload (received d b) e
      ∙ sym (append_assoc (header d.want) d.buf b)
      ∙ ap (λ t. t ++ b) (sym (held_payload d e))
]

-- When a valid decoder is fed bytes and returns payloads, each of them is not empty and within
-- the limit, the decoder is valid again, and the frames of the payloads followed by what the
-- decoder now holds are exactly what it held before followed by the bytes.
pub feed_lossless :
    (d e : FrameDecoder) (b : Bytes) (ps : List Bytes)
    → IsValid d
    → IsBytes b
    → feed d b ≡ done e ps
    → IsValid e × All (Fits d.max_frame_bytes) ps × (stream ps ++ held e ≡ held d ++ b)
unfolding feed
feed_lossless d e b ps v h eq =
    let k = subst (Accounts (received d b)) eq (
      run-Accounts (suc (work (received d b))) (received d b) (omega arith)
        (received-IsValid d b v h)) in
    (k.0, k.1, k.2 ∙ held-received d b)
