-- ===== src/Protocol/Framing/Idle.antt =====
-- Decoders that have taken all they can from their buffer.
use chat_system_cpp_chat_ser.Base.{
  ℕ, ◌^◌, ◌<◌, ◌≡◌, refl, sym, ap, ◌∙◌, List, [], ◌∷◌, ◌++◌, append-nil, arith, nat_eq, length, All,
  length-append, Bytes, bytes_eq,
}
use chat_system_cpp_chat_ser.Protocol.Framing.{
  FrameDecoder, Feed, done, thrown, stuck, push_front, push_all, new_decoder, feed, run, feed_loop,
  feed_round,
}
use chat_system_cpp_chat_ser.Protocol.Framing.RoundTrip.{stream, Fits, feed-stream}
use chat_system_cpp_chat_ser.Protocol.Framing.Chunks.{feed_more, feed-append}

push_front-done :
    (p : Bytes) (r : Feed) {d : FrameDecoder} {ps : List Bytes}
    → push_front p r ≡ done d ps
    → (qs : List Bytes) × (r ≡ done d qs) × (ps ≡ p ∷ qs)
push_front-done p (done e qs) h = (qs, ground arith, ground arith)
push_front-done p (thrown x e) h = cc
push_front-done p stuck h = cc

pub push_all-done :
    (ps : List Bytes) (r : Feed) {d : FrameDecoder} {all : List Bytes}
    → push_all ps r ≡ done d all
    → (qs : List Bytes) × (r ≡ done d qs) × (all ≡ ps ++ qs)
push_all-done [] r {all} h = (all, h, refl)
push_all-done (p ∷ ps) r h =
    let first = push_front-done p (push_all ps r) h in
    let rest = push_all-done ps r first.1 in (rest.0, rest.1, first.2 ∙ ap (◌∷◌ p) rest.2)

-- A decoder that has taken all that it can from its buffer.
abbrev pub IsIdle : FrameDecoder → Type 0
IsIdle d = feed d [] ≡ done d []

pub done-IsIdle :
    (d e : FrameDecoder) (b : Bytes) (ps : List Bytes) → feed d b ≡ done e ps → IsIdle e
done-IsIdle d e b ps h =
    let again = push_all-done ps (feed e []) (
      sym (ap (λ r. feed_more r []) h)
      ∙ sym (feed-append d b [])
      ∙ ap (feed d) (append-nil b)
      ∙ h) in
    again.1 ∙ ap (done e) (append_left_nil ps again.0 again.2)
  where
    append_left_nil : (xs ys : List Bytes) → xs ≡ xs ++ ys → ys ≡ []
    append_left_nil xs [] k = refl
    append_left_nil xs (y ∷ ys) k = absurd (omega (arith, ap length k, length-append xs (y ∷ ys)))

pub new_decoder-IsIdle : (limit : ℕ) → IsIdle (new_decoder limit)
unfolding feed run feed_loop feed_round
new_decoder-IsIdle limit = refl

pub push_all-nil :
    (limit : ℕ) (ps : List Bytes)
    → push_all ps (done (new_decoder limit) []) ≡ done (new_decoder limit) ps
push_all-nil limit [] = refl
push_all-nil limit (p ∷ ps) = ap (push_front p) (push_all-nil limit ps)

-- The frames of payloads, none of them empty or over the limit, are read as the payloads.
pub feed-whole :
    (limit : ℕ) (ps : List Bytes)
    → limit < 2 ^ 32
    → All (Fits limit) ps
    → feed (new_decoder limit) (stream ps) ≡ done (new_decoder limit) ps
feed-whole limit ps small fits =
    ap (feed (new_decoder limit)) (sym (append-nil (stream ps)))
    ∙ feed-stream limit ps [] small fits
    ∙ ap (push_all ps) (new_decoder-IsIdle limit)
    ∙ push_all-nil limit ps
