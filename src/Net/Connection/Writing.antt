-- ===== src/Net/Connection/Writing.antt =====
-- The writing half of src/net/connection.cpp: `send_frame` and `try_flush_locked`.
use chat_system_cpp_chat_ser.Base.{
  ◌%◌, ◌^◌, ◌≤◌, ◌<◌, ◌≡◌, sym, ap, ◌∙◌, inl, inr, false, List, [], ◌∷◌, ◌++◌, append_assoc,
  append-nil, arith, Bool-cases, nat_eq, length, is_empty, take, drop, All, take-append-drop, Bytes,
  bytes_eq,
}
use chat_system_cpp_chat_ser.Protocol.Framing.{new_decoder, done, feed, frame, header}
use chat_system_cpp_chat_ser.Protocol.Framing.RoundTrip.{Fits, stream}
use chat_system_cpp_chat_ser.Protocol.Framing.Idle.{feed-whole}
use chat_system_cpp_chat_ser.Net.Connection.{
  Connection, Effect, write, Sent, taken, full, interrupted, broken, send_frame, try_flush, disarm,
}

-- The bytes that the effects put on the socket.
abbrev pub written : List Effect → Bytes
written [] = []
written (write b ∷ effects) = b ++ written effects
written (_ ∷ effects) = written effects

disarm-written : (c : Connection) → c.wbuf ≡ [] → written (disarm c).1 ++ (disarm c).0.wbuf ≡ c.wbuf
unfolding disarm
disarm-written c e = ground arith

-- Flushing keeps the stream of bytes: what goes out now followed by what stays in the buffer is
-- what the buffer held, whatever send answers.
pub try_flush_conserves :
    (c : Connection) (answers : List Sent)
    → written (try_flush c answers).1 ++ (try_flush c answers).0.wbuf ≡ c.wbuf
unfolding try_flush
try_flush_conserves c [] = ground arith
try_flush_conserves c (taken n ∷ answers) = elim (Bool-cases (is_empty c.wbuf)) [
  | inl e ↦ ground arith
  | inr e ↦
      let rest = try_flush (record c { wbuf = drop n c.wbuf }) answers in
      rw e (
        append_assoc (take n c.wbuf) (written rest.1) rest.0.wbuf
        ∙ ap (◌++◌ (take n c.wbuf))
            (try_flush_conserves (record c { wbuf = drop n c.wbuf }) answers)
        ∙ take-append-drop n c.wbuf)
]
try_flush_conserves c (full ∷ answers) = ground arith
try_flush_conserves c (interrupted ∷ answers) = ground (arith, try_flush_conserves c answers)
try_flush_conserves c (broken ∷ answers) = ground arith

-- When a flush leaves nothing in the buffer, the reactor is no longer asked for writability.
pub try_flush_disarms :
    (c : Connection) (answers : List Sent)
    → (try_flush c answers).0.wbuf ≡ []
    → (try_flush c answers).0.write_armed ≡ false
unfolding try_flush
try_flush_disarms c [] h = ground arith
try_flush_disarms c (taken n ∷ answers) h =
    ground (arith, try_flush_disarms (record c { wbuf = drop n c.wbuf }) answers)
try_flush_disarms c (full ∷ answers) h = ground arith
try_flush_disarms c (interrupted ∷ answers) h = ground (arith, try_flush_disarms c answers)
try_flush_disarms c (broken ∷ answers) h = ground arith

-- `send_frame` for each payload in turn.
unfoldable pub send_frames : List Bytes → Connection → Connection
send_frames [] c = c
send_frames (p ∷ ps) c = send_frames ps (send_frame p c).0

abbrev pub IsOpen : Connection → Type 0
IsOpen c = (c.closing ≡ false) × (c.closed ≡ false)

send_frame-wbuf :
    (p : Bytes) (c : Connection)
    → IsOpen c
    → length p ≤ c.max_frame
    → (send_frame p c).0 ≡ record c { wbuf = c.wbuf ++ frame p }
unfolding send_frame frame
send_frame-wbuf p c o h = ground (arith, append_assoc c.wbuf (header (length p % 2 ^ 32)) p)

pub send_frames-wbuf :
    (ps : List Bytes) (c : Connection)
    → IsOpen c
    → All (λ p. length p ≤ c.max_frame) ps
    → send_frames ps c ≡ record c { wbuf = c.wbuf ++ stream ps }
unfolding send_frames
send_frames-wbuf [] c o h = ap (λ b. record c { wbuf = b }) (sym (append-nil c.wbuf))
send_frames-wbuf (p ∷ ps) c o h =
    ap (send_frames ps) (send_frame-wbuf p c o h.0)
    ∙ send_frames-wbuf ps (record c { wbuf = c.wbuf ++ frame p }) o h.1
    ∙ ap (λ b. record c { wbuf = b }) (append_assoc c.wbuf (frame p) (stream ps))

-- Payloads that are sent over an open connection with an empty buffer, none of them empty or
-- over the limit, reach a peer with the same limit: once a flush has left nothing in the buffer,
-- the peer's decoder, fed what went out, returns the payloads in order and holds nothing.
pub send_frames-received :
    (ps : List Bytes) (c : Connection) (answers : List Sent)
    → IsOpen c
    → c.wbuf ≡ []
    → c.max_frame < 2 ^ 32
    → All (Fits c.max_frame) ps
    → (try_flush (send_frames ps c) answers).0.wbuf ≡ []
    → feed (new_decoder c.max_frame) (written (try_flush (send_frames ps c) answers).1)
      ≡ done (new_decoder c.max_frame) ps
send_frames-received ps c answers o empty small fits flushed =
    ap (feed (new_decoder c.max_frame)) out
    ∙ ap (feed (new_decoder c.max_frame)) (append-nil (stream ps))
    ∙ feed-whole c.max_frame ps small fits
  where
    sizes : (qs : List Bytes) → All (Fits c.max_frame) qs → All (λ p. length p ≤ c.max_frame) qs
    sizes [] h = tt
    sizes (q ∷ qs) h = (h.0.1, sizes qs h.1)

    outcome : Connection × List Effect
    outcome = try_flush (send_frames ps c) answers

    out : written outcome.1 ≡ stream ps ++ []
    out =
        sym (append-nil (written outcome.1))
        ∙ ap (◌++◌ (written outcome.1)) (sym flushed)
        ∙ try_flush_conserves (send_frames ps c) answers
        ∙ ap (λ t. t.wbuf) (send_frames-wbuf ps c o (sizes ps fits))
        ∙ ap (λ t. t ++ stream ps) empty
        ∙ sym (append-nil (stream ps))
