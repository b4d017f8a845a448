-- ===== src/Client/Wire.antt =====
-- What goes out of the client, and what it shows of what comes in.
use chat_system_cpp_chat_ser.Base.{
  ℕ, ◌+◌, ◌%◌, ◌^◌, ◌≤◌, ◌<◌, ◌≡◌, refl, sym, ap, ◌∙◌, Bool, true, false, Option, none, some, List,
  [], ◌∷◌, ◌++◌, map, append_assoc, arith, nat_eq, length, drop, All, take-append-drop, length-drop,
  flatten, Bytes, bytes_eq,
}
use mathlib.Core.List.{map-append}
use chat_system_cpp_chat_ser.Protocol.Framing.{
  FrameDecoder, Feed, done, thrown, stuck, feed, frame, new_decoder,
}
use chat_system_cpp_chat_ser.Protocol.Framing.RoundTrip.{stream, Fits}
use chat_system_cpp_chat_ser.Protocol.Framing.Chunks.{feed_more, feed-append}
use chat_system_cpp_chat_ser.Protocol.Framing.Idle.{
  push_all-done, IsIdle, done-IsIdle, new_decoder-IsIdle, feed-whole,
}
use chat_system_cpp_chat_ser.Protocol.Messages.{JsonLib}
use chat_system_cpp_chat_ser.Client.{
  Command, helps, quits, unknown, throws, asks, read_line, Sending, sent_all, failed, blocked,
  send_loop, send_frame, Shown, show_frame, bad_frame, closed, reader_loop, Ended, quit, crashed,
  end_of_input, after_send, main_loop,
}

-- A send that ends well has written all.
send_loop-sent_all :
    (answers : List ℕ) (bytes : Bytes)
    → (send_loop answers bytes).1 ≡ sent_all
    → (send_loop answers bytes).0 ≡ bytes
unfolding send_loop
send_loop-sent_all answers [] h = refl
send_loop-sent_all [] (b ∷ bytes) h = cc
send_loop-sent_all (n ∷ answers) (b ∷ bytes) h =
    ground
      (arith, h, send_loop-sent_all answers (drop n (b ∷ bytes)), take-append-drop n (b ∷ bytes))

-- As long as send takes at least a byte each time, as many calls as there are bytes are enough.
pub send_loop-ends :
    (answers : List ℕ) (bytes : Bytes)
    → All (λ n. 0 < n) answers
    → length bytes ≤ length answers
    → (send_loop answers bytes).1 ≡ sent_all
unfolding send_loop
send_loop-ends answers [] ok enough = refl
send_loop-ends [] (b ∷ bytes) ok enough = absurd (omega (arith, enough))
send_loop-ends (n ∷ answers) (b ∷ bytes) ok enough = ground (
  arith,
  ok.0,
  send_loop-ends answers (drop n (b ∷ bytes)) ok.1
      (omega (arith, enough, ok.0, length-drop n (b ∷ bytes))),
)

-- The loop of main ended by itself: no send failed or blocked.
abbrev pub well_ended : Ended → Bool
well_ended quit = true
well_ended crashed = true
well_ended end_of_input = true
well_ended _ = false

module _ (J : JsonLib) (dump : J.Value → Option Bytes) where
  abbrev pub request : Option Bytes → List Bytes → List Bytes
  request none later = []
  request (some bytes) later = bytes ∷ later

  -- The requests of the lines, up to the one that ends the loop; one that cannot be dumped does.
  abbrev pub requested : List (Bytes × List ℕ) → ℕ → List Bytes
  requested [] seq = []
  requested ((line, answers) ∷ lines) seq = elim (read_line J line seq) [
    | none ↦ requested lines seq
    | some helps ↦ requested lines ((seq + 1) % 2 ^ 64)
    | some quits ↦ []
    | some unknown ↦ requested lines ((seq + 1) % 2 ^ 64)
    | some throws ↦ []
    | some (asks j) ↦ request (dump j) (requested lines ((seq + 1) % 2 ^ 64))
  ]

  after_send-stream :
      (dumped : Option Bytes) (answers : List ℕ) (rest : Bytes × Ended) (ps : List Bytes)
      → (well_ended rest.1 ≡ true → rest.0 ≡ stream ps)
      → well_ended (after_send (send_frame dumped answers) rest).1 ≡ true
      → (after_send (send_frame dumped answers) rest).0 ≡ stream (request dumped ps)
  unfolding send_frame
  after_send-stream none answers rest ps ih h = refl
  after_send-stream (some bytes) answers rest ps ih h =
      go (send_loop answers (frame bytes)) (send_loop-sent_all answers (frame bytes)) h
    where
      go :
          (o : Bytes × Sending)
          → (o.1 ≡ sent_all → o.0 ≡ frame bytes)
          → well_ended (after_send (some o) rest).1 ≡ true
          → (after_send (some o) rest).0 ≡ frame bytes ++ stream ps
      go (out, sent_all) all ok = rw (all refl, ih ok) refl
      go (out, failed) all ok = cc
      go (out, blocked) all ok = cc

  -- One round of the loop: `here` is what follows with the same id, `later` with the next one.
  by_command :
      (r : Option (Command J.Value)) (answers : List ℕ) (here later : Bytes × Ended)
      (same next : List Bytes)
      → (well_ended here.1 ≡ true → here.0 ≡ stream same)
      → (well_ended later.1 ≡ true → later.0 ≡ stream next)
      → well_ended
          (elim r as (λ x. Bytes × Ended) [
            | none ↦ here
            | some helps ↦ later
            | some quits ↦ ([], quit)
            | some unknown ↦ later
            | some throws ↦ ([], crashed)
            | some (asks j) ↦ after_send (send_frame (dump j) answers) later
          ]).1
        ≡ true
      → (elim r as (λ x. Bytes × Ended) [
        | none ↦ here
        | some helps ↦ later
        | some quits ↦ ([], quit)
        | some unknown ↦ later
        | some throws ↦ ([], crashed)
        | some (asks j) ↦ after_send (send_frame (dump j) answers) later
      ]).0
        ≡ stream (elim r as (λ x. List Bytes) [
          | none ↦ same
          | some helps ↦ next
          | some quits ↦ []
          | some unknown ↦ next
          | some throws ↦ []
          | some (asks j) ↦ request (dump j) next
        ])
  by_command none answers here later same next h l ok = h ok
  by_command (some helps) answers here later same next h l ok = l ok
  by_command (some quits) answers here later same next h l ok = refl
  by_command (some unknown) answers here later same next h l ok = l ok
  by_command (some throws) answers here later same next h l ok = refl
  by_command (some (asks j)) answers here later same next h l ok =
      after_send-stream (dump j) answers later next l ok

  main_loop-stream :
      (lines : List (Bytes × List ℕ)) (seq : ℕ)
      → well_ended (main_loop J dump lines seq).1 ≡ true
      → (main_loop J dump lines seq).0 ≡ stream (requested lines seq)
  unfolding main_loop
  main_loop-stream [] seq h = refl
  main_loop-stream ((line, answers) ∷ lines) seq h =
      by_command (read_line J line seq) answers (main_loop J dump lines seq)
        (main_loop J dump lines ((seq + 1) % 2 ^ 64)) (requested lines seq)
        (requested lines ((seq + 1) % 2 ^ 64)) (main_loop-stream lines seq)
        (main_loop-stream lines ((seq + 1) % 2 ^ 64)) h

  -- What the server's decoder makes of all that the client has sent, once the loop has ended
  -- without a failed or a waiting send: the requests of the lines, in their order, as long as none of them is
  -- empty or over the limit. A line whose request cannot be dumped ends the client, and is no
  -- request.
  pub main_loop-received :
      (lines : List (Bytes × List ℕ)) (seq limit : ℕ)
      → well_ended (main_loop J dump lines seq).1 ≡ true
      → limit < 2 ^ 32
      → All (Fits limit) (requested lines seq)
      → feed (new_decoder limit) (main_loop J dump lines seq).0
        ≡ done (new_decoder limit) (requested lines seq)
  main_loop-received lines seq limit ok small fits =
      ap (feed (new_decoder limit)) (main_loop-stream lines seq ok)
      ∙ feed-whole limit (requested lines seq) small fits

module _ (J : JsonLib) (pretty : J.Value → Bytes) where
  -- One chunk, whose frames are shown before those of what comes behind it.
  after_chunk :
      (r : Feed) (e : FrameDecoder) (behind : Bytes) (ps : List Bytes)
      (next : FrameDecoder → List Shown)
      → feed_more r behind ≡ done e ps
      → ((f : FrameDecoder) (qs rest : List Bytes)
          → r ≡ done f qs
          → feed f behind ≡ done e rest
          → next f ≡ map (show_frame J pretty) rest ++ closed ∷ [])
      → elim r as (λ y. List Shown) [
        | done f qs ↦ map (show_frame J pretty) qs ++ next f
        | thrown y f ↦ bad_frame ∷ []
        | stuck ↦ []
      ]
        ≡ map (show_frame J pretty) ps ++ closed ∷ []
  after_chunk (done f qs) e behind ps next more ih =
      let rest = push_all-done qs (feed f behind) more in
      ap (◌++◌ (map (show_frame J pretty) qs)) (ih f qs rest.0 refl rest.1)
      ∙ sym (
          append_assoc (map (show_frame J pretty) qs) (map (show_frame J pretty) rest.0)
            (closed ∷ []))
      ∙ ap (λ t. t ++ closed ∷ [])
          (sym (map-append (show_frame J pretty) qs rest.0)
            ∙ ap (map (show_frame J pretty)) (sym rest.2))
  after_chunk (thrown y f) e behind ps next more ih = cc
  after_chunk stuck e behind ps next more ih = cc

  reader_loop-chunks :
      (chunks : List Bytes) (d e : FrameDecoder) (ps : List Bytes)
      → IsIdle d
      → feed d (flatten chunks) ≡ done e ps
      → reader_loop J pretty (map some chunks ++ none ∷ []) d
        ≡ map (show_frame J pretty) ps ++ closed ∷ []
  unfolding reader_loop
  reader_loop-chunks [] d e ps idle h = ap shown (sym idle ∙ h)
    where
      shown : Feed → List Shown
      shown (done d' frames) = map (show_frame J pretty) frames ++ closed ∷ []
      shown _ = closed ∷ []
  reader_loop-chunks (x ∷ chunks) d e ps idle h =
      after_chunk (feed d x) e (flatten chunks) ps
        (λ f. reader_loop J pretty (map some chunks ++ none ∷ []) f)
        (sym (feed-append d x (flatten chunks)) ∙ h)
        (λ f qs rest eq h'. reader_loop-chunks chunks f e rest (done-IsIdle d f x qs eq) h')

  -- However the network cuts the frames of the server, none of them empty or over the limit: the
  -- reader shows them in their order, each as the JSON that it is or as one that is none, and then
  -- that the server has closed the connection.
  pub reader_loop-stream :
      (limit : ℕ) (ps chunks : List Bytes)
      → limit < 2 ^ 32
      → All (Fits limit) ps
      → flatten chunks ≡ stream ps
      → reader_loop J pretty (map some chunks ++ none ∷ []) (new_decoder limit)
        ≡ map (show_frame J pretty) ps ++ closed ∷ []
  reader_loop-stream limit ps chunks small fits cut =
      reader_loop-chunks chunks (new_decoder limit) (new_decoder limit) ps
        (new_decoder-IsIdle limit)
        (ap (feed (new_decoder limit)) cut ∙ feed-whole limit ps small fits)
