-- ===== src/Client.antt =====
-- client/cli_client.cpp: the client for a terminal. The JSON library is a parameter, with its
-- indented dump; `dump` is none where the dump of a request throws, as it does on a string that is
-- not UTF-8, and a value that was read has none of these. What send and recv answer are arguments. The flag by which one of the two threads
-- ends the other is left out: a loop that is ended by it has done a part of what it does here.
pub mod Words
pub mod Wire
use chat_system_cpp_chat_ser.Base.{
  ℕ, zero, suc, ◌+◌, ◌-◌, ◌%◌, ◌^◌, max, String, Option, none, some, List, [], ◌∷◌, ◌++◌, map, ltb,
  if◌then◌else◌, nat_beq, nat_eq, is_empty, take, drop, Bytes, codes, bytes_beq, bytes_eq,
}
use chat_system_cpp_chat_ser.Common.Util.{isspace, trim_start}
use chat_system_cpp_chat_ser.Common.Numbers.{stoll, stoi}
use chat_system_cpp_chat_ser.Protocol.Framing.{FrameDecoder, done, thrown, stuck, feed, frame}
use chat_system_cpp_chat_ser.Protocol.Messages.{JsonLib}

abbrev pub before_word : ℕ → Bytes × Bytes → Bytes × Bytes
before_word c (word, rest) = (c ∷ word, rest)

-- A word, and what is behind it.
unfoldable pub cut_word : Bytes → Bytes × Bytes
cut_word [] = ([], [])
cut_word (c ∷ s) = let rest = cut_word s in if isspace c then ([], c ∷ s) else before_word c rest

-- The last token: all that is left behind the spaces.
abbrev pub last_token : Bytes → List Bytes
last_token s = let t = trim_start s in if is_empty t then [] else t ∷ []

-- The loop of `tokens`, while `n` words may still be cut off.
unfoldable pub cut_words : ℕ → Bytes → List Bytes
unfolding cut_word
cut_words zero s = last_token s
cut_words (suc n) s =
    let (word, rest) = cut_word (trim_start s) in
    let others = cut_words n rest in if is_empty word then last_token rest else word ∷ others

-- out.size() + 1 < max
unfoldable pub tokens : Bytes → ℕ → List Bytes
unfolding cut_words
tokens s max = cut_words (max - 1) s

-- What a line leads to. std::stoll and std::stoi throw, and only `:join` catches.
pub data Command (V : Type 0) : Type 0 where
  helps quits unknown throws : Command V
  asks : V → Command V

abbrev pub with_one : {V : Type 0} → (Bytes → Command V) → List Bytes → Command V
with_one f [] = unknown
with_one f (a ∷ args) = f a

abbrev pub with_two :
    {V : Type 0} → (Bytes → Bytes → List Bytes → Command V) → List Bytes → Command V
with_two f (a ∷ b ∷ args) = f a b args
with_two f few = unknown

abbrev pub numbered : {V : Type 0} → Option ℕ → (ℕ → Command V) → Command V
numbered none f = throws
numbered (some n) f = f n

-- An int as a 64-bit word.
abbrev pub widen : ℕ → ℕ
widen word = if ltb word (2 ^ 31) then word else word + (2 ^ 64 - 2 ^ 32)

module _ (J : JsonLib) where
  abbrev pub typed : String → J.Value → J.Value
  typed t req = J.set (codes "type") (J.string (codes t)) req

  abbrev pub credentials : String → J.Value → List Bytes → Command J.Value
  credentials t req = with_two (λ user pass args. asks (
      J.set (codes "password") (J.string pass)
        (J.set (codes "username") (J.string user) (typed t req))))

  -- :dm and :room, which send the third token.
  abbrev pub sends : String → String → J.Value → List Bytes → Command J.Value
  sends t key req = with_two (λ to content args. numbered (stoll to) (λ n.
      asks (
        J.set (codes "content") (J.string content)
          (J.set (codes key) (J.integer n) (typed t req)))))

  abbrev pub limited : List Bytes → J.Value → Command J.Value
  limited [] req = asks req
  limited (limit ∷ args) req =
      numbered (stoi limit) (λ n. asks (J.set (codes "limit") (J.integer (widen n)) req))

  abbrev pub with_args : (Bytes → List Bytes → Command J.Value) → List Bytes → Command J.Value
  with_args f [] = unknown
  with_args f (a ∷ args) = f a args

  abbrev pub joins : J.Value → Bytes → Command J.Value
  joins req room = elim (stoll room) [
    | some n ↦ asks (J.set (codes "room_id") (J.integer n) (typed "join_room" req))
    | none ↦ asks (J.set (codes "name") (J.string room) (typed "join_room" req))
  ]

  -- The tokens behind the command; `req` holds the id.
  unfoldable pub command : Bytes → List Bytes → J.Value → Command J.Value
  command cmd args req =
      if bytes_beq cmd (codes ":help")
      then helps
      else if bytes_beq cmd (codes ":quit")
      then quits
      else if bytes_beq cmd (codes ":ping")
      then asks (typed "ping" req)
      else if bytes_beq cmd (codes ":register")
      then credentials "register" req args
      else if bytes_beq cmd (codes ":login")
      then credentials "login" req args
      else if bytes_beq cmd (codes ":logout")
      then asks (typed "logout" req)
      else if bytes_beq cmd (codes ":dm")
      then sends "send_dm" "receiver_id" req args
      else if bytes_beq cmd (codes ":create_room")
      then with_one (λ name. asks (J.set (codes "name") (J.string name) (typed "create_room" req)))
          args
      else if bytes_beq cmd (codes ":join")
      then with_one (joins req) args
      else if bytes_beq cmd (codes ":leave")
      then with_one
          (λ room.
            numbered (stoll room)
              (λ n. asks (J.set (codes "room_id") (J.integer n) (typed "leave_room" req))))
          args
      else if bytes_beq cmd (codes ":rooms")
      then asks (typed "list_rooms" req)
      else if bytes_beq cmd (codes ":room")
      then sends "send_room" "room_id" req args
      else if bytes_beq cmd (codes ":history_dm")
      then with_args
          (λ user rest.
            numbered (stoll user)
              (λ n. limited rest (J.set (codes "user_id") (J.integer n) (typed "history_dm" req))))
          args
      else if bytes_beq cmd (codes ":history_room")
      then with_args
          (λ room rest.
            numbered (stoll room) (λ n.
              limited rest (J.set (codes "room_id") (J.integer n) (typed "history_room" req))))
          args
      else if bytes_beq cmd (codes ":presence")
      then with_one
          (λ user.
            numbered (stoll user)
              (λ n. asks (J.set (codes "user_id") (J.integer n) (typed "presence" req))))
          args
      else unknown

  -- A line of the input: nothing where it has no token. `seq` is g_seq.
  unfoldable pub read_line : Bytes → ℕ → Option (Command J.Value)
  unfolding tokens command
  read_line line seq = elim (tokens line 16) [
    | [] ↦ none
    | cmd ∷ args ↦ some (command cmd args (J.set (codes "id") (J.integer seq) J.null))
  ]

-- send(2) answers how many bytes it took; 0 stands for every answer that is not positive.
pub data Sending : Type 0 where
  sent_all failed blocked : Sending

-- The loop of send_frame: the bytes that went out, and how it ended. It is blocked where no more
-- answers come.
unfoldable pub send_loop : List ℕ → Bytes → Bytes × Sending
send_loop answers [] = ([], sent_all)
send_loop [] (b ∷ bytes) = ([], blocked)
send_loop (n ∷ answers) (b ∷ bytes) =
    let (out, how) = send_loop answers (drop n (b ∷ bytes)) in
    if nat_beq n 0 then ([], failed) else (take n (b ∷ bytes) ++ out, how)

-- Nothing where the dump throws.
unfoldable pub send_frame : Option Bytes → List ℕ → Option (Bytes × Sending)
unfolding send_loop
send_frame none answers = none
send_frame (some dumped) answers = some (send_loop answers (frame dumped))

-- What the reader prints.
pub data Shown : Type 0 where
  json : Bytes → Shown
  non_json bad_frame closed : Shown

module _ (J : JsonLib) (pretty : J.Value → Bytes) where
  unfoldable pub show_frame : Bytes → Shown
  show_frame f = elim (J.read f) [ none ↦ non_json | some j ↦ json (pretty j) ]

  -- The loop of the reader, with what recv answers: bytes, or nothing where it fails or the peer
  -- has closed.
  unfoldable pub reader_loop : List (Option Bytes) → FrameDecoder → List Shown
  unfolding show_frame
  reader_loop [] d = []
  reader_loop (none ∷ answers) d = closed ∷ []
  reader_loop (some bytes ∷ answers) d = elim (feed d bytes) [
    | done d' frames ↦ map show_frame frames ++ reader_loop answers d'
    | thrown e d' ↦ bad_frame ∷ []
    | stuck ↦ []
  ]

-- How the loop of main ends: `:quit`, a failed send, an exception that nobody catches, no more
-- input; or it waits in send.
pub data Ended : Type 0 where
  quit send_failed crashed end_of_input waits : Ended

abbrev pub after_send : Option (Bytes × Sending) → Bytes × Ended → Bytes × Ended
after_send none rest = ([], crashed)
after_send (some (out, sent_all)) (later, how) = (out ++ later, how)
after_send (some (out, failed)) rest = (out, send_failed)
after_send (some (out, blocked)) rest = (out, waits)

module _ (J : JsonLib) (dump : J.Value → Option Bytes) where
  -- The lines of the input, each with what send answers for it, and g_seq: the bytes that go out.
  unfoldable pub main_loop : List (Bytes × List ℕ) → ℕ → Bytes × Ended
  unfolding read_line send_frame
  main_loop [] seq = ([], end_of_input)
  main_loop ((line, answers) ∷ lines) seq = elim (read_line J line seq) [
    | none ↦ main_loop lines seq
    | some helps ↦ main_loop lines ((seq + 1) % 2 ^ 64)
    | some quits ↦ ([], quit)
    | some unknown ↦ main_loop lines ((seq + 1) % 2 ^ 64)
    | some throws ↦ ([], crashed)
    | some (asks j) ↦
        after_send (send_frame (dump j) answers) (main_loop lines ((seq + 1) % 2 ^ 64))
  ]
