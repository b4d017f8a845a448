-- ===== src/Examples/Terminal.antt =====
-- client/cli_client.cpp on a line of the terminal.
use chat_system_cpp_chat_ser.Base.{
  ℕ, ◌≡◌, refl, true, Bool, ◌&&◌, Option, none, some, if◌then◌else◌, ltb, List, [], ◌∷◌, arith,
  nat_eq, All, Bytes, codes, bytes_beq, bytes_eq,
}
use chat_system_cpp_chat_ser.Common.Util.{isspace, trim_start}
use chat_system_cpp_chat_ser.Common.Numbers.{stoll, sign_and_digits, digits, read_digits}
use chat_system_cpp_chat_ser.Protocol.Framing.{done, feed, frame, new_decoder}
use chat_system_cpp_chat_ser.Protocol.Framing.RoundTrip.{Fits}
use chat_system_cpp_chat_ser.Client.{
  asks, tokens, cut_words, cut_word, command, read_line, main_loop, send_frame, send_loop,
}
use chat_system_cpp_chat_ser.Client.Words.{visible, message_to, content_is_word}
use chat_system_cpp_chat_ser.Client.Wire.{well_ended, requested, main_loop-received}
use chat_system_cpp_chat_ser.Examples.Traffic.{plain}

abbrev line : Bytes
line = codes ":dm 7 hello there"

tokens_of_line : tokens line 16 ≡ codes ":dm" ∷ codes "7" ∷ codes "hello" ∷ codes "there" ∷ []
unfolding tokens cut_words cut_word trim_start isspace
tokens_of_line = refl

seven : stoll (codes "7") ≡ some 7
unfolding stoll sign_and_digits digits read_digits trim_start isspace
seven = refl

content_is_word_example :
    (read_line plain line 1 ≡ some (asks (message_to plain true 7 (codes "hello") 1)))
    × (visible (codes "hello") ≡ codes "hello")
content_is_word_example =
    content_is_word plain true line (codes "7") (codes "hello") (codes "there" ∷ []) 1 7
      tokens_of_line seven

abbrev is_ascii : Bytes → Bool
is_ascii [] = true
is_ascii (c ∷ cs) = ltb c 128 && is_ascii cs

-- A dump that takes texts of ASCII only.
abbrev ascii : Bytes → Option Bytes
ascii j = if is_ascii j then some j else none

abbrev lines : List (Bytes × List ℕ)
lines = (codes ":ping", 5 ∷ 100 ∷ []) ∷ (codes "hm", []) ∷ (codes ":quit", []) ∷ []

ends_well : well_ended (main_loop plain ascii lines 1).1 ≡ true
unfolding main_loop read_line tokens cut_words cut_word trim_start isspace command bytes_beq
    send_frame send_loop frame
ends_well = refl

requests_fit : All (Fits 65536) (requested plain ascii lines 1)
unfolding read_line tokens cut_words cut_word trim_start isspace command bytes_beq
requests_fit = ((omega arith, omega arith), tt)

main_loop-received_example :
    feed (new_decoder 65536) (main_loop plain ascii lines 1).0
    ≡ done (new_decoder 65536) (requested plain ascii lines 1)
main_loop-received_example =
    main_loop-received plain ascii lines 1 65536 ends_well (omega arith) requests_fit
