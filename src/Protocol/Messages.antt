-- ===== src/Protocol/Messages.antt =====
-- src/protocol/messages.cpp and include/protocol/messages.h.
-- The JSON library is a parameter; a signed 64-bit integer is its word.
use chat_system_cpp_chat_ser.Base.{
  ℕ, Bool, Option, none, some, List, nat_eq, Bytes, codes, bytes_eq,
}
use chat_system_cpp_chat_ser.Common.Numbers.{stoll}

-- What a value is, as far as the program asks: a floating number is what its cast to int64_t is.
pub data View : Type 0 where
  text : Bytes → View
  whole : ℕ → View
  floating : ℕ → View
  other : View

-- What the program uses of the JSON library.
pub record JsonLib : Type 1 where
  pub Value : Type 0
  pub null : Value
  pub string : Bytes → Value
  pub integer : ℕ → Value
  pub boolean : Bool → Value
  pub set : Bytes → Value → Value → Value
  pub array : List Value → Value
  pub dump : Value → Bytes
  pub read : Bytes → Option Value
  pub field : Bytes → Value → Option Value
  pub view : Value → View

abbrev pub k_ack : Bytes
k_ack = codes "ack"

abbrev pub k_error : Bytes
k_error = codes "error"

abbrev pub k_event_message : Bytes
k_event_message = codes "event_message"

abbrev pub k_event_presence : Bytes
k_event_presence = codes "event_presence"

abbrev pub or_else : Option ℕ → ℕ → ℕ
or_else none def = def
or_else (some n) def = n

abbrev str_of : View → Bytes → Bytes
str_of (text s) def = s
str_of _ def = def

abbrev i64_of : View → ℕ → ℕ
i64_of (text s) def = or_else (stoll s) def
i64_of (whole n) def = n
i64_of (floating n) def = n
i64_of other def = def

module _ (J : JsonLib) where
  unfoldable pub get_str : J.Value → Bytes → Bytes → Bytes
  get_str j k def = elim (J.field k j) [ none ↦ def | some v ↦ str_of (J.view v) def ]

  unfoldable pub get_i64 : J.Value → Bytes → ℕ → ℕ
  get_i64 j k def = elim (J.field k j) [ none ↦ def | some v ↦ i64_of (J.view v) def ]

  unfoldable pub parse : Bytes → Option J.Value
  parse s = J.read s

  abbrev pub set_some : Bytes → Option ℕ → J.Value → J.Value
  set_some key none j = j
  set_some key (some n) j = J.set key (J.integer n) j

  unfoldable pub make_ack : Option ℕ → J.Value → J.Value
  make_ack id j = set_some (codes "id") id (J.set (codes "type") (J.string k_ack) j)

  unfoldable pub make_error : Option ℕ → Bytes → Bytes → J.Value
  make_error id code message = set_some (codes "id") id (
      J.set (codes "message") (J.string message)
        (J.set (codes "code") (J.string code) (J.set (codes "type") (J.string k_error) J.null)))

  unfoldable pub make_event_message : ℕ → ℕ → Option ℕ → Option ℕ → Bytes → ℕ → J.Value
  make_event_message msg_id sender_id receiver_id room_id content created_at_ms =
      let j = J.set (codes "type") (J.string k_event_message) J.null in
      let j = J.set (codes "msg_id") (J.integer msg_id) j in
      let j = J.set (codes "sender_id") (J.integer sender_id) j in
      let j = set_some (codes "receiver_id") receiver_id j in
      let j = set_some (codes "room_id") room_id j in
      let j = J.set (codes "content") (J.string content) j in
      J.set (codes "timestamp") (J.integer created_at_ms) j

  unfoldable pub make_event_presence : ℕ → Bytes → Bool → ℕ → J.Value
  make_event_presence user_id username online last_seen_ms =
      let j = J.set (codes "type") (J.string k_event_presence) J.null in
      let j = J.set (codes "user_id") (J.integer user_id) j in
      let j = J.set (codes "username") (J.string username) j in
      let j = J.set (codes "online") (J.boolean online) j in
      J.set (codes "last_seen") (J.integer last_seen_ms) j

  unfoldable pub serialize : J.Value → Bytes
  serialize j = J.dump j
