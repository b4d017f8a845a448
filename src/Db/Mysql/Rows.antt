-- ===== src/Db/Mysql/Rows.antt =====
-- The rows that the server prints, and what is read from them.
use chat_system_cpp_chat_ser.Base.{
  ℕ, ◌^◌, ◌<◌, ◌≡◌, refl, sym, ap, ◌∙◌, Option, none, some, List, [], ◌∷◌, ◌++◌, map, append-nil,
  arith, nat_eq, All, Bytes, bytes_eq,
}
use chat_system_cpp_chat_ser.Common.Decimal.{to_string}
use chat_system_cpp_chat_ser.Common.Decimal.RoundTrip.{
  StopsAt, stoull-to_string, stoll-to_string, stoi-to_string,
}
use chat_system_cpp_chat_ser.Common.Numbers.{stoi, stoull}
use chat_system_cpp_chat_ser.Db.Store.{User, Message, returned}
use chat_system_cpp_chat_ser.Db.Mysql.{
  Row, user_of, message_of, each_row, until_nul, unsigned_or_zero, signed_or_zero, byte_or_zero,
  optional_id, or_raise,
}

-- A column of milliseconds has what UNIX_TIMESTAMP prints behind them, such as ".000".
abbrev pub user_row : Bytes → User → Row
user_row behind u =
    some (to_string u.id)
    ∷ some u.username
    ∷ some u.password_hash
    ∷ some (to_string u.created_at_ms ++ behind)
    ∷ some (to_string u.last_seen_ms ++ behind)
    ∷ []

abbrev pub id_column : Option ℕ → Option Bytes
id_column none = none
id_column (some id) = some (to_string id)

abbrev pub message_row : Bytes → Message → Row
message_row behind m =
    some (to_string m.id)
    ∷ some (to_string m.sender_id)
    ∷ id_column m.receiver_id
    ∷ id_column m.room_id
    ∷ some m.content
    ∷ some (to_string m.status)
    ∷ some (to_string m.created_at_ms ++ behind)
    ∷ []

-- A message with its content up to the first NUL.
abbrev pub without_nul : Message → Message
without_nul m = record m { content = until_nul m.content }

-- The numbers fit their columns.
abbrev pub IdFits : Option ℕ → Type 0
IdFits none = Unit {0}
IdFits (some id) = id < 2 ^ 64

pub record UserFits (u : User) : Type 0 where
  pub id : u.id < 2 ^ 64
  pub created : u.created_at_ms < 2 ^ 63
  pub seen : u.last_seen_ms < 2 ^ 63

pub record MessageFits (m : Message) : Type 0 where
  pub id : m.id < 2 ^ 64
  pub sender : m.sender_id < 2 ^ 64
  pub receiver : IdFits m.receiver_id
  pub room : IdFits m.room_id
  pub status : m.status < 256
  pub created : m.created_at_ms < 2 ^ 63

unsigned-to_string : (n : ℕ) → n < 2 ^ 64 → unsigned_or_zero (some (to_string n)) ≡ returned n
unfolding unsigned_or_zero
unsigned-to_string n h =
    ap or_raise (ap stoull (sym (append-nil (to_string n))) ∙ stoull-to_string n [] h tt)

signed-to_string :
    (n : ℕ) (behind : Bytes)
    → n < 2 ^ 63
    → StopsAt behind
    → signed_or_zero (some (to_string n ++ behind)) ≡ returned n
unfolding signed_or_zero
signed-to_string n behind h s = ap or_raise (stoll-to_string n behind h s)

byte-to_string : (n : ℕ) → n < 256 → byte_or_zero (some (to_string n)) ≡ returned n
unfolding byte_or_zero
byte-to_string n h =
    let e : stoi (to_string n) ≡ some n =
      ap stoi (sym (append-nil (to_string n))) ∙ stoi-to_string n [] (omega arith) tt in
    ground arith

optional-id_column : (o : Option ℕ) → IdFits o → optional_id (id_column o) ≡ returned o
unfolding optional_id
optional-id_column none h = refl
optional-id_column (some n) h =
    let e : stoull (to_string n) ≡ some n =
      ap stoull (sym (append-nil (to_string n))) ∙ stoull-to_string n [] h tt in
    ground arith

pub user_of-user_row :
    (behind : Bytes) (u : User)
    → StopsAt behind
    → UserFits u
    → user_of (user_row behind u)
      ≡ returned
          (record u { username = until_nul u.username; password_hash = until_nul u.password_hash })
unfolding user_of
user_of-user_row behind u s f = ground (
  arith,
  unsigned-to_string u.id f.id,
  signed-to_string u.created_at_ms behind f.created s,
  signed-to_string u.last_seen_ms behind f.seen s,
)

message_of-message_row :
    (behind : Bytes) (m : Message)
    → StopsAt behind
    → MessageFits m
    → message_of (message_row behind m) ≡ returned (without_nul m)
unfolding message_of
message_of-message_row behind m s f = ground (
  arith,
  unsigned-to_string m.id f.id,
  unsigned-to_string m.sender_id f.sender,
  optional-id_column m.receiver_id f.receiver,
  optional-id_column m.room_id f.room,
  byte-to_string m.status f.status,
  signed-to_string m.created_at_ms behind f.created s,
)

-- Messages whose numbers fit their columns are read back from the rows that the server prints for
-- them, in their order, and with no exception, each with its content up to the first NUL.
pub each_row-message_row :
    (behind : Bytes) (ms : List Message)
    → StopsAt behind
    → All MessageFits ms
    → each_row message_of (map (message_row behind) ms) ≡ returned (map without_nul ms)
unfolding each_row
each_row-message_row behind [] s f = refl
each_row-message_row behind (m ∷ ms) s f =
    rw (message_of-message_row behind m s f.0, each_row-message_row behind ms s f.1)
