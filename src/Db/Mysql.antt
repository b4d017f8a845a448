-- ===== src/Db/Mysql.antt =====
-- src/db/repositories.cpp, the build over MySQL: the client library as an interface, the lease that
-- every method takes, and the rows that it reads. The methods are in the modules below.
pub mod Accounts
pub mod Rooms
pub mod Messages
pub mod Literals
pub mod Injection
pub mod Rows
pub mod Instants
use chat_system_cpp_chat_ser.Base.{
  if◌then◌else◌, nat_beq, ℕ, zero, suc, ◌%◌, Bool, true, false, Option, none, some, List, [], ◌∷◌,
  ◌++◌, nat_eq, Bytes, codes, bytes_eq,
}
use chat_system_cpp_chat_ser.Common.Decimal.{to_string}
use chat_system_cpp_chat_ser.Db.Mysql.Literals.{quoted}
use chat_system_cpp_chat_ser.Common.Numbers.{stoi, stoll, stoull}
use chat_system_cpp_chat_ser.Db.Store.{User, SessionRow, Room, Message, Try, returned, raised}

-- A column is NULL or text.
abbrev pub Row : Type 0
Row = List (Option Bytes)

-- What the program uses of the client library: a connection with what is behind it, the escape of
-- a string, a query (true where mysql_real_query returns 0), the rows of its result (none where
-- mysql_store_result gives no result set), and the last id that was generated. The error number is
-- asked for only to choose what is logged.
pub record Mysql : Type 1 where
  pub Link : Type 0
  pub escape : Link → Bytes → Bytes
  pub query : Bytes → Link → Link × Bool
  pub store_result : Link → Option (List Row)
  pub insert_id : Link → ℕ

-- What a method inserts into its ostringstream: text, a number, and a string that it escapes,
-- between single quotes.
pub data Part : Type 0 where
  text : Bytes → Part
  number : ℕ → Part
  string : Bytes → Part

unfoldable pub render : (Bytes → Bytes) → List Part → Bytes
render escape [] = []
render escape (text s ∷ ps) = s ++ render escape ps
render escape (number n ∷ ps) = to_string n ++ render escape ps
render escape (string s ∷ ps) = quoted (escape s) ++ render escape ps

-- auto lease = pool_->acquire(); if (!lease) return def;
abbrev pub with_lease {ℓ κ} : {L : Type ℓ} {A : Type κ} → A → (L → L × A) → Option L → Option L × A
with_lease def body none = (none, def)
with_lease def body (some c) = let (c', a) = body c in (some c', a)

-- row[i]
abbrev pub column : Row → ℕ → Option Bytes
column [] i = none
column (v ∷ row) zero = v
column (v ∷ row) (suc i) = column row i

abbrev pub or_raise : Option ℕ → Try ℕ
or_raise none = raised
or_raise (some n) = returned n

-- A column is a `char*`: a string that is made from it ends at the first NUL. The readers of
-- numbers stop there by themselves.
unfoldable pub until_nul : Bytes → Bytes
until_nul [] = []
until_nul (c ∷ cs) = let rest = until_nul cs in if nat_beq c 0 then [] else c ∷ rest

-- row[i] ? row[i] : ""
abbrev pub text_or_empty : Option Bytes → Bytes
text_or_empty none = []
text_or_empty (some s) = until_nul s

-- row[i] ? std::stoull(row[i]) : 0
unfoldable pub unsigned_or_zero : Option Bytes → Try ℕ
unsigned_or_zero none = returned 0
unsigned_or_zero (some s) = or_raise (stoull s)

-- row[i] ? std::stoll(row[i]) : 0
unfoldable pub signed_or_zero : Option Bytes → Try ℕ
signed_or_zero none = returned 0
signed_or_zero (some s) = or_raise (stoll s)

-- row[i] ? static_cast<std::uint8_t>(std::stoi(row[i])) : 0
unfoldable pub byte_or_zero : Option Bytes → Try ℕ
byte_or_zero none = returned 0
byte_or_zero (some s) = elim (stoi s) [ none ↦ raised | some n ↦ returned (n % 256) ]

-- if (row[i]) field = std::stoull(row[i])
unfoldable pub optional_id : Option Bytes → Try (Option ℕ)
optional_id none = returned none
optional_id (some s) = elim (stoull s) [ none ↦ raised | some n ↦ returned (some n) ]

-- Exceptions leave a method at once.
infixl 5 ◌>>=◌
abbrev pub ◌>>=◌ {ℓ κ} : {A : Type ℓ} {B : Type κ} → Try A → (A → Try B) → Try B
returned a >>= f = f a
raised >>= f = raised

unfoldable pub user_of : Row → Try User
unfolding unsigned_or_zero signed_or_zero
user_of row = do
  id ← unsigned_or_zero (some (elim (column row 0) [ none ↦ codes "0" | some s ↦ s ]))
  created ← signed_or_zero (column row 3)
  seen ← signed_or_zero (column row 4)
  returned (record {
    id = id;
    username = text_or_empty (column row 1);
    password_hash = text_or_empty (column row 2);
    created_at_ms = created;
    last_seen_ms = seen;
  })

unfoldable pub session_of : Row → Try SessionRow
unfolding unsigned_or_zero signed_or_zero
session_of row = do
  uid ← unsigned_or_zero (column row 1)
  active ← signed_or_zero (column row 2)
  returned (record { token = text_or_empty (column row 0); user_id = uid; last_active_ms = active })

unfoldable pub room_of : Row → Try Room
unfolding unsigned_or_zero signed_or_zero
room_of row = do
  id ← unsigned_or_zero (column row 0)
  created ← signed_or_zero (column row 2)
  returned (record { id = id; name = text_or_empty (column row 1); created_at_ms = created })

unfoldable pub message_of : Row → Try Message
unfolding unsigned_or_zero signed_or_zero byte_or_zero optional_id
message_of row = do
  id ← unsigned_or_zero (column row 0)
  sender ← unsigned_or_zero (column row 1)
  receiver ← optional_id (column row 2)
  room ← optional_id (column row 3)
  status ← byte_or_zero (column row 5)
  created ← signed_or_zero (column row 6)
  returned (record {
    id = id;
    sender_id = sender;
    receiver_id = receiver;
    room_id = room;
    content = text_or_empty (column row 4);
    status = status;
    created_at_ms = created;
  })

-- while (auto* row = mysql_fetch_row(r)) out.push_back(...)
unfoldable pub each_row {ℓ} : {A : Type ℓ} → (Row → Try A) → List Row → Try (List A)
each_row f [] = returned []
each_row f (row ∷ rows) = f row >>= λ a. each_row f rows >>= λ as'. returned (a ∷ as')

-- The first row, if there is one.
unfoldable pub first_row {ℓ} : {A : Type ℓ} → (Row → Try A) → Option (List Row) → Try (Option A)
first_row f none = returned none
first_row f (some []) = returned none
first_row f (some (row ∷ rows)) = f row >>= λ a. returned (some a)

-- All rows; none without a result set.
unfoldable pub all_rows {ℓ} : {A : Type ℓ} → (Row → Try A) → Option (List Row) → Try (List A)
unfolding each_row
all_rows f none = returned []
all_rows f (some rows) = each_row f rows

module _ (M : Mysql) where
  -- A SELECT: `failed` where the query fails, else what `read` makes of the result.
  unfoldable pub select_rows {ℓ} :
      {A : Type ℓ} → List Part → A → (Option (List Row) → A) → M.Link → M.Link × A
  unfolding render
  select_rows sql failed read c =
      let (c', ok) = M.query (render (M.escape c) sql) c in
      elim ok [ false ↦ (c', failed) | true ↦ (c', read (M.store_result c')) ]

  -- An INSERT that answers the id, or nothing where it fails, for whatever reason.
  unfoldable pub insert_row : List Part → M.Link → M.Link × Option ℕ
  unfolding render
  insert_row sql c =
      let (c', ok) = M.query (render (M.escape c) sql) c in
      elim ok [ false ↦ (c', none) | true ↦ (c', some (M.insert_id c')) ]

  -- A statement whose failure is only logged, or only reported.
  unfoldable pub exec : List Part → M.Link → M.Link × Bool
  unfolding render
  exec sql c = M.query (render (M.escape c) sql) c

  unfoldable pub exec_quiet : List Part → M.Link → M.Link × Unit {0}
  unfolding exec
  exec_quiet sql c = ((exec sql c).0, tt)
