-- ===== src/Db/Mysql/Messages.antt =====
-- src/db/repositories.cpp over MySQL: messages and the offline queue.
use chat_system_cpp_chat_ser.Base.{
  ℕ, ◌/◌, ◌%◌, min, true, false, Option, none, List, [], ◌∷◌, ◌++◌, reverse, if◌then◌else◌, nat_beq,
  nat_eq, Bytes, codes, bytes_eq,
}
use chat_system_cpp_chat_ser.Db.Store.{Message, Try, returned, raised}
use chat_system_cpp_chat_ser.Db.Mysql.{
  Mysql, Row, Part, text, number, string, render, with_lease, select_rows, insert_row, exec,
  exec_quiet, all_rows, message_of, ◌>>=◌,
}

-- (ts / 1000) << "." << (ts % 1000), and what follows.
unfoldable pub instant : ℕ → List Part → List Part
instant ts rest = number (ts / 1000) ∷ text (codes ".") ∷ number (ts % 1000) ∷ rest

unfoldable pub sql_insert_dm : ℕ → ℕ → Bytes → ℕ → List Part
unfolding instant
sql_insert_dm sender receiver content ts =
    text (codes "INSERT INTO messages(sender_id,receiver_id,content,created_at) VALUES(")
    ∷ number sender
    ∷ text (codes ",")
    ∷ number receiver
    ∷ text (codes ",")
    ∷ string content
    ∷ text (codes ",FROM_UNIXTIME(")
    ∷ instant ts (text (codes "))") ∷ [])

unfoldable pub sql_insert_room_msg : ℕ → ℕ → Bytes → ℕ → List Part
unfolding instant
sql_insert_room_msg sender room content ts =
    text (codes "INSERT INTO messages(sender_id,room_id,content,created_at) VALUES(")
    ∷ number sender
    ∷ text (codes ",")
    ∷ number room
    ∷ text (codes ",")
    ∷ string content
    ∷ text (codes ",FROM_UNIXTIME(")
    ∷ instant ts (text (codes "))") ∷ [])

abbrev message_columns : Bytes
message_columns =
    codes "SELECT id,sender_id,receiver_id,room_id,content,status,"
    ++ codes "UNIX_TIMESTAMP(created_at)*1000 FROM messages WHERE "

-- The newest 200 at most, below `before` if it is given.
unfoldable pub page : ℕ → ℕ → List Part
page before lim =
    (if nat_beq before 0 then [] else text (codes " AND id<") ∷ number before ∷ [])
    ++ text (codes " ORDER BY id DESC LIMIT ") ∷ number (min lim 200) ∷ []

unfoldable pub sql_history_dm : ℕ → ℕ → ℕ → ℕ → List Part
unfolding page
sql_history_dm a b before lim =
    (text message_columns
      ∷ text (codes "((sender_id=")
      ∷ number a
      ∷ text (codes " AND receiver_id=")
      ∷ number b
      ∷ text (codes ") OR (sender_id=")
      ∷ number b
      ∷ text (codes " AND receiver_id=")
      ∷ number a
      ∷ text (codes "))")
      ∷ [])
    ++ page before lim

unfoldable pub sql_history_room : ℕ → ℕ → ℕ → List Part
unfolding page
sql_history_room room before lim =
    (text message_columns ∷ text (codes "room_id=") ∷ number room ∷ []) ++ page before lim

unfoldable pub sql_status : ℕ → ℕ → List Part
sql_status id st =
    text (codes "UPDATE messages SET status=")
    ∷ number st
    ∷ text (codes " WHERE id=")
    ∷ number id
    ∷ []

unfoldable pub sql_enqueue : ℕ → ℕ → List Part
sql_enqueue mid uid =
    text (codes "INSERT IGNORE INTO undelivered(message_id,user_id) VALUES(")
    ∷ number mid
    ∷ text (codes ",")
    ∷ number uid
    ∷ text (codes ")")
    ∷ []

unfoldable pub sql_due : ℕ → List Part
sql_due uid =
    text (codes "SELECT m.id,m.sender_id,m.receiver_id,m.room_id,m.content,m.status,")
    ∷ text (codes "UNIX_TIMESTAMP(m.created_at)*1000 ")
    ∷ text (codes "FROM messages m INNER JOIN undelivered u ON u.message_id=m.id ")
    ∷ text (codes "WHERE u.user_id=")
    ∷ number uid
    ∷ text (codes " ORDER BY m.id ASC")
    ∷ []

unfoldable pub sql_forget : ℕ → List Part
sql_forget uid = text (codes "DELETE FROM undelivered WHERE user_id=") ∷ number uid ∷ []

unfoldable pub read_messages : Option (List Row) → Try (List Message)
unfolding all_rows
read_messages rows = all_rows message_of rows

-- The rows come newest first.
unfoldable pub oldest_first : Option (List Row) → Try (List Message)
unfolding read_messages
oldest_first rows = read_messages rows >>= λ out. returned (reverse out)

module _ (M : Mysql) where
  unfoldable pub insert_dm : ℕ → ℕ → Bytes → ℕ → Option M.Link → Option M.Link × Option ℕ
  unfolding insert_row
  insert_dm sender receiver content ts =
      with_lease none (insert_row M (sql_insert_dm sender receiver content ts))

  unfoldable pub insert_room_msg : ℕ → ℕ → Bytes → ℕ → Option M.Link → Option M.Link × Option ℕ
  unfolding insert_row
  insert_room_msg sender room content ts =
      with_lease none (insert_row M (sql_insert_room_msg sender room content ts))

  unfoldable pub history_dm : ℕ → ℕ → ℕ → ℕ → Option M.Link → Option M.Link × Try (List Message)
  unfolding select_rows oldest_first
  history_dm a b before lim =
      with_lease (returned [])
        (select_rows M (sql_history_dm a b before lim) (returned []) oldest_first)

  unfoldable pub history_room : ℕ → ℕ → ℕ → Option M.Link → Option M.Link × Try (List Message)
  unfolding select_rows oldest_first
  history_room room before lim =
      with_lease (returned [])
        (select_rows M (sql_history_room room before lim) (returned []) oldest_first)

  unfoldable pub update_message_status : ℕ → ℕ → Option M.Link → Option M.Link × Unit {0}
  unfolding exec_quiet
  update_message_status id st = with_lease tt (exec_quiet M (sql_status id st))

  unfoldable pub enqueue_undelivered : ℕ → ℕ → Option M.Link → Option M.Link × Unit {0}
  unfolding exec_quiet
  enqueue_undelivered mid uid = with_lease tt (exec_quiet M (sql_enqueue mid uid))

  -- What is read decides: an exception leaves before the DELETE.
  unfoldable pub forget_read : ℕ → Try (List Message) → M.Link → M.Link × Try (List Message)
  unfolding exec
  forget_read uid raised c = (c, raised)
  forget_read uid (returned out) c = ((exec M (sql_forget uid) c).0, returned out)

  unfoldable pub drain : ℕ → M.Link → M.Link × Try (List Message)
  unfolding forget_read read_messages
  drain uid c =
      let (c', ok) = M.query (render (M.escape c) (sql_due uid)) c in
      elim ok [
        | false ↦ (c', returned [])
        | true ↦ forget_read uid (read_messages (M.store_result c')) c'
      ]

  unfoldable pub drain_undelivered : ℕ → Option M.Link → Option M.Link × Try (List Message)
  unfolding drain
  drain_undelivered uid = with_lease (returned []) (drain uid)
