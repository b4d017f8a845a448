-- ===== src/Db/Mysql/Accounts.antt =====
-- src/db/repositories.cpp over MySQL: users and sessions. First the statements, then the methods.
use chat_system_cpp_chat_ser.Base.{
  ℕ, ◌/◌, Option, none, List, [], ◌∷◌, ◌++◌, nat_eq, Bytes, codes, bytes_eq,
}
use chat_system_cpp_chat_ser.Db.Store.{User, SessionRow, Try, returned}
use chat_system_cpp_chat_ser.Db.Mysql.{
  Mysql, Part, text, number, string, with_lease, select_rows, insert_row, exec_quiet, first_row,
  all_rows, user_of, session_of,
}

abbrev user_columns : Bytes
user_columns =
    codes "SELECT id,username,password_hash,UNIX_TIMESTAMP(created_at)*1000,"
    ++ codes "COALESCE(UNIX_TIMESTAMP(last_seen_at)*1000,0) FROM users WHERE "

-- The statements, over the escaped strings.
unfoldable pub sql_user_by_id : ℕ → List Part
sql_user_by_id id =
    text user_columns ∷ text (codes "id=") ∷ number id ∷ text (codes " LIMIT 1") ∷ []

unfoldable pub sql_user_by_name : Bytes → List Part
sql_user_by_name name =
    text user_columns ∷ text (codes "username=") ∷ string name ∷ text (codes " LIMIT 1") ∷ []

unfoldable pub sql_create_user : Bytes → Bytes → List Part
sql_create_user name hash =
    text (codes "INSERT INTO users(username,password_hash) VALUES(")
    ∷ string name
    ∷ text (codes ",")
    ∷ string hash
    ∷ text (codes ")")
    ∷ []

unfoldable pub sql_last_seen : ℕ → ℕ → List Part
sql_last_seen uid ts =
    text (codes "UPDATE users SET last_seen_at=FROM_UNIXTIME(")
    ∷ number (ts / 1000)
    ∷ text (codes ") WHERE id=")
    ∷ number uid
    ∷ []

unfoldable pub sql_insert_session : Bytes → ℕ → ℕ → List Part
sql_insert_session token uid ts =
    text (codes "INSERT INTO sessions(token,user_id,last_active_at) VALUES(")
    ∷ string token
    ∷ text (codes ",")
    ∷ number uid
    ∷ text (codes ",FROM_UNIXTIME(")
    ∷ number (ts / 1000)
    ∷ text (codes "))")
    ∷ text (codes " ON DUPLICATE KEY UPDATE last_active_at=VALUES(last_active_at)")
    ∷ []

unfoldable pub sql_delete_session : Bytes → List Part
sql_delete_session token = text (codes "DELETE FROM sessions WHERE token=") ∷ string token ∷ []

module _ (M : Mysql) where
  unfoldable pub find_user_by_id : ℕ → Option M.Link → Option M.Link × Try (Option User)
  unfolding select_rows first_row
  find_user_by_id id =
      with_lease (returned none)
        (select_rows M (sql_user_by_id id) (returned none) (first_row user_of))

  unfoldable pub find_user_by_username : Bytes → Option M.Link → Option M.Link × Try (Option User)
  unfolding select_rows first_row
  find_user_by_username name =
      with_lease (returned none)
        (select_rows M (sql_user_by_name name) (returned none) (first_row user_of))

  unfoldable pub create_user : Bytes → Bytes → Option M.Link → Option M.Link × Option ℕ
  unfolding insert_row
  create_user name hash = with_lease none (insert_row M (sql_create_user name hash))

  unfoldable pub update_last_seen : ℕ → ℕ → Option M.Link → Option M.Link × Unit {0}
  unfolding exec_quiet
  update_last_seen uid ts = with_lease tt (exec_quiet M (sql_last_seen uid ts))

  unfoldable pub load_all_sessions : Option M.Link → Option M.Link × Try (List SessionRow)
  unfolding select_rows all_rows
  load_all_sessions = with_lease (returned []) (
      select_rows M
        (text (codes "SELECT token,user_id,UNIX_TIMESTAMP(last_active_at)*1000 FROM sessions") ∷ [])
        (returned []) (all_rows session_of))

  unfoldable pub insert_session : Bytes → ℕ → ℕ → Option M.Link → Option M.Link × Unit {0}
  unfolding exec_quiet
  insert_session token uid ts = with_lease tt (exec_quiet M (sql_insert_session token uid ts))

  unfoldable pub delete_session : Bytes → Option M.Link → Option M.Link × Unit {0}
  unfolding exec_quiet
  delete_session token = with_lease tt (exec_quiet M (sql_delete_session token))
