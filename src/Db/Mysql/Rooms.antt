-- ===== src/Db/Mysql/Rooms.antt =====
-- src/db/repositories.cpp over MySQL: rooms and their members.
use chat_system_cpp_chat_ser.Base.{
  ℕ, Bool, true, false, Option, none, some, List, [], ◌∷◌, nat_eq, Bytes, codes, bytes_eq,
}
use chat_system_cpp_chat_ser.Db.Store.{Room, Try, returned}
use chat_system_cpp_chat_ser.Db.Mysql.{
  Mysql, Row, Part, text, number, string, with_lease, select_rows, insert_row, exec, first_row,
  all_rows, room_of, column, optional_id, ◌>>=◌,
}

abbrev room_columns : Bytes
room_columns = codes "SELECT id,name,UNIX_TIMESTAMP(created_at)*1000 FROM rooms WHERE "

unfoldable pub sql_room_by_name : Bytes → List Part
sql_room_by_name name =
    text room_columns ∷ text (codes "name=") ∷ string name ∷ text (codes " LIMIT 1") ∷ []

unfoldable pub sql_room_by_id : ℕ → List Part
sql_room_by_id id = text room_columns ∷ text (codes "id=") ∷ number id ∷ []

unfoldable pub sql_create_room : Bytes → List Part
sql_create_room name =
    text (codes "INSERT INTO rooms(name) VALUES(") ∷ string name ∷ text (codes ")") ∷ []

unfoldable pub sql_join : ℕ → ℕ → List Part
sql_join room uid =
    text (codes "INSERT IGNORE INTO room_members(room_id,user_id) VALUES(")
    ∷ number room
    ∷ text (codes ",")
    ∷ number uid
    ∷ text (codes ")")
    ∷ []

unfoldable pub sql_leave : ℕ → ℕ → List Part
sql_leave room uid =
    text (codes "DELETE FROM room_members WHERE room_id=")
    ∷ number room
    ∷ text (codes " AND user_id=")
    ∷ number uid
    ∷ []

unfoldable pub sql_is_member : ℕ → ℕ → List Part
sql_is_member room uid =
    text (codes "SELECT 1 FROM room_members WHERE room_id=")
    ∷ number room
    ∷ text (codes " AND user_id=")
    ∷ number uid
    ∷ text (codes " LIMIT 1")
    ∷ []

unfoldable pub sql_rooms_of : ℕ → List Part
sql_rooms_of uid =
    text (codes "SELECT r.id,r.name,UNIX_TIMESTAMP(r.created_at)*1000 ")
    ∷ text (codes "FROM rooms r INNER JOIN room_members m ON m.room_id=r.id ")
    ∷ text (codes "WHERE m.user_id=")
    ∷ number uid
    ∷ []

unfoldable pub sql_members : ℕ → List Part
sql_members room = text (codes "SELECT user_id FROM room_members WHERE room_id=") ∷ number room ∷ []

-- r && mysql_fetch_row(r)
unfoldable pub has_row : Option (List Row) → Bool
has_row none = false
has_row (some []) = false
has_row (some (row ∷ rows)) = true

-- if (row[0]) out.push_back(std::stoull(row[0]))
unfoldable pub member_ids : List Row → Try (List ℕ)
unfolding optional_id
member_ids [] = returned []
member_ids (row ∷ rows) = optional_id (column row 0) >>= λ id.
    member_ids rows >>= λ ids. returned (elim id [ none ↦ ids | some u ↦ u ∷ ids ])

unfoldable pub members_read : Option (List Row) → Try (List ℕ)
unfolding member_ids
members_read none = returned []
members_read (some rows) = member_ids rows

module _ (M : Mysql) where
  unfoldable pub find_room_by_name : Bytes → Option M.Link → Option M.Link × Try (Option Room)
  unfolding select_rows first_row
  find_room_by_name name =
      with_lease (returned none)
        (select_rows M (sql_room_by_name name) (returned none) (first_row room_of))

  unfoldable pub find_room_by_id : ℕ → Option M.Link → Option M.Link × Try (Option Room)
  unfolding select_rows first_row
  find_room_by_id id =
      with_lease (returned none)
        (select_rows M (sql_room_by_id id) (returned none) (first_row room_of))

  unfoldable pub create_room : Bytes → Option M.Link → Option M.Link × Option ℕ
  unfolding insert_row
  create_room name = with_lease none (insert_row M (sql_create_room name))

  unfoldable pub join_room : ℕ → ℕ → Option M.Link → Option M.Link × Bool
  unfolding exec
  join_room room uid = with_lease false (exec M (sql_join room uid))

  unfoldable pub leave_room : ℕ → ℕ → Option M.Link → Option M.Link × Bool
  unfolding exec
  leave_room room uid = with_lease false (exec M (sql_leave room uid))

  unfoldable pub is_member : ℕ → ℕ → Option M.Link → Option M.Link × Bool
  unfolding select_rows has_row
  is_member room uid = with_lease false (select_rows M (sql_is_member room uid) false has_row)

  unfoldable pub list_rooms_for_user : ℕ → Option M.Link → Option M.Link × Try (List Room)
  unfolding select_rows all_rows
  list_rooms_for_user uid =
      with_lease (returned []) (select_rows M (sql_rooms_of uid) (returned []) (all_rows room_of))

  unfoldable pub list_room_members : ℕ → Option M.Link → Option M.Link × Try (List ℕ)
  unfolding select_rows members_read
  list_room_members room =
      with_lease (returned []) (select_rows M (sql_members room) (returned []) members_read)
